-- ===== src/Policy/Single.antt =====
-- When a single action is allowed.
use local_book.Base.{
  All, Bool-cases, List, Option, String, [], any, arith, contains, false, inl, inr, ltb, negsuc,
  not, pos, refl, true, ℤ, ◌&&◌, ◌==◌, ◌↔◌, ◌∷◌, ◌≡◌, ◌≤◌, ◌⊎◌, nat_eq, string_eq, option_eq,
  list_eq,
}
use local_book.Actions.{Action, ActionType, action_eq, add_tags, remove_tags, truthy}
use local_book.Policy.{
  Facts, PolicyEngine, PolicyResult, allow, auto_actions, confirm, deny_result, deny_rules,
  evaluate_deny_rules, is_protected, or_empty,
}
use local_book.Policy.Evaluate.{
  effective_level, evaluate, evaluate_level2, evaluate_levels, initial, is_deny,
}
use local_book.Policy.Checks.{decision-run_checks, fires, run_checks_quiet}

-- What `__init__` makes sure of: only tag actions are listed for automatic execution.
abbrev pub IsTagOnly : List ActionType → Type 0
IsTagOnly = All (λ kind. contains auto_actions kind ≡ true)

tag_of_auto : (k : ActionType) → contains auto_actions k ≡ true → (k ≡ add_tags) ⊎ (k ≡ remove_tags)
unfolding contains
tag_of_auto add_tags h = inl refl
tag_of_auto k h = ground arith

contains-IsTagOnly :
    (kinds : List ActionType) (k : ActionType)
    → IsTagOnly kinds
    → contains kinds k ≡ true
    → (k ≡ add_tags) ⊎ (k ≡ remove_tags)
unfolding contains
contains-IsTagOnly [] k h c = cc
contains-IsTagOnly (x ∷ rest) k h c = elim (Bool-cases (x == k)) [
  | inl same ↦ tag_of_auto k (rw ((action_eq.beq_iff x k).0 same) at h.0)
  | inr other ↦ contains-IsTagOnly rest k h.1 (ground arith)
]

-- The conditions, one by one, under which a tag change runs without a confirmation.
pub record IsAutomatic (casefold : String → String) (e : PolicyEngine) (a : Action) (f : Facts)
    : Type 0 where
  pub listed : contains e.level2_auto_actions a.action ≡ true
  pub exists : f.existing ≡ true
  pub unprotected : f.protected ≡ false
  pub file_unprotected : is_protected casefold e a.file ≡ false
  pub target_unprotected :
      (truthy a.target_file && is_protected casefold e (or_empty a.target_file)) ≡ false
  pub flat : f.recursive ≡ false
  pub single : (f.scope == "single-file") ≡ true
  pub within_files : f.file_count ≤ e.max_files
  pub within_level2_files : f.file_count ≤ e.level2_max_files
  pub no_attachment : f.attachment ≡ false
  pub markdown : f.markdown ≡ true
  pub allowlisted : f.allowlisted_target ≡ true
  pub no_overwrite : f.overwrite ≡ false
  pub tags_known : (a.action == remove_tags && not f.tags_present) ≡ false
  pub tags_new : (a.action == add_tags && f.duplicate_tags) ≡ false
  pub within_chars : f.modified_chars ≤ e.max_level2_chars
  pub body_kept : f.body_change ≡ false

module _ (casefold : String → String) (e : PolicyEngine) (a : Action) (f : Facts) where
  quiet_of_allow :
      (lvl : ℤ) (r : PolicyResult)
      → (evaluate_levels e a f lvl (evaluate_deny_rules casefold e a f lvl r)).decision ≡ allow
      → any fires (deny_rules casefold e a f lvl) ≡ false
  unfolding evaluate_levels evaluate_deny_rules
  quiet_of_allow lvl r h = ground (arith, decision-run_checks (deny_rules casefold e a f lvl) r)

  level_of_allow :
      (lvl : ℤ)
      → any fires (deny_rules casefold e a f lvl) ≡ false
      → (evaluate_levels e a f lvl (initial e a lvl)).decision ≡ allow
      → lvl ≡ pos 2
  unfolding deny_rules evaluate_levels
  level_of_allow (pos n) q h = ground arith
  level_of_allow (negsuc n) q h = ground arith

  -- The tests that `_evaluate_level2` makes itself.
  level2_tests :
      (r : PolicyResult)
      → r.decision ≡ confirm
      → (evaluate_level2 e a f r).decision ≡ allow
      → (contains e.level2_auto_actions a.action ≡ true)
        × (f.existing ≡ true)
        × (ltb e.level2_max_files f.file_count ≡ false)
        × (ltb e.max_level2_chars f.modified_chars ≡ false)
        × (f.body_change ≡ false)
  unfolding evaluate_level2 deny_result
  level2_tests r start h = ground arith

  conditions_of_allow :
      (k : ActionType)
      → a.action ≡ k
      → (k ≡ add_tags) ⊎ (k ≡ remove_tags)
      → any fires (deny_rules casefold e a f (pos 2)) ≡ false
      → (evaluate_level2 e a f (initial e a (pos 2))).decision ≡ allow
      → IsAutomatic casefold e a f
  unfolding deny_rules
  conditions_of_allow add_tags same t q h =
      ground (arith, level2_tests (initial e a (pos 2)) refl h)
  conditions_of_allow remove_tags same t q h =
      ground (arith, level2_tests (initial e a (pos 2)) refl h)
  conditions_of_allow _ same t q h = ground arith

  quiet_of_conditions :
      (k : ActionType)
      → a.action ≡ k
      → (k ≡ add_tags) ⊎ (k ≡ remove_tags)
      → IsAutomatic casefold e a f
      → any fires (deny_rules casefold e a f (pos 2)) ≡ false
  unfolding deny_rules
  quiet_of_conditions add_tags same t c = ground arith
  quiet_of_conditions remove_tags same t c = ground arith
  quiet_of_conditions _ same t c = ground arith

  allow_of_conditions :
      IsAutomatic casefold e a f → (evaluate_level2 e a f (initial e a (pos 2))).decision ≡ allow
  unfolding evaluate_level2
  allow_of_conditions c = ground arith

  run : ℤ → PolicyResult
  run lvl = evaluate_levels e a f lvl (evaluate_deny_rules casefold e a f lvl (initial e a lvl))

  evaluate_deny_rules_quiet :
      (lvl : ℤ) (r : PolicyResult)
      → any fires (deny_rules casefold e a f lvl) ≡ false
      → evaluate_deny_rules casefold e a f lvl r ≡ r
  unfolding evaluate_deny_rules
  evaluate_deny_rules_quiet lvl r q =
      ground (arith, run_checks_quiet (deny_rules casefold e a f lvl) r q)

  evaluate_levels_two :
      (r : PolicyResult)
      → is_deny r.decision ≡ false
      → evaluate_levels e a f (pos 2) r ≡ evaluate_level2 e a f r
  unfolding evaluate_levels
  evaluate_levels_two r h = ground arith

  evaluate-allow_sound :
      (lvl : ℤ)
      → IsTagOnly e.level2_auto_actions
      → (run lvl).decision ≡ allow
      → (lvl ≡ pos 2) × IsAutomatic casefold e a f
  unfolding run
  evaluate-allow_sound lvl sealed h =
      let q = quiet_of_allow lvl (initial e a lvl) h in
      let h' = rw (evaluate_deny_rules_quiet lvl (initial e a lvl) q) at h in
      let two = level_of_allow lvl q h' in
      let h2 = rw (evaluate_levels_two (initial e a (pos 2)) refl) at (rw two at h') in
      (
        two,
        conditions_of_allow a.action refl
            (contains-IsTagOnly e.level2_auto_actions a.action sealed
              (level2_tests (initial e a (pos 2)) refl h2).0)
            (rw two at q) h2,
      )

  evaluate-allow_complete :
      (lvl : ℤ)
      → IsTagOnly e.level2_auto_actions
      → lvl ≡ pos 2
      → IsAutomatic casefold e a f
      → (run lvl).decision ≡ allow
  unfolding run
  evaluate-allow_complete lvl sealed two c =
      rw
        (
          two,
          evaluate_deny_rules_quiet (pos 2) (initial e a (pos 2)) (
              quiet_of_conditions a.action refl
                (contains-IsTagOnly e.level2_auto_actions a.action sealed c.listed) c),
          evaluate_levels_two (initial e a (pos 2)) refl,
        )
        (allow_of_conditions c)

  -- An engine whose automatic list holds tag actions only allows an action by itself exactly when
  -- the level that applies is 2, the action's kind is on that list, the note exists, is Markdown,
  -- is no attachment and is not protected by its facts or by its path or that of a target, the
  -- scope is one file within both file budgets and not recursive, the target is on the allow-list
  -- and overwrites nothing, the tags to remove are there and those to add are new, the changed
  -- characters are within the budget of level 2, and the body is unchanged.
  pub evaluate-allow_iff :
      (level : Option ℤ)
      → IsTagOnly e.level2_auto_actions
      → ((evaluate casefold e a f level).decision ≡ allow)
        ↔ ((effective_level a level ≡ pos 2) × IsAutomatic casefold e a f)
  unfolding evaluate run
  evaluate-allow_iff level sealed = (
    evaluate-allow_sound (effective_level a level) sealed,
    λ (two, c). evaluate-allow_complete (effective_level a level) sealed two c,
  )
