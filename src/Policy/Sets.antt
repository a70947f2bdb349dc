-- ===== src/Policy/Sets.antt =====
-- When a set of actions is allowed as a whole.
use local_book.Base.{
  All, List, Option, String, [], any, ap, arith, false, length, length-append, length-take, refl,
  suc, zero, ℕ, ℤ, ◌++◌, ◌↔◌, ◌∷◌, ◌≡◌, ◌≢◌, ◌≤◌, nat_eq, string_eq, option_eq, list_eq,
}
use local_book.Actions.{Action}
use local_book.Policy.{
  Decision, Facts, PolicyEngine, PolicyResult, allow, confirm, default_facts, deny,
}
use local_book.Policy.Apart.{IsApart, IsPairwise, conflicting_paths-IsApart}
use local_book.Policy.Evaluate.{
  FactsArgument, combine, evaluate, evaluate_all, evaluate_set, facts_list, is_confirm, is_deny,
  no_facts, one_snapshot, per_action, replicate, total_chars,
}

-- Every action of a list, beside the facts about it.
abbrev pub Each : (Action → Facts → Type 0) → List Action → List Facts → Type 0
Each P [] [] = Unit
Each P [] (f ∷ facts) = ⊥
Each P (a ∷ actions) [] = ⊥
Each P (a ∷ actions) (f ∷ facts) = P a f × Each P actions facts

length-replicate {ℓ} : {A : Type ℓ} (n : ℕ) (a : A) → length (replicate n a) ≡ n
length-replicate zero a = refl
length-replicate (suc n) a = ap suc (length-replicate n a)

-- There is one snapshot of facts for every action, however the facts were given.
pub length-facts_list :
    (facts : FactsArgument) (actions : List Action)
    → length (facts_list facts actions) ≡ length actions
unfolding facts_list
length-facts_list no_facts actions = length-replicate (length actions) default_facts
length-facts_list (one_snapshot f) actions = length-replicate (length actions) f
length-facts_list (per_action given) actions = ground (
  arith,
  length-take (length actions) (given ++ replicate (length actions) default_facts),
  length-append given (replicate (length actions) default_facts),
  length-replicate (length actions) default_facts,
)

combine-allow :
    (results : List PolicyResult)
    → (combine results).decision ≡ allow
    → All (λ (r : PolicyResult). r.decision ≡ allow) results
unfolding combine
combine-allow results h = go results (ground arith) (ground arith)
  where
    not_both : (d : Decision) → is_deny d ≡ false → is_confirm d ≡ false → d ≡ allow
    not_both allow p q = refl
    not_both deny p q = cc
    not_both confirm p q = cc

    go :
        (rs : List PolicyResult)
        → any (λ (r : PolicyResult). is_deny r.decision) rs ≡ false
        → any (λ (r : PolicyResult). is_confirm r.decision) rs ≡ false
        → All (λ (r : PolicyResult). r.decision ≡ allow) rs
    go [] p q = tt
    go (r ∷ rest) p q =
        (not_both r.decision (ground arith) (ground arith), go rest (ground arith) (ground arith))

combine-allow_of_All :
    (results : List PolicyResult)
    → All (λ (r : PolicyResult). r.decision ≡ allow) results
    → (combine results).decision ≡ allow
unfolding combine
combine-allow_of_All results h = ground (arith, quiet results h)
  where
    quiet :
        (rs : List PolicyResult)
        → All (λ (r : PolicyResult). r.decision ≡ allow) rs
        → (any (λ (r : PolicyResult). is_deny r.decision) rs ≡ false)
          × (any (λ (r : PolicyResult). is_confirm r.decision) rs ≡ false)
    quiet [] h = (refl, refl)
    quiet (r ∷ rest) (h, hs) = ground (arith, quiet rest hs)

module _ (casefold : String → String) (e : PolicyEngine) (level : Option ℤ) where
  abbrev Allowed : Action → Facts → Type 0
  Allowed a f = (evaluate casefold e a f level).decision ≡ allow

  evaluate_all-allow :
      (actions : List Action) (facts : List Facts)
      → length facts ≡ length actions
      → All (λ (r : PolicyResult). r.decision ≡ allow) (evaluate_all casefold e level actions facts)
      → Each Allowed actions facts
  unfolding evaluate_all
  evaluate_all-allow [] [] n h = tt
  evaluate_all-allow [] (f ∷ facts) n h = absurd (omega arith)
  evaluate_all-allow (a ∷ actions) [] n h = absurd (omega arith)
  evaluate_all-allow (a ∷ actions) (f ∷ facts) n (h, hs) =
      (h, evaluate_all-allow actions facts (omega arith) hs)

  All-Allowed :
      (actions : List Action) (facts : List Facts)
      → Each Allowed actions facts
      → All (λ (r : PolicyResult). r.decision ≡ allow) (evaluate_all casefold e level actions facts)
  unfolding evaluate_all
  All-Allowed [] [] h = tt
  All-Allowed [] (f ∷ facts) h = absurd h
  All-Allowed (a ∷ actions) [] h = absurd h
  All-Allowed (a ∷ actions) (f ∷ facts) (h, hs) = (h, All-Allowed actions facts hs)

  -- A set of actions is allowed exactly when it is not empty, it is within the budget of actions,
  -- no path is changed by two of them, where a move changes its file and the target
  -- that it has, the changed characters of all of them together are within the budget, and every
  -- action is allowed by itself on its own facts.
  pub evaluate_set-allow_iff :
      (render : List String → String) (actions : List Action) (facts : FactsArgument)
      → ((evaluate_set casefold render e actions facts level).decision ≡ allow) ↔ (
          (actions ≢ [])
          × (length actions ≤ e.max_actions)
          × IsPairwise IsApart actions
          × (total_chars (facts_list facts actions) ≤ e.max_modified_chars)
          × Each Allowed actions (facts_list facts actions))
  unfolding evaluate_set
  evaluate_set-allow_iff render actions facts = (
    λ h.
        let c : (combine
              (evaluate_all casefold e level actions (facts_list facts actions))).decision
            ≡ allow =
          ground arith in
        (
          ground arith,
          ground arith,
          (conflicting_paths-IsApart actions).0 (ground arith),
          ground arith,
          evaluate_all-allow actions (facts_list facts actions) (length-facts_list facts actions)
              (combine-allow _ c),
        ),
    λ (some_action, few, apart, small, each). ground (
      arith,
      (conflicting_paths-IsApart actions).1 apart,
      combine-allow_of_All (evaluate_all casefold e level actions (facts_list facts actions))
          (All-Allowed actions (facts_list facts actions) each),
    ),
  )
