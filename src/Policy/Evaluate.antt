-- ===== src/Policy/Evaluate.antt =====
-- `evaluate` and `evaluate_set` of server/policies/engine.py.
use local_book.Base.{
  Bool, List, Option, String, [], any, contains, eqb, false, if◌then◌else◌, length, ltb, none, not,
  pos, some, suc, take, true, zero, ℕ, ℤ, ◌&&◌, ◌++◌, ◌+◌, ◌<>◌, ◌==◌, ◌||◌, ◌∷◌, nat_eq, string_eq,
  option_eq, list_eq,
}
use local_book.Actions.{Action, action_eq, move_note, nonempty, truthy, value}
use local_book.Policy.{
  Decision, Facts, PolicyEngine, PolicyResult, PolicySetResult, allow, confirm, default_facts, deny,
  deny_result, evaluate_deny_rules, level_eq, or_empty,
}

abbrev pub is_deny : Decision → Bool
is_deny deny = true
is_deny _ = false

abbrev pub is_confirm : Decision → Bool
is_confirm confirm = true
is_confirm _ = false

-- `_evaluate_level2`
unfoldable pub evaluate_level2 : PolicyEngine → Action → Facts → PolicyResult → PolicyResult
evaluate_level2 e a facts r =
    if not (contains e.level2_auto_actions a.action)
    then deny_result "level2_disallowed_action" "Action is outside the configured Level 2 auto set"
        r
    else if not facts.existing || facts.overwrite || facts.protected
    then r
    else if ltb e.level2_max_files facts.file_count || not (facts.scope == "single-file")
    then deny_result "level2_file_budget" "Level 2 auto is limited to one file" r
    else if facts.body_change || ltb e.max_level2_chars facts.modified_chars
    then r
    else record r {
      decision = allow;
      matched_rules = "level2_allow" ∷ [];
      reasons = "Low-risk automatic action" ∷ [];
    }

abbrev pub budgets : PolicyEngine → List (String × ℕ)
budgets e =
    ("max_actions", e.max_actions)
    ∷ ("max_files", e.max_files)
    ∷ ("max_modified_chars", e.max_modified_chars)
    ∷ ("max_level2_modified_chars", e.max_level2_chars)
    ∷ ("level2_max_files", e.level2_max_files)
    ∷ []

-- The result that `evaluate` starts from.
abbrev pub initial : PolicyEngine → Action → ℤ → PolicyResult
initial e a level = record {
  decision = confirm;
  level = level;
  action_type = value a.action;
  matched_rules = [];
  reasons = [];
  budgets = budgets e;
}

-- `int(action.permission_level) if level is None else int(level)`
abbrev pub effective_level : Action → Option ℤ → ℤ
effective_level a none = pos a.permission_level
effective_level a (some level) = level

-- The rest of `evaluate`, after the deny rules.
unfoldable pub evaluate_levels : PolicyEngine → Action → Facts → ℤ → PolicyResult → PolicyResult
unfolding evaluate_level2 deny_result
evaluate_levels e a facts level r =
    if is_deny r.decision
    then r
    else if level_eq level 0
    then deny_result "readonly_mutation" "Read-only level cannot mutate" r
    else if level_eq level 1
    then record r {
      matched_rules = r.matched_rules ++ ("level1_requires_confirmation" ∷ []);
      reasons = r.reasons ++ ("Explicit confirmation required" ∷ []);
    }
    else evaluate_level2 e a facts r

-- The argument `facts` of `evaluate_set`.
pub data FactsArgument : Type 0 where
  no_facts : FactsArgument
  one_snapshot : Facts → FactsArgument
  per_action : List Facts → FactsArgument

abbrev pub replicate {ℓ} : {A : Type ℓ} → ℕ → A → List A
replicate zero a = []
replicate (suc n) a = a ∷ replicate n a

-- The facts for each action: one for one, padded with `ActionFacts()` and cut.
unfoldable pub facts_list : FactsArgument → List Action → List Facts
facts_list no_facts actions = replicate (length actions) default_facts
facts_list (one_snapshot f) actions = replicate (length actions) f
facts_list (per_action given) actions =
    if eqb (length given) (length actions)
    then given
    else take (length actions) (given ++ replicate (length actions) default_facts)

-- `_mutated_paths`: a set, so a note that is moved onto itself is counted once.
unfoldable pub mutated_paths : Action → List String
mutated_paths a =
    if a.action == move_note && truthy a.target_file && not (or_empty a.target_file == a.file)
    then a.file ∷ or_empty a.target_file ∷ []
    else a.file ∷ []

abbrev pub all_mutated_paths : List Action → List String
all_mutated_paths [] = []
all_mutated_paths (a ∷ rest) = mutated_paths a ++ all_mutated_paths rest

-- The keys of `seen` with a count above 1, each listed where it occurs again later.
unfoldable pub repeated : List String → List String
repeated [] = []
repeated (path ∷ rest) =
    let more = repeated rest in if contains rest path then path ∷ more else more

-- `_conflicting_paths`, before it is sorted.
unfoldable pub conflicting_paths : List Action → List String
unfolding repeated mutated_paths
conflicting_paths actions = repeated (all_mutated_paths actions)

abbrev pub total_chars : List Facts → ℕ
total_chars [] = 0
total_chars (f ∷ rest) = f.modified_chars + total_chars rest

-- `out.extend(item for item in items if item not in out)`: the test sees what was added before.
unfoldable pub extend_missing : List String → List String → List String
extend_missing out [] = out
extend_missing out (item ∷ rest) =
    extend_missing (if contains out item then out else out ++ (item ∷ [])) rest

unfoldable pub merge_rules : List String → List PolicyResult → List String
unfolding extend_missing
merge_rules out [] = out
merge_rules out (r ∷ rest) = merge_rules (extend_missing out r.matched_rules) rest

unfoldable pub merge_reasons : List String → List PolicyResult → List String
unfolding extend_missing
merge_reasons out [] = out
merge_reasons out (r ∷ rest) = merge_reasons (extend_missing out r.reasons) rest

-- `level or 1`
abbrev pub level_or_one : Option ℤ → ℤ
level_or_one none = pos 1
level_or_one (some level) = if level_eq level 0 then pos 1 else level

-- A set-wide denial with one rule.
abbrev denied_set : Option ℤ → String → String → List PolicyResult → PolicySetResult
denied_set level rule reason results = record {
  decision = deny;
  action_results =
      results
      ++ (record {
        decision = deny;
        level = level_or_one level;
        action_type = "set";
        matched_rules = rule ∷ [];
        reasons = reason ∷ [];
        budgets = [];
      }
          ∷ []);
  matched_rules = rule ∷ [];
  reasons = reason ∷ [];
}

abbrev refused_set : String → PolicySetResult
refused_set reason = record {
  decision = deny;
  action_results = [];
  matched_rules = "action_budget" ∷ [];
  reasons = reason ∷ [];
}

-- The end of `evaluate_set`: deny goes first, then confirm.
unfoldable pub combine : List PolicyResult → PolicySetResult
unfolding merge_rules merge_reasons
combine results =
    let conclude = λ (d : Decision) (rule reason : String).
      let s : PolicySetResult = record {
        decision = d;
        action_results = results;
        matched_rules = merge_rules (rule ∷ []) results;
        reasons = merge_reasons (reason ∷ []) results;
      } in
      s in
    if any (λ (r : PolicyResult). is_deny r.decision) results
    then conclude deny "deny_precedence" "One or more actions were denied"
    else if any (λ (r : PolicyResult). is_confirm r.decision) results
    then conclude confirm "level1_requires_confirmation" "Explicit confirmation required"
    else conclude allow "all_actions_allowed" "Every action is low-risk and allowed"

-- `casefold` is the method of Python's `str`.
module _ (casefold : String → String) where
  -- `evaluate`
  unfoldable pub evaluate : PolicyEngine → Action → Facts → Option ℤ → PolicyResult
  unfolding evaluate_levels
  evaluate e a facts level =
      let lvl = effective_level a level in
      evaluate_levels e a facts lvl (evaluate_deny_rules casefold e a facts lvl (initial e a lvl))

  unfoldable pub evaluate_all :
      PolicyEngine → Option ℤ → List Action → List Facts → List PolicyResult
  evaluate_all e level (a ∷ actions) (f ∷ facts) =
      evaluate e a f level ∷ evaluate_all e level actions facts
  evaluate_all e level _ _ = []

  -- `evaluate_set`; `render` sorts the distinct paths and formats the list, as an f-string does.
  unfoldable pub evaluate_set :
      (List String → String)
      → PolicyEngine
      → List Action
      → FactsArgument
      → Option ℤ
      → PolicySetResult
  unfolding combine
  evaluate_set render e actions facts level =
      let fact_list = facts_list facts actions in
      let conflict = conflicting_paths actions in
      let results = evaluate_all e level actions fact_list in
      if not (nonempty actions)
      then refused_set "Action set must not be empty"
      else if ltb e.max_actions (length actions)
      then refused_set "Action budget exceeded"
      else if nonempty conflict
      then denied_set level "conflicting_actions"
          ("multiple actions mutate the same path: " <> render conflict) []
      else if ltb e.max_modified_chars (total_chars fact_list)
      then denied_set level "character_budget" "Aggregate modification budget exceeded" results
      else combine results
