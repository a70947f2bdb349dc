-- ===== src/Policy.antt =====
-- The deterministic policy engine: server/policies/engine.py over the constants of
-- server/policies/rules.py.
pub mod Evaluate
pub mod Checks
pub mod Limits
pub mod Single
pub mod Apart
pub mod Sets
use local_book.Base.{
  Bool, List, Option, String, [], any, contains, eqb, false, if◌then◌else◌, ltb, ltb_ℤ, max, min,
  negsuc, none, not, pos, some, true, ℕ, ℤ, ◌&&◌, ◌++◌, ◌<>◌, ◌==◌, ◌||◌, ◌∷◌, nat_eq, string_eq,
  option_eq, list_eq,
}
use text.Mathlib.Text.{starts_with}
use local_book.Actions.{
  Action, ActionType, action_eq, add_link, add_tags, create_note, move_note, nonempty, patch_note,
  present, remove_tags, truthy, value,
}

-- `PolicyDecision`
pub data Decision : Type 0 where
  allow deny confirm : Decision

-- `ActionFacts`
pub record Facts : Type 0 where
  pub existing : Bool
  pub protected : Bool
  pub overwrite : Bool
  pub file_count : ℕ
  pub modified_chars : ℕ
  pub scope : String
  pub target_exists : Bool
  pub attachment : Bool
  pub markdown : Bool
  pub recursive : Bool
  pub allowlisted_target : Bool
  pub body_change : Bool
  pub duplicate_tags : Bool
  pub tags_present : Bool
  pub link_target_exists : Bool

-- `ActionFacts()`
abbrev pub default_facts : Facts
default_facts = record {
  existing = true;
  protected = false;
  overwrite = false;
  file_count = 1;
  modified_chars = 0;
  scope = "single-file";
  target_exists = false;
  attachment = false;
  markdown = true;
  recursive = false;
  allowlisted_target = true;
  body_change = false;
  duplicate_tags = false;
  tags_present = true;
  link_target_exists = true;
}

-- `PolicyResult`
pub record PolicyResult : Type 0 where
  pub decision : Decision
  pub level : ℤ
  pub action_type : String
  pub matched_rules : List String
  pub reasons : List String
  pub budgets : List (String × ℕ)

-- `PolicySetResult`
pub record PolicySetResult : Type 0 where
  pub decision : Decision
  pub action_results : List PolicyResult
  pub matched_rules : List String
  pub reasons : List String

-- The constants of rules.py.
abbrev pub auto_actions : List ActionType
auto_actions = add_tags ∷ remove_tags ∷ []

-- Every action type is a key, with the value 1.
abbrev pub min_level_by_action : ActionType → Option ℕ
min_level_by_action kind = some 1

abbrev pub max_actions_ceiling : ℕ
max_actions_ceiling = 20

abbrev pub max_files_ceiling : ℕ
max_files_ceiling = 10

abbrev pub max_level1_modified_chars : ℕ
max_level1_modified_chars = 20000

abbrev pub max_level2_modified_chars : ℕ
max_level2_modified_chars = 2000

abbrev pub default_protected_prefixes : List String
default_protected_prefixes = ".localnote" ∷ []

-- `_deny`
unfoldable pub deny_result : String → String → PolicyResult → PolicyResult
deny_result rule reason r =
    if contains r.matched_rules rule then record r { decision = deny } else record r {
      decision = deny;
      matched_rules = r.matched_rules ++ (rule ∷ []);
      reasons = r.reasons ++ (reason ∷ []);
    }

-- `PolicyEngine`, with the fields that `__init__` sets.
pub record PolicyEngine : Type 0 where
  pub max_actions : ℕ
  pub max_files : ℕ
  pub max_modified_chars : ℕ
  pub max_level2_chars : ℕ
  pub level2_max_files : ℕ
  pub level2_auto_actions : List ActionType
  pub protected_prefixes : List String

-- `max(low, min(int(x), high))`
abbrev pub clamp : ℕ → ℕ → ℤ → ℕ
clamp low high (pos n) = max low (min n high)
clamp low high (negsuc n) = low

-- `frozenset(requested) & AUTO_ACTIONS`
unfoldable pub restrict_to_auto : List ActionType → List ActionType
restrict_to_auto [] = []
restrict_to_auto (kind ∷ rest) =
    let kept = restrict_to_auto rest in if contains auto_actions kind then kind ∷ kept else kept

-- `PolicyEngine.__init__`
unfoldable pub make_engine :
    (max_actions max_files max_modified_chars max_level2_chars level2_max_files : ℤ)
    → List ActionType
    → List String
    → PolicyEngine
unfolding restrict_to_auto
make_engine actions files chars chars2 files2 requested prefixes =
    let max_files = clamp 1 max_files_ceiling files in
    record {
      max_actions = clamp 1 max_actions_ceiling actions;
      max_files = max_files;
      max_modified_chars = clamp 0 max_level1_modified_chars chars;
      max_level2_chars = clamp 0 max_level2_modified_chars chars2;
      level2_max_files = clamp 1 max_files files2;
      level2_auto_actions = restrict_to_auto requested;
      protected_prefixes = if nonempty prefixes then prefixes else default_protected_prefixes;
    }

-- One `if fires: _deny(result, rule, reason)`.
pub record Check : Type 0 where
  pub fires : Bool
  pub rule : String
  pub reason : String

unfoldable pub deny_if : PolicyResult → Check → PolicyResult
unfolding deny_result
deny_if r c = if c.fires then deny_result c.rule c.reason r else r

unfoldable pub run_checks : List Check → PolicyResult → PolicyResult
run_checks [] r = r
run_checks (c ∷ rest) r = run_checks rest (deny_if r c)

abbrev check : Bool → String → String → Check
check fires rule reason = record { fires = fires; rule = rule; reason = reason }

abbrev pub or_empty : Option String → String
or_empty none = ""
or_empty (some s) = s

-- `level not in (0, 1, 2)` and the comparisons of a level.
abbrev pub level_eq : ℤ → ℕ → Bool
level_eq (pos n) k = eqb n k
level_eq (negsuc n) k = false

abbrev pub min_level : ActionType → ℤ
min_level kind = elim (min_level_by_action kind) [ none ↦ pos 1 | some n ↦ pos n ]

-- `mutating_existing`
abbrev pub mutates_existing : ActionType → Bool
mutates_existing create_note = false
mutates_existing _ = true

module _ (casefold : String → String) where
  -- `_is_protected`
  unfoldable pub is_protected : PolicyEngine → String → Bool
  is_protected e relative_path =
      let lowered = casefold relative_path in
      any (λ prefix. lowered == prefix || starts_with lowered (prefix <> "/")) e.protected_prefixes

  -- The `if`s of `_evaluate_deny_rules` after the first, in order.
  unfoldable pub deny_rules : PolicyEngine → Action → Facts → ℤ → List Check
  deny_rules e a facts level =
      let kind = a.action in
      let budget = if level_eq level 2 then e.max_level2_chars else e.max_modified_chars in
      check (not (level_eq level 0 || level_eq level 1 || level_eq level 2)) "invalid_level"
        "Permission level must be 0, 1 or 2"
      ∷ check (ltb_ℤ level (min_level kind)) "level_too_low"
          "Action requires a higher permission level"
      ∷ check
          (facts.protected
            || is_protected e a.file
            || truthy a.target_file && is_protected e (or_empty a.target_file))
          "protected_path" "Path is protected"
      ∷ check facts.recursive "recursive_operation" "Recursive operations are denied"
      ∷ check (not (facts.scope == "single-file")) "multi_file_scope"
          "Only single-file operations are allowed"
      ∷ check (ltb e.max_files facts.file_count) "file_count_budget" "Too many files for one action"
      ∷ check facts.attachment "attachment_write" "Attachment writes are permanently denied"
      ∷ check (not facts.markdown) "markdown_required" "Only Markdown notes can be mutated"
      ∷ check (not facts.allowlisted_target) "target_not_allowlisted"
          "Target is outside the allow-list"
      ∷ check facts.overwrite "overwrite_denied" "Overwriting files is denied"
      ∷ check (mutates_existing kind && not facts.existing) "missing_file"
          (a.file <> " does not exist")
      ∷ check (kind == create_note && facts.existing) "create_existing"
          "create_note cannot overwrite an existing file"
      ∷ check (kind == move_note && not (truthy a.target_file)) "missing_target"
          "move_note requires a target_file"
      ∷ check (kind == move_note && facts.target_exists) "move_overwrite"
          "move_note cannot overwrite its target"
      ∷ check ((kind == patch_note || kind == move_note) && not (truthy a.expected_sha256))
          "expected_hash_required" "expected_sha256 is required"
      ∷ check (kind == add_link && not facts.link_target_exists) "broken_link_target"
          "Link target is missing or not allow-listed"
      ∷ check (kind == remove_tags && not facts.tags_present) "unknown_tag_remove"
          "Requested tags are not present in the note"
      ∷ check (kind == add_tags && facts.duplicate_tags) "duplicate_tag_add"
          "One or more tags already exist on the note"
      ∷ check (ltb budget facts.modified_chars) "character_budget" "Modification budget exceeded"
      ∷ check (level_eq level 2 && facts.body_change) "level2_body_change"
          "Level 2 actions must not change the body"
      ∷ []

  -- `_evaluate_deny_rules`
  unfoldable pub evaluate_deny_rules :
      PolicyEngine → Action → Facts → ℤ → PolicyResult → PolicyResult
  evaluate_deny_rules e a facts level r =
      if not (contains auto_actions a.action) && not (present (min_level_by_action a.action))
      then deny_result "action_not_allowed" (value a.action <> " is not a wire action") r
      else run_checks (deny_rules e a facts level) r
