-- ===== src/Tests/Policies.antt =====
-- An engine with its defaults, and actions on a note.
use local_book.Base.{
  All, IsDistinct, List, String, [], contains, length, map, negsuc, none, ok, pos, refl, some, ◌↔◌,
  ◌∷◌, ◌≡◌, ◌≢◌, ◌≤◌, nat_eq, string_eq, option_eq, list_eq,
}
use local_book.Actions.{
  Action, action_eq, add_tags, patch_note, validate_action, validate_action_set,
}
use local_book.Actions.Validation.{IsMeaningful, validate_action_iff, validate_action_set_iff}
use local_book.Policy.{
  PolicyEngine, allow, auto_actions, default_facts, default_protected_prefixes, make_engine,
}
use local_book.Policy.Apart.{IsApart, IsPairwise}
use local_book.Policy.Evaluate.{
  effective_level, evaluate, evaluate_set, facts_list, no_facts, total_chars,
}
use local_book.Policy.Single.{IsAutomatic, evaluate-allow_iff}
use local_book.Policy.Limits.{IsLimited, make_engine-IsLimited}
use local_book.Policy.Sets.{Each, evaluate_set-allow_iff}

abbrev as_is : String → String
as_is s = s

abbrev first_path : List String → String
first_path [] = ""
first_path (p ∷ rest) = p

abbrev engine : PolicyEngine
engine = record {
  max_actions = 20;
  max_files = 1;
  max_modified_chars = 20000;
  max_level2_chars = 2000;
  level2_max_files = 1;
  level2_auto_actions = auto_actions;
  protected_prefixes = default_protected_prefixes;
}

abbrev tagging : Action
tagging = record {
  action_id = 1;
  action = add_tags;
  permission_level = 2;
  file = "notes/a.md";
  target_file = none;
  tags = "todo" ∷ [];
  link_target = none;
  patch = [];
  content_base64 = none;
  reason = "";
  expected_sha256 = none;
}

abbrev patching : Action
patching = record tagging {
  action_id = 2;
  action = patch_note;
  tags = [];
  patch = record { start = 0; old_text = 97 ∷ []; new_text = 98 ∷ []; old_sha256 = none } ∷ [];
  expected_sha256 = some "sha256:0";
}

validate_action_iff_example : (validate_action patching ≡ ok patching) ↔ IsMeaningful patching
validate_action_iff_example = validate_action_iff patching

validate_action_set_iff_example :
    let set = tagging ∷ patching ∷ [] in
    (validate_action_set set ≡ ok set)
    ↔ ((set ≢ []) × IsDistinct (map (λ (a : Action). a.action_id) set) × All IsMeaningful set)
validate_action_set_iff_example = validate_action_set_iff (tagging ∷ patching ∷ [])

evaluate-allow_iff_example :
    ((evaluate as_is engine tagging default_facts none).decision ≡ allow)
    ↔ ((effective_level tagging none ≡ pos 2) × IsAutomatic as_is engine tagging default_facts)
unfolding contains
evaluate-allow_iff_example =
    evaluate-allow_iff as_is engine tagging default_facts none (refl, (refl, tt))

evaluate_set-allow_iff_example :
    let set = tagging ∷ record tagging { file = "notes/b.md" } ∷ [] in
    ((evaluate_set as_is first_path engine set no_facts none).decision ≡ allow) ↔ (
      (set ≢ [])
      × (length set ≤ engine.max_actions)
      × IsPairwise IsApart set
      × (total_chars (facts_list no_facts set) ≤ engine.max_modified_chars)
      × Each
          (λ a f. (evaluate as_is engine a f none).decision ≡ allow)
          set
          (facts_list no_facts set))
evaluate_set-allow_iff_example =
    evaluate_set-allow_iff as_is engine none first_path
      (tagging ∷ record tagging { file = "notes/b.md" } ∷ []) no_facts

make_engine-IsLimited_example :
    IsLimited (
      make_engine
        (negsuc 3)
        (pos 900)
        (pos 30000)
        (pos 10)
        (pos 50)
        (patch_note ∷ add_tags ∷ [])
        [])
make_engine-IsLimited_example =
    make_engine-IsLimited (negsuc 3) (pos 900) (pos 30000) (pos 10) (pos 50)
      (patch_note ∷ add_tags ∷ []) []
