-- ===== src/Policy/Limits.antt =====
-- The limits that `PolicyEngine.__init__` sets.
use local_book.Base.{
  Bool-cases, List, String, [], arith, contains, inl, inr, negsuc, pos, ℕ, ℤ, ◌∷◌, ◌≢◌, ◌≤◌, nat_eq,
  string_eq, option_eq, list_eq,
}
use local_book.Actions.{ActionType, action_eq}
use local_book.Policy.{
  PolicyEngine, auto_actions, clamp, make_engine, max_actions_ceiling, max_files_ceiling,
  max_level1_modified_chars, max_level2_modified_chars, restrict_to_auto,
}
use local_book.Policy.Single.{IsTagOnly}

restrict_to_auto-IsTagOnly : (kinds : List ActionType) → IsTagOnly (restrict_to_auto kinds)
unfolding restrict_to_auto
restrict_to_auto-IsTagOnly [] = tt
restrict_to_auto-IsTagOnly (k ∷ rest) = elim (Bool-cases (contains auto_actions k)) [
  | inl listed ↦ rw listed (listed, restrict_to_auto-IsTagOnly rest)
  | inr other ↦ rw other (restrict_to_auto-IsTagOnly rest)
]

-- The limits of an engine.
pub record IsLimited (e : PolicyEngine) : Type 0 where
  pub actions : (1 ≤ e.max_actions) × (e.max_actions ≤ max_actions_ceiling)
  pub files : (1 ≤ e.max_files) × (e.max_files ≤ max_files_ceiling)
  pub level2_files : (1 ≤ e.level2_max_files) × (e.level2_max_files ≤ e.max_files)
  pub chars : e.max_modified_chars ≤ max_level1_modified_chars
  pub level2_chars : e.max_level2_chars ≤ max_level2_modified_chars
  pub tag_only : IsTagOnly e.level2_auto_actions
  pub some_prefix : e.protected_prefixes ≢ []

clamp_bounds :
    (low high : ℕ) (x : ℤ) → low ≤ high → (low ≤ clamp low high x) × (clamp low high x ≤ high)
clamp_bounds low high (pos n) h = omega arith
clamp_bounds low high (negsuc n) h = omega arith

-- Whatever numbers, action types and prefixes an engine is built from, negative numbers included,
-- every limit lies between its floor and its hard ceiling, only the two tag actions are ever listed
-- for automatic execution, and some prefix is protected.
pub make_engine-IsLimited :
    (actions files chars chars2 files2 : ℤ) (requested : List ActionType) (prefixes : List String)
    → IsLimited (make_engine actions files chars chars2 files2 requested prefixes)
unfolding make_engine
make_engine-IsLimited actions files chars chars2 files2 requested prefixes = record {
  actions = clamp_bounds 1 20 actions (omega arith);
  files = clamp_bounds 1 10 files (omega arith);
  level2_files = clamp_bounds 1 (clamp 1 10 files) files2 (clamp_bounds 1 10 files (omega arith)).0;
  chars = (clamp_bounds 0 20000 chars (omega arith)).1;
  level2_chars = (clamp_bounds 0 2000 chars2 (omega arith)).1;
  tag_only = restrict_to_auto-IsTagOnly requested;
  some_prefix = ground arith;
}
