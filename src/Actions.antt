-- ===== src/Actions.antt =====
-- The structured actions of server/actions/schemas.py, and their semantic validation.
pub mod Validation
pub mod Patches
pub mod Spliced
use local_book.Base.{
  Bool, Eq, List, Option, Result, String, [], arith, contains, false, map, none, not, ok, raise_if,
  some, true, ℕ, ◌&&◌, ◌==◌, ◌||◌, ◌↔◌, ◌∷◌, ◌≡◌, nat_eq, string_eq, option_eq, list_eq, ◌>>=◌,
  ◌>>◌,
}

-- `ActionType`
pub data ActionType : Type 0 where
  add_tags remove_tags add_link create_note patch_note move_note : ActionType

-- `ActionType.value`
unfoldable pub value : ActionType → String
value add_tags = "add_tags"
value remove_tags = "remove_tags"
value add_link = "add_link"
value create_note = "create_note"
value patch_note = "patch_note"
value move_note = "move_note"

abbrev pub action_beq : ActionType → ActionType → Bool
action_beq add_tags add_tags = true
action_beq remove_tags remove_tags = true
action_beq add_link add_link = true
action_beq create_note create_note = true
action_beq patch_note patch_note = true
action_beq move_note move_note = true
action_beq _ _ = false

pub action_beq_iff : (a b : ActionType) → (action_beq a b ≡ true) ↔ (a ≡ b)
action_beq_iff a b = (λ h. ground arith, λ h. ground arith)

instance abbrev pub action_eq : Eq ActionType
action_eq = record { beq = action_beq; beq_iff = action_beq_iff }

-- `PatchHunk`; a text is the list of its code points.
pub record PatchHunk : Type 0 where
  pub start : ℕ
  pub old_text : List ℕ
  pub new_text : List ℕ
  pub old_sha256 : Option String

-- `Action`; a UUID is a number.
pub record Action : Type 0 where
  pub action_id : ℕ
  pub action : ActionType
  pub permission_level : ℕ
  pub file : String
  pub target_file : Option String
  pub tags : List String
  pub link_target : Option String
  pub patch : List PatchHunk
  pub content_base64 : Option String
  pub reason : String
  pub expected_sha256 : Option String

-- Python's truth of a value of type `str | None`, of a list, and of `is not None`.
abbrev pub truthy : Option String → Bool
truthy none = false
truthy (some s) = not (s == "")

abbrev pub nonempty {ℓ} : {A : Type ℓ} → List A → Bool
nonempty [] = false
nonempty (x ∷ xs) = true

abbrev pub present {ℓ} : {A : Type ℓ} → Option A → Bool
present none = false
present (some a) = true

-- The messages of `ActionValidationError`.
pub data ActionFault : Type 0 where
  tags_required link_target_required content_required hash_forbidden : ActionFault
  hunk_required patch_with_content target_file_required hunks_forbidden : ActionFault
  content_forbidden empty_set duplicate_action_id : ActionFault

-- `validate_action`
unfoldable pub validate_action : Action → Result ActionFault Action
validate_action a = do
  let kind = a.action
  raise_if ((kind == add_tags || kind == remove_tags) && not (nonempty a.tags)) tags_required
  raise_if (kind == add_link && not (truthy a.link_target)) link_target_required
  raise_if (kind == create_note && not (present a.content_base64)) content_required
  raise_if (kind == create_note && present a.expected_sha256) hash_forbidden
  raise_if (kind == patch_note && not (nonempty a.patch)) hunk_required
  raise_if (kind == patch_note && present a.content_base64) patch_with_content
  raise_if (kind == move_note && not (truthy a.target_file)) target_file_required
  raise_if (not (kind == patch_note) && nonempty a.patch) hunks_forbidden
  raise_if (not (kind == create_note) && present a.content_base64) content_forbidden
  ok a

-- `len({*ids}) != len(ids)`
unfoldable pub has_duplicates : List ℕ → Bool
unfolding contains
has_duplicates [] = false
has_duplicates (x ∷ xs) = contains xs x || has_duplicates xs

-- The loop at the end of `validate_action_set`.
unfoldable pub validate_each : List Action → Result ActionFault (Unit {0})
validate_each [] = ok tt
validate_each (a ∷ rest) = do validate_action a; validate_each rest

-- `validate_action_set`, on the `actions` of the set.
unfoldable pub validate_action_set : List Action → Result ActionFault (List Action)
unfolding validate_each has_duplicates
validate_action_set actions = do
  raise_if (not (nonempty actions)) empty_set
  raise_if (has_duplicates (map (λ a. a.action_id) actions)) duplicate_action_id
  validate_each actions
  ok actions
