-- ===== src/Actions/Validation.antt =====
-- What the validation of actions and of sets of actions accepts.
use local_book.Base.{
  All, IsDistinct, List, Result-cases, [], arith, contains-absent, false, inl, inr, map, none, ok,
  refl, true, ℕ, ◌↔◌, ◌∷◌, ◌≡◌, ◌≢◌, nat_eq, string_eq, option_eq, list_eq,
}
use local_book.Actions.{
  Action, ActionType, add_link, add_tags, create_note, has_duplicates, move_note, patch_note,
  remove_tags, truthy, validate_action, validate_action_set, validate_each,
}

-- What an action of a kind has to carry, and what it must not.
abbrev pub Carries : ActionType → Action → Type 0
Carries add_tags a = (a.tags ≢ []) × (a.patch ≡ []) × (a.content_base64 ≡ none)
Carries remove_tags a = (a.tags ≢ []) × (a.patch ≡ []) × (a.content_base64 ≡ none)
Carries add_link a = (truthy a.link_target ≡ true) × (a.patch ≡ []) × (a.content_base64 ≡ none)
Carries create_note a = (a.content_base64 ≢ none) × (a.expected_sha256 ≡ none) × (a.patch ≡ [])
Carries patch_note a = (a.patch ≢ []) × (a.content_base64 ≡ none) × Unit {0}
Carries move_note a = (truthy a.target_file ≡ true) × (a.patch ≡ []) × (a.content_base64 ≡ none)

abbrev pub IsMeaningful : Action → Type 0
IsMeaningful a = Carries a.action a

Carries-of_accepted :
    (a : Action) (k : ActionType) → a.action ≡ k → validate_action a ≡ ok a → Carries k a
unfolding validate_action
Carries-of_accepted a add_tags e h = ground arith
Carries-of_accepted a _ e h = ground arith

accepted_of_Carries :
    (a : Action) (k : ActionType) → a.action ≡ k → Carries k a → validate_action a ≡ ok a
unfolding validate_action
accepted_of_Carries a add_tags e h = ground arith
accepted_of_Carries a _ e h = ground arith

-- An action is accepted, unchanged, exactly when it carries what its kind needs, which is tags, a
-- link target that is not empty, a content, hunks, or a target file that is not empty; has no hunks
-- unless it is a `patch_note`, and no content unless it is a `create_note`; and, if it is a
-- `create_note`, has no expected hash. The other fields are free.
pub validate_action_iff : (a : Action) → (validate_action a ≡ ok a) ↔ IsMeaningful a
validate_action_iff a = (Carries-of_accepted a a.action refl, accepted_of_Carries a a.action refl)

validate_action_total :
    (a : Action) {b : Action} → validate_action a ≡ ok b → validate_action a ≡ ok a
unfolding validate_action
validate_action_total a h = ground arith

validate_each_sound :
    (actions : List Action) {u : Unit {0}} → validate_each actions ≡ ok u → All IsMeaningful actions
unfolding validate_each
validate_each_sound [] h = tt
validate_each_sound (a ∷ rest) {u} h = elim (Result-cases (validate_action a)) [
  | inl (b, e) ↦ (
    (validate_action_iff a).0 (validate_action_total a e),
    validate_each_sound rest {u = u} (rw (e, validate_each) at h),
  )
  | inr (f, e) ↦ cc (h, e)
]

validate_each_complete :
    (actions : List Action) → All IsMeaningful actions → validate_each actions ≡ ok tt
unfolding validate_each
validate_each_complete [] h = refl
validate_each_complete (a ∷ rest) (h, hs) =
    rw ((validate_action_iff a).1 h) (validate_each_complete rest hs)

-- The ids of a set, in order.
abbrev pub ids : List Action → List ℕ
ids = map (λ a. a.action_id)

has_duplicates-IsDistinct : (xs : List ℕ) → (has_duplicates xs ≡ false) ↔ IsDistinct xs
unfolding has_duplicates
has_duplicates-IsDistinct [] = (λ _. tt, λ _. refl)
has_duplicates-IsDistinct (x ∷ xs) =
    let rest = has_duplicates-IsDistinct xs in
    let absent = contains-absent xs x in
    (
      λ h. (absent.0 (ground arith), rest.0 (ground arith)),
      λ (fresh, distinct). let a = absent.1 fresh in let b = rest.1 distinct in ground arith,
    )

-- A set is accepted exactly when it is not empty, no id occurs twice, and every action carries what
-- its kind needs and none of the hunks, contents and hashes that its kind must not have.
pub validate_action_set_iff :
    (actions : List Action)
    → (validate_action_set actions ≡ ok actions)
      ↔ ((actions ≢ []) × IsDistinct (ids actions) × All IsMeaningful actions)
unfolding validate_action_set
validate_action_set_iff actions = (
  λ h. (
    ground arith,
    (has_duplicates-IsDistinct (ids actions)).0 (ground arith),
    validate_each_sound actions {u = tt} (ground arith),
  ),
  λ (some_action, distinct, fine). ground (
    arith,
    (has_duplicates-IsDistinct (ids actions)).1 distinct,
    validate_each_complete actions fine,
  ),
)
