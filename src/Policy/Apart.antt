-- ===== src/Policy/Apart.antt =====
-- When no path is changed by two actions of a set.
use local_book.Base.{
  All, Bool-cases, IsDistinct, List, Option, String, [], arith, contains, contains-absent, false,
  if◌then◌else◌, inl, inr, none, not, refl, some, string_eq, subst, sym, ◌&&◌, ◌++◌, ◌==◌, ◌↔◌, ◌∙◌,
  ◌∷◌, ◌≡◌, ◌≢◌, nat_eq, option_eq, list_eq,
}
use local_book.Actions.{
  Action, ActionType, action_eq, add_link, add_tags, create_note, move_note, patch_note,
  remove_tags, truthy,
}
use local_book.Policy.{or_empty}
use local_book.Policy.Evaluate.{all_mutated_paths, conflicting_paths, mutated_paths, repeated}

-- The paths that an action changes: its file, and the target of a move that has one.
abbrev moved_to : ActionType → Option String → List String
moved_to move_note (some t) = if t == "" then [] else t ∷ []
moved_to _ _ = []

abbrev pub changed : Action → List String
changed a = a.file ∷ moved_to a.action a.target_file

-- Two actions change no path both.
abbrev pub IsApart : Action → Action → Type 0
IsApart a b = All (λ p. All (λ q. p ≢ q) (changed b)) (changed a)

-- Any two elements at different places of a list.
abbrev pub IsPairwise : (Action → Action → Type 0) → List Action → Type 0
IsPairwise R [] = Unit
IsPairwise R (a ∷ rest) = All (R a) rest × IsPairwise R rest

All-append : (P : String → Type 0) (xs ys : List String) → All P (xs ++ ys) ↔ (All P xs × All P ys)
All-append P [] ys = (λ h. (tt, h), λ (_, h). h)
All-append P (x ∷ xs) ys =
    let rest = All-append P xs ys in
    (
      λ (h, hs). let (left, right) = rest.0 hs in ((h, left), right),
      λ ((h, left), right). (h, rest.1 (left, right)),
    )

-- The code drops the target of a move onto itself, whose path is there already.
All-mutated_as :
    (P : String → Type 0) (a : Action) (k : ActionType) (t : Option String)
    → a.action ≡ k
    → a.target_file ≡ t
    → All P (mutated_paths a) ↔ All P (a.file ∷ moved_to k t)
unfolding mutated_paths
All-mutated_as P a move_note none e e' = rw (e, e') (λ h. h, λ h. h)
All-mutated_as P a move_note (some t) e e' = elim (Bool-cases (t == "")) [
  | inl empty ↦ rw (e, e', empty) (λ h. h, λ h. h)
  | inr given ↦ elim (Bool-cases (t == a.file)) [
    | inl same ↦
        let at = (string_eq.beq_iff t a.file).0 same in
        rw (e, e', given, same) (λ (h, u). (h, (subst P (sym at) h, tt)), λ (h, _). (h, tt))
    | inr other ↦ rw (e, e', given, other) (λ h. h, λ h. h)
  ]
]
All-mutated_as P a add_tags t e e' = rw e (λ h. h, λ h. h)
All-mutated_as P a remove_tags t e e' = rw e (λ h. h, λ h. h)
All-mutated_as P a add_link t e e' = rw e (λ h. h, λ h. h)
All-mutated_as P a create_note t e e' = rw e (λ h. h, λ h. h)
All-mutated_as P a patch_note t e e' = rw e (λ h. h, λ h. h)

All-mutated_paths : (P : String → Type 0) (a : Action) → All P (mutated_paths a) ↔ All P (changed a)
All-mutated_paths P a = All-mutated_as P a a.action a.target_file refl refl

All-all_mutated_paths :
    (P : String → Type 0) (actions : List Action)
    → All P (all_mutated_paths actions) ↔ All (λ a. All P (changed a)) actions
All-all_mutated_paths P [] = (λ h. tt, λ h. tt)
All-all_mutated_paths P (a ∷ rest) =
    let parts = All-append P (mutated_paths a) (all_mutated_paths rest) in
    let own = All-mutated_paths P a in
    let more = All-all_mutated_paths P rest in
    (
      λ h. let (left, right) = parts.0 h in (own.0 left, more.0 right),
      λ (left, right). parts.1 (own.1 left, more.1 right),
    )

-- Two quantifiers change places.
All-spread :
    (R : String → Action → Type 0) (p : String) (ps : List String) (actions : List Action)
    → (All (R p) actions × All (λ a. All (λ q. R q a) ps) actions)
      ↔ All (λ a. R p a × All (λ q. R q a) ps) actions
All-spread R p ps [] = (λ h. tt, λ h. (tt, tt))
All-spread R p ps (a ∷ rest) =
    let more = All-spread R p ps rest in
    (
      λ ((h, hs), (k, ks)). ((h, k), more.0 (hs, ks)),
      λ ((h, k), both). let (hs, ks) = more.1 both in ((h, hs), (k, ks)),
    )

All-nothing : (actions : List Action) → All (λ (a : Action). Unit {0}) actions
All-nothing [] = tt
All-nothing (a ∷ rest) = (tt, All-nothing rest)

All-swap :
    (R : String → Action → Type 0) (ps : List String) (actions : List Action)
    → All (λ p. All (R p) actions) ps ↔ All (λ a. All (λ p. R p a) ps) actions
All-swap R [] actions = (λ h. All-nothing actions, λ h. tt)
All-swap R (p ∷ ps) actions =
    let more = All-swap R ps actions in
    let spread = All-spread R p ps actions in
    (λ (h, hs). spread.0 (h, more.0 hs), λ both. let (h, hs) = spread.1 both in (h, more.1 hs))

All-each :
    (P Q : String → Type 0) (xs : List String) → ((x : String) → P x ↔ Q x) → All P xs ↔ All Q xs
All-each P Q [] f = (λ h. tt, λ h. tt)
All-each P Q (x ∷ xs) f =
    let more = All-each P Q xs f in
    (λ (h, hs). ((f x).0 h, more.0 hs), λ (h, hs). ((f x).1 h, more.1 hs))

-- The paths of an action meet those of no later one.
later_paths :
    (a : Action) (rest : List Action)
    → All (λ p. All (λ q. p ≢ q) (all_mutated_paths rest)) (mutated_paths a) ↔ All (IsApart a) rest
later_paths a rest =
    let off : String → Type 0 = λ p. All (λ q. p ≢ q) (all_mutated_paths rest) in
    let own = All-mutated_paths off a in
    let each =
      All-each off (λ p. All (λ b. All (λ q. p ≢ q) (changed b)) rest) (changed a)
        (λ p. All-all_mutated_paths (λ q. p ≢ q) rest) in
    let swap = All-swap (λ p b. All (λ q. p ≢ q) (changed b)) (changed a) rest in
    (λ h. swap.0 (each.0 (own.0 h)), λ h. own.1 (each.1 (swap.1 h)))

IsDistinct-append :
    (xs ys : List String)
    → IsDistinct (xs ++ ys) ↔ (IsDistinct xs × IsDistinct ys × All (λ x. All (λ y. x ≢ y) ys) xs)
IsDistinct-append [] ys = (λ h. (tt, h, tt), λ (_, h, _). h)
IsDistinct-append (x ∷ xs) ys =
    let more = IsDistinct-append xs ys in
    let fresh = All-append (λ y. x ≢ y) xs ys in
    (
      λ (h, hs).
          let (left, right) = fresh.0 h in
          let (one, two, cross) = more.0 hs in ((left, one), two, (right, cross)),
      λ ((left, one), two, (right, cross)). (fresh.1 (left, right), more.1 (one, two, cross)),
    )

mutated_paths-IsDistinct : (a : Action) → IsDistinct (mutated_paths a)
unfolding mutated_paths
mutated_paths-IsDistinct a =
    let onto = or_empty a.target_file == a.file in
    elim (Bool-cases (a.action == move_note && truthy a.target_file && not onto)) [
      | inr e ↦ rw e (tt, tt)
      | inl e ↦
          let other : onto ≡ false = ground arith in
          rw e (
            (
              λ same. cc ((string_eq.beq_iff (or_empty a.target_file) a.file).1 (sym same), other),
              tt,
            ),
            (tt, tt),
          )
    ]

repeated-IsDistinct : (xs : List String) → (repeated xs ≡ []) ↔ IsDistinct xs
unfolding repeated
repeated-IsDistinct [] = (λ _. tt, λ _. refl)
repeated-IsDistinct (x ∷ xs) =
    let more = repeated-IsDistinct xs in
    let absent = contains-absent xs x in
    elim (Bool-cases (contains xs x)) [
      | inl e ↦ rw e (λ h. cc h, λ (fresh, _). cc (sym e ∙ absent.1 fresh))
      | inr e ↦ rw e (λ h. (absent.0 e, more.0 h), λ (_, distinct). more.1 distinct)
    ]

all_mutated_paths-IsDistinct :
    (actions : List Action) → IsDistinct (all_mutated_paths actions) ↔ IsPairwise IsApart actions
all_mutated_paths-IsDistinct [] = (λ _. tt, λ _. tt)
all_mutated_paths-IsDistinct (a ∷ rest) =
    let parts = IsDistinct-append (mutated_paths a) (all_mutated_paths rest) in
    let more = all_mutated_paths-IsDistinct rest in
    let cross = later_paths a rest in
    (
      λ h. let (_, later, off) = parts.0 h in (cross.0 off, more.0 later),
      λ (off, later). parts.1 (mutated_paths-IsDistinct a, more.1 later, cross.1 off),
    )

-- There is no conflict exactly when any two actions change different paths.
pub conflicting_paths-IsApart :
    (actions : List Action) → (conflicting_paths actions ≡ []) ↔ IsPairwise IsApart actions
unfolding conflicting_paths
conflicting_paths-IsApart actions =
    let one = repeated-IsDistinct (all_mutated_paths actions) in
    let two = all_mutated_paths-IsDistinct actions in (λ h. two.0 (one.0 h), λ h. one.1 (two.1 h))
