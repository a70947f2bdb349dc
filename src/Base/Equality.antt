-- ===== src/Base/Equality.antt =====
-- Types with a test of equality, as Python's `==` on them.
use Prim.Native.String.{String}
use mathlib.Core.Path.{◌≡◌, refl, ap, sym, ◌∙◌}
use mathlib.Core.Logic.{◌≢◌, ◌↔◌, inl, inr}
use mathlib.Core.Bool.{Bool, true, false, ◌&&◌, ◌||◌}
use mathlib.Core.Option.{Option, none, some}
use mathlib.Core.List.{List, [], ◌∷◌}
use native.Mathlib.Omega.{arith}
use Prim.Native.Nat.{ℕ}
use text.Mathlib.Text.{◌==◌ as str_eq}
use text.Mathlib.TextEquality.{eq_iff}
use local_book.Base.Tests.{Bool-cases, eqb}
use local_book.Base.Lists.{All}

-- A test, and that it decides equality.
pub record Eq {ℓ} (A : Type ℓ) : Type ℓ where
  pub beq : A → A → Bool
  pub beq_iff : (a b : A) → (beq a b ≡ true) ↔ (a ≡ b)

pub eqb_iff : (a b : ℕ) → (eqb a b ≡ true) ↔ (a ≡ b)
eqb_iff a b = ground arith

infix 50 ◌==◌
abbrev pub ◌==◌ {ℓ} : {A : Type ℓ} ⦃e : Eq A⦄ → (a b : A) → Bool
◌==◌ ⦃e⦄ = e.beq

instance abbrev pub nat_eq : Eq ℕ
nat_eq = record { beq = eqb; beq_iff = eqb_iff }

instance abbrev pub string_eq : Eq String
string_eq = record { beq = str_eq; beq_iff = eq_iff }

module _ {ℓ} {A : Type ℓ} ⦃e : Eq A⦄ where
  abbrev pub option_beq : Option A → Option A → Bool
  option_beq none none = true
  option_beq (some a) (some b) = a == b
  option_beq _ _ = false

  pub option_beq_iff : (a b : Option A) → (option_beq a b ≡ true) ↔ (a ≡ b)
  option_beq_iff none none = (λ _. refl, λ _. refl)
  option_beq_iff none (some b) = (λ h. cc, λ h. cc)
  option_beq_iff (some a) none = (λ h. cc, λ h. cc)
  option_beq_iff (some a) (some b) =
      (λ h. ap some ((e.beq_iff a b).0 h), λ h. (e.beq_iff a b).1 (cc))

  instance abbrev pub option_eq : Eq (Option A)
  option_eq = record { beq = option_beq; beq_iff = option_beq_iff }

  abbrev pub list_beq : List A → List A → Bool
  list_beq [] [] = true
  list_beq (a ∷ xs) (b ∷ ys) = a == b && list_beq xs ys
  list_beq _ _ = false

  pub list_beq_iff : (xs ys : List A) → (list_beq xs ys ≡ true) ↔ (xs ≡ ys)
  list_beq_iff [] [] = (λ _. refl, λ _. refl)
  list_beq_iff [] (b ∷ ys) = (λ h. cc, λ h. cc)
  list_beq_iff (a ∷ xs) [] = (λ h. cc, λ h. cc)
  list_beq_iff (a ∷ xs) (b ∷ ys) =
      let heads = e.beq_iff a b in
      let tails = list_beq_iff xs ys in (λ h. ground arith, λ h. ground arith)

  instance abbrev pub list_eq : Eq (List A)
  list_eq = record { beq = list_beq; beq_iff = list_beq_iff }

  -- `a in xs`
  unfoldable pub contains : List A → A → Bool
  contains [] a = false
  contains (x ∷ xs) a = x == a || contains xs a

  pub beq_refl : (a : A) → (a == a) ≡ true
  beq_refl a = (e.beq_iff a a).1 refl

  -- No element stands twice in a list.
  abbrev pub IsDistinct : List A → Type ℓ
  IsDistinct [] = Unit
  IsDistinct (x ∷ xs) = All (λ y. x ≢ y) xs × IsDistinct xs

  pub contains-absent : (xs : List A) (a : A) → (contains xs a ≡ false) ↔ All (λ y. a ≢ y) xs
  unfolding contains
  contains-absent [] a = (λ _. tt, λ _. refl)
  contains-absent (x ∷ xs) a =
      let rest = contains-absent xs a in
      elim (Bool-cases (x == a)) [
        | inl h ↦
            let same = (e.beq_iff x a).0 h in
            (λ k. cc (rw h at k), λ (apart, _). absurd (apart (sym same)))
        | inr h ↦ rw h (
          λ k. (λ same. cc (sym h ∙ (e.beq_iff x a).1 (sym same)), rest.0 k),
          λ (_, all). rest.1 all,
        )
      ]

  -- Of two equal values a test says the same.
  pub same_test : (p : A → Bool) (a b : A) → (a == b && p a) ≡ (a == b && p b)
  same_test p a b = elim (Bool-cases (a == b)) [
    | inl h ↦ ap (λ y. a == b && p y) ((e.beq_iff a b).0 h)
    | inr h ↦ rw h refl
  ]

  -- What is equal to one of two different values is different from the other.
  pub beq_apart : (a b c : A) → (a == b) ≡ false → (a == c) ≡ true → (b == c) ≡ false
  beq_apart a b c different same = elim (Bool-cases (b == c)) [
    | inr h ↦ h
    | inl h ↦ let right = (e.beq_iff b c).0 h in cc (different, same, right)
  ]
