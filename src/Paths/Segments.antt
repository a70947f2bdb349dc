-- ===== src/Paths/Segments.antt =====
-- `split` and `join` on texts, and the code points that a text lacks.
use local_book.Base.{
  All, Bool-cases, List, [], arith, beq_refl, contains, false, inl, inr, nat_eq, refl, ℕ, ◌++◌,
  ◌==◌, ◌∷◌, ◌≡◌, ◌≢◌, string_eq, option_eq, list_eq,
}
use local_book.Paths.{Text, join_with, prepend, split_on}

-- A text without a code point.
abbrev pub Lacks : ℕ → Text → Type 0
Lacks c t = contains t c ≡ false

join-prepend :
    (c x : ℕ) (segments : List Text)
    → segments ≢ []
    → join_with c (prepend x segments) ≡ x ∷ join_with c segments
unfolding join_with
join-prepend c x [] h = elim (h refl) [ ]
join-prepend c x (s ∷ []) h = refl
join-prepend c x (s ∷ t ∷ rest) h = refl

prepend-filled : (x : ℕ) (segments : List Text) → prepend x segments ≢ []
prepend-filled x [] h = cc
prepend-filled x (s ∷ ss) h = cc

pub split_on-filled : (c : ℕ) (t : Text) → split_on c t ≢ []
unfolding split_on
split_on-filled c [] h = cc
split_on-filled c (x ∷ xs) h = elim (Bool-cases (x == c)) [
  | inl e ↦ let h' = rw (e, split_on) at h in cc
  | inr e ↦ prepend-filled x (split_on c xs) (rw (e, split_on) at h)
]

join-empty-first :
    (c : ℕ) (segments : List Text)
    → segments ≢ []
    → join_with c ([] ∷ segments) ≡ c ∷ join_with c segments
unfolding join_with
join-empty-first c [] h = elim (h refl) [ ]
join-empty-first c (s ∷ rest) h = refl

pub join-split : (c : ℕ) (t : Text) → join_with c (split_on c t) ≡ t
unfolding split_on join_with
join-split c [] = refl
join-split c (x ∷ xs) = elim (Bool-cases (x == c)) [
  | inl e ↦
      rw
        (
          e,
          split_on,
          join-empty-first c (split_on c xs) (split_on-filled c xs),
          join-split c xs,
          (nat_eq.beq_iff x c).0 e,
        )
        refl
  | inr e ↦
      rw (e, split_on, join-prepend c x (split_on c xs) (split_on-filled c xs), join-split c xs)
        refl
]

Lacks-prepend :
    (c x : ℕ) (segments : List Text)
    → (x == c) ≡ false
    → All (Lacks c) segments
    → All (Lacks c) (prepend x segments)
unfolding contains
Lacks-prepend c x [] h all_lack = (ground arith, tt)
Lacks-prepend c x (s ∷ ss) h (lacks, rest) = (ground arith, rest)

pub split-Lacks : (c : ℕ) (t : Text) → All (Lacks c) (split_on c t)
unfolding split_on contains
split-Lacks c [] = (refl, tt)
split-Lacks c (x ∷ xs) = elim (Bool-cases (x == c)) [
  | inl e ↦ rw (e, split_on) (refl, split-Lacks c xs)
  | inr e ↦ rw (e, split_on) (Lacks-prepend c x (split_on c xs) e (split-Lacks c xs))
]

pub split-Lacks-too : (c d : ℕ) (t : Text) → Lacks d t → All (Lacks d) (split_on c t)
unfolding split_on contains
split-Lacks-too c d [] h = (refl, tt)
split-Lacks-too c d (x ∷ xs) h =
    let head : (x == d) ≡ false = ground arith in
    let tail : Lacks d xs = ground arith in
    elim (Bool-cases (x == c)) [
      | inl e ↦ rw (e, split_on) (refl, split-Lacks-too c d xs tail)
      | inr e ↦
          rw (e, split_on) (Lacks-prepend d x (split_on c xs) head (split-Lacks-too c d xs tail))
    ]

Lacks-append : (c : ℕ) (s t : Text) → Lacks c s → Lacks c t → Lacks c (s ++ t)
unfolding contains
Lacks-append c [] t h k = k
Lacks-append c (x ∷ xs) t h k =
    let rest : Lacks c (xs ++ t) = Lacks-append c xs t (ground arith) k in ground arith

pub join-Lacks :
    (c d : ℕ) (segments : List Text)
    → (c == d) ≡ false
    → All (Lacks d) segments
    → Lacks d (join_with c segments)
unfolding join_with contains
join-Lacks c d [] h lack = refl
join-Lacks c d (s ∷ []) h (lack, _) = lack
join-Lacks c d (s ∷ t ∷ rest) h (lack, more) =
    let later : Lacks d (join_with c (t ∷ rest)) = join-Lacks c d (t ∷ rest) h more in
    Lacks-append d s (c ∷ join_with c (t ∷ rest)) lack (ground arith)

split-alone : (c : ℕ) (s : Text) → Lacks c s → split_on c s ≡ s ∷ []
unfolding split_on contains
split-alone c [] h = refl
split-alone c (x ∷ xs) h =
    let head : (x == c) ≡ false = ground arith in
    rw (head, split_on, split-alone c xs (ground arith)) refl

split-first : (c : ℕ) (s t : Text) → Lacks c s → split_on c (s ++ (c ∷ t)) ≡ s ∷ split_on c t
unfolding split_on contains
split-first c [] t h = rw (beq_refl c, split_on) refl
split-first c (x ∷ xs) t h =
    let head : (x == c) ≡ false = ground arith in
    rw (head, split_on, split-first c xs t (ground arith)) refl

-- Segments that lack the separator, at least one of them, are what splitting their join gives back.
pub split-join :
    (c : ℕ) (segments : List Text)
    → segments ≢ []
    → All (Lacks c) segments
    → split_on c (join_with c segments) ≡ segments
unfolding join_with
split-join c [] h lack = elim (h refl) [ ]
split-join c (s ∷ []) h (lack, _) = split-alone c s lack
split-join c (s ∷ t ∷ rest) h (lack, more) =
    rw (split-first c s (join_with c (t ∷ rest)) lack, split-join c (t ∷ rest) (λ e. cc e) more)
      refl
