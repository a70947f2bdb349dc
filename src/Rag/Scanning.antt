-- ===== src/Rag/Scanning.antt =====
-- A marker in an answer takes at least one character.
use local_book.Base.{
  Bool, Option, Option-cases, [], arith, inl, inr, length, some, suc, zero, ℕ, ◌*◌, ◌+◌, ◌<◌, ◌∷◌,
  ◌≡◌, ◌≤◌, nat_eq, string_eq, option_eq, list_eq,
}
use local_book.Paths.{Text}
use local_book.Rag.{skip_spaces}
use local_book.Rag.Citations.{close_at, digits_after, letter_at, marker_at, number_at}

module _ (is_space : ℕ → Bool) (digit_value : ℕ → Option ℕ) (print : ℕ → Text) where
  length-skip_spaces : (t : Text) → length (skip_spaces is_space t) ≤ length t
  unfolding skip_spaces
  length-skip_spaces [] = omega arith
  length-skip_spaces (c ∷ cs) = ground (arith, length-skip_spaces cs)

  length-digits_after :
      (k n : ℕ) (t : Text) → length (digits_after is_space digit_value print k n t).1 ≤ length t
  unfolding digits_after
  length-digits_after zero n t = omega arith
  length-digits_after (suc k) n [] = omega arith
  length-digits_after (suc k) n (c ∷ cs) = elim (Option-cases (digit_value c)) [
    | inl e ↦ rw (e, digits_after) (omega arith)
    | inr (d, e) ↦ rw (e, digits_after) (omega (arith, length-digits_after k (n * 10 + d) cs))
  ]

  length-close_at :
      (n m : ℕ) (t rest : Text)
      → close_at is_space digit_value print n t ≡ some (m, rest)
      → length rest < length t
  length-close_at n m [] rest h = cc
  length-close_at n m (c ∷ cs) rest h = ground arith

  length-number_at :
      (m : ℕ) (t rest : Text)
      → number_at is_space digit_value print t ≡ some (m, rest)
      → length rest < length t
  unfolding skip_spaces digits_after
  length-number_at m [] rest h = cc
  length-number_at m (c ∷ cs) rest h = elim (Option-cases (digit_value c)) [
    | inl e ↦ cc (rw (number_at, e) at h)
    | inr (d, e) ↦
        let (k, more) = digits_after is_space digit_value print 2 d cs in
        let at_end =
          length-close_at k m (skip_spaces is_space more) rest (rw (number_at, e) at h) in
        omega (arith, at_end, length-skip_spaces more, length-digits_after 2 d cs)
  ]

  length-letter_at :
      (m : ℕ) (t rest : Text)
      → letter_at is_space digit_value print t ≡ some (m, rest)
      → length rest < length t
  length-letter_at m [] rest h = cc
  length-letter_at m (c ∷ cs) rest h =
      ground (arith, length-number_at m (skip_spaces is_space cs) rest, length-skip_spaces cs)

  -- A marker takes at least one character.
  pub length-marker_at :
      (m : ℕ) (t rest : Text)
      → marker_at is_space digit_value print t ≡ some (m, rest)
      → length rest < length t
  unfolding marker_at
  length-marker_at m [] rest h = cc
  length-marker_at m (c ∷ cs) rest h =
      ground (arith, length-letter_at m (skip_spaces is_space cs) rest, length-skip_spaces cs)
