-- ===== src/Rag/Markers.antt =====
-- Which markers the scan of an answer finds.
use local_book.Base.{
  All, Bool, Bool-cases, List, Option, Option-cases, [], all, ap, arith, eqb_iff, false, inl, inr,
  length, none, refl, some, subst, suc, sym, true, zero, ℕ, ◌*◌, ◌++◌, ◌+◌, ◌==◌, ◌||◌, ◌∙◌, ◌∷◌,
  ◌≡◌, ◌≤◌, ◌⊎◌, nat_eq, string_eq, option_eq, list_eq,
}
use local_book.Paths.{Text, is_letter}
use local_book.Rag.{skip_spaces}
use local_book.Rag.Citations.{
  Piece, cite, close_at, digits_after, letter_at, marker_at, number_at, pieces, plain,
}
use local_book.Rag.Scanning.{length-marker_at}

module _ (is_space : ℕ → Bool) (digit_value : ℕ → Option ℕ) (print : ℕ → Text) where
  abbrev pub Spaces : Text → Type 0
  Spaces = All (λ c. is_space c ≡ true)

  -- The digits that lead from one number to another, in base ten.
  abbrev pub Digits : ℕ → ℕ → Text → Type 0
  Digits n v [] = n ≡ v
  Digits n v (c ∷ cs) = (d : ℕ) × (digit_value c ≡ some d) × Digits (n * 10 + d) v cs

  -- A marker of a number stands at the front of a text: `[`, an `S` or an `s`, one to three digits
  -- and `]`, with white space between them; what follows it is the rest.
  abbrev pub IsMarker : ℕ → Text → Text → Type 0
  IsMarker v t rest =
      (a : Text) × (letter : ℕ) × (b : Text) × (ds : Text) × (c : Text) × Spaces a
      × ((letter ≡ 83) ⊎ (letter ≡ 115))
      × Spaces b
      × (1 ≤ length ds)
      × (length ds ≤ 3)
      × Digits 0 v ds
      × Spaces c
      × (t ≡ 91 ∷ (a ++ (letter ∷ (b ++ (ds ++ (c ++ (93 ∷ rest)))))))

  skipped_part : (t : Text) → (a : Text) × Spaces a × (t ≡ a ++ skip_spaces is_space t)
  unfolding skip_spaces
  skipped_part [] = ([], tt, refl)
  skipped_part (c ∷ cs) = elim (Bool-cases (is_space c)) [
    | inl e ↦
        let (a, all, same) = skipped_part cs in
        (c ∷ a, (e, all), rw (skip_spaces, e) (ap (λ x. c ∷ x) same))
    | inr e ↦ ([], tt, rw (skip_spaces, e) refl)
  ]

  read_part :
      (k n : ℕ) (t : Text)
      → let (v, rest) = digits_after is_space digit_value print k n t in
        (ds : Text) × (length ds ≤ k) × Digits n v ds × (t ≡ ds ++ rest)
  unfolding digits_after
  read_part zero n t = ([], omega arith, refl, refl)
  read_part (suc k) n [] = ([], omega arith, refl, refl)
  read_part (suc k) n (c ∷ cs) = elim (Option-cases (digit_value c)) [
    | inl e ↦ rw (digits_after, e) ([], omega arith, refl, refl)
    | inr (d, e) ↦
        let (ds, few, number, same) = read_part k (n * 10 + d) cs in
        rw (digits_after, e) (c ∷ ds, omega (arith, few), (d, e, number), ap (λ x. c ∷ x) same)
  ]

  close_of :
      (n v : ℕ) (t rest : Text)
      → close_at is_space digit_value print n t ≡ some (v, rest)
      → (n ≡ v) × (t ≡ 93 ∷ rest)
  close_of n v [] rest h = cc h
  close_of n v (c ∷ cs) rest h = elim (Bool-cases (c == 93)) [
    | inr e ↦ cc (rw e at h)
    | inl e ↦
        let found : some (n, cs) ≡ some (v, rest) = rw e at h in
        let at = (eqb_iff c 93).0 e in (cc found, cc (found, at))
  ]

  -- The last parts of a marker.
  abbrev NumberAt : ℕ → Text → Text → Type 0
  NumberAt v t rest =
      (ds : Text) × (c : Text) × (1 ≤ length ds)
      × (length ds ≤ 3)
      × Digits 0 v ds
      × Spaces c
      × (t ≡ ds ++ (c ++ (93 ∷ rest)))

  number_of :
      (v : ℕ) (t rest : Text)
      → number_at is_space digit_value print t ≡ some (v, rest)
      → NumberAt v t rest
  unfolding skip_spaces digits_after
  number_of v [] rest h = cc h
  number_of v (c ∷ cs) rest h = elim (Option-cases (digit_value c)) [
    | inl e ↦ cc (rw (number_at, e) at h)
    | inr (d, e) ↦
        let (n, more) = digits_after is_space digit_value print 2 d cs in
        let (ds, few, number, same) = read_part 2 d cs in
        let (gap, all, apart) = skipped_part more in
        let (value, close) =
          close_of n v (skip_spaces is_space more) rest (rw (number_at, e) at h) in
        let start : 0 * 10 + d ≡ d = omega arith in
        (
          c ∷ ds,
          gap,
          omega arith,
          omega (arith, few),
          (d, e, subst (λ x. Digits x v ds) (sym start) (subst (λ x. Digits d x ds) value number)),
          all,
          ap (λ x. c ∷ x) (same ∙ ap (λ x. ds ++ x) (apart ∙ ap (λ x. gap ++ x) close)),
        )
  ]

  letter_of :
      (v : ℕ) (t rest : Text)
      → letter_at is_space digit_value print t ≡ some (v, rest)
      → (letter : ℕ) × (b : Text) × (x : Text) × ((letter ≡ 83) ⊎ (letter ≡ 115))
        × Spaces b
        × NumberAt v x rest
        × (t ≡ letter ∷ (b ++ x))
  letter_of v [] rest h = cc h
  letter_of v (c ∷ cs) rest h = elim (Bool-cases (c == 83 || c == 115)) [
    | inr e ↦ cc (rw e at h)
    | inl e ↦
        let (b, all, same) = skipped_part cs in
        (
          c,
          b,
          skip_spaces is_space cs,
          ground arith,
          all,
          number_of v (skip_spaces is_space cs) rest (rw e at h),
          ap (λ x. c ∷ x) same,
        )
  ]

  sound_at :
      (v : ℕ) (t rest : Text)
      → marker_at is_space digit_value print t ≡ some (v, rest)
      → IsMarker v t rest
  unfolding marker_at
  sound_at v [] rest h = cc h
  sound_at v (c ∷ cs) rest h = elim (Bool-cases (c == 91)) [
    | inr e ↦ cc (rw (marker_at, e) at h)
    | inl e ↦
        let at = (eqb_iff c 91).0 e in
        let (a, all, same) = skipped_part cs in
        let (letter, b, x, is_letter, all', (ds, gap, some_digit, few, number, all'', end), here) =
          letter_of v (skip_spaces is_space cs) rest (rw (marker_at, e) at h) in
        (
          a,
          letter,
          b,
          ds,
          gap,
          all,
          is_letter,
          all',
          some_digit,
          few,
          number,
          all'',
          ap (λ y. c ∷ y) (same ∙ ap (λ y. a ++ y) (here ∙ ap (λ y. letter ∷ (b ++ y)) end))
              ∙ ap (λ y. y ∷ (a ++ (letter ∷ (b ++ (ds ++ (gap ++ (93 ∷ rest))))))) at,
        )
  ]

  skip_all :
      (a : Text) (c : ℕ) (cs : Text)
      → Spaces a
      → is_space c ≡ false
      → skip_spaces is_space (a ++ (c ∷ cs)) ≡ c ∷ cs
  unfolding skip_spaces
  skip_all [] c cs all e = rw (skip_spaces, e) refl
  skip_all (x ∷ a) c cs (h, all) e = rw (skip_spaces, h) (skip_all a c cs all e)

  read_all :
      (k n v : ℕ) (ds : Text) (c : ℕ) (cs : Text)
      → length ds ≤ k
      → Digits n v ds
      → digit_value c ≡ none
      → digits_after is_space digit_value print k n (ds ++ (c ∷ cs)) ≡ (v, c ∷ cs)
  unfolding digits_after
  read_all zero n v [] c cs few same e = ap (λ x. (x, c ∷ cs)) same
  read_all (suc k) n v [] c cs few same e = rw (digits_after, e) (ap (λ x. (x, c ∷ cs)) same)
  read_all zero n v (x ∷ ds) c cs few h e = absurd (omega (arith, few))
  read_all (suc k) n v (x ∷ ds) c cs few (d, at, h) e =
      rw (digits_after, at) (read_all k (n * 10 + d) v ds c cs (omega (arith, few)) h e)

  -- The letters, the brackets, white space and the digits are apart.
  pub record IsApart : Type 0 where
    pub upper : is_space 83 ≡ false
    pub lower : is_space 115 ≡ false
    pub close : is_space 93 ≡ false
    pub no_digit : digit_value 93 ≡ none
    pub space : (c : ℕ) → is_space c ≡ true → digit_value c ≡ none
    pub digit : (c d : ℕ) → digit_value c ≡ some d → is_space c ≡ false

  number_all :
      (p : IsApart) (v : ℕ) (ds gap rest : Text)
      → 1 ≤ length ds
      → length ds ≤ 3
      → Digits 0 v ds
      → Spaces gap
      → number_at is_space digit_value print (ds ++ (gap ++ (93 ∷ rest))) ≡ some (v, rest)
  unfolding skip_spaces digits_after
  number_all p v [] gap rest some_digit few number all = absurd (omega (arith, some_digit))
  number_all p v (x ∷ ds) gap rest some_digit few (d, at, number) all =
      let start : 0 * 10 + d ≡ d = omega arith in
      let short : length ds ≤ 2 = omega (arith, few) in
      let number' : Digits d v ds = subst (λ y. Digits y v ds) start number in
      let read : digits_after is_space digit_value print 2 d (ds ++ (gap ++ (93 ∷ rest)))
          ≡ (v, gap ++ (93 ∷ rest)) =
        (elim gap
            as (λ g.
              Spaces g
              → digits_after is_space digit_value print 2 d (ds ++ (g ++ (93 ∷ rest)))
                ≡ (v, g ++ (93 ∷ rest))) [
                  | [] ↦ λ _. read_all 2 d v ds 93 rest short number' p.no_digit
                  | y ∷ ys ↦
                      λ (h, _). read_all 2 d v ds y (ys ++ (93 ∷ rest)) short number' (p.space y h)
                ])
          all in
      rw (at, read, skip_all gap 93 rest all p.close) refl

  skip_to_number :
      (p : IsApart) (b ds more : Text) (v : ℕ)
      → Spaces b
      → 1 ≤ length ds
      → Digits 0 v ds
      → skip_spaces is_space (b ++ (ds ++ more)) ≡ ds ++ more
  skip_to_number p b [] more v all some_digit number = absurd (omega (arith, some_digit))
  skip_to_number p b (x ∷ ds) more v all some_digit (d, at, number) =
      skip_all b x (ds ++ more) all (p.digit x d at)

  marker_all :
      (p : IsApart) (v : ℕ) (t rest : Text)
      → IsMarker v t rest
      → marker_at is_space digit_value print t ≡ some (v, rest)
  unfolding marker_at
  marker_all p v t rest
        (a, letter, b, ds, gap, all, is_letter, all', some_digit, few, number, all'', same) =
      let after_letter : Text = ds ++ (gap ++ (93 ∷ rest)) in
      let solid : is_space letter ≡ false = elim is_letter [
        | inl e ↦ ap is_space e ∙ p.upper
        | inr e ↦ ap is_space e ∙ p.lower
      ] in
      let is_s : (letter == 83 || letter == 115) ≡ true = ground arith in
      let to_number : skip_spaces is_space (b ++ after_letter) ≡ after_letter =
        skip_to_number p b ds (gap ++ (93 ∷ rest)) v all' some_digit number in
      rw same (
        rw (skip_all a letter (b ++ after_letter) all solid, is_s, to_number)
          (number_all p v ds gap rest some_digit few number all''))

  -- A text is cut into its pieces: a character at whose place no marker stands, or a marker, and
  -- then the pieces of what follows.
  abbrev pub Cut : Text → List Piece → Type 0
  Cut t [] = t ≡ []
  Cut t (plain c ∷ ps) =
      (cs : Text) × (t ≡ c ∷ cs) × ((v : ℕ) (rest : Text) → IsMarker v t rest → ⊥) × Cut cs ps
  Cut t (cite v ∷ ps) = (rest : Text) × IsMarker v t rest × Cut rest ps

  scanned :
      (p : IsApart) (k : ℕ) (t : Text)
      → length t ≤ k
      → Cut t (pieces is_space digit_value print k t)
  unfolding pieces
  scanned p zero [] few = refl
  scanned p (suc k) [] few = refl
  scanned p zero (c ∷ cs) few = absurd (omega (arith, few))
  scanned p (suc k) (c ∷ cs) few =
      elim (Option-cases (marker_at is_space digit_value print (c ∷ cs))) [
        | inl e ↦
            rw (pieces, e)
              (
                cs,
                refl,
                λ v rest m. cc (sym e ∙ marker_all p v (c ∷ cs) rest m),
                scanned p k cs (omega (arith, few)),
              )
        | inr ((v, rest), e) ↦
            let less = length-marker_at is_space digit_value print v (c ∷ cs) rest e in
            rw (pieces, e)
              (rest, sound_at v (c ∷ cs) rest e, scanned p k rest (omega (arith, few, less)))
      ]

  -- Where the letters, the brackets, white space and the digits are apart, the scan cuts the whole
  -- answer, from left to right: each marker that it finds is one, and it passes over a character
  -- only where no marker stands. The fuel it is run with, the length of the answer, is enough.
  pub pieces-Cut : (p : IsApart) (t : Text) → Cut t (pieces is_space digit_value print (length t) t)
  pieces-Cut p t = scanned p (length t) t (omega arith)
