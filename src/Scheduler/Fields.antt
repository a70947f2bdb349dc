-- ===== src/Scheduler/Fields.antt =====
-- The values that a parsed cron expression allows.
use local_book.Base.{
  All, Bool, Bool-cases, List, Option, Result-cases, [], arith, drop, eqb, inl, inr, leb, length,
  ltb, negsuc, none, ok, pos, some, subst, suc, take, zero, ℕ, ℤ, ◌&&◌, ◌+◌, ◌-◌, ◌==◌, ◌∷◌, ◌≡◌,
  ◌≤◌, nat_eq, string_eq, option_eq, list_eq,
}
use local_book.Scheduler.Cron.{
  field_bounds, parse_cron_expression, parse_field, parse_fields, range_step, single, stepped,
}

abbrev pub InBounds : ℕ → ℕ → List ℕ → Type 0
InBounds low high = All (λ v. (low ≤ v) × (v ≤ high))

-- One list of values for each pair of bounds, within them.
abbrev pub Within : List (ℕ × ℕ) → List (List ℕ) → Type 0
Within [] [] = Unit {0}
Within ((low, high) ∷ bounds) (values ∷ rest) = InBounds low high values × Within bounds rest
Within _ _ = ⊥

range_step-InBounds :
    (fuel low at high step : ℕ) → low ≤ at → InBounds low high (range_step fuel at high step)
unfolding range_step
range_step-InBounds zero low at high step h = tt
range_step-InBounds (suc fuel) low at high step h = elim (Bool-cases (leb at high)) [
  | inl e ↦
      rw e ((h, ground arith), range_step-InBounds fuel low (at + step) high step (omega arith))
  | inr e ↦ rw e tt
]

module _ (to_int : List ℕ → Option ℤ) (is_digits : List ℕ → Bool) where
  stepped-InBounds :
      (low high : ℕ) (o : Option ℤ) (values : List ℕ)
      → stepped to_int is_digits low high o ≡ ok values
      → InBounds low high values
  stepped-InBounds low high none values h = cc h
  stepped-InBounds low high (some (negsuc n)) values h = cc h
  stepped-InBounds low high (some (pos step)) values h = elim (Bool-cases (ltb step 1)) [
    | inl e ↦ cc (rw e at h)
    | inr e ↦
        let same : range_step (high + 1 - low) low high step ≡ values = ground arith in
        subst (InBounds low high) same
          (range_step-InBounds (high + 1 - low) low low high step (omega arith))
  ]

  single-InBounds :
      (low high : ℕ) (o : Option ℤ) (values : List ℕ)
      → single to_int is_digits low high o ≡ ok values
      → InBounds low high values
  single-InBounds low high none values h = cc h
  single-InBounds low high (some (negsuc n)) values h = cc h
  single-InBounds low high (some (pos n)) values h = elim (Bool-cases (leb low n && leb n high)) [
    | inl e ↦
        let same : n ∷ [] ≡ values = ground arith in
        subst (InBounds low high) same ((ground arith, ground arith), tt)
    | inr e ↦ cc (rw e at h)
  ]

  parse_field-InBounds :
      (low high : ℕ) (raw values : List ℕ)
      → parse_field to_int is_digits low high raw ≡ ok values
      → InBounds low high values
  unfolding parse_field
  parse_field-InBounds low high raw values h = elim (Bool-cases (raw == (42 ∷ []))) [
    | inl e ↦
        let h' = rw (e, parse_field) at h in
        let same : range_step (high + 1 - low) low high 1 ≡ values = ground arith in
        subst (InBounds low high) same
          (range_step-InBounds (high + 1 - low) low low high 1 (omega arith))
    | inr e ↦ elim (Bool-cases (take 2 raw == (42 ∷ 47 ∷ []))) [
      | inl s ↦ stepped-InBounds low high (to_int (drop 2 raw)) values (rw (e, s, parse_field) at h)
      | inr s ↦ elim (Bool-cases (is_digits raw)) [
        | inl d ↦ single-InBounds low high (to_int raw) values (rw (e, s, d, parse_field) at h)
        | inr d ↦ cc (rw (e, s, d, parse_field) at h)
      ]
    ]
  ]

  parse_fields-Within :
      (bounds : List (ℕ × ℕ)) (fields values : List (List ℕ))
      → length fields ≡ length bounds
      → parse_fields to_int is_digits bounds fields ≡ ok values
      → Within bounds values
  unfolding parse_fields
  parse_fields-Within [] [] values n h =
      let same : [] ≡ values = ground arith in subst (Within []) same tt
  parse_fields-Within [] (raw ∷ fields) values n h = absurd (omega arith)
  parse_fields-Within ((low, high) ∷ bounds) [] values n h = absurd (omega arith)
  parse_fields-Within ((low, high) ∷ bounds) (raw ∷ fields) values n h =
      elim (Result-cases (parse_field to_int is_digits low high raw)) [
        | inr (f, e) ↦ cc (rw (e, parse_fields) at h)
        | inl (first, e) ↦ elim (Result-cases (parse_fields to_int is_digits bounds fields)) [
          | inr (f, e') ↦ cc (rw (e, e', parse_fields) at h)
          | inl (more, e') ↦
              let h' = rw (e, e', parse_fields) at h in
              let same : first ∷ more ≡ values = ground arith in
              subst (Within ((low, high) ∷ bounds)) same (
                parse_field-InBounds low high raw first e,
                parse_fields-Within bounds fields more (omega arith) e',
              )
        ]
      ]

  -- Whatever Python's `int` and `isdigit` say of the words of an expression, when it parses it
  -- gives five lists of values, each within the bounds of its field: minutes up to 59, hours up to
  -- 23, days from 1 to 31, months from 1 to 12 and days of the week up to 7.
  pub parse_cron_expression-Within :
      (fields values : List (List ℕ))
      → parse_cron_expression to_int is_digits fields ≡ ok values
      → Within field_bounds values
  unfolding parse_cron_expression
  parse_cron_expression-Within fields values h = elim (Bool-cases (eqb (length fields) 5)) [
    | inl e ↦
        parse_fields-Within field_bounds fields values (ground arith)
          (rw (e, parse_cron_expression) at h)
    | inr e ↦ cc (rw (e, parse_cron_expression) at h)
  ]
