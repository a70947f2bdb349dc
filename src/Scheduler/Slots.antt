-- ===== src/Scheduler/Slots.antt =====
-- The candidates of `_time_candidates` and of the days, in their order.
use Prim.{⊥}
use local_book.Base.{
  All, Bool-cases, IsDistinct, List, [], ap, arith, eqb, eqb_iff, inl, inr, leb, refl, subst, suc,
  sym, zero, ℕ, ◌++◌, ◌+◌, ◌<◌, ◌↔◌, ◌∷◌, ◌≡◌, ◌≢◌, ◌≤◌, ◌⊎◌, nat_eq, string_eq, option_eq, list_eq,
}
use local_book.Scheduler.Cron.{Cron, at_hour, at_hours, insert_value, sort_values, time_candidates}

-- A time of a day, by the day's offset from today.
abbrev pub Slot : Type 0
Slot = ℕ × (ℕ × ℕ)

abbrev pub Earlier : ℕ × ℕ → ℕ × ℕ → Type 0
Earlier (h, m) (h', m') = (h < h') ⊎ ((h ≡ h') × (m < m'))

abbrev pub Before : Slot → Slot → Type 0
Before (d, t) (d', t') = (d < d') ⊎ ((d ≡ d') × Earlier t t')

module _ {A : Type 0} where
  -- An element of a list.
  abbrev pub Has : A → List A → Type 0
  Has y [] = ⊥
  Has y (x ∷ xs) = (y ≡ x) ⊎ Has y xs

  Has-left : (y : A) (xs ys : List A) → Has y xs → Has y (xs ++ ys)
  Has-left y [] ys h = absurd h
  Has-left y (x ∷ xs) ys (inl e) = inl e
  Has-left y (x ∷ xs) ys (inr h) = inr (Has-left y xs ys h)

  Has-right : (y : A) (xs ys : List A) → Has y ys → Has y (xs ++ ys)
  Has-right y [] ys h = h
  Has-right y (x ∷ xs) ys h = inr (Has-right y xs ys h)

  Has-split : (y : A) (xs ys : List A) → Has y (xs ++ ys) → Has y xs ⊎ Has y ys
  Has-split y [] ys h = inr h
  Has-split y (x ∷ xs) ys (inl e) = inl (inl e)
  Has-split y (x ∷ xs) ys (inr h) = elim (Has-split y xs ys h) [
    | inl k ↦ inl (inr k)
    | inr k ↦ inr k
  ]

  pub All-Has : (P : A → Type 0) (xs : List A) → ((y : A) → Has y xs → P y) → All P xs
  All-Has P [] f = tt
  All-Has P (x ∷ xs) f = (f x (inl refl), All-Has P xs (λ y h. f y (inr h)))

  pub Has-All : (P : A → Type 0) (xs : List A) (y : A) → All P xs → Has y xs → P y
  Has-All P [] y a h = absurd h
  Has-All P (x ∷ xs) y (a, more) (inl e) = subst P (sym e) a
  Has-All P (x ∷ xs) y (a, more) (inr h) = Has-All P xs y more h

  -- No element comes before an earlier one.
  abbrev pub Ordered : (A → A → Type 0) → List A → Type 0
  Ordered R [] = Unit
  Ordered R (x ∷ xs) = All (λ y. R y x → ⊥) xs × Ordered R xs

  Ordered-append :
      (R : A → A → Type 0) (xs ys : List A)
      → Ordered R xs
      → Ordered R ys
      → ((x y : A) → Has x xs → Has y ys → R y x → ⊥)
      → Ordered R (xs ++ ys)
  Ordered-append R [] ys h k f = k
  Ordered-append R (x ∷ xs) ys (low, h) k f = (
    All-Has (λ y. R y x → ⊥) (xs ++ ys)
        (λ y there. elim (Has-split y xs ys there) [
          | inl in_xs ↦ Has-All (λ z. R z x → ⊥) xs y low in_xs
          | inr in_ys ↦ f x y (inl refl) in_ys
        ]),
    Ordered-append R xs ys h k (λ x' y in_xs in_ys. f x' y (inr in_xs) in_ys),
  )

Has-insert_value : (y x : ℕ) (xs : List ℕ) → Has y (insert_value x xs) ↔ Has y (x ∷ xs)
unfolding insert_value
Has-insert_value y x [] = (λ h. h, λ h. h)
Has-insert_value y x (z ∷ xs) =
    let more = Has-insert_value y x xs in
    elim (Bool-cases (leb x z)) [
      | inl e ↦ rw e (λ h. h, λ h. h)
      | inr e ↦ rw e (
        λ h. elim h [
          | inl at ↦ inr (inl at)
          | inr k ↦ elim (more.0 k) [ inl at ↦ inl at | inr there ↦ inr (inr there) ]
        ],
        λ h. elim h [
          | inl at ↦ inr (more.1 (inl at))
          | inr k ↦ elim k [ inl at ↦ inl at | inr there ↦ inr (more.1 (inr there)) ]
        ],
      )
    ]

Has-sort_values : (y : ℕ) (xs : List ℕ) → Has y (sort_values xs) ↔ Has y xs
unfolding sort_values
Has-sort_values y [] = (λ h. h, λ h. h)
Has-sort_values y (x ∷ xs) =
    let more = Has-sort_values y xs in
    let put = Has-insert_value y x (sort_values xs) in
    (
      λ h. elim (put.0 h) [ inl at ↦ inl at | inr there ↦ inr (more.0 there) ],
      λ h. put.1 (elim h [ inl at ↦ inl at | inr there ↦ inr (more.1 there) ]),
    )

-- Each number is below those after it.
abbrev Rising : List ℕ → Type 0
Rising [] = Unit
Rising (x ∷ xs) = All (λ y. x < y) xs × Rising xs

insert_value-Rising :
    (x : ℕ) (xs : List ℕ) → All (λ y. x ≢ y) xs → Rising xs → Rising (insert_value x xs)
unfolding insert_value
insert_value-Rising x [] apart h = (tt, tt)
insert_value-Rising x (z ∷ xs) (off, apart) (low, h) = elim (Bool-cases (leb x z)) [
  | inl e ↦
      let under : x < z = elim (Bool-cases (eqb x z)) [
        | inl same ↦ absurd (off ((eqb_iff x z).0 same))
        | inr other ↦ ground arith
      ] in
      rw e (
        (
          under,
          All-Has (λ y. x < y) xs
              (λ y there. let up = Has-All (λ y. z < y) xs y low there in omega (arith, up, under)),
        ),
        (low, h),
      )
  | inr e ↦
      let above : z < x = ground arith in
      rw e (
        All-Has (λ y. z < y) (insert_value x xs)
            (λ y there. elim ((Has-insert_value y x xs).0 there) [
              | inl at ↦ omega (arith, at, above)
              | inr k ↦ Has-All (λ y. z < y) xs y low k
            ]),
        insert_value-Rising x xs apart h,
      )
]

sort_values-Rising : (xs : List ℕ) → IsDistinct xs → Rising (sort_values xs)
unfolding sort_values
sort_values-Rising [] h = tt
sort_values-Rising (x ∷ xs) (fresh, h) =
    insert_value-Rising x (sort_values xs)
      (All-Has (λ y. x ≢ y) (sort_values xs)
        (λ y there. Has-All (λ y. x ≢ y) xs y fresh ((Has-sort_values y xs).0 there)))
      (sort_values-Rising xs h)

Has-at_hour :
    (t : ℕ × ℕ) (hour : ℕ) (minutes : List ℕ)
    → Has t (at_hour hour minutes) ↔ ((t.0 ≡ hour) × Has t.1 minutes)
Has-at_hour t hour [] = (λ h. absurd h, λ (_, h). absurd h)
Has-at_hour (h, m) hour (minute ∷ rest) =
    let more = Has-at_hour (h, m) hour rest in
    (
      λ k. elim k [
        | inl e ↦ (ap (λ p. p.0) e, inl (ap (λ p. p.1) e))
        | inr there ↦ let (at, in_rest) = more.0 there in (at, inr in_rest)
      ],
      λ (at, k). elim k [ inl e ↦ inl (cc (at, e)) | inr there ↦ inr (more.1 (at, there)) ],
    )

Has-at_hours :
    (t : ℕ × ℕ) (hours minutes : List ℕ)
    → Has t (at_hours hours minutes) ↔ (Has t.0 hours × Has t.1 minutes)
unfolding at_hours
Has-at_hours t [] minutes = (λ h. absurd h, λ (h, _). absurd h)
Has-at_hours t (hour ∷ rest) minutes =
    let more = Has-at_hours t rest minutes in
    let here = Has-at_hour t hour minutes in
    (
      λ h. elim (Has-split t (at_hour hour minutes) (at_hours rest minutes) h) [
        | inl k ↦ let (at, in_minutes) = here.0 k in (inl at, in_minutes)
        | inr k ↦ let (in_hours, in_minutes) = more.0 k in (inr in_hours, in_minutes)
      ],
      λ (k, in_minutes). elim k [
        | inl at ↦
            Has-left t (at_hour hour minutes) (at_hours rest minutes) (here.1 (at, in_minutes))
        | inr in_hours ↦
            Has-right t (at_hour hour minutes) (at_hours rest minutes)
              (more.1 (in_hours, in_minutes))
      ],
    )

at_hour-Ordered :
    (hour : ℕ) (minutes : List ℕ) → Rising minutes → Ordered Earlier (at_hour hour minutes)
at_hour-Ordered hour [] h = tt
at_hour-Ordered hour (m ∷ rest) (low, h) = (
  All-Has (λ t. Earlier t (hour, m) → ⊥) (at_hour hour rest)
      (λ (h', m') there early.
        let (at, in_rest) = (Has-at_hour (h', m') hour rest).0 there in
        let up = Has-All (λ y. m < y) rest m' low in_rest in
        elim early [
          | inl less ↦ absurd (omega (arith, less, at))
          | inr (_, less) ↦ absurd (omega (arith, less, up))
        ]),
  at_hour-Ordered hour rest h,
)

at_hours-Ordered :
    (hours minutes : List ℕ)
    → Rising hours
    → Rising minutes
    → Ordered Earlier (at_hours hours minutes)
unfolding at_hours
at_hours-Ordered [] minutes h k = tt
at_hours-Ordered (hour ∷ rest) minutes (low, h) k =
    Ordered-append Earlier (at_hour hour minutes) (at_hours rest minutes)
      (at_hour-Ordered hour minutes k) (at_hours-Ordered rest minutes h k)
      (λ (h1, m1) (h2, m2) in_one in_rest early.
        let (at, _) = (Has-at_hour (h1, m1) hour minutes).0 in_one in
        let (there, _) = (Has-at_hours (h2, m2) rest minutes).0 in_rest in
        let up = Has-All (λ y. hour < y) rest h2 low there in
        elim early [
          | inl less ↦ absurd (omega (arith, less, up, at))
          | inr (same, _) ↦ absurd (omega (arith, same, up, at))
        ])

-- The candidates of a day are the allowed hours with the allowed minutes, in order.
pub Has-time_candidates :
    (t : ℕ × ℕ) (allowed : Cron)
    → Has t (time_candidates allowed) ↔ (Has t.0 allowed.hours × Has t.1 allowed.minutes)
unfolding time_candidates
Has-time_candidates t allowed =
    let both = Has-at_hours t (sort_values allowed.hours) (sort_values allowed.minutes) in
    let hour = Has-sort_values t.0 allowed.hours in
    let minute = Has-sort_values t.1 allowed.minutes in
    (λ h. let (a, b) = both.0 h in (hour.0 a, minute.0 b), λ (a, b). both.1 (hour.1 a, minute.1 b))

time_candidates-Ordered :
    (allowed : Cron)
    → IsDistinct allowed.hours
    → IsDistinct allowed.minutes
    → Ordered Earlier (time_candidates allowed)
unfolding time_candidates
time_candidates-Ordered allowed h k =
    at_hours-Ordered (sort_values allowed.hours) (sort_values allowed.minutes)
      (sort_values-Rising allowed.hours h) (sort_values-Rising allowed.minutes k)

abbrev pub day_slots : ℕ → List (ℕ × ℕ) → List Slot
day_slots day [] = []
day_slots day (t ∷ rest) = (day, t) ∷ day_slots day rest

-- Every candidate of so many days, in order.
abbrev pub slots : Cron → ℕ → ℕ → List Slot
slots allowed zero day = []
slots allowed (suc n) day = day_slots day (time_candidates allowed) ++ slots allowed n (day + 1)

Has-day_slots :
    (x : Slot) (day : ℕ) (times : List (ℕ × ℕ))
    → Has x (day_slots day times) ↔ ((x.0 ≡ day) × Has x.1 times)
Has-day_slots x day [] = (λ h. absurd h, λ (_, h). absurd h)
Has-day_slots (d, t) day (s ∷ rest) =
    let more = Has-day_slots (d, t) day rest in
    (
      λ k. elim k [
        | inl e ↦ (ap (λ p. p.0) e, inl (ap (λ p. p.1) e))
        | inr there ↦ let (at, in_rest) = more.0 there in (at, inr in_rest)
      ],
      λ (at, k). elim k [ inl e ↦ inl (cc (at, e)) | inr there ↦ inr (more.1 (at, there)) ],
    )

pub Has-slots :
    (x : Slot) (allowed : Cron) (n day : ℕ)
    → Has x (slots allowed n day)
      ↔ ((day ≤ x.0) × (x.0 < day + n) × Has x.1 (time_candidates allowed))
Has-slots x allowed zero day = (λ h. absurd h, λ (a, b, _). absurd (omega (arith, a, b)))
Has-slots x allowed (suc n) day =
    let today = day_slots day (time_candidates allowed) in
    let more = Has-slots x allowed n (day + 1) in
    let here = Has-day_slots x day (time_candidates allowed) in
    (
      λ h. elim (Has-split x today (slots allowed n (day + 1)) h) [
        | inl k ↦ let (at, there) = here.0 k in (omega (arith, at), omega (arith, at), there)
        | inr k ↦ let (a, b, there) = more.0 k in (omega (arith, a), omega (arith, b), there)
      ],
      λ (a, b, there). elim (Bool-cases (eqb x.0 day)) [
        | inl e ↦
            Has-left x today (slots allowed n (day + 1)) (here.1 ((eqb_iff x.0 day).0 e, there))
        | inr e ↦
            let later : day + 1 ≤ x.0 = ground arith in
            Has-right x today (slots allowed n (day + 1)) (more.1 (later, omega (arith, b), there))
      ],
    )

day_slots-Ordered :
    (day : ℕ) (times : List (ℕ × ℕ)) → Ordered Earlier times → Ordered Before (day_slots day times)
day_slots-Ordered day [] h = tt
day_slots-Ordered day (t ∷ rest) (low, h) = (
  All-Has (λ x. Before x (day, t) → ⊥) (day_slots day rest)
      (λ (d, s) there early.
        let (at, in_rest) = (Has-day_slots (d, s) day rest).0 there in
        elim early [
          | inl less ↦ absurd (omega (arith, less, at))
          | inr (_, sooner) ↦ Has-All (λ s. Earlier s t → ⊥) rest s low in_rest sooner
        ]),
  day_slots-Ordered day rest h,
)

pub slots-Ordered :
    (allowed : Cron) (n day : ℕ)
    → IsDistinct allowed.hours
    → IsDistinct allowed.minutes
    → Ordered Before (slots allowed n day)
slots-Ordered allowed zero day h k = tt
slots-Ordered allowed (suc n) day h k =
    let times = time_candidates allowed in
    Ordered-append Before (day_slots day times) (slots allowed n (day + 1))
      (day_slots-Ordered day times (time_candidates-Ordered allowed h k))
      (slots-Ordered allowed n (day + 1) h k)
      (λ (d1, t1) (d2, t2) in_one in_rest early.
        let (at, _) = (Has-day_slots (d1, t1) day times).0 in_one in
        let (low, _, _) = (Has-slots (d2, t2) allowed n (day + 1)).0 in_rest in
        elim early [
          | inl less ↦ absurd (omega (arith, less, low, at))
          | inr (same, _) ↦ absurd (omega (arith, same, low, at))
        ])
