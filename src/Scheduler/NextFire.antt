-- ===== src/Scheduler/NextFire.antt =====
-- The scan for the next instant, against all days and times.
use local_book.Base.{
  All, Bool, Bool-cases, IsDistinct, List, Option, Option-cases, [], ap, arith, eqb, false,
  if◌then◌else◌, inl, inr, ltb, none, refl, some, subst, suc, sym, true, zero, ℕ, ◌&&◌, ◌++◌, ◌+◌,
  ◌<◌, ◌||◌, ◌↔◌, ◌∙◌, ◌∷◌, ◌≡◌, ◌≤◌, ◌⊎◌, nat_eq, string_eq, option_eq, list_eq,
}
use Prim.{⊥}
use local_book.Scheduler.Slots.{
  All-Has, Before, Has, Has-All, Has-slots, Has-time_candidates, Ordered, Slot, day_slots, slots,
  slots-Ordered,
}
use local_book.Scheduler.Cron.{
  Calendar, Cron, day_allowed, from_start, later_today, next_cron_fire, scan_days, time_candidates,
  times_of, try_times,
}

module _ {A : Type 0} where
  -- The first element that a test accepts.
  abbrev find : (A → Bool) → List A → Option A
  find test [] = none
  find test (x ∷ rest) = if test x then some x else find test rest

abbrev or_first : {A : Type 0} → Option A → Option A → Option A
or_first none y = y
or_first (some x) y = some x

find-append :
    {A : Type 0} (test : A → Bool) (xs ys : List A)
    → find test (xs ++ ys) ≡ or_first (find test xs) (find test ys)
find-append test [] ys = refl
find-append test (x ∷ xs) ys = elim (Bool-cases (test x)) [
  | inl e ↦ rw e refl
  | inr e ↦ rw e (find-append test xs ys)
]

-- What is not after a time of the day is before it, or at it.
not_later :
    (h m h' m' : ℕ) → (ltb h' h || eqb h' h && ltb m' m) ≡ false → (h < h') ⊎ ((h ≡ h') × (m ≤ m'))
not_later h m h' m' e = elim (Bool-cases (ltb h h')) [
  | inl less ↦ inl (ground arith)
  | inr not_less ↦ inr (ground arith, ground arith)
]

day_bound : (y x : Slot) (n : ℕ) → x.0 < n → Before y x → y.0 < n
day_bound (d, t) (d', t') n near early = elim early [
  | inl less ↦ omega (arith, less, near)
  | inr (same, _) ↦ omega (arith, same, near)
]

module _ (calendar : Calendar) (allowed : Cron) where
  open calendar use {exists, instant, after}

  -- A slot on an allowed day, whose wall time exists and lies after `after`.
  abbrev fires_at : Slot → Bool
  fires_at (day, t) =
      day_allowed calendar allowed day && (exists day t && ltb after (instant day t))

  abbrev instant_of : Option Slot → Option ℕ
  instant_of none = none
  instant_of (some (day, t)) = some (instant day t)

  instant_of-or_first :
      (x y : Option Slot) → instant_of (or_first x y) ≡ or_first (instant_of x) (instant_of y)
  instant_of-or_first none y = refl
  instant_of-or_first (some x) y = refl

  try_times-find :
      (day : ℕ) (times : List (ℕ × ℕ))
      → day_allowed calendar allowed day ≡ true
      → try_times calendar allowed day times ≡ instant_of (find fires_at (day_slots day times))
  unfolding try_times
  try_times-find day [] h = refl
  try_times-find day (t ∷ rest) h = elim (Bool-cases (exists day t && ltb after (instant day t))) [
    | inl e ↦ rw (e, try_times, h) refl
    | inr e ↦ rw (e, try_times, h) (try_times-find day rest h)
  ]

  no_find :
      (day : ℕ) (times : List (ℕ × ℕ))
      → day_allowed calendar allowed day ≡ false
      → find fires_at (day_slots day times) ≡ none
  no_find day [] h = refl
  no_find day (t ∷ rest) h = rw h (no_find day rest h)

  -- A candidate that the start index skips would not fire.
  abbrev Skippable : ℕ × ℕ → Type 0
  Skippable t = later_today calendar allowed t ≡ false → exists 0 t ≡ true → instant 0 t ≤ after

  try_times-from_start :
      (times : List (ℕ × ℕ))
      → All Skippable times
      → try_times calendar allowed 0 (from_start calendar allowed times)
        ≡ try_times calendar allowed 0 times
  unfolding try_times from_start
  try_times-from_start [] past = refl
  try_times-from_start (t ∷ rest) (here, past) =
      elim (Bool-cases (later_today calendar allowed t)) [
        | inl e ↦ rw (e, from_start) refl
        | inr e ↦
            let skip : (exists 0 t && ltb after (instant 0 t)) ≡ false =
              elim (Bool-cases (exists 0 t)) [
                | inr gone ↦ rw gone refl
                | inl there ↦ let p = here e there in ground arith
              ] in
            rw (e, from_start) (try_times-from_start rest past ∙ rw (skip, try_times) refl)
      ]

  times_of-whole :
      (day : ℕ)
      → All Skippable (time_candidates allowed)
      → try_times calendar allowed day (times_of calendar allowed day)
        ≡ try_times calendar allowed day (time_candidates allowed)
  times_of-whole zero past = try_times-from_start (time_candidates allowed) past
  times_of-whole (suc day) past = let z : eqb (suc day) 0 ≡ false = ground arith in rw z refl

  scan_days-find :
      (n day : ℕ)
      → All Skippable (time_candidates allowed)
      → scan_days calendar allowed n day ≡ instant_of (find fires_at (slots allowed n day))
  unfolding scan_days
  scan_days-find zero day past = refl
  scan_days-find (suc n) day past =
      let times = time_candidates allowed in
      let rest = scan_days-find n (day + 1) past in
      let whole =
        ap instant_of (find-append fires_at (day_slots day times) (slots allowed n (day + 1)))
        ∙ instant_of-or_first (find fires_at (day_slots day times))
            (find fires_at (slots allowed n (day + 1))) in
      elim (Bool-cases (day_allowed calendar allowed day)) [
        | inr e ↦ rw (e, scan_days) (rest ∙ sym (whole ∙ rw (no_find day times e) refl))
        | inl e ↦
            let today = times_of-whole day past ∙ try_times-find day times e in
            rw (e, scan_days, today)
              (elim (Option-cases (find fires_at (day_slots day times))) [
                | inl f ↦ rw f (rest ∙ sym (whole ∙ rw f refl))
                | inr (slot, f) ↦ rw f (sym (whole ∙ rw f refl))
              ])
      ]

  scan_find :
      All Skippable (time_candidates allowed)
      → next_cron_fire calendar allowed ≡ instant_of (find fires_at (slots allowed 400 0))
  unfolding next_cron_fire
  scan_find past = scan_days-find 400 0 past

  -- A slot at which a task may fire: an allowed hour and minute of an allowed day, whose wall time
  -- exists and lies after `after`.
  abbrev pub Fires : Slot → Type 0
  Fires (day, (hour, minute)) =
      Has hour allowed.hours
      × Has minute allowed.minutes
      × (day_allowed calendar allowed day ≡ true)
      × (exists day (hour, minute) ≡ true)
      × (after < instant day (hour, minute))

  -- The instant of the first such slot of 400 days, or that there is none.
  abbrev pub IsNext : Option ℕ → Type 0
  IsNext none = (x : Slot) → x.0 < 400 → Fires x → ⊥
  IsNext (some n) =
      (x : Slot) × (instant x.0 x.1 ≡ n)
      × (x.0 < 400)
      × Fires x
      × ((y : Slot) → Fires y → Before y x → ⊥)

  Fires-fires_at :
      (x : Slot) (n : ℕ) → (Has x (slots allowed n 0) × (fires_at x ≡ true)) ↔ (x.0 < n × Fires x)
  Fires-fires_at (day, (hour, minute)) n =
      let place = Has-slots (day, (hour, minute)) allowed n 0 in
      let time = Has-time_candidates (hour, minute) allowed in
      (
        λ (there, e).
            let (_, near, candidate) = place.0 there in
            let (a, b) = time.0 candidate in
            (omega (arith, near), (a, b, ground arith, ground arith, ground arith)),
        λ (near, (a, b, on, real, late)).
            (place.1 (omega arith, omega (arith, near), time.1 (a, b)), ground arith),
      )

  find-none :
      (xs : List Slot) → find fires_at xs ≡ none → (y : Slot) → Has y xs → fires_at y ≡ true → ⊥
  find-none [] h y there fires = there
  find-none (x ∷ xs) h y there fires = elim (Bool-cases (fires_at x)) [
    | inl e ↦ cc (rw e at h)
    | inr e ↦ elim there [
      | inl at ↦ cc (ap fires_at at, e, fires)
      | inr later ↦ find-none xs (rw e at h) y later fires
    ]
  ]

  later_first : (x y : Slot) → y ≡ x → Before y x → ⊥
  later_first (d, (h, m)) (d', (h', m')) same early =
      let day = ap (λ s. s.0) same in
      let hour = ap (λ s. s.1.0) same in
      let minute = ap (λ s. s.1.1) same in
      elim early [
        | inl less ↦ absurd (omega (arith, less, day))
        | inr (_, inl less) ↦ absurd (omega (arith, less, hour))
        | inr (_, inr (_, less)) ↦ absurd (omega (arith, less, minute))
      ]

  find-first :
      (xs : List Slot) (x : Slot)
      → Ordered Before xs
      → find fires_at xs ≡ some x
      → Has x xs
        × (fires_at x ≡ true)
        × ((y : Slot) → Has y xs → fires_at y ≡ true → Before y x → ⊥)
  find-first [] x low h = cc h
  find-first (z ∷ xs) x (low, ordered) h = elim (Bool-cases (fires_at z)) [
    | inl e ↦
        let same : z ≡ x = cc (rw e at h) in
        (
          inl (sym same),
          ap fires_at (sym same) ∙ e,
          λ y there fires early. elim there [
            | inl at ↦ later_first x y (at ∙ same) early
            | inr later ↦
                Has-All (λ s. Before s z → ⊥) xs y low later
                  (subst (λ s. Before y s) (sym same) early)
          ],
        )
    | inr e ↦
        let (there, fires, first) = find-first xs x ordered (rw e at h) in
        (
          inr there,
          fires,
          λ y at_y fires_y early. elim at_y [
            | inl at ↦ cc (ap fires_at at, e, fires_y)
            | inr later ↦ first y later fires_y early
          ],
        )
  ]

  found_at :
      IsDistinct allowed.hours
      → IsDistinct allowed.minutes
      → IsNext (instant_of (find fires_at (slots allowed 400 0)))
  found_at hours minutes = elim (Option-cases (find fires_at (slots allowed 400 0))) [
    | inl e ↦ rw e (λ x near fires.
        let (there, ok_x) = (Fires-fires_at x 400).1 (near, fires) in
        find-none (slots allowed 400 0) e x there ok_x)
    | inr (x, e) ↦
        let (there, ok_x, first) =
          find-first (slots allowed 400 0) x (slots-Ordered allowed 400 0 hours minutes) e in
        let (near, fires) = (Fires-fires_at x 400).0 (there, ok_x) in
        rw e (
          x,
          refl,
          near,
          fires,
          λ y fires_y early.
              let soon : y.0 < 400 = day_bound y x 400 near early in
              let (there_y, ok_y) = (Fires-fires_at y 400).1 (soon, fires_y) in
              first y there_y ok_y early,
        )
  ]

  -- Where every allowed time of today that exists and is not later than the local time of `after`
  -- has an instant that is not after `after`, and no hour and no minute is listed twice,
  -- `next_cron_fire` is the instant of the first slot that fires: an allowed hour and minute of an
  -- allowed day, whose wall time exists and lies after `after`, such that no slot that fires comes
  -- before it in the order of days, hours and minutes. It is none exactly if no slot of 400 days
  -- fires.
  pub next_cron_fire-IsNext :
      ((hour minute : ℕ)
        → Has hour allowed.hours
        → Has minute allowed.minutes
        → exists 0 (hour, minute) ≡ true
        → (hour < calendar.after_hour)
          ⊎ ((hour ≡ calendar.after_hour) × (minute ≤ calendar.after_minute))
        → instant 0 (hour, minute) ≤ after)
      → IsDistinct allowed.hours
      → IsDistinct allowed.minutes
      → IsNext (next_cron_fire calendar allowed)
  next_cron_fire-IsNext past hours minutes =
      subst IsNext
        (sym (
          scan_find (
            All-Has Skippable (time_candidates allowed) (λ (hour, minute) there e real.
              let (a, b) = (Has-time_candidates (hour, minute) allowed).0 there in
              past hour minute a b real
                (not_later hour minute calendar.after_hour calendar.after_minute e)))))
        (found_at hours minutes)
