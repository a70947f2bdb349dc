-- ===== src/Scheduler/Cron.antt =====
-- server/scheduler/cron.py: the fields of an expression, the day rule and the scan for the next
-- instant. A day is its offset from today. The calendar, the zone database and Python's `int` and
-- `isdigit` are parameters.
use local_book.Base.{
  Bool, List, Option, Result, [], contains, drop, eqb, err, false, if◌then◌else◌, leb, length, ltb,
  map, negsuc, none, not, ok, pos, some, suc, take, true, zero, ℕ, ℤ, ◌&&◌, ◌++◌, ◌+◌, ◌-◌, ◌==◌,
  ◌||◌, ◌∷◌, nat_eq, string_eq, option_eq, list_eq, ◌>>=◌,
}

-- The messages of the `ValueError`s.
pub data CronFault : Type 0 where
  field_count bad_step out_of_bounds bad_field : CronFault

-- `_FIELD_BOUNDS`
abbrev pub field_bounds : List (ℕ × ℕ)
field_bounds = (0, 59) ∷ (0, 23) ∷ (1, 31) ∷ (1, 12) ∷ (0, 7) ∷ []

-- `list(range(low, high + 1, step))`, on fuel for the length of the list.
unfoldable pub range_step : (fuel low high step : ℕ) → List ℕ
range_step zero low high step = []
range_step (suc fuel) low high step =
    let rest = range_step fuel (low + step) high step in if leb low high then low ∷ rest else []

-- The fields of an expression, by position.
pub record Cron : Type 0 where
  pub minutes : List ℕ
  pub hours : List ℕ
  pub days_of_month : List ℕ
  pub months : List ℕ
  pub days_of_week : List ℕ

module _ (to_int : List ℕ → Option ℤ) (is_digits : List ℕ → Bool) where
  abbrev pub stepped : ℕ → ℕ → Option ℤ → Result CronFault (List ℕ)
  stepped low high none = err bad_field
  stepped low high (some (negsuc _)) = err bad_step
  stepped low high (some (pos step)) =
      if ltb step 1 then err bad_step else ok (range_step (high + 1 - low) low high step)

  abbrev pub single : ℕ → ℕ → Option ℤ → Result CronFault (List ℕ)
  single low high none = err bad_field
  single low high (some (negsuc _)) = err out_of_bounds
  single low high (some (pos n)) =
      if leb low n && leb n high then ok (n ∷ []) else err out_of_bounds

  -- One field: 42 is `*` and 47 is `/`.
  unfoldable pub parse_field : ℕ → ℕ → List ℕ → Result CronFault (List ℕ)
  unfolding range_step
  parse_field low high raw =
      if raw == (42 ∷ [])
      then ok (range_step (high + 1 - low) low high 1)
      else if take 2 raw == (42 ∷ 47 ∷ [])
      then stepped low high (to_int (drop 2 raw))
      else if is_digits raw
      then single low high (to_int raw)
      else err bad_field

  unfoldable pub parse_fields : List (ℕ × ℕ) → List (List ℕ) → Result CronFault (List (List ℕ))
  unfolding parse_field
  parse_fields ((low, high) ∷ bounds) (raw ∷ rest) = do
    values ← parse_field low high raw
    more ← parse_fields bounds rest
    ok (values ∷ more)
  parse_fields _ _ = ok []

  -- `parse_cron_expression`, on the words of the expression.
  unfoldable pub parse_cron_expression : List (List ℕ) → Result CronFault (List (List ℕ))
  unfolding parse_fields
  parse_cron_expression fields =
      if not (eqb (length fields) 5) then err field_count else parse_fields field_bounds fields

-- `_day_matches`
unfoldable pub day_matches : (day_of_month month day_of_week : ℕ) → Cron → Bool
unfolding contains
day_matches day_of_month month day_of_week allowed =
    let dom_restricted = not (eqb (length allowed.days_of_month) 31) in
    let dow_restricted = not (eqb (length allowed.days_of_week) 8) in
    let sunday = eqb day_of_week 0 && contains allowed.days_of_week 7 in
    if not (contains allowed.months month)
    then false
    else if dom_restricted && dow_restricted
    then contains allowed.days_of_month day_of_month
      || contains allowed.days_of_week day_of_week
      || sunday
    else if dom_restricted
    then contains allowed.days_of_month day_of_month
    else if dow_restricted
    then contains allowed.days_of_week day_of_week || sunday
    else true

-- `sorted(values)`
unfoldable pub insert_value : ℕ → List ℕ → List ℕ
insert_value x [] = x ∷ []
insert_value x (y ∷ rest) = if leb x y then x ∷ y ∷ rest else y ∷ insert_value x rest

unfoldable pub sort_values : List ℕ → List ℕ
unfolding insert_value
sort_values [] = []
sort_values (x ∷ rest) = insert_value x (sort_values rest)

abbrev pub at_hour : ℕ → List ℕ → List (ℕ × ℕ)
at_hour hour minutes = map (λ minute. (hour, minute)) minutes

unfoldable pub at_hours : List ℕ → List ℕ → List (ℕ × ℕ)
at_hours [] minutes = []
at_hours (hour ∷ rest) minutes = at_hour hour minutes ++ at_hours rest minutes

-- `_time_candidates`
unfoldable pub time_candidates : Cron → List (ℕ × ℕ)
unfolding sort_values at_hours
time_candidates allowed = at_hours (sort_values allowed.hours) (sort_values allowed.minutes)

-- What the scan asks of the calendar and of the zone, for a day by its offset: the day of the
-- month, the month, the day of the week from Sunday, whether a wall time exists, its instant in
-- UTC; and of `after` its instant and its local hour and minute.
pub record Calendar : Type 0 where
  pub day_of_month : ℕ → ℕ
  pub month : ℕ → ℕ
  pub day_of_week : ℕ → ℕ
  pub exists : ℕ → ℕ × ℕ → Bool
  pub instant : ℕ → ℕ × ℕ → ℕ
  pub after : ℕ
  pub after_hour : ℕ
  pub after_minute : ℕ

module _ (calendar : Calendar) (allowed : Cron) where
  open calendar use {day_of_month, month, day_of_week, exists, instant, after}

  -- `(hour, minute) > (after_local.hour, after_local.minute)`
  abbrev pub later_today : ℕ × ℕ → Bool
  later_today (hour, minute) =
      ltb calendar.after_hour hour
      || eqb calendar.after_hour hour && ltb calendar.after_minute minute

  -- The candidates from `start_index` on.
  unfoldable pub from_start : List (ℕ × ℕ) → List (ℕ × ℕ)
  from_start [] = []
  from_start (t ∷ rest) = if later_today t then t ∷ rest else from_start rest

  -- The loop over the times of a day.
  unfoldable pub try_times : ℕ → List (ℕ × ℕ) → Option ℕ
  try_times day [] = none
  try_times day (t ∷ rest) =
      let more = try_times day rest in
      if exists day t && ltb after (instant day t) then some (instant day t) else more

  abbrev pub day_allowed : ℕ → Bool
  day_allowed day = day_matches (day_of_month day) (month day) (day_of_week day) allowed

  abbrev pub times_of : ℕ → List (ℕ × ℕ)
  times_of day = if eqb day 0 then from_start (time_candidates allowed) else time_candidates allowed

  -- The loop over the days.
  unfoldable pub scan_days : ℕ → ℕ → Option ℕ
  unfolding day_matches from_start try_times time_candidates
  scan_days zero day = none
  scan_days (suc n) day =
      let rest = scan_days n (day + 1) in
      if not (day_allowed day)
      then rest
      else elim (try_times day (times_of day)) [ some t ↦ some t | none ↦ rest ]

  -- `next_cron_fire`, for a parsed expression; 400 is `_SCAN_DAYS`.
  unfoldable pub next_cron_fire : Option ℕ
  unfolding scan_days
  next_cron_fire = scan_days 400 0
