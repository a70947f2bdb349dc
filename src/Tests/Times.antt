-- ===== src/Tests/Times.antt =====
-- The expression `5 5 5 5 5`, and a calendar of days of 1440 minutes in one zone.
use local_book.Base.{
  Bool, List, Option, [], arith, inl, inr, min, pos, refl, some, true, ℕ, ℤ, ◌%◌, ◌*◌, ◌+◌, ◌<◌,
  ◌∷◌, ◌≡◌, ◌≤◌, ◌⊎◌, nat_eq, string_eq, option_eq, list_eq,
}
use local_book.Scheduler.Cron.{Calendar, Cron, field_bounds, next_cron_fire, parse_cron_expression}
use local_book.Scheduler.Slots.{Has}
use local_book.Scheduler.NextFire.{IsNext, next_cron_fire-IsNext}
use local_book.Scheduler.Fields.{Within, parse_cron_expression-Within}

abbrev five : List ℕ → Option ℤ
five t = some (pos 5)

abbrev digits : List ℕ → Bool
digits t = true

abbrev fives : List (List ℕ)
fives = (53 ∷ []) ∷ (53 ∷ []) ∷ (53 ∷ []) ∷ (53 ∷ []) ∷ (53 ∷ []) ∷ []

abbrev values : List (List ℕ)
values = (5 ∷ []) ∷ (5 ∷ []) ∷ (5 ∷ []) ∷ (5 ∷ []) ∷ (5 ∷ []) ∷ []

parse_cron_expression-Within_example : Within field_bounds values
unfolding parse_cron_expression
parse_cron_expression-Within_example = parse_cron_expression-Within five digits fives values refl

-- Half past nine on the first days of the week.
abbrev weekly : Cron
weekly = record {
  minutes = 30 ∷ [];
  hours = 9 ∷ [];
  days_of_month = 15 ∷ [];
  months = 1 ∷ [];
  days_of_week = 1 ∷ 7 ∷ [];
}

abbrev minute_of : ℕ → ℕ × ℕ → ℕ
minute_of day (hour, minute) = day * 1440 + (hour * 60 + min minute 59)

-- Ten o'clock on a Saturday, the tenth of a month.
abbrev calendar : Calendar
calendar = record {
  day_of_month = λ day. day + 10;
  month = λ day. 1;
  day_of_week = λ day. (day + 6) % 7;
  exists = λ day t. true;
  instant = minute_of;
  after = 600;
  after_hour = 10;
  after_minute = 0;
}

past :
    (hour minute : ℕ)
    → Has hour weekly.hours
    → Has minute weekly.minutes
    → calendar.exists 0 (hour, minute) ≡ true
    → (hour < 10) ⊎ ((hour ≡ 10) × (minute ≤ 0))
    → minute_of 0 (hour, minute) ≤ 600
past hour minute a b real sooner = elim sooner [
  | inl h ↦ omega (arith, h)
  | inr (h, k) ↦ omega (arith, h, k)
]

next_cron_fire-IsNext_example : IsNext calendar weekly (next_cron_fire calendar weekly)
next_cron_fire-IsNext_example = next_cron_fire-IsNext calendar weekly past (tt, tt) (tt, tt)

-- The next day, a Sunday that the expression writes as 7.
next_is_sunday : next_cron_fire calendar weekly ≡ some 2010
unfolding next_cron_fire
next_is_sunday = refl
