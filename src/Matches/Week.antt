-- ===== src/Matches/Week.antt =====
-- `weekStart` of src/matches/matches.service.ts and `startOfUtcWeek` of
-- src/matches/matches.repository.ts, the same function: midnight UTC of the Monday on or before an
-- instant. 1970-01-01 was a Thursday. Instants are taken from Monday 1970-01-05 on, where
-- the subtraction is that of the integers.
use histae_api.Prelude.{ℕ, ◌+◌, ◌-◌, ◌*◌, ◌/◌, ◌%◌, ◌≤◌, ◌<◌, ◌≡◌, arith}

abbrev pub day_millis : ℕ
day_millis = 86400000

abbrev pub week_millis : ℕ
week_millis = 604800000

-- `getUTCDay()` of midnight of the n-th day since the epoch: 0 is Sunday.
abbrev pub utc_day : ℕ → ℕ
utc_day n = (n + 4) % 7

unfoldable pub start_of_utc_week : ℕ → ℕ
start_of_utc_week now = let date = now / day_millis in (date - (utc_day date + 6) % 7) * day_millis

-- The start of the week is a Monday at midnight, not after the instant, and less than seven days
-- before it.
pub start_of_utc_week_lem :
    (now : ℕ)
    → 4 * day_millis ≤ now
    → let start = start_of_utc_week now in
      (start % day_millis ≡ 0)
      × (utc_day (start / day_millis) ≡ 1)
      × (start ≤ now)
      × (now < start + week_millis)
unfolding start_of_utc_week
start_of_utc_week_lem now h = omega arith

-- Two instants of one week share its start: the instants from the start of a week, and before
-- seven days later, all have that start.
pub start_of_utc_week-same :
    (now later : ℕ)
    → 4 * day_millis ≤ now
    → start_of_utc_week now ≤ later
    → later < start_of_utc_week now + week_millis
    → start_of_utc_week later ≡ start_of_utc_week now
unfolding start_of_utc_week
start_of_utc_week-same now later h a b = omega arith
