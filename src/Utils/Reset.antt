-- ===== src/Utils/Reset.antt =====
-- utils/utils.go: the day on which the monthly traffic was last reset. A date is a day at midnight.
use mango_agent.Base.{ℕ, ◌+◌, ◌-◌, Bool, not, ◌&&◌, ◌||◌, if◌then◌else◌, ltb, leb, ◌==◌}

pub record Date : Type 0 where
  pub year : ℕ
  pub month : ℕ
  pub day : ℕ

abbrev pub date : ℕ → ℕ → ℕ → Date
date year month day = record { year = year; month = month; day = day }

-- `Before` for a time on the first day and midnight of the second.
unfoldable pub is_before : Date → Date → Bool
is_before a b =
    ltb a.year b.year
    || (a.year == b.year && (ltb a.month b.month || (a.month == b.month && ltb a.day b.day)))

-- `last_day` is the number of the last day of a month of a year.
module _ (last_day : ℕ → ℕ → ℕ) where
  unfoldable pub get_actual_reset_date : ℕ → ℕ → ℕ → Date
  get_actual_reset_date year month reset_day =
      if leb reset_day (last_day year month)
      then date year month reset_day
      else if ltb 12 (month + 1)
      then date (year + 1) 1 1
      else date year (month + 1) 1

  -- `GetLastResetDate`
  unfoldable pub get_last_reset_date : ℕ → Date → Date
  get_last_reset_date reset_day current =
      let this_month = get_actual_reset_date current.year current.month reset_day in
      if ltb reset_day 1 || ltb 31 reset_day
      then current
      else if not (is_before current this_month)
      then this_month
      else if ltb (current.month - 1) 1
      then get_actual_reset_date (current.year - 1) 12 reset_day
      else get_actual_reset_date current.year (current.month - 1) reset_day
