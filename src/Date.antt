-- ===== src/Date.antt =====
-- The calendar of runtime/src/main.rs, by which the clock for signed requests is set.
pub mod Calendar
pub mod Http
use mini_agent_os.Base.{
  ℕ, zero, suc, ◌+◌, ◌-◌, ◌*◌, ◌%◌, Bool, true, false, ◌&&◌, ◌||◌, not, Option, none, some, ltb,
  leb, ◌==◌, if◌then◌else◌,
}
use mini_agent_os.Json.{◌>>=◌}

unfoldable pub is_leap : ℕ → Bool
is_leap year = year % 4 == 0 && not (year % 100 == 0) || year % 400 == 0

-- The table of the month's first day, in a year that is not leap.
unfoldable pub month_start : ℕ → Option ℕ
month_start month =
    if month == 1
    then some 0
    else if month == 2
    then some 31
    else if month == 3
    then some (31 + 28)
    else if month == 4
    then some (31 + 28 + 31)
    else if month == 5
    then some (31 + 28 + 31 + 30)
    else if month == 6
    then some (31 + 28 + 31 + 30 + 31)
    else if month == 7
    then some (31 + 28 + 31 + 30 + 31 + 30)
    else if month == 8
    then some (31 + 28 + 31 + 30 + 31 + 30 + 31)
    else if month == 9
    then some (31 + 28 + 31 + 30 + 31 + 30 + 31 + 31)
    else if month == 10
    then some (31 + 28 + 31 + 30 + 31 + 30 + 31 + 31 + 30)
    else if month == 11
    then some (31 + 28 + 31 + 30 + 31 + 30 + 31 + 31 + 30 + 31)
    else if month == 12
    then some (31 + 28 + 31 + 30 + 31 + 30 + 31 + 31 + 30 + 31 + 30)
    else none

unfoldable pub days_before_month : ℕ → ℕ → Option ℕ
days_before_month year month = do
  days ← month_start month
  some (days + (if is_leap year && ltb 2 month then 1 else 0))

-- The loop over the years, `left` of them from `y` on.
unfoldable pub years_loop : ℕ → ℕ → ℕ
years_loop zero y = 0
years_loop (suc left) y = (if is_leap y then 366 else 365) + years_loop left (suc y)

-- `sec` may be 60 or more, and `day` may exceed its month: the source tests no more than this.
unfoldable pub date_to_epoch : ℕ → ℕ → ℕ → ℕ → ℕ → ℕ → Option ℕ
date_to_epoch year month day hour min sec =
    if ltb year 1970 || month == 0 || ltb 12 month || day == 0 || ltb 31 day then none else do
      month_days ← days_before_month year month
      some (
          (years_loop (year - 1970) 1970 + month_days + (day - 1)) * 86_400
          + hour * 3600
          + min * 60
          + sec)
