-- ===== src/Tests/Mem.antt =====
-- Runs of the memory routines and the calendar.
use mini_agent_os.Date.Http.Text.{http_text, parse_http_date-http_text}
use mini_agent_os.Date.Http.{parse_http_date}
use mini_agent_os.Base.{◌+◌, ◌-◌, ◌*◌, ℕ, ◌≡◌, refl, arith, some, codes, ◌≤◌, if◌then◌else◌}
use mini_agent_os.Date.Calendar.{date_to_epoch-next_day, leap_day, next_day, month_length}
use mini_agent_os.Date.{date_to_epoch, days_before_month, is_leap, month_start, years_loop}
use mini_agent_os.Mem.Copy.{in_range, memmove_lem}
use mini_agent_os.Mem.{Memory, memmove}

-- Each byte is its address.
abbrev counting : Memory
counting = λ x. x

memmove_lem_example :
    memmove 102 100 4 counting 104
    ≡ (if in_range 102 4 104 then counting (100 + (104 - 102)) else counting 104)
memmove_lem_example = memmove_lem 102 100 4 counting 104

epoch_runs : date_to_epoch 2024 2 29 12 30 15 ≡ some 1_709_209_815
unfolding date_to_epoch days_before_month is_leap month_start years_loop
epoch_runs = refl

-- The last year of a century without a leap day.
date_to_epoch-next_day_example :
    (date_to_epoch 1970 1 1 23 59 59 ≡ some (23 * 3600 + 59 * 60 + 59))
    × ((e : ℕ) × (date_to_epoch 2100 2 28 23 59 59 ≡ some e)
        × (date_to_epoch
              (next_day 2100 2 28).0
              (next_day 2100 2 28).1
              (next_day 2100 2 28).2
              23
              59
              59
            ≡ some (e + 86_400)))
unfolding month_length
date_to_epoch-next_day_example =
    date_to_epoch-next_day 2100 2 28 23 59 59
      (omega arith, omega arith, omega arith, omega arith, long)
  where
    long : 28 ≤ month_length 2100 2
    long = omega arith

next_day_run : next_day 2100 2 28 ≡ (2100, 3, 1)
unfolding next_day month_length leap_day
next_day_run = refl

parse_http_date-http_text_example :
    parse_http_date (http_text (codes "Sun") 6 11 1994 8 49 37) ≡ date_to_epoch 1994 11 6 8 49 37
parse_http_date-http_text_example =
    parse_http_date-http_text (codes "Sun") 6 11 1994 8 49 37
      ((λ e. omega (arith, e)), ((λ e. omega (arith, e)), ((λ e. omega (arith, e)), tt)))
      (omega arith) (omega arith) (omega arith) (omega arith) (omega arith) (omega arith)
      (omega arith)
