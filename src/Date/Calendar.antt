-- ===== src/Date/Calendar.antt =====
-- The epoch follows the Gregorian calendar.
use mathlib.Core.Path.{subst}
use mini_agent_os.Base.{
  ℕ, zero, suc, ◌+◌, ◌-◌, ◌*◌, ◌/◌, ◌%◌, ◌≤◌, ◌<◌, false, ◌&&◌, ◌||◌, ◌≡◌, sym, ap, ◌∙◌, arith,
  Option, none, some, ltb, ◌==◌, if◌then◌else◌, Bool-cases, inl, inr,
}
use mini_agent_os.Date.{is_leap, month_start, days_before_month, years_loop, date_to_epoch}

-- The leap day of the Gregorian calendar, by centuries: the last year of a century has one if the
-- number of the century is a multiple of four, and any other year if its own number is.
unfoldable pub leap_day : ℕ → ℕ
leap_day year =
    if year % 100 == 0 then if year / 100 % 4 == 0 then 1 else 0 else if year % 4 == 0 then 1 else 0

-- The length of a month.
unfoldable pub month_length : ℕ → ℕ → ℕ
unfolding leap_day
month_length year month =
    if month == 2
    then 28 + leap_day year
    else if month == 4 || month == 6 || month == 9 || month == 11
    then 30
    else 31

-- The calendar day that follows: the next of the month, the first of the next month, or the first
-- of the next year.
unfoldable pub next_day : ℕ → ℕ → ℕ → ℕ × ℕ × ℕ
next_day year month day =
    if ltb day (month_length year month)
    then (year, month, day + 1)
    else if ltb month 12
    then (year, month + 1, 1)
    else (year + 1, 1, 1)

-- The test of the program finds the leap years of the calendar.
is_leap-leap_day : (year : ℕ) → leap_day year ≡ (if is_leap year then 1 else 0)
unfolding leap_day is_leap
is_leap-leap_day year = ground arith

or_zero : Option ℕ → ℕ
or_zero none = 0
or_zero (some n) = n

-- The days in front of a month, as a number.
abbrev start_of : ℕ → ℕ → ℕ
start_of year month = or_zero (month_start month) + (if is_leap year && ltb 2 month then 1 else 0)

abbrev year_length : ℕ → ℕ
year_length year = if is_leap year then 366 else 365

start_of_next :
    (year month : ℕ)
    → 1 ≤ month
    → month < 12
    → start_of year (month + 1) ≡ start_of year month + month_length year month
unfolding month_start or_zero month_length
start_of_next year month lo hi = ground (arith, is_leap-leap_day year)

start_of_december : (year : ℕ) → start_of year 12 + month_length year 12 ≡ year_length year
unfolding month_start or_zero month_length
start_of_december year = ground (arith, is_leap-leap_day year)

start_of_january : (year : ℕ) → start_of year 1 ≡ 0
unfolding month_start or_zero
start_of_january year = ground arith

years_loop_last :
    (left y : ℕ) → years_loop (suc left) y ≡ years_loop left y + year_length (y + left)
unfolding years_loop
years_loop_last zero y =
    let e : year_length y ≡ year_length (y + 0) = ap (λ (k : ℕ). year_length k) (omega arith) in
    omega (arith, e)
years_loop_last (suc left) y =
    let e : year_length (suc y + left) ≡ year_length (y + suc left) =
      ap (λ (k : ℕ). year_length k) (omega arith) in
    omega (arith, e, years_loop_last left (suc y))

-- The number of the day, counted from 1970.
abbrev day_number : ℕ → ℕ → ℕ → ℕ
day_number year month day = years_loop (year - 1970) 1970 + start_of year month + (day - 1)

-- A date of the calendar from 1970 on.
abbrev pub IsDate : ℕ → ℕ → ℕ → Type 0
IsDate year month day =
    (1970 ≤ year) × (1 ≤ month) × (month ≤ 12) × (1 ≤ day) × (day ≤ month_length year month)

month_start-some :
    (month : ℕ) → 1 ≤ month → month ≤ 12 → month_start month ≡ some (or_zero (month_start month))
unfolding month_start or_zero
month_start-some month lo hi = ground arith

date_to_epoch-day_number :
    (year month day hour min sec : ℕ)
    → IsDate year month day
    → date_to_epoch year month day hour min sec
      ≡ some (day_number year month day * 86_400 + hour * 3600 + min * 60 + sec)
unfolding date_to_epoch days_before_month month_length or_zero
date_to_epoch-day_number year month day hour min sec v =
    let e = month_start-some month v.1 v.2 in
    let g : (ltb year 1970 || month == 0 || ltb 12 month || day == 0 || ltb 31 day) ≡ false =
      ground (arith, v) in
    rw (g, e)

abbrev number_of : ℕ × ℕ × ℕ → ℕ
number_of d = day_number d.0 d.1 d.2

abbrev IsNext : ℕ → ℕ → ℕ → ℕ × ℕ × ℕ → Type 0
IsNext year month day d = (number_of d ≡ day_number year month day + 1) × (IsDate d.0 d.1 d.2)

month_length_pos : (year month : ℕ) → 28 ≤ month_length year month
unfolding month_length
month_length_pos year month = ground arith

same_month :
    (year month day : ℕ)
    → IsDate year month day
    → day < month_length year month
    → IsNext year month day (year, month, day + 1)
same_month year month day v l = (omega (arith, v.3), (v.0, v.1, v.2, omega arith, omega (arith, l)))

month_ends :
    (year month day : ℕ)
    → IsDate year month day
    → month_length year month ≤ day
    → month < 12
    → IsNext year month day (year, month + 1, 1)
month_ends year month day v l m = (
  omega (arith, start_of_next year month v.1 m, v.3, v.4, l),
  (
    v.0,
    omega arith,
    omega (arith, m),
    omega arith,
    omega (arith, month_length_pos year (month + 1)),
  ),
)

year_ends :
    (year month day : ℕ)
    → IsDate year month day
    → month_length year month ≤ day
    → 12 ≤ month
    → IsNext year month day (year + 1, 1, 1)
year_ends year month day v l m =
    let december : month ≡ 12 = omega (arith, v.2) in
    let a =
      ap (λ (k : ℕ). start_of year k + month_length year k) december ∙ start_of_december year in
    let b : years_loop (year + 1 - 1970) 1970 ≡ years_loop (suc (year - 1970)) 1970 =
      ap (λ (k : ℕ). years_loop k 1970) (omega (arith, v.0)) in
    let c = years_loop_last (year - 1970) 1970 in
    let d : year_length (1970 + (year - 1970)) ≡ year_length year =
      ap (λ (k : ℕ). year_length k) (omega (arith, v.0)) in
    (
      omega (arith, a, b, c, d, start_of_january (year + 1), v.3, v.4, l),
      (
        omega (arith, v.0),
        omega arith,
        omega arith,
        omega arith,
        omega (arith, month_length_pos (year + 1) 1),
      ),
    )

next_day-IsNext :
    (year month day : ℕ) → IsDate year month day → IsNext year month day (next_day year month day)
unfolding next_day
next_day-IsNext year month day v = elim (Bool-cases (ltb day (month_length year month))) [
  | inl e ↦
      let n : next_day year month day ≡ (year, month, day + 1) = rw e in
      subst (IsNext year month day) (sym n) (same_month year month day v (ground arith))
  | inr e ↦ elim (Bool-cases (ltb month 12)) [
    | inl f ↦
        let n : next_day year month day ≡ (year, month + 1, 1) = rw (e, f) in
        subst (IsNext year month day) (sym n)
          (month_ends year month day v (ground arith) (ground arith))
    | inr f ↦
        let n : next_day year month day ≡ (year + 1, 1, 1) = rw (e, f) in
        subst (IsNext year month day) (sym n)
          (year_ends year month day v (ground arith) (ground arith))
  ]
]

-- The first day of the epoch.
date_to_epoch-first_day :
    (hour min sec : ℕ) → date_to_epoch 1970 1 1 hour min sec ≡ some (hour * 3600 + min * 60 + sec)
unfolding date_to_epoch days_before_month month_start years_loop is_leap
date_to_epoch-first_day hour min sec = ap some (omega arith)

-- The epoch of the first day of 1970 is the time of the day, and for every date of the Gregorian
-- calendar from then on, at any time of the day, the epoch of the calendar day that follows is 86400
-- seconds later.
pub date_to_epoch-next_day :
    (year month day hour min sec : ℕ)
    → IsDate year month day
    → (date_to_epoch 1970 1 1 hour min sec ≡ some (hour * 3600 + min * 60 + sec))
      × ((e : ℕ) × (date_to_epoch year month day hour min sec ≡ some e)
          × (date_to_epoch
                (next_day year month day).0
                (next_day year month day).1
                (next_day year month day).2
                hour
                min
                sec
              ≡ some (e + 86_400)))
date_to_epoch-next_day year month day hour min sec v =
    let (next, valid) = next_day-IsNext year month day v in
    let d = next_day year month day in
    (
      date_to_epoch-first_day hour min sec,
      (
        day_number year month day * 86_400 + hour * 3600 + min * 60 + sec,
        date_to_epoch-day_number year month day hour min sec v,
        date_to_epoch-day_number d.0 d.1 d.2 hour min sec valid ∙ ap some (omega (arith, next)),
      ),
    )
