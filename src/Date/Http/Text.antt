-- ===== src/Date/Http/Text.antt =====
-- The date of an HTTP response is read as the epoch that it denotes.
use mini_agent_os.Ascii.{ascii_lower, is_ascii_digit, is_space, skip_spaces}
use mini_agent_os.Base.{
  ℕ, ◌+◌, ◌/◌, ◌%◌, ◌≤◌, ◌<◌, true, false, [], ◌∷◌, ◌++◌, ◌≡◌, ◌≢◌, refl, arith, some, ltb, ◌==◌,
  if◌then◌else◌, length, length-append, All, Bytes, codes,
}
use mini_agent_os.Date.Http.{
  parse_2digits, digits_4, parse_4digits, month_of, parse_month, skip_byte, behind_comma,
  parse_fields, parse_http_date,
}
use mini_agent_os.Date.{date_to_epoch}

-- Two and four decimal digits.
abbrev pub two : ℕ → Bytes → Bytes
two n rest = (b'0' + n / 10) ∷ (b'0' + n % 10) ∷ rest

abbrev pub four : ℕ → Bytes → Bytes
four n rest =
    (b'0' + n / 1000) ∷ (b'0' + n / 100 % 10) ∷ (b'0' + n / 10 % 10) ∷ (b'0' + n % 10) ∷ rest

abbrev pub month_name : ℕ → Bytes
month_name month =
    if month == 1
    then codes "Jan"
    else if month == 2
    then codes "Feb"
    else if month == 3
    then codes "Mar"
    else if month == 4
    then codes "Apr"
    else if month == 5
    then codes "May"
    else if month == 6
    then codes "Jun"
    else if month == 7
    then codes "Jul"
    else if month == 8
    then codes "Aug"
    else if month == 9
    then codes "Sep"
    else if month == 10
    then codes "Oct"
    else if month == 11
    then codes "Nov"
    else codes "Dec"

parse_2digits-two : (n : ℕ) (rest : Bytes) → n < 100 → parse_2digits (two n rest) ≡ some (n, rest)
unfolding parse_2digits is_ascii_digit
parse_2digits-two n rest h = ground arith

parse_4digits-four :
    (n : ℕ) (rest : Bytes) → n < 10_000 → parse_4digits (four n rest) ≡ some (n, rest)
unfolding parse_4digits digits_4 is_ascii_digit
parse_4digits-four n rest h = ground arith

parse_month-month_name :
    (month : ℕ) (rest : Bytes)
    → 1 ≤ month
    → month ≤ 12
    → parse_month (month_name month ++ rest) ≡ some (month, rest)
unfolding parse_month month_of ascii_lower
parse_month-month_name month rest lo hi = ground arith

length-month_name : (month : ℕ) → length (month_name month) ≡ 3
length-month_name month = ground arith

behind_comma-append :
    (name rest : Bytes) → All (λ b. b ≢ b',') name → behind_comma (name ++ b',' ∷ rest) ≡ rest
unfolding behind_comma
behind_comma-append [] rest h = refl
behind_comma-append (b ∷ name) rest h =
    let e : (b == b',') ≡ false = let ne = h.0 in ground arith in
    rw e (behind_comma-append name rest h.1)

skip_spaces-two : (n : ℕ) (rest : Bytes) → n < 100 → skip_spaces (b' ' ∷ two n rest) ≡ two n rest
unfolding skip_spaces is_space
skip_spaces-two n rest h = ground arith

abbrev time_text : ℕ → ℕ → ℕ → Bytes
time_text hour min sec = two hour (b':' ∷ two min (b':' ∷ two sec (codes " GMT")))

abbrev date_text : ℕ → ℕ → ℕ → ℕ → ℕ → ℕ → Bytes
date_text day month year hour min sec =
    two day (b' ' ∷ (month_name month ++ (b' ' ∷ four year (b' ' ∷ time_text hour min sec))))

-- The preferred form of a date in HTTP, with any name of the day.
abbrev pub http_text : Bytes → ℕ → ℕ → ℕ → ℕ → ℕ → ℕ → Bytes
http_text name day month year hour min sec =
    name ++ b',' ∷ b' ' ∷ date_text day month year hour min sec

-- A date of HTTP is read as the epoch of its fields. The name of the day is any text without a
-- comma, the month is one of the twelve, the year has at most four digits, and the other fields have
-- at most two.
pub parse_http_date-http_text :
    (name : Bytes) (day month year hour min sec : ℕ)
    → All (λ b. b ≢ b',') name
    → day < 100
    → 1 ≤ month
    → month ≤ 12
    → year < 10_000
    → hour < 100
    → min < 100
    → sec < 100
    → parse_http_date (http_text name day month year hour min sec)
      ≡ date_to_epoch year month day hour min sec
unfolding parse_http_date parse_fields skip_byte
parse_http_date-http_text name day month year hour min sec n d lo hi y h m s =
    let after_year = four year (b' ' ∷ time_text hour min sec) in
    let rest = b' ' ∷ (month_name month ++ (b' ' ∷ after_year)) in
    let long : ltb 16 (length (two day rest)) ≡ true =
      ground
        (arith, length-append (month_name month) (b' ' ∷ after_year), length-month_name month) in
    rw (
      behind_comma-append name (b' ' ∷ two day rest) n,
      skip_spaces-two day rest d,
      long,
      parse_2digits-two day rest d,
      parse_month-month_name month (b' ' ∷ after_year) lo hi,
      parse_4digits-four year (b' ' ∷ time_text hour min sec) y,
      parse_2digits-two hour (b':' ∷ two min (b':' ∷ two sec (codes " GMT"))) h,
      parse_2digits-two min (b':' ∷ two sec (codes " GMT")) m,
      parse_2digits-two sec (codes " GMT") s,
    )
