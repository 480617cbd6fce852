-- ===== src/Date/Http.antt =====
-- The date of an HTTP response: `parse_http_date` of runtime/src/main.rs. The bytes from `i` on are a
-- list.
pub mod Text
use mini_agent_os.Ascii.{ascii_lower, is_ascii_digit, skip_spaces}
use mini_agent_os.Base.{
  ℕ, zero, suc, ◌+◌, ◌-◌, ◌*◌, Bool, true, false, ◌&&◌, not, [], ◌∷◌, Option, none, some, ltb, ◌==◌,
  if◌then◌else◌, length, Bytes,
}
use mini_agent_os.Date.{date_to_epoch}
use mini_agent_os.Json.{◌>>=◌}

unfoldable pub parse_2digits : Bytes → Option (ℕ × Bytes)
parse_2digits (a ∷ b ∷ rest) =
    if is_ascii_digit a && is_ascii_digit b then some ((a - b'0') * 10 + (b - b'0'), rest) else none
parse_2digits (a ∷ []) = none
parse_2digits [] = none

-- The loop over the four digits, with the value so far.
unfoldable pub digits_4 : ℕ → ℕ → Bytes → Option (ℕ × Bytes)
digits_4 zero v s = some (v, s)
digits_4 (suc left) v [] = none
digits_4 (suc left) v (b ∷ rest) =
    let more = digits_4 left (v * 10 + (b - b'0')) rest in if is_ascii_digit b then more else none

unfoldable pub parse_4digits : Bytes → Option (ℕ × Bytes)
parse_4digits s = if ltb 3 (length s) then digits_4 4 0 s else none

abbrev pub three : ℕ → ℕ → ℕ → ℕ → ℕ → ℕ → Bool
three a b c x y z = a == x && b == y && c == z

-- The month of three letters in lower case.
unfoldable pub month_of : ℕ → ℕ → ℕ → Option ℕ
month_of a b c =
    if three a b c b'j' b'a' b'n'
    then some 1
    else if three a b c b'f' b'e' b'b'
    then some 2
    else if three a b c b'm' b'a' b'r'
    then some 3
    else if three a b c b'a' b'p' b'r'
    then some 4
    else if three a b c b'm' b'a' b'y'
    then some 5
    else if three a b c b'j' b'u' b'n'
    then some 6
    else if three a b c b'j' b'u' b'l'
    then some 7
    else if three a b c b'a' b'u' b'g'
    then some 8
    else if three a b c b's' b'e' b'p'
    then some 9
    else if three a b c b'o' b'c' b't'
    then some 10
    else if three a b c b'n' b'o' b'v'
    then some 11
    else if three a b c b'd' b'e' b'c'
    then some 12
    else none

unfoldable pub parse_month : Bytes → Option (ℕ × Bytes)
parse_month (a ∷ b ∷ c ∷ rest) = do
  month ← month_of (ascii_lower a) (ascii_lower b) (ascii_lower c)
  some (month, rest)
parse_month (a ∷ b ∷ []) = none
parse_month (a ∷ []) = none
parse_month [] = none

-- `if i < buf.len() && buf[i] == c { i += 1; }`
unfoldable pub skip_byte : ℕ → Bytes → Bytes
skip_byte c [] = []
skip_byte c (b ∷ rest) = if b == c then rest else b ∷ rest

-- Behind the first comma; nothing where there is none.
unfoldable pub behind_comma : Bytes → Bytes
behind_comma [] = []
behind_comma (b ∷ rest) = if b == b',' then rest else behind_comma rest

-- Behind the name of the day.
unfoldable pub parse_fields : Bytes → Option ℕ
parse_fields s = do
  (day, s_0) ← parse_2digits s
  (month, s_1) ← parse_month (skip_byte b' ' s_0)
  (year, s_2) ← parse_4digits (skip_byte b' ' s_1)
  (hour, s_3) ← parse_2digits (skip_byte b' ' s_2)
  (min, s_4) ← parse_2digits (skip_byte b':' s_3)
  (sec, s_5) ← parse_2digits (skip_byte b':' s_4)
  date_to_epoch year month day hour min sec

unfoldable pub parse_http_date : Bytes → Option ℕ
parse_http_date buf =
    let s = skip_spaces (behind_comma buf) in if ltb 16 (length s) then parse_fields s else none
