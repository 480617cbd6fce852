-- ===== src/Decimal.antt =====
-- Decimal numbers: `parse_u64` and `append_u64_dec` of runtime/src/main.rs, and `u64_to_dec` of
-- runtime/src/oauth.rs.
pub mod RoundTrip
use mathlib.Core.List.{reverse}
use mini_agent_os.Ascii.{is_ascii_digit, skip_spaces}
use mini_agent_os.Base.{
  ℕ, zero, suc, ◌+◌, ◌-◌, ◌*◌, ◌/◌, ◌%◌, ◌^◌, min, Bool, true, false, not, [], ◌∷◌, Option, none,
  some, ltb, ◌==◌, if◌then◌else◌, Bytes,
}
use mini_agent_os.Buffer.{Out, fresh, has_room, put, append_bytes}

abbrev pub u64_max : ℕ
u64_max = 2 ^ 64 - 1

-- `v.saturating_mul(10).saturating_add(d)` at the maximum `top` of the type.
abbrev pub saturating_step : ℕ → ℕ → ℕ → ℕ
saturating_step top v d = min top (min top (v * 10) + d)

-- The digit loop, over the value and the flag `saw`.
unfoldable pub digits_loop : ℕ → Bool → Bytes → Option ℕ
digits_loop v saw [] = if saw then some v else none
digits_loop v saw (b ∷ rest) =
    let more = digits_loop (saturating_step u64_max v (b - b'0')) true rest in
    if is_ascii_digit b then more else if saw then some v else none

-- The test `i >= len` behind the spaces.
unfoldable pub digits_of : Bytes → Option ℕ
digits_of [] = none
digits_of (b ∷ rest) = digits_loop 0 false (b ∷ rest)

unfoldable pub parse_u64 : Bytes → Option ℕ
parse_u64 buf = digits_of (skip_spaces buf)

-- The digits from the lowest up, at most `room` of them: the loop that fills `tmp`.
unfoldable pub digits_into : ℕ → ℕ → Bytes
digits_into zero n = []
digits_into (suc room) n =
    let more = digits_into room (n / 10) in if n == 0 then [] else (b'0' + n % 10) ∷ more

-- `append_u64_dec`; `tmp` has 20 places.
unfoldable pub append_u64_dec : Out → ℕ → Out
append_u64_dec o n =
    if not (has_room o)
    then o
    else if n == 0
    then put o (b'0' ∷ [])
    else append_bytes o (reverse (digits_into 20 n))

-- `u64_to_dec`, into a slice of `size` bytes.
unfoldable pub u64_to_dec : ℕ → ℕ → Bytes
u64_to_dec size v =
    if v == 0
    then (if ltb 0 size then b'0' ∷ [] else [])
    else (append_bytes (fresh size) (reverse (digits_into 20 v))).bytes
