-- ===== src/Net/Ipv4.antt =====
-- Dotted addresses: `parse_ipv4_bytes` of runtime/src/main.rs and its copy `parse_ipv4_octets` of
-- runtime/src/agent/policy.rs, with `is_private_ipv4`.
pub mod Grammar
pub mod Private
use mini_agent_os.Ascii.{is_ascii_digit}
use mini_agent_os.Base.{
  ℕ, zero, suc, ◌+◌, ◌-◌, ◌*◌, Bool, true, false, ◌&&◌, ◌||◌, [], ◌∷◌, Option, none, some, ltb,
  ◌==◌, within, if◌then◌else◌, Bytes,
}
use mini_agent_os.Decimal.{saturating_step}
use mini_agent_os.Json.{◌>>=◌, expect}

abbrev pub u16_max : ℕ
u16_max = 65_535

-- The digit loop of one part, over `value` and `saw_digit`; the result holds the bytes from `idx` on.
unfoldable pub octet_loop : ℕ → Bool → Bytes → Option (ℕ × Bytes)
octet_loop value saw [] = if saw then some (value, []) else none
octet_loop value saw (b ∷ rest) =
    let next = saturating_step u16_max value (b - b'0') in
    let more = octet_loop next true rest in
    if is_ascii_digit b
    then if ltb 255 next then none else more
    else if saw
    then some (value, b ∷ rest)
    else none

-- One part of the address, with the test `idx >= buf.len()` in front of it.
unfoldable pub octet : Bytes → Option (ℕ × Bytes)
octet [] = none
octet (b ∷ rest) = octet_loop 0 false (b ∷ rest)

-- `idx != buf.len()`
abbrev pub at_end : ℕ → Bytes → Option Bytes
at_end v [] = some (v ∷ [])
at_end v (b ∷ rest) = none

-- The loop over `part`, with `left` parts behind this one; the octets of the parts.
unfoldable pub parts_loop : ℕ → Bytes → Option Bytes
parts_loop zero buf = do (v, rest) ← octet buf; at_end v rest
parts_loop (suc left) buf = do
  (v, rest) ← octet buf
  next ← expect b'.' rest
  octets ← parts_loop left next
  some (v ∷ octets)

unfoldable pub parse_ipv4_bytes : Bytes → Option Bytes
parse_ipv4_bytes buf = parts_loop 3 buf

-- The ranges that `is_private_ipv4` tests, over `octets[0]` and `octets[1]`.
unfoldable pub is_private_octets : Bytes → Bool
is_private_octets [] = false
is_private_octets (a ∷ []) = false
is_private_octets (a ∷ b ∷ rest) =
    a == 10
    || a == 127
    || a == 0
    || a == 169 && b == 254
    || a == 172 && within 16 31 b
    || a == 192 && b == 168

unfoldable pub is_private_ipv4 : Bytes → Bool
is_private_ipv4 host = elim (parse_ipv4_bytes host) [
  | none ↦ false
  | some octets ↦ is_private_octets octets
]
