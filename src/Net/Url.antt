-- ===== src/Net/Url.antt =====
-- `parse_agent_url` of runtime/src/main.rs. The parts that the source names by an offset and a
-- length are the slices themselves.
pub mod Authority
pub mod Text
use mathlib.Core.List.{reverse}
use mini_agent_os.Ascii.{is_space, is_ascii_digit, skip_spaces, strip_prefix}
use mini_agent_os.Base.{
  ℕ, ◌+◌, ◌-◌, ◌*◌, Bool, true, false, ◌||◌, ◌&&◌, not, [], ◌∷◌, Option, none, some, ◌==◌,
  if◌then◌else◌, Bytes, codes,
}
use mini_agent_os.Decimal.{saturating_step}
use mini_agent_os.Json.{◌>>=◌}
use mini_agent_os.Net.Ipv4.{u16_max, parse_ipv4_bytes}

-- `has_fixed_ip` and `fixed_ip` are one option.
pub record AgentUrlParts : Type 0 where
  pub host : Bytes
  pub path : Bytes
  pub https : Bool
  pub port : ℕ
  pub fixed_ip : Option Bytes

-- The two loops that move `start` up and `end` down.
unfoldable pub trim : Bytes → Bytes
trim buf = reverse (skip_spaces (reverse (skip_spaces buf)))

-- The bytes in front of the first one that `stop` holds of, and those from it on.
unfoldable pub span_until : (ℕ → Bool) → Bytes → Bytes × Bytes
span_until stop [] = ([], [])
span_until stop (b ∷ rest) =
    let more = span_until stop rest in if stop b then ([], b ∷ rest) else (b ∷ more.0, more.1)

abbrev pub http : Bytes
http = codes "http://"

abbrev pub https_scheme : Bytes
https_scheme = codes "https://"

-- The flag `https` and the text behind the scheme.
unfoldable pub scheme_of : Bytes → Option (Bool × Bytes)
scheme_of s = elim (strip_prefix s http) [
  | some rest ↦ some (false, rest)
  | none ↦ elim (strip_prefix s https_scheme) [ some rest ↦ some (true, rest) | none ↦ none ]
]

-- The loop that moves `colon` down: the bytes in front of it, the last one first, and those behind.
unfoldable pub colon_loop : Bytes → Bytes → Option (Bytes × Bytes)
colon_loop [] behind = none
colon_loop (b ∷ front) behind =
    let more = colon_loop front (b ∷ behind) in
    if b == b':' then some (reverse front, behind) else more

-- The digits of the port, over `parsed` and `saw_digit`.
unfoldable pub port_loop : ℕ → Bool → Bytes → Option ℕ
port_loop parsed saw [] = if not saw || parsed == 0 then none else some parsed
port_loop parsed saw (b ∷ rest) =
    let more = port_loop (saturating_step u16_max parsed (b - b'0')) true rest in
    if is_ascii_digit b then more else none

-- The host and the port of the text up to `host_end`.
unfoldable pub host_and_port : Bool → Bytes → Option (Bytes × ℕ)
host_and_port https authority = elim (colon_loop (reverse authority) []) [
  | none ↦ some (authority, if https then 443 else 80)
  | some split ↦ elim (port_loop 0 false split.1) [ none ↦ none | some port ↦ some (split.0, port) ]
]

-- The test for a text that is empty where the source gives up.
abbrev pub nonempty : Bytes → Option Bytes
nonempty [] = none
nonempty (b ∷ rest) = some (b ∷ rest)

abbrev pub ends_host : ℕ → Bool
ends_host b = is_space b || b == b'/'

unfoldable pub path_of : Bytes → Bytes
path_of [] = []
path_of (b ∷ rest) = if b == b'/' then (span_until is_space (b ∷ rest)).0 else []

unfoldable pub parse_agent_url : Bytes → Option AgentUrlParts
parse_agent_url buf = do
  text ← nonempty (trim buf)
  (https, behind) ← scheme_of text
  from_start ← nonempty behind
  authority ← nonempty (span_until ends_host from_start).0
  (host, port) ← host_and_port https authority
  host ← nonempty host
  some (record {
    host = host;
    path = path_of (span_until ends_host from_start).1;
    https = https;
    port = port;
    fixed_ip = parse_ipv4_bytes host;
  })
