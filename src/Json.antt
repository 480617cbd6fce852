-- ===== src/Json.antt =====
-- The JSON scanner of runtime/src/agent/mod.rs. It works on raw bytes: a key is looked up by its
-- first quoted occurrence with a colon behind it, at any depth. An offset `off` is the list of the
-- bytes `buf[off..len]`; a search hands on the rest instead of the offset.
pub mod Escape
pub mod Array
pub mod Find
pub mod Injection
pub mod OfBytes
use mini_agent_os.Ascii.{is_space, hex_nibble, skip_spaces, starts_with, strip_prefix}
use mini_agent_os.Base.{
  ℕ, zero, suc, ◌+◌, ◌-◌, ◌*◌, Bool, true, false, not, ◌&&◌, ◌||◌, [], ◌∷◌, Option, none, some, ltb,
  leb, ◌==◌, if◌then◌else◌, length, Bytes, codes,
}
use mini_agent_os.Buffer.{Out, append_byte}
use mini_agent_os.Decimal.{parse_u64}
use mini_agent_os.Utf8.{append_utf8_codepoint}

infixl 5 ◌>>=◌
abbrev pub ◌>>=◌ {ℓ κ} : {A : Type ℓ} {B : Type κ} → Option A → (A → Option B) → Option B
none >>= f = none
some a >>= f = f a

-- `off < len && buf[off] == c`, and the bytes behind it.
unfoldable pub expect : ℕ → Bytes → Option Bytes
expect c [] = none
expect c (b ∷ rest) = if b == c then some rest else none

-- A quoted key at the cursor with a colon behind it.
unfoldable pub key_here : Bytes → Bytes → Option Bytes
unfolding expect
key_here key s = do
  name ← expect b'"' s
  quote ← strip_prefix name key
  rest ← expect b'"' quote
  expect b':' (skip_spaces rest)

-- `first_of`: the result here, or else the one further on.
abbrev pub or_else {ℓ} : {A : Type ℓ} → Option A → Option A → Option A
or_else none later = later
or_else (some a) later = some a

-- `json_find_key`; the loop runs while `i + key.len() + 2 < len`.
unfoldable pub json_find_key : Bytes → Bytes → Option Bytes
unfolding key_here
json_find_key key [] = none
json_find_key key (b ∷ rest) =
    let here = key_here key (b ∷ rest) in
    let later = json_find_key key rest in
    if ltb (length key + 2) (length (b ∷ rest)) then or_else here later else none

-- The byte that `\e` stands for.
unfoldable pub unescape : ℕ → ℕ
unescape e =
    if e == b'n' then b'\n' else if e == b'r' then b'\r' else if e == b't' then b'\t' else e

-- The code point of four hexadecimal digits; the shifted digits do not overlap.
unfoldable pub hex_codepoint : ℕ → ℕ → ℕ → ℕ → Option ℕ
hex_codepoint b0 b1 b2 b3 = do
  d0 ← hex_nibble b0
  d1 ← hex_nibble b1
  d2 ← hex_nibble b2
  d3 ← hex_nibble b3
  some (d0 * 4096 + d1 * 256 + d2 * 16 + d3)

-- The loop of `json_extract_string` behind the opening quote. A byte that finds the buffer full is
-- dropped, and the loop goes on to the closing quote.
unfoldable mutual
  pub string_body : Out → Bytes → Option Out
  string_body o [] = none
  string_body o (b ∷ rest) = elim (b == b'"') [
    | true ↦ some o
    | false ↦ elim (b == b'\\') [
      | true ↦ string_escape o rest
      | false ↦ string_body (append_byte o b) rest
    ]
  ]

  pub string_escape : Out → Bytes → Option Out
  string_escape o [] = none
  string_escape o (e ∷ rest) = elim (e == b'u') [
    | true ↦ string_unicode o rest
    | false ↦ string_body (append_byte o (unescape e)) rest
  ]

  pub string_unicode : Out → Bytes → Option Out
  string_unicode o (b0 ∷ b1 ∷ b2 ∷ b3 ∷ rest) = elim (hex_codepoint b0 b1 b2 b3) [
    | none ↦ none
    | some cp ↦ string_body (append_utf8_codepoint o cp) rest
  ]
  string_unicode o (b0 ∷ b1 ∷ b2 ∷ []) = none
  string_unicode o (b0 ∷ b1 ∷ []) = none
  string_unicode o (b0 ∷ []) = none
  string_unicode o [] = none

-- `json_extract_string`: the text lands in `out`, whose cursor starts at 0.
unfoldable pub json_extract_string : Bytes → Bytes → Out → Option Out
json_extract_string buf key out = do
  rest ← json_find_key key buf
  body ← expect b'"' (skip_spaces rest)
  string_body out body

unfoldable pub json_extract_u64 : Bytes → Bytes → Option ℕ
json_extract_u64 buf key = do rest ← json_find_key key buf; parse_u64 (skip_spaces rest)

-- The two words, by a prefix test each.
unfoldable pub bool_of : Bytes → Option Bool
bool_of s =
    if starts_with s (codes "true")
    then some true
    else if starts_with s (codes "false")
    then some false
    else none

unfoldable pub json_extract_bool : Bytes → Bytes → Option Bool
json_extract_bool buf key = do rest ← json_find_key key buf; bool_of (skip_spaces rest)
