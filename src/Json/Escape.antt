-- ===== src/Json/Escape.antt =====
-- The two writers of JSON string contents: `append_json_escaped` of runtime/src/main.rs, which
-- copies every other byte, and `json_escape_append` of runtime/src/agent/mod.rs, which copies only
-- well-formed UTF-8.
pub mod RoundTrip
use mini_agent_os.Ascii.{hex_upper, hex_lower}
use mini_agent_os.Base.{
  ℕ, zero, suc, ◌+◌, ◌/◌, ◌%◌, Bool, true, false, ◌&&◌, ◌||◌, List, [], ◌∷◌, Option, none, some,
  leb, ltb, ◌==◌, if◌then◌else◌, length, take, drop, Bytes,
}
use mini_agent_os.Buffer.{Out, has_room, fits, put}
use mini_agent_os.Utf8.{utf8_seq_len, append_utf8_codepoint}

-- What both writers store for a byte that they escape, with their table of digits.
unfoldable pub escape_of : (ℕ → ℕ) → ℕ → Option Bytes
escape_of hex b =
    if b == b'"' || b == b'\\'
    then some (b'\\' ∷ b ∷ [])
    else if b == b'\n'
    then some (b'\\' ∷ b'n' ∷ [])
    else if b == b'\r'
    then some (b'\\' ∷ b'r' ∷ [])
    else if b == b'\t'
    then some (b'\\' ∷ b't' ∷ [])
    else if leb b 0x1f || b == 0x7f
    then some (b'\\' ∷ b'u' ∷ b'0' ∷ b'0' ∷ hex (b / 16) ∷ hex (b % 16) ∷ [])
    else none

-- What `append_json_escaped` stores for one byte. The last arm of its match does not test the room,
-- which the head of the loop has done.
unfoldable pub escape_byte : ℕ → Bytes
unfolding escape_of
escape_byte b = elim (escape_of hex_upper b) [ none ↦ b ∷ [] | some bs ↦ bs ]

unfoldable pub append_json_escaped : Out → Bytes → Out
append_json_escaped o [] = o
append_json_escaped o (b ∷ src) =
    let rest = append_json_escaped (put o (escape_byte b)) src in
    if has_room o then if fits o (length (escape_byte b)) then rest else o else o

-- One round of `json_escape_append`: the buffer and what is left of the input, or nothing where the
-- loop ends. An ill-formed byte becomes U+FFFD, if there is room for it.
unfoldable pub escape_char : Out → Bytes → Option (Out × Bytes)
unfolding escape_of
escape_char o [] = none
escape_char o (b ∷ src) = elim (escape_of hex_lower b) [
  | some bs ↦ if fits o (length bs) then some (put o bs, src) else none
  | none ↦
      let n = utf8_seq_len (b ∷ src) in
      if n == 0
      then some (append_utf8_codepoint o 0xfffd, src)
      else if fits o n
      then some (put o (take n (b ∷ src)), drop n (b ∷ src))
      else none
]

unfoldable pub json_escape_loop : ℕ → Out → Bytes → Out
json_escape_loop zero o src = o
json_escape_loop (suc fuel) o src = elim (has_room o) [
  | true ↦ elim (escape_char o src) [ none ↦ o | some (o', rest) ↦ json_escape_loop fuel o' rest ]
  | false ↦ o
]

-- Each round takes at least one byte of the input.
unfoldable pub json_escape_append : Out → Bytes → Out
json_escape_append o src = json_escape_loop (length src) o src
