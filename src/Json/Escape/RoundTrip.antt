-- ===== src/Json/Escape/RoundTrip.antt =====
-- What `append_json_escaped` writes into a body, `json_extract_string` reads back.
use mini_agent_os.Ascii.{hex_upper, hex_nibble}
use mini_agent_os.Base.{
  ℕ, ◌+◌, ◌/◌, ◌%◌, ◌≤◌, ◌<◌, true, [], ◌∷◌, ◌++◌, ◌≡◌, ◌≢◌, refl, sym, ap, ◌∙◌, arith,
  append_assoc, some, length, length-append, Bytes, All,
}
use mini_agent_os.Buffer.{Out, index, has_room, fits, put, append_byte}
use mini_agent_os.Buffer.Laws.{put-put, put-nil, append_byte_all, index-put}
use mini_agent_os.Json.Escape.{escape_byte, append_json_escaped}
use mini_agent_os.Json.{string_body, hex_codepoint, unescape}
use mini_agent_os.Utf8.Table.{IsByte}
use mini_agent_os.Utf8.{append_utf8_codepoint}

hex_upper-nibble : (d : ℕ) → d < 16 → hex_nibble (hex_upper d) ≡ some d
unfolding hex_nibble hex_upper
hex_upper-nibble d h = ground arith

hex_nibble_zero : hex_nibble b'0' ≡ some 0
unfolding hex_nibble
hex_nibble_zero = refl

hex_codepoint-byte :
    (b : ℕ) → b < 256 → hex_codepoint b'0' b'0' (hex_upper (b / 16)) (hex_upper (b % 16)) ≡ some b
unfolding hex_codepoint
hex_codepoint-byte b h =
    rw
      (
        hex_nibble_zero,
        hex_upper-nibble (b / 16) (omega arith),
        hex_upper-nibble (b % 16) (omega arith),
      )
      (ap some (omega arith))

append_utf8_codepoint_ascii :
    (o : Out) (b : ℕ) → b ≤ 0x7f → index o < o.capacity → append_utf8_codepoint o b ≡ put o (b ∷ [])
unfolding append_utf8_codepoint
append_utf8_codepoint_ascii o b h r = ground arith

module _ (o : Out) (b : ℕ) (rest : Bytes) where
  -- The reader at an escape of two bytes, at one of six, and at any other byte.
  read_escape :
      b ≢ b'u' → string_body o (b'\\' ∷ b ∷ rest) ≡ string_body (append_byte o (unescape b)) rest
  unfolding string_body
  read_escape h = ground arith

  read_unicode :
      (b1 b2 b3 b4 : ℕ)
      → hex_codepoint b1 b2 b3 b4 ≡ some b
      → string_body o (b'\\' ∷ b'u' ∷ b1 ∷ b2 ∷ b3 ∷ b4 ∷ rest)
        ≡ string_body (append_utf8_codepoint o b) rest
  unfolding string_body
  read_unicode b1 b2 b3 b4 h = rw (h, string_body)

  read_plain : b ≢ b'"' → b ≢ b'\\' → string_body o (b ∷ rest) ≡ string_body (append_byte o b) rest
  unfolding string_body
  read_plain h k = ground arith

-- One escaped byte is read back as that byte.
string_body-escape_byte :
    (o : Out) (b : ℕ) (rest : Bytes)
    → IsByte b
    → index o < o.capacity
    → string_body o (escape_byte b ++ rest) ≡ string_body (put o (b ∷ [])) rest
unfolding escape_byte unescape
string_body-escape_byte o b rest v r = ground (
  arith,
  read_escape o b rest,
  read_escape o b'n' rest,
  read_escape o b'r' rest,
  read_escape o b't' rest,
  read_unicode o b rest b'0' b'0' (hex_upper (b / 16)) (hex_upper (b % 16)),
  read_plain o b rest,
  hex_codepoint-byte b,
  append_utf8_codepoint_ascii o b,
  append_byte_all o b,
)

length-escape_byte_pos : (b : ℕ) → 0 < length (escape_byte b)
unfolding escape_byte
length-escape_byte_pos b = ground arith

abbrev pub escaped : Bytes → Bytes
escaped [] = []
escaped (b ∷ src) = escape_byte b ++ escaped src

-- The writer with enough room for the escaped text writes all of it.
pub append_json_escaped_lem :
    (o : Out) (src : Bytes)
    → index o + length (escaped src) ≤ o.capacity
    → append_json_escaped o src ≡ put o (escaped src)
unfolding append_json_escaped
append_json_escaped_lem o [] h = sym (put-nil o)
append_json_escaped_lem o (b ∷ src) h =
    let l = length-append (escape_byte b) (escaped src) in
    let ih =
      append_json_escaped_lem (put o (escape_byte b)) src
        (omega (arith, index-put o (escape_byte b))) in
    let r : has_room o ≡ true = ground (arith, length-escape_byte_pos b) in
    let f : fits o (length (escape_byte b)) ≡ true = ground arith in
    rw (r, f) (ih ∙ put-put o (escape_byte b) (escaped src))

-- The reader takes an escaped text up to the closing quote.
pub string_body-escaped :
    (o : Out) (src tail : Bytes)
    → All IsByte src
    → index o + length src ≤ o.capacity
    → string_body o (escaped src ++ b'"' ∷ tail) ≡ some (put o src)
string_body-escaped o [] tail v h = unfold string_body in ap some (sym (put-nil o))
string_body-escaped o (b ∷ src) tail v h =
    ap (string_body o) (append_assoc (escape_byte b) (escaped src) (b'"' ∷ tail))
    ∙ string_body-escape_byte o b (escaped src ++ b'"' ∷ tail) v.0 (omega arith)
    ∙ string_body-escaped (put o (b ∷ [])) src tail v.1 (omega (arith, index-put o (b ∷ [])))
    ∙ ap some (put-put o (b ∷ []) src)
