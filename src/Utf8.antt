-- ===== src/Utf8.antt =====
-- UTF-8 in the runtime: runtime/src/agent/mod.rs (`utf8_seq_len_at`, `utf8_safe_prefix_len`,
-- `append_utf8_codepoint`, `copy_utf8_prefix`) and the boundary search of runtime/src/main.rs and
-- runtime/src/agent/session.rs. A slice with an index is the list of the bytes from the index on.
pub mod Scalar
pub mod Table
pub mod Decode
pub mod Prefix
pub mod Encode
use mini_agent_os.Base.{
  ℕ, zero, suc, ◌+◌, ◌-◌, ◌*◌, ◌/◌, ◌%◌, Bool, true, false, ◌&&◌, ◌||◌, List, [], ◌∷◌, ◌++◌, ltb,
  leb, ◌==◌, within, if◌then◌else◌, length, drop, take, Bytes,
}
use mini_agent_os.Buffer.{Out, has_room, fits, put, copy_bytes}

-- `b & 0b1100_0000`, and the low bits `b & (2^k - 1)` as `b % 2^k` (`Utf8.Table` checks the masks).
unfoldable pub top_bits : ℕ → ℕ
top_bits b = b / 64 % 4 * 64

-- `is_utf8_continuation`, and its copy `is_utf8_continuation_byte`.
unfoldable pub is_utf8_continuation : ℕ → Bool
unfolding top_bits
is_utf8_continuation b = top_bits b == 0b1000_0000

-- The tests of the second, third and fourth byte of a sequence; 0 where the input is too short.
unfoldable pub seq_len_2 : Bytes → ℕ
seq_len_2 (b1 ∷ rest) = if is_utf8_continuation b1 then 2 else 0
seq_len_2 [] = 0

unfoldable pub seq_len_3 : (ℕ → Bool) → Bytes → ℕ
seq_len_3 second (b1 ∷ b2 ∷ rest) = if second b1 && is_utf8_continuation b2 then 3 else 0
seq_len_3 second (b1 ∷ []) = 0
seq_len_3 second [] = 0

unfoldable pub seq_len_4 : (ℕ → Bool) → Bytes → ℕ
seq_len_4 second (b1 ∷ b2 ∷ b3 ∷ rest) =
    if second b1 && is_utf8_continuation b2 && is_utf8_continuation b3 then 4 else 0
seq_len_4 second (b1 ∷ b2 ∷ []) = 0
seq_len_4 second (b1 ∷ []) = 0
seq_len_4 second [] = 0

-- The length of the sequence that starts the input, 0 if it is ill-formed.
unfoldable pub utf8_seq_len : Bytes → ℕ
unfolding seq_len_2 seq_len_3 seq_len_4
utf8_seq_len [] = 0
utf8_seq_len (b0 ∷ rest) =
    if leb b0 0x7f
    then 1
    else if within 0xc2 0xdf b0
    then seq_len_2 rest
    else if b0 == 0xe0
    then seq_len_3 (within 0xa0 0xbf) rest
    else if within 0xe1 0xec b0 || within 0xee 0xef b0
    then seq_len_3 is_utf8_continuation rest
    else if b0 == 0xed
    then seq_len_3 (within 0x80 0x9f) rest
    else if b0 == 0xf0
    then seq_len_4 (within 0x90 0xbf) rest
    else if within 0xf1 0xf3 b0
    then seq_len_4 is_utf8_continuation rest
    else if b0 == 0xf4
    then seq_len_4 (within 0x80 0x8f) rest
    else 0

-- The loop of `utf8_safe_prefix_len`: `src` is what stands behind `idx`, `room` is `limit - idx`,
-- and each round moves on by a whole sequence. The result is the distance to `last_good`.
unfoldable pub safe_prefix_from : ℕ → Bytes → ℕ → ℕ
safe_prefix_from zero src room = 0
safe_prefix_from (suc fuel) src room =
    let n = utf8_seq_len src in
    let rest = n + safe_prefix_from fuel (drop n src) (room - n) in
    if room == 0 then 0 else if n == 0 || ltb room n then 0 else rest

-- One round for each byte of the input is enough, since a sequence has at least one byte.
unfoldable pub utf8_safe_prefix_len : Bytes → ℕ → ℕ
utf8_safe_prefix_len src max_len =
    safe_prefix_from (length src) src (if ltb (length src) max_len then length src else max_len)

-- `copy_utf8_prefix`, into a destination of `n` bytes.
unfoldable pub copy_utf8_prefix : ℕ → Bytes → Bytes
copy_utf8_prefix n src = copy_bytes n (take (utf8_safe_prefix_len src n) src)

-- The stores of `append_utf8_codepoint`. In each branch the leading ones of a byte do not overlap
-- the payload, so that the source's `|` is a sum.
abbrev pub encode_2 : ℕ → Bytes
encode_2 cp = (0b1100_0000 + cp / 64) ∷ (0b1000_0000 + cp % 64) ∷ []

abbrev pub encode_3 : ℕ → Bytes
encode_3 cp =
    (0b1110_0000 + cp / 4096) ∷ (0b1000_0000 + cp / 64 % 64) ∷ (0b1000_0000 + cp % 64) ∷ []

abbrev pub encode_4 : ℕ → Bytes
encode_4 cp =
    (0b1111_0000 + cp / 262_144)
    ∷ (0b1000_0000 + cp / 4096 % 64)
    ∷ (0b1000_0000 + cp / 64 % 64)
    ∷ (0b1000_0000 + cp % 64)
    ∷ []

-- A code point is written whole or not at all; one above 0x10ffff is dropped.
unfoldable pub append_utf8_codepoint : Out → ℕ → Out
append_utf8_codepoint o cp =
    if leb cp 0x7f
    then if has_room o then put o (cp ∷ []) else o
    else if leb cp 0x7ff
    then if fits o 2 then put o (encode_2 cp) else o
    else if leb cp 0xffff
    then if fits o 3 then put o (encode_3 cp) else o
    else if leb cp 0x10_ffff && fits o 4
    then put o (encode_4 cp)
    else o
