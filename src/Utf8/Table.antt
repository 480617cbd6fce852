-- ===== src/Utf8/Table.antt =====
-- The byte ranges of `utf8_seq_len_at` against the encoding of scalar values, in both directions.
use Prim.Native.Nat.{bit_and, bit_or}
use mini_agent_os.Base.{
  ℕ, ◌+◌, Bool, [], ltb, All, ◌/◌, ◌%◌, ◌≤◌, ◌<◌, true, ◌&&◌, ◌∷◌, ◌++◌, ◌≡◌, refl, arith, ◌==◌,
  length, Bytes, all_below, all_below_sound, ==_iff,
}
use mini_agent_os.Utf8.{top_bits, is_utf8_continuation, utf8_seq_len}
use mini_agent_os.Utf8.Scalar.{IsScalar, encode}

abbrev pub IsByte : ℕ → Type 0
IsByte b = b < 256

-- A text of bytes, and the test that settles a literal.
abbrev pub IsBytes : Bytes → Type 0
IsBytes s = All IsByte s

unfoldable pub is_bytes : Bytes → Bool
is_bytes [] = true
is_bytes (b ∷ s) = ltb b 256 && is_bytes s

pub bytes_of : (s : Bytes) → is_bytes s ≡ true → IsBytes s
unfolding is_bytes
bytes_of [] h = tt
bytes_of (b ∷ s) h = (ground arith, bytes_of s (ground arith))

-- The masks of the source, checked over all bytes.
top_bits_table : all_below 256 (λ b. top_bits b == bit_and b 0b1100_0000) ≡ true
unfolding all_below top_bits
top_bits_table = refl

pub top_bits_lem : (b : ℕ) → IsByte b → top_bits b ≡ bit_and b 0b1100_0000
top_bits_lem b h = (==_iff _ _).0 (all_below_sound 256 _ b top_bits_table h)

lead_table :
    all_below 64 (λ x. 0x80 + x == bit_or 0x80 x)
      && all_below 32 (λ x. 0xc0 + x == bit_or 0xc0 x)
      && all_below 16 (λ x. 0xe0 + x == bit_or 0xe0 x)
      && all_below 8 (λ x. 0xf0 + x == bit_or 0xf0 x)
    ≡ true
unfolding all_below
lead_table = refl

abbrev pub IsTail : ℕ → Type 0
IsTail b = (0x80 ≤ b) × (b ≤ 0xbf)

pub IsTail-is_utf8_continuation : (b : ℕ) → IsTail b → is_utf8_continuation b ≡ true
unfolding is_utf8_continuation
IsTail-is_utf8_continuation b h = ground arith

pub is_utf8_continuation-IsTail : (b : ℕ) → IsByte b → is_utf8_continuation b ≡ true → IsTail b
unfolding is_utf8_continuation
is_utf8_continuation-IsTail b v h = ground arith

-- The rows of the standard's table of well-formed sequences, by length.
abbrev pub Lead2 : ℕ → Type 0
Lead2 b0 = (0xc2 ≤ b0) × (b0 ≤ 0xdf)

abbrev pub Lead3 : ℕ → ℕ → Type 0
Lead3 b0 b1 =
    (0xe0 ≤ b0) × (b0 ≤ 0xef) × IsTail b1 × (b0 ≤ 0xe0 → 0xa0 ≤ b1) × (b0 ≡ 0xed → b1 ≤ 0x9f)

abbrev pub Lead4 : ℕ → ℕ → Type 0
Lead4 b0 b1 =
    (0xf0 ≤ b0) × (b0 ≤ 0xf4) × IsTail b1 × (b0 ≤ 0xf0 → 0x90 ≤ b1) × (0xf4 ≤ b0 → b1 ≤ 0x8f)

pub len_1 : (b0 : ℕ) (rest : Bytes) → b0 ≤ 0x7f → utf8_seq_len (b0 ∷ rest) ≡ 1
unfolding utf8_seq_len
len_1 b0 rest h = ground arith

pub len_2 : (b0 b1 : ℕ) (rest : Bytes) → Lead2 b0 → IsTail b1 → utf8_seq_len (b0 ∷ b1 ∷ rest) ≡ 2
unfolding utf8_seq_len
len_2 b0 b1 rest h t = ground (arith, IsTail-is_utf8_continuation b1 t)

pub len_3 :
    (b0 b1 b2 : ℕ) (rest : Bytes) → Lead3 b0 b1 → IsTail b2 → utf8_seq_len (b0 ∷ b1 ∷ b2 ∷ rest) ≡ 3
unfolding utf8_seq_len
len_3 b0 b1 b2 rest h t =
    ground (arith, IsTail-is_utf8_continuation b1 h.2, IsTail-is_utf8_continuation b2 t)

pub len_4 :
    (b0 b1 b2 b3 : ℕ) (rest : Bytes)
    → Lead4 b0 b1
    → IsTail b2
    → IsTail b3
    → utf8_seq_len (b0 ∷ b1 ∷ b2 ∷ b3 ∷ rest) ≡ 4
unfolding utf8_seq_len
len_4 b0 b1 b2 b3 rest h t u = ground (
  arith,
  IsTail-is_utf8_continuation b1 h.2,
  IsTail-is_utf8_continuation b2 t,
  IsTail-is_utf8_continuation b3 u,
)

pub seq_len-encode :
    (cp : ℕ) (rest : Bytes) → IsScalar cp → utf8_seq_len (encode cp ++ rest) ≡ length (encode cp)
seq_len-encode cp rest h = ground (
  arith,
  len_1 cp rest,
  len_2 (0xc0 + cp / 64) (0x80 + cp % 64) rest,
  len_3 (0xe0 + cp / 4096) (0x80 + cp / 64 % 64) (0x80 + cp % 64) rest,
  len_4 (0xf0 + cp / 262_144) (0x80 + cp / 4096 % 64) (0x80 + cp / 64 % 64) (0x80 + cp % 64) rest,
)
