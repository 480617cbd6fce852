-- ===== src/Utf8/Decode.antt =====
-- The other direction: what `utf8_seq_len_at` accepts is the encoding of a scalar value.
use mini_agent_os.Base.{
  ℕ, suc, ◌+◌, ◌-◌, ◌*◌, ◌≤◌, ◌<◌, inl, inr, Bool, false, [], ◌∷◌, ◌++◌, ◌≡◌, ◌↔◌, sym, ap, ◌∙◌,
  arith, leb, ◌==◌, within, if◌then◌else◌, length, Bytes, All, Bool-cases,
}
use mini_agent_os.Utf8.{is_utf8_continuation, seq_len_2, seq_len_3, seq_len_4, utf8_seq_len}
use mini_agent_os.Utf8.Scalar.{IsScalar, encode}
use mini_agent_os.Utf8.Table.{
  seq_len-encode, IsByte, IsTail, is_utf8_continuation-IsTail, Lead2, Lead3, Lead4,
}

-- Well-formed sequences, by their bytes.
pub data Seq : Bytes → Type 0 where
  one : {b0 : ℕ} {r : Bytes} → b0 ≤ 0x7f → Seq (b0 ∷ r)
  two : {b0 b1 : ℕ} {r : Bytes} → Lead2 b0 → IsTail b1 → Seq (b0 ∷ b1 ∷ r)
  three : {b0 b1 b2 : ℕ} {r : Bytes} → Lead3 b0 b1 → IsTail b2 → Seq (b0 ∷ b1 ∷ b2 ∷ r)
  four :
      {b0 b1 b2 b3 : ℕ} {r : Bytes}
      → Lead4 b0 b1
      → IsTail b2
      → IsTail b3
      → Seq (b0 ∷ b1 ∷ b2 ∷ b3 ∷ r)

second_3 : ℕ → (ℕ → Bool)
second_3 b0 =
    if b0 == 0xe0
    then within 0xa0 0xbf
    else if b0 == 0xed
    then within 0x80 0x9f
    else is_utf8_continuation

second_4 : ℕ → (ℕ → Bool)
second_4 b0 =
    if b0 == 0xf0
    then within 0x90 0xbf
    else if b0 == 0xf4
    then within 0x80 0x8f
    else is_utf8_continuation

Seq-2 : (b0 : ℕ) (r : Bytes) → All IsByte r → Lead2 b0 → 0 < seq_len_2 r → Seq (b0 ∷ r)
unfolding seq_len_2
Seq-2 b0 [] v l h = absurd (omega arith)
Seq-2 b0 (b1 ∷ r) v l h = two l (ground (arith, is_utf8_continuation-IsTail b1 v.0))

Seq-3 :
    (b0 : ℕ) (r : Bytes)
    → All IsByte r
    → (0xe0 ≤ b0) × (b0 ≤ 0xef)
    → 0 < seq_len_3 (second_3 b0) r
    → Seq (b0 ∷ r)
unfolding seq_len_3 second_3
Seq-3 b0 [] v l h = absurd (omega arith)
Seq-3 b0 (b1 ∷ []) v l h = absurd (omega arith)
Seq-3 b0 (b1 ∷ b2 ∷ r) v l h =
    three (ground (arith, is_utf8_continuation-IsTail b1 v.0))
      (ground (arith, is_utf8_continuation-IsTail b2 v.1.0))

Seq-4 :
    (b0 : ℕ) (r : Bytes)
    → All IsByte r
    → (0xf0 ≤ b0) × (b0 ≤ 0xf4)
    → 0 < seq_len_4 (second_4 b0) r
    → Seq (b0 ∷ r)
unfolding seq_len_4 second_4
Seq-4 b0 [] v l h = absurd (omega arith)
Seq-4 b0 (b1 ∷ []) v l h = absurd (omega arith)
Seq-4 b0 (b1 ∷ b2 ∷ []) v l h = absurd (omega arith)
Seq-4 b0 (b1 ∷ b2 ∷ b3 ∷ r) v l h =
    four (ground (arith, is_utf8_continuation-IsTail b1 v.0))
      (ground (arith, is_utf8_continuation-IsTail b2 v.1.0))
      (ground (arith, is_utf8_continuation-IsTail b3 v.1.1.0))

module _ (b0 : ℕ) (r : Bytes) where
  lead_2 : Lead2 b0 → utf8_seq_len (b0 ∷ r) ≡ seq_len_2 r
  unfolding utf8_seq_len
  lead_2 l = ground arith

  lead_3 : (0xe0 ≤ b0) × (b0 ≤ 0xef) → utf8_seq_len (b0 ∷ r) ≡ seq_len_3 (second_3 b0) r
  unfolding utf8_seq_len second_3
  lead_3 l = ground arith

  lead_4 : (0xf0 ≤ b0) × (b0 ≤ 0xf4) → utf8_seq_len (b0 ∷ r) ≡ seq_len_4 (second_4 b0) r
  unfolding utf8_seq_len second_4
  lead_4 l = ground arith

  lead_none :
      leb b0 0x7f ≡ false
      → within 0xc2 0xdf b0 ≡ false
      → within 0xe0 0xef b0 ≡ false
      → within 0xf0 0xf4 b0 ≡ false
      → utf8_seq_len (b0 ∷ r) ≡ 0
  unfolding utf8_seq_len
  lead_none h1 h2 h3 h4 = ground arith

-- Whatever is accepted has one of the four forms.
pub Seq-of : (s : Bytes) → All IsByte s → 0 < utf8_seq_len s → Seq s
Seq-of [] v h = absurd (unfold utf8_seq_len in omega arith)
Seq-of (b0 ∷ r) v h = elim (Bool-cases (leb b0 0x7f)) [
  | inl a ↦ one (ground arith)
  | inr a ↦ elim (Bool-cases (within 0xc2 0xdf b0)) [
    | inl b ↦ let l : Lead2 b0 = ground arith in Seq-2 b0 r v.1 l (rw (lead_2 b0 r l) at h)
    | inr b ↦ elim (Bool-cases (within 0xe0 0xef b0)) [
      | inl c ↦
          let l : (0xe0 ≤ b0) × (b0 ≤ 0xef) = ground arith in
          Seq-3 b0 r v.1 l (rw (lead_3 b0 r l) at h)
      | inr c ↦ elim (Bool-cases (within 0xf0 0xf4 b0)) [
        | inl d ↦
            let l : (0xf0 ≤ b0) × (b0 ≤ 0xf4) = ground arith in
            Seq-4 b0 r v.1 l (rw (lead_4 b0 r l) at h)
        | inr d ↦ absurd (omega (arith, lead_none b0 r a b c d))
      ]
    ]
  ]
]

-- The scalar value that a sequence encodes, and what stands behind it.
pub record Decoded (s : Bytes) : Type 0 where
  pub cp : ℕ
  pub rest : Bytes
  pub scalar : IsScalar cp
  pub splits : s ≡ encode cp ++ rest

pub decode-Seq : {s : Bytes} → Seq s → Decoded s
decode-Seq (one {b0} {r} h) = record {
  cp = b0;
  rest = r;
  scalar = inl (omega arith);
  splits = ground arith;
}
decode-Seq (two {b0} {b1} {r} l t) = record {
  cp = (b0 - 0xc0) * 64 + (b1 - 0x80);
  rest = r;
  scalar = inl (omega arith);
  splits = ground arith;
}
decode-Seq (three {b0} {b1} {b2} {r} l t) = record {
  cp = (b0 - 0xe0) * 4096 + (b1 - 0x80) * 64 + (b2 - 0x80);
  rest = r;
  scalar = ground arith;
  splits = ground arith;
}
decode-Seq (four {b0} {b1} {b2} {b3} {r} l t u) = record {
  cp = (b0 - 0xf0) * 262_144 + (b1 - 0x80) * 4096 + (b2 - 0x80) * 64 + (b3 - 0x80);
  rest = r;
  scalar = inr (grind arith, grind arith);
  splits = ground arith;
}

-- The input starts with the encoding of a scalar value, in `n` bytes.
abbrev pub StartsWithChar : Bytes → ℕ → Type 0
StartsWithChar s n =
    (cp : ℕ) × (rest : Bytes) × IsScalar cp × (s ≡ encode cp ++ rest) × (n ≡ length (encode cp))

-- `utf8_seq_len_at` accepts exactly the encodings of scalar values: on any bytes it answers a
-- positive length if and only if the encoding of a scalar value of that length starts there.
pub utf8_seq_len_iff :
    (s : Bytes) (n : ℕ) → All IsByte s → (utf8_seq_len s ≡ suc n) ↔ StartsWithChar s (suc n)
utf8_seq_len_iff s n v = (
  (λ e.
      let d = decode-Seq (Seq-of s v (omega arith)) in
      (
        d.cp,
        d.rest,
        d.scalar,
        d.splits,
        sym e ∙ ap utf8_seq_len d.splits ∙ seq_len-encode d.cp d.rest d.scalar,
      )),
  (λ (c : StartsWithChar s (suc n)). ap utf8_seq_len c.3 ∙ seq_len-encode c.0 c.1 c.2 ∙ sym c.4),
)
