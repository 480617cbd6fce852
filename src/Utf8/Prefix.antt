-- ===== src/Utf8/Prefix.antt =====
-- `utf8_safe_prefix_len`: the longest prefix within the bound that is well-formed.
use mathlib.Core.Path.{subst}
use mini_agent_os.Base.{
  ℕ, zero, suc, ◌+◌, ◌-◌, ◌≤◌, ◌<◌, ◌⊎◌, inl, inr, [], ◌∷◌, ◌++◌, ◌≡◌, refl, sym, ap, ◌∙◌, arith,
  ltb, ◌==◌, if◌then◌else◌, length, Bytes, All, Bool-cases, take, drop, length-append,
  take-append_more, drop-append_self, append_assoc, append-nil, min, length-take, take_all,
}
use mini_agent_os.Buffer.Laws.{copy_bytes_all}
use mini_agent_os.Utf8.{utf8_seq_len, safe_prefix_from, utf8_safe_prefix_len, copy_utf8_prefix}
use mini_agent_os.Utf8.Scalar.{IsScalar, encode, IsUtf8, nil, char}
use mini_agent_os.Utf8.Table.{IsByte, seq_len-encode}
use mini_agent_os.Utf8.Decode.{Seq-of, decode-Seq}

-- Bytes stay bytes behind a prefix.
All-suffix : (xs ys : Bytes) → All IsByte (xs ++ ys) → All IsByte ys
All-suffix [] ys h = h
All-suffix (x ∷ xs) ys h = All-suffix xs ys h.1

pub length-encode_pos : (cp : ℕ) → 0 < length (encode cp)
length-encode_pos cp = ground arith

-- One round: a whole sequence within the room is taken.
safe_prefix_round :
    (fuel : ℕ) (c rest : Bytes) (room : ℕ)
    → utf8_seq_len (c ++ rest) ≡ length c
    → 0 < length c
    → length c ≤ room
    → safe_prefix_from (suc fuel) (c ++ rest) room
      ≡ length c + safe_prefix_from fuel rest (room - length c)
unfolding safe_prefix_from
safe_prefix_round fuel c rest room e p fit = rw (e, drop-append_self c rest) (ground arith)

safe_prefix_char :
    (fuel cp : ℕ) (rest : Bytes) (room : ℕ)
    → IsScalar cp
    → length (encode cp) ≤ room
    → safe_prefix_from (suc fuel) (encode cp ++ rest) room
      ≡ length (encode cp) + safe_prefix_from fuel rest (room - length (encode cp))
safe_prefix_char fuel cp rest room h =
    safe_prefix_round fuel (encode cp) rest room (seq_len-encode cp rest h) (length-encode_pos cp)

-- and where nothing whole fits, the loop stops.
safe_prefix_stop :
    (fuel : ℕ) (s : Bytes) (room : ℕ)
    → (utf8_seq_len s ≡ 0) ⊎ (room < utf8_seq_len s)
    → safe_prefix_from fuel s room ≡ 0
unfolding safe_prefix_from
safe_prefix_stop zero s room h = refl
safe_prefix_stop (suc fuel) s room h = ground arith

take-char :
    (cp n : ℕ) (rest : Bytes)
    → IsScalar cp
    → IsUtf8 (take n rest)
    → IsUtf8 (take (length (encode cp) + n) (encode cp ++ rest))
take-char cp n rest h u = char cp h (take-append_more n (encode cp) rest) u

fits-cases : (n room : ℕ) → ((0 < n) × (n ≤ room)) ⊎ ((n ≡ 0) ⊎ (room < n))
fits-cases n room = elim (Bool-cases (n == 0)) [
  | inl e ↦ inr (inl (ground arith))
  | inr e ↦ elim (Bool-cases (ltb room n)) [
    | inl l ↦ inr (inr (ground arith))
    | inr l ↦ inl (ground arith, ground arith)
  ]
]

safe_prefix-IsUtf8_char :
    (fuel cp : ℕ) (rest : Bytes) (room : ℕ)
    → IsScalar cp
    → length (encode cp) ≤ room
    → IsUtf8 (take (safe_prefix_from fuel rest (room - length (encode cp))) rest)
    → IsUtf8 (take (safe_prefix_from (suc fuel) (encode cp ++ rest) room) (encode cp ++ rest))
safe_prefix-IsUtf8_char fuel cp rest room sc fit u =
    rw (safe_prefix_char fuel cp rest room sc fit) (take-char cp _ rest sc u)

safe_prefix-IsUtf8 :
    (fuel : ℕ) (s : Bytes) (room : ℕ)
    → All IsByte s
    → IsUtf8 (take (safe_prefix_from fuel s room) s)
safe_prefix-IsUtf8 zero s room v = unfold safe_prefix_from in nil
safe_prefix-IsUtf8 (suc fuel) s room v = elim (fits-cases (utf8_seq_len s) room) [
  | inr h ↦ rw (safe_prefix_stop (suc fuel) s room h) nil
  | inl (p, fit) ↦
      let d = decode-Seq (Seq-of s v p) in
      let fit' : length (encode d.cp) ≤ room =
        omega (arith, ap utf8_seq_len d.splits, seq_len-encode d.cp d.rest d.scalar) in
      let v' : All IsByte d.rest =
        All-suffix (encode d.cp) d.rest (subst (All IsByte) d.splits v) in
      subst (λ t. IsUtf8 (take (safe_prefix_from (suc fuel) t room) t)) (sym d.splits)
        (safe_prefix-IsUtf8_char fuel d.cp d.rest room d.scalar fit'
          (safe_prefix-IsUtf8 fuel d.rest (room - length (encode d.cp)) v'))
]

-- Every well-formed prefix within the room is covered.
safe_prefix_max_char :
    (fuel cp : ℕ) (rest q : Bytes) (room : ℕ)
    → IsScalar cp
    → length (encode cp ++ rest) ≤ room
    → length rest ≤ safe_prefix_from fuel (rest ++ q) (room - length (encode cp))
    → length (encode cp ++ rest) ≤ safe_prefix_from (suc fuel) ((encode cp ++ rest) ++ q) room
safe_prefix_max_char fuel cp rest q room sc h ih = rw (append_assoc (encode cp) rest q) (
    omega (
      arith,
      length-append (encode cp) rest,
      safe_prefix_char fuel cp (rest ++ q) room sc (omega (arith, length-append (encode cp) rest)),
    ))

safe_prefix_max :
    {p : Bytes} (fuel : ℕ) (q : Bytes) (room : ℕ)
    → IsUtf8 p
    → length p ≤ room
    → length p ≤ fuel
    → length p ≤ safe_prefix_from fuel (p ++ q) room
safe_prefix_max fuel q room nil h f = omega arith
safe_prefix_max zero q room (char {s} {rest} cp sc e u) h f = omega arith
safe_prefix_max (suc fuel) q room (char {s} {rest} cp sc e u) h f =
    let l : length s ≡ length (encode cp) + length rest =
      ap (length {A = ℕ}) e ∙ length-append (encode cp) rest in
    let ih =
      safe_prefix_max fuel q (room - length (encode cp)) u (omega arith)
        (omega (arith, length-encode_pos cp)) in
    subst (λ t. length t ≤ safe_prefix_from (suc fuel) (t ++ q) room) (sym e)
      (safe_prefix_max_char fuel cp rest q room sc (omega (arith, length-append (encode cp) rest))
        ih)

safe_prefix-le : (fuel : ℕ) (s : Bytes) (room : ℕ) → safe_prefix_from fuel s room ≤ room
unfolding safe_prefix_from
safe_prefix-le zero s room = omega arith
safe_prefix-le (suc fuel) s room =
    ground (arith, safe_prefix-le fuel (drop (utf8_seq_len s) s) (room - utf8_seq_len s))

limit : Bytes → ℕ → ℕ
limit src n = if ltb (length src) n then length src else n

limit-min : (src : Bytes) (n : ℕ) → limit src n ≡ min n (length src)
unfolding limit
limit-min src n = ground arith

longest :
    (src : Bytes) (max_len : ℕ) (p q : Bytes)
    → src ≡ p ++ q
    → IsUtf8 p
    → length p ≤ max_len
    → length p ≤ safe_prefix_from (length src) src (limit src max_len)
longest src max_len p q e u h =
    let l : length src ≡ length p + length q = ap (length {A = ℕ}) e ∙ length-append p q in
    subst (λ t. length p ≤ safe_prefix_from (length src) t (limit src max_len)) (sym e)
      (safe_prefix_max (length src) q (limit src max_len) u (omega (arith, limit-min src max_len))
        (omega arith))

-- The prefix that `utf8_safe_prefix_len` measures in any bytes is well-formed, stays within the
-- bound and the input, and is at least as long as any well-formed prefix `p` within the bound.
pub utf8_safe_prefix_len_lem :
    (src : Bytes) (max_len : ℕ) (p q : Bytes)
    → All IsByte src
    → src ≡ p ++ q
    → IsUtf8 p
    → length p ≤ max_len
    → IsUtf8 (take (utf8_safe_prefix_len src max_len) src)
      × (utf8_safe_prefix_len src max_len ≤ min max_len (length src))
      × (length p ≤ utf8_safe_prefix_len src max_len)
unfolding utf8_safe_prefix_len limit
utf8_safe_prefix_len_lem src max_len p q v e u h = (
  safe_prefix-IsUtf8 (length src) src (limit src max_len) v,
  omega (arith, limit-min src max_len, safe_prefix-le (length src) src (limit src max_len)),
  longest src max_len p q e u h,
)

module _ (n : ℕ) (src : Bytes) (v : All IsByte src) where
  copy_utf8_prefix-take : copy_utf8_prefix n src ≡ take (utf8_safe_prefix_len src n) src
  unfolding copy_utf8_prefix
  copy_utf8_prefix-take = copy_bytes_all n (take k src) (omega (arith, length-take k src, fit))
    where
      k : ℕ
      k = utf8_safe_prefix_len src n

      fit : k ≤ min n (length src)
      fit = (utf8_safe_prefix_len_lem src n [] src v refl nil (omega arith)).1

  -- Copying into a field of `n` bytes leaves well-formed text of at most `n` bytes.
  pub copy_utf8_prefix-IsUtf8 :
      IsUtf8 (copy_utf8_prefix n src) × (length (copy_utf8_prefix n src) ≤ n)
  copy_utf8_prefix-IsUtf8 =
      let r = utf8_safe_prefix_len_lem src n [] src v refl nil (omega arith) in
      rw copy_utf8_prefix-take (r.0, omega (arith, length-take (utf8_safe_prefix_len src n) src))

  -- Well-formed text that fits is copied whole.
  pub copy_utf8_prefix_all : IsUtf8 src → length src ≤ n → copy_utf8_prefix n src ≡ src
  copy_utf8_prefix_all u h =
      let r = utf8_safe_prefix_len_lem src n src [] v (sym (append-nil src)) u h in
      copy_utf8_prefix-take ∙ take_all (utf8_safe_prefix_len src n) src r.2
