-- ===== src/Decimal/RoundTrip.antt =====
-- What is written in decimal is read back.
use mathlib.Core.List.{reverse, reverse-cons}
use mathlib.Core.Path.{subst}
use mini_agent_os.Ascii.{is_space, is_ascii_digit, skip_spaces}
use mini_agent_os.Base.{
  ℕ, zero, suc, ◌+◌, ◌-◌, ◌*◌, ◌/◌, ◌%◌, ◌≤◌, ◌<◌, min, Bool, true, false, [], ◌∷◌, ◌++◌, ◌≡◌, refl,
  sym, ap, ◌∙◌, arith, append_assoc, append-nil, some, ◌==◌, if◌then◌else◌, length, Bytes, ◌≢◌,
  length-reverse, All, All-append, Bool-cases, inl, inr,
}
use mini_agent_os.Buffer.{Out, index, fresh}
use mini_agent_os.Buffer.Laws.{append_bytes_all, Writes}
use mini_agent_os.Decimal.{
  u64_max, digits_loop, digits_of, parse_u64, digits_into, append_u64_dec, u64_to_dec,
}

abbrev pub pow10 : ℕ → ℕ
pow10 zero = 1
pow10 (suc k) = 10 * pow10 k

-- A text that goes on with no digit.
abbrev pub NoDigit : Bytes → Type 0
NoDigit [] = Unit
NoDigit (b ∷ rest) = is_ascii_digit b ≡ false

abbrev pub IsDigit : ℕ → Type 0
IsDigit b = (b'0' ≤ b) × (b ≤ b'9')

digits_loop_step :
    (v d : ℕ) (saw : Bool) (rest : Bytes)
    → d < 10
    → v * 10 + d ≤ u64_max
    → digits_loop v saw ((b'0' + d) ∷ rest) ≡ digits_loop (v * 10 + d) true rest
unfolding digits_loop is_ascii_digit
digits_loop_step v d saw rest h m =
    let e : min u64_max (min u64_max (v * 10) + (b'0' + d - b'0')) ≡ v * 10 + d = omega arith in
    ground (arith, ap (λ (k : ℕ). digits_loop k true rest) e)

digits_into_zero : (room : ℕ) → digits_into room 0 ≡ []
unfolding digits_into
digits_into_zero zero = refl
digits_into_zero (suc room) = refl

reverse_digits :
    (room n : ℕ) (rest : Bytes)
    → 0 < n
    → reverse (digits_into (suc room) n) ++ rest
      ≡ reverse (digits_into room (n / 10)) ++ (b'0' + n % 10) ∷ rest
unfolding digits_into
reverse_digits room n rest p =
    let e : (n == 0) ≡ false = ground arith in
    rw e (
      ap (λ t. t ++ rest) (reverse-cons (b'0' + n % 10) (digits_into room (n / 10)))
      ∙ append_assoc (reverse (digits_into room (n / 10))) _ rest)

-- Reading the digits of `n`, most significant first, leads to the value `n`.
digits_loop-digits :
    (room n : ℕ) (rest : Bytes)
    → 0 < n
    → n < pow10 room
    → n ≤ u64_max
    → digits_loop 0 false (reverse (digits_into room n) ++ rest) ≡ digits_loop n true rest
digits_loop-digits zero n rest p h m = absurd (omega arith)
digits_loop-digits (suc room) n rest p h m =
    rw (reverse_digits room n rest p) (elim (Bool-cases (n / 10 == 0)) [
      | inl small ↦
          let q : n / 10 ≡ 0 = ground arith in
          let e : 0 * 10 + n % 10 ≡ n = omega arith in
          rw (q, digits_into_zero room)
            (digits_loop_step 0 (n % 10) false rest (omega arith) (omega arith)
              ∙ ap (λ (k : ℕ). digits_loop k true rest) e)
      | inr more ↦
          let e : n / 10 * 10 + n % 10 ≡ n = omega arith in
          digits_loop-digits room (n / 10) ((b'0' + n % 10) ∷ rest) (ground arith) (omega arith)
            (omega arith)
          ∙ digits_loop_step (n / 10) (n % 10) true rest (omega arith) (omega arith)
          ∙ ap (λ (k : ℕ). digits_loop k true rest) e
    ])

digits_loop_end : (n : ℕ) (rest : Bytes) → NoDigit rest → digits_loop n true rest ≡ some n
unfolding digits_loop
digits_loop_end n [] h = refl
digits_loop_end n (b ∷ rest) h = rw h

-- The text of a number.
abbrev pub decimal : ℕ → Bytes
decimal n = if n == 0 then b'0' ∷ [] else reverse (digits_into 20 n)

-- All bytes of it are digits, so the reader skips none as a space.
pub digits_into-IsDigit : (room n : ℕ) → All IsDigit (digits_into room n)
unfolding digits_into
digits_into-IsDigit zero n = tt
digits_into-IsDigit (suc room) n = ground (arith, digits_into-IsDigit room (n / 10))

pub All-reverse : (xs : Bytes) → All IsDigit xs → All IsDigit (reverse xs)
All-reverse [] h = tt
All-reverse (x ∷ xs) h =
    subst (All IsDigit) (sym (reverse-cons x xs))
      (All-append IsDigit (reverse xs) (x ∷ []) (All-reverse xs h.1) (h.0, tt))

parse_u64_digits : (d : ℕ) (s : Bytes) → IsDigit d → parse_u64 (d ∷ s) ≡ digits_loop 0 false (d ∷ s)
unfolding parse_u64 digits_of skip_spaces is_space
parse_u64_digits d s h = ground arith

parse_u64-append :
    (ds rest : Bytes)
    → All IsDigit ds
    → ds ≢ []
    → parse_u64 (ds ++ rest) ≡ digits_loop 0 false (ds ++ rest)
parse_u64-append [] rest h ne = absurd (ne refl)
parse_u64-append (d ∷ ds) rest h ne = parse_u64_digits d (ds ++ rest) h.0

length-digits_into : (room n : ℕ) → length (digits_into room n) ≤ room
unfolding digits_into
length-digits_into zero n = omega arith
length-digits_into (suc room) n = ground (arith, length-digits_into room (n / 10))

length-digits_into_pos : (room n : ℕ) → 0 < n → 0 < length (digits_into (suc room) n)
unfolding digits_into
length-digits_into_pos room n p = ground arith

decimal-ne-nil : (n : ℕ) → 0 < n → reverse (digits_into 20 n) ≢ []
decimal-ne-nil n p e = absurd (
    omega (
      arith,
      ap (length {A = ℕ}) e,
      length-reverse (digits_into 20 n),
      length-digits_into_pos 19 n p,
    ))

-- A number below 2^64 that is written in decimal, with anything but a digit behind it, is read
-- back as itself.
pub parse_u64-decimal :
    (n : ℕ) (rest : Bytes) → n ≤ u64_max → NoDigit rest → parse_u64 (decimal n ++ rest) ≡ some n
parse_u64-decimal n rest m h = elim (Bool-cases (n == 0)) [
  | inl e ↦ rw e (
      let z : n ≡ 0 = ground arith in
      parse_u64_digits b'0' rest (omega arith)
      ∙ digits_loop_step 0 0 false rest (omega arith) (omega arith)
      ∙ digits_loop_end 0 rest h
      ∙ ap some (sym z))
  | inr e ↦ rw e (
      parse_u64-append (reverse (digits_into 20 n)) rest
        (All-reverse (digits_into 20 n) (digits_into-IsDigit 20 n))
        (decimal-ne-nil n (ground arith))
      ∙ digits_loop-digits 20 n rest (ground arith) (omega arith) m
      ∙ digits_loop_end n rest h)
]

pub length-decimal : (n : ℕ) → length (decimal n) ≤ 20
length-decimal n = ground (arith, length-reverse (digits_into 20 n), length-digits_into 20 n)

-- `append_u64_dec` writes the decimal text wherever there is room for it.
pub Writes-append_u64_dec : (n : ℕ) → Writes (λ o. append_u64_dec o n) (decimal n)
unfolding append_u64_dec
Writes-append_u64_dec n o h = elim (Bool-cases (n == 0)) [
  | inl e ↦ rw e (ground (arith, rw e at h))
  | inr e ↦
      let h' : index o + length (reverse (digits_into 20 n)) ≤ o.capacity = rw e at h in
      let full = append_bytes_all o (reverse (digits_into 20 n)) h' in
      let p : 0 < n = ground arith in
      let q = length-digits_into_pos 19 n p in
      rw e (ground (arith, full, length-reverse (digits_into 20 n), q))
]

u64_to_dec_same :
    (size n : ℕ) → 0 < size → u64_to_dec size n ≡ (append_u64_dec (fresh size) n).bytes
unfolding u64_to_dec append_u64_dec
u64_to_dec_same size n h = ground arith

-- The two writers of the runtime agree, and every number below 2^64 that either writes into a
-- buffer of at least 20 bytes is read back by `parse_u64` as itself.
pub parse_u64-u64_to_dec :
    (size n : ℕ)
    → 20 ≤ size
    → n ≤ u64_max
    → (u64_to_dec size n ≡ (append_u64_dec (fresh size) n).bytes)
      × (parse_u64 (u64_to_dec size n) ≡ some n)
parse_u64-u64_to_dec size n h m = (same, parsed)
  where
    written : (append_u64_dec (fresh size) n).bytes ≡ decimal n
    written =
        ap (λ (o : Out). o.bytes)
          (Writes-append_u64_dec n (fresh size) (omega (arith, length-decimal n)))

    same : u64_to_dec size n ≡ (append_u64_dec (fresh size) n).bytes
    same = u64_to_dec_same size n (omega arith)

    parsed : parse_u64 (u64_to_dec size n) ≡ some n
    parsed =
        ap parse_u64 (same ∙ written ∙ sym (append-nil (decimal n))) ∙ parse_u64-decimal n [] m tt

skip_spaces_idem : (s : Bytes) → skip_spaces (skip_spaces s) ≡ skip_spaces s
unfolding skip_spaces
skip_spaces_idem [] = refl
skip_spaces_idem (b ∷ rest) = ground (arith, skip_spaces_idem rest)

-- Spaces in front of a number do not matter.
pub parse_u64-skip_spaces : (s : Bytes) → parse_u64 (skip_spaces s) ≡ parse_u64 s
unfolding parse_u64
parse_u64-skip_spaces s = ap digits_of (skip_spaces_idem s)
