-- ===== src/Net/Checksum/Verify.antt =====
-- What the loops of `checksum16_be` and `checksum16_tcp` in runtime/src/net.rs add up.
use mini_agent_os.Base.{
  ℕ, zero, suc, ◌+◌, ◌*◌, ◌/◌, ◌%◌, ◌^◌, ◌≤◌, ◌<◌, [], ◌∷◌, ◌++◌, length, Bytes, ◌≡◌, refl, ap, ◌∙◌,
  arith, All, length-append,
}
use mini_agent_os.Net.Checksum.{
  wrapping_add, sum_from, sum_be16_words, fold_carry, complement, add_address, pseudo_header,
}

-- The sum of the words, with no bound.
abbrev pub words : Bytes → ℕ
words [] = 0
words (hi ∷ []) = hi * 256
words (hi ∷ lo ∷ rest) = hi * 256 + lo + words rest

abbrev pub IsByte : ℕ → Type 0
IsByte b = b < 256

words_fit : (buf : Bytes) → All IsByte buf → words buf ≤ 65535 * (length buf + 1)
words_fit [] h = omega arith
words_fit (hi ∷ []) h = let a = h.0 in omega arith
words_fit (hi ∷ lo ∷ rest) h = let a = h.0 in let b = h.1.0 in omega (arith, words_fit rest h.1.1)

sum_from-words :
    (sum : ℕ) (buf : Bytes) → sum + words buf < 2 ^ 32 → sum_from sum buf ≡ sum + words buf
unfolding sum_from wrapping_add
sum_from-words sum [] h = omega arith
sum_from-words sum (hi ∷ []) h = omega arith
sum_from-words sum (hi ∷ lo ∷ rest) h =
    let e : (sum + (hi * 256 + lo)) % 2 ^ 32 ≡ sum + (hi * 256 + lo) = omega arith in
    ap (λ (x : ℕ). sum_from x rest) e
    ∙ sum_from-words (sum + (hi * 256 + lo)) rest (omega arith)
    ∙ omega arith

-- The loop ends below 2^16, and adds multiples of 65535 only.
fold_ends : (sum : ℕ) → sum < 2 ^ 32 → fold_carry 2 sum < 65536
unfolding fold_carry
fold_ends sum h = ground arith

fold_mod : (sum : ℕ) → sum < 2 ^ 32 → fold_carry 2 sum % 65535 ≡ sum % 65535
unfolding fold_carry
fold_mod sum h = ground arith

fold_pos : (sum : ℕ) → 0 < sum → 0 < fold_carry 2 sum
unfolding fold_carry
fold_pos sum h = ground arith

fold_nothing : fold_carry 2 0 ≡ 0
unfolding fold_carry
fold_nothing = refl

-- A sum and its complement make a positive multiple of 65535.
pub complement_completes :
    (sum : ℕ)
    → sum + 65536 < 2 ^ 32
    → ((sum + complement sum) % 65535 ≡ 0) × (0 < sum + complement sum)
unfolding complement
complement_completes zero h = (omega (arith, fold_nothing), omega (arith, fold_nothing))
complement_completes (suc n) h =
    let below = fold_ends (suc n) (omega arith) in
    let same = fold_mod (suc n) (omega arith) in (omega (arith, below, same), omega arith)

-- An even number of bytes.
abbrev pub IsEven : Bytes → Type 0
IsEven [] = Unit
IsEven (x ∷ []) = ⊥
IsEven (x ∷ y ∷ a) = IsEven a

-- The range with the number `c` in the word behind `a`.
abbrev pub with_word : Bytes → ℕ → Bytes → Bytes
with_word a c b = a ++ c / 256 ∷ c % 256 ∷ b

pub words-with_word :
    (a : Bytes) (c : ℕ) (b : Bytes) → IsEven a → words (with_word a c b) ≡ words a + words b + c
words-with_word [] c b h = omega arith
words-with_word (x ∷ []) c b h = elim h [ ]
words-with_word (x ∷ y ∷ a) c b h = omega (arith, words-with_word a c b h)

-- The longest packet, TX_BUF_LEN.
abbrev pub tx_buf_len : ℕ
tx_buf_len = 8192

-- A range that is sent: even up to its checksum, of bytes, and no longer than a packet.
pub record IsSent (a b : Bytes) : Type 0 where
  pub even : IsEven a
  pub head : All IsByte a
  pub tail : All IsByte b
  pub short : length a + length b + 2 ≤ tx_buf_len

pub words_bound : (a b : Bytes) → IsSent a b → words a + words b ≤ 65535 * 8192
words_bound a b s = omega (arith, words_fit a s.head, words_fit b s.tail, s.short)

pub sum_from-with_word :
    (sum : ℕ) (a : Bytes) (c : ℕ) (b : Bytes)
    → IsSent a b
    → sum + c ≤ 2 ^ 20
    → sum_from sum (with_word a c b) ≡ sum + (words a + words b) + c
sum_from-with_word sum a c b s h =
    let e = words-with_word a c b s.even in
    let w = words_bound a b s in
    sum_from-words sum (with_word a c b) (omega (arith, e, w)) ∙ omega (arith, e)

pub complement_fits : (sum : ℕ) → complement sum ≤ 65535
unfolding complement
complement_fits sum = omega arith

add_address_fits : (sum : ℕ) (ip : Bytes) → All IsByte ip → add_address sum ip ≤ sum + 131070
unfolding add_address wrapping_add
add_address_fits sum [] h = omega arith
add_address_fits sum (a ∷ []) h = omega arith
add_address_fits sum (a ∷ b ∷ []) h = omega arith
add_address_fits sum (a ∷ b ∷ c ∷ []) h = omega arith
add_address_fits sum (a ∷ b ∷ c ∷ d ∷ rest) h =
    let p = h.0 in let q = h.1.0 in let r = h.1.1.0 in let s = h.1.1.1.0 in omega arith

pub pseudo_header_fits :
    (src dst : Bytes) (n : ℕ)
    → All IsByte src
    → All IsByte dst
    → n ≤ tx_buf_len
    → pseudo_header src dst n ≤ 300000
unfolding pseudo_header wrapping_add
pseudo_header_fits src dst n h k l =
    omega (arith, add_address_fits 0 src h, add_address_fits (add_address 0 src) dst k)

pub length-with_word :
    (a : Bytes) (c : ℕ) (b : Bytes) → length (with_word a c b) ≡ length a + length b + 2
length-with_word a c b = omega (arith, length-append a (c / 256 ∷ c % 256 ∷ b))

-- What `checksum16_tcp` takes the complement of.
pub tcp_sum :
    (src dst a : Bytes) (c : ℕ) (b : Bytes)
    → IsSent a b
    → All IsByte src
    → All IsByte dst
    → c ≤ 65535
    → wrapping_add
        (pseudo_header src dst (length (with_word a c b)))
        (sum_be16_words (with_word a c b))
      ≡ pseudo_header src dst (length a + length b + 2) + (words a + words b) + c
unfolding wrapping_add sum_be16_words
tcp_sum src dst a c b s h k l =
    let n = length a + length b + 2 in
    let header = pseudo_header_fits src dst n h k s.short in
    let sum = sum_from-with_word 0 a c b s (omega arith) in
    ap (λ (x : ℕ). (pseudo_header src dst x + sum_from 0 (with_word a c b)) % 2 ^ 32)
      (length-with_word a c b)
    ∙ omega (arith, header, sum, words_bound a b s)
