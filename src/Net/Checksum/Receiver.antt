-- ===== src/Net/Checksum/Receiver.antt =====
-- What a receiver makes of the checksums of runtime/src/net.rs: the sum of the internet protocols in
-- ones' complement arithmetic, as RFC 1071 and RFC 793 state it.
use mathlib.Core.Path.{subst}
use mini_agent_os.Base.{
  ℕ, ◌+◌, ◌-◌, ◌*◌, ◌/◌, ◌%◌, ◌^◌, ◌≤◌, ◌<◌, [], ◌∷◌, ◌++◌, if◌then◌else◌, ltb, length, Bytes, ◌≡◌,
  refl, sym, ap, ◌⊎◌, inl, inr, arith, All, All-append,
}
use mini_agent_os.Net.Checksum.Verify.{
  IsByte, IsSent, complement_completes, complement_fits, pseudo_header_fits, sum_from-with_word,
  tcp_sum, with_word, words, words-with_word, words_bound, length-with_word, tx_buf_len,
}
use mini_agent_os.Net.Checksum.{
  checksum16_be, checksum16_tcp, complement, pseudo_header, sum_be16_words, wrapping_add,
  add_address, sum_from,
}

-- A carry comes round to the lowest digit.
unfoldable pub add_ones : ℕ → ℕ → ℕ
add_ones a b = if ltb (a + b) 65536 then a + b else a + b - 65535

-- The sum of the words; a last byte alone is the high one.
unfoldable pub sum_ones : Bytes → ℕ
sum_ones [] = 0
sum_ones (hi ∷ []) = hi * 256
sum_ones (hi ∷ lo ∷ rest) = add_ones (hi * 256 + lo) (sum_ones rest)

-- The receiver takes what sums up to ones.
abbrev pub IsAccepted : Bytes → Type 0
IsAccepted buf = sum_ones buf ≡ 0xffff

-- What TCP puts in front of a segment for the sum: the addresses, a zero, the protocol, which is 6,
-- and the length of the segment.
abbrev pub in_tcp : Bytes → Bytes → Bytes → Bytes
in_tcp src dst tcp = src ++ (dst ++ (0 ∷ 6 ∷ length tcp / 256 ∷ length tcp % 256 ∷ tcp))

abbrev pub IsIp : Bytes → Type 0
IsIp ip = (length ip ≡ 4) × All IsByte ip

add_ones_lem :
    (w s : ℕ)
    → w ≤ 65535
    → s ≤ 65535
    → (add_ones w s ≤ 65535)
      × (add_ones w s % 65535 ≡ (w + s) % 65535)
      × ((w + s ≡ 0) ⊎ (0 < add_ones w s))
unfolding add_ones
add_ones_lem w s h k = (ground arith, ground arith, ground arith)

-- The sum agrees with the sum without carries modulo 65535, and is 0 only if every word is.
sum_ones-words :
    (buf : Bytes)
    → All IsByte buf
    → (sum_ones buf ≤ 65535)
      × (sum_ones buf % 65535 ≡ words buf % 65535)
      × ((words buf ≡ 0) ⊎ (0 < sum_ones buf))
unfolding sum_ones
sum_ones-words [] h = (omega arith, refl, inl refl)
sum_ones-words (hi ∷ []) h = let a = h.0 in (omega arith, refl, ground arith)
sum_ones-words (hi ∷ lo ∷ rest) h =
    let a = h.0 in
    let b = h.1.0 in
    let (small, same, zero_or) = sum_ones-words rest h.1.1 in
    let (fits, added, none_or) = add_ones_lem (hi * 256 + lo) (sum_ones rest) (omega arith) small in
    (
      fits,
      omega (arith, added, same),
      elim none_or [
        | inl z ↦ elim zero_or [
          | inl y ↦ inl (omega (arith, z, y))
          | inr y ↦ absurd (omega (arith, z, y))
        ]
        | inr p ↦ inr p
      ],
    )

-- A positive multiple of 65535 is accepted.
multiple-IsAccepted :
    (buf : Bytes) → All IsByte buf → words buf % 65535 ≡ 0 → 0 < words buf → IsAccepted buf
multiple-IsAccepted buf h m p =
    let (small, same, zero_or) = sum_ones-words buf h in
    elim zero_or [ inl z ↦ absurd (omega (arith, z)) | inr q ↦ omega (arith, small, same, q) ]

-- The words of an address are what `add_address` adds, and stand in front of those behind it.
address-words :
    (sum : ℕ) (ip rest : Bytes)
    → IsIp ip
    → sum ≤ 2 ^ 20
    → (add_address sum ip ≡ sum + words ip)
      × (words (ip ++ rest) ≡ words ip + words rest)
      × (words ip ≤ 131070)
unfolding add_address wrapping_add
address-words sum [] rest s l = absurd (omega (arith, s.0))
address-words sum (a ∷ []) rest s l = absurd (omega (arith, s.0))
address-words sum (a ∷ b ∷ []) rest s l = absurd (omega (arith, s.0))
address-words sum (a ∷ b ∷ c ∷ []) rest s l = absurd (omega (arith, s.0))
address-words sum (a ∷ b ∷ c ∷ d ∷ []) rest (l4, (p, (q, (r, (t, u))))) l =
    (omega arith, omega arith, omega arith)
address-words sum (a ∷ b ∷ c ∷ d ∷ e ∷ ip) rest s l = absurd (omega (arith, s.0))

-- What `checksum16_tcp` adds to the words of the segment is what TCP puts in front of them.
in_tcp-words :
    (src dst tcp : Bytes)
    → IsIp src
    → IsIp dst
    → length tcp ≤ tx_buf_len
    → words (in_tcp src dst tcp) ≡ pseudo_header src dst (length tcp) + words tcp
unfolding pseudo_header wrapping_add
in_tcp-words src dst tcp s t l =
    let n = length tcp in
    let tail : Bytes = 0 ∷ 6 ∷ n / 256 ∷ n % 256 ∷ tcp in
    let (first, front, small) = address-words 0 src (dst ++ tail) s (omega arith) in
    let (second, behind, small') =
      address-words (add_address 0 src) dst tail t (omega (arith, first, small)) in
    omega (arith, first, front, small, second, behind, small')

with_word-IsByte :
    (a : Bytes) (c : ℕ) (b : Bytes) → IsSent a b → c ≤ 65535 → All IsByte (with_word a c b)
with_word-IsByte a c b s h =
    All-append IsByte a (c / 256 ∷ c % 256 ∷ b) s.head (omega arith, (omega arith, s.tail))

-- A range with the complement of a sum in its word, behind what makes up the rest of the sum.
completed-IsAccepted :
    (buf a b : Bytes) (header : ℕ)
    → All IsByte buf
    → IsSent a b
    → header ≤ 300000
    → words buf ≡ header + (words a + words b) + complement (header + (words a + words b))
    → IsAccepted buf
completed-IsAccepted buf a b header h s k e =
    let bound = words_bound a b s in
    let (zero_mod, positive) =
      complement_completes (header + (words a + words b)) (omega (arith, bound)) in
    multiple-IsAccepted buf h (omega (arith, e, zero_mod)) (omega (arith, e, positive))

be-IsAccepted :
    (a b : Bytes) → IsSent a b → IsAccepted (with_word a (checksum16_be (with_word a 0 b)) b)
unfolding checksum16_be
be-IsAccepted a b s =
    let sum : sum_from 0 (with_word a 0 b) ≡ 0 + (words a + words b) =
      omega (arith, sum_from-with_word 0 a 0 b s (omega arith)) in
    let c = complement (0 + (words a + words b)) in
    subst (λ (c : ℕ). IsAccepted (with_word a c b)) (sym (ap complement sum))
      (completed-IsAccepted (with_word a c b) a b 0
        (with_word-IsByte a c b s (complement_fits (0 + (words a + words b)))) s (omega arith)
        (omega (arith, words-with_word a c b s.even)))

in_tcp-IsByte :
    (src dst tcp : Bytes)
    → IsIp src
    → IsIp dst
    → All IsByte tcp
    → length tcp ≤ tx_buf_len
    → All IsByte (in_tcp src dst tcp)
in_tcp-IsByte src dst tcp s t h l =
    let tail : Bytes = 0 ∷ 6 ∷ length tcp / 256 ∷ length tcp % 256 ∷ tcp in
    All-append IsByte src (dst ++ tail) s.1
      (All-append IsByte dst tail t.1 (omega arith, (omega arith, (omega arith, (omega arith, h)))))

tcp-IsAccepted :
    (src dst a b : Bytes)
    → IsIp src
    → IsIp dst
    → IsSent a b
    → IsAccepted (in_tcp src dst (with_word a (checksum16_tcp src dst (with_word a 0 b)) b))
unfolding checksum16_tcp
tcp-IsAccepted src dst a b p q s =
    let n = length a + length b + 2 in
    let header = pseudo_header src dst n in
    let S = header + (words a + words b) in
    let sum : wrapping_add (pseudo_header src dst (length (with_word a 0 b)))
          (sum_be16_words (with_word a 0 b))
        ≡ S =
      omega (arith, tcp_sum src dst a 0 b s p.1 q.1 (omega arith)) in
    let c = complement S in
    let whole = with_word a c b in
    let size : length whole ≡ n = length-with_word a c b in
    let short : length whole ≤ tx_buf_len = omega (arith, size, s.short) in
    let bytes = with_word-IsByte a c b s (complement_fits S) in
    let laid = in_tcp-words src dst whole p q short in
    let same = ap (pseudo_header src dst) size in
    subst (λ (c : ℕ). IsAccepted (in_tcp src dst (with_word a c b))) (sym (ap complement sum))
      (completed-IsAccepted (in_tcp src dst whole) a b header
        (in_tcp-IsByte src dst whole p q bytes short) s
        (pseudo_header_fits src dst n p.1 q.1 s.short)
        (omega (arith, laid, same, words-with_word a c b s.even)))

-- A receiver accepts a packet whose checksum is written into its word, which was zero: the header of
-- IP and the text of ICMP by themselves, and a segment of TCP behind its addresses, a zero, the
-- protocol 6 and its length. The receiver adds the words in ones' complement arithmetic and accepts
-- the sum 0xffff. The word stands at an even place, the packet is no longer than the buffer for
-- sending, and the addresses have four bytes.
pub checksum16-IsAccepted :
    (src dst a b : Bytes)
    → IsIp src
    → IsIp dst
    → IsSent a b
    → IsAccepted (with_word a (checksum16_be (with_word a 0 b)) b)
      × IsAccepted (in_tcp src dst (with_word a (checksum16_tcp src dst (with_word a 0 b)) b))
checksum16-IsAccepted src dst a b p q s = (be-IsAccepted a b s, tcp-IsAccepted src dst a b p q s)
