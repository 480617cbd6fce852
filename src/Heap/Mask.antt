-- ===== src/Heap/Mask.antt =====
-- The mask of `align_up` in runtime/src/allocator.rs: with an alignment that is a power of two, it
-- clears the low bits of a word.
use Prim.Native.Nat.{bit_and, bit_and-bitwise, digits}
use mini_agent_os.Base.{
  ℕ, zero, suc, ◌+◌, ◌-◌, ◌*◌, ◌/◌, ◌%◌, ◌^◌, ◌≤◌, ◌<◌, min, ◌≡◌, refl, sym, ap, ◌∙◌, arith,
}
use mini_agent_os.Heap.{align_up}
use native.Mathlib.Nat.{div-add-mod', div-lt_iff_lt-mul, mod-eq_of_lt, mod-lt, one-le-pow, pow-suc}

-- The digits of `&`, with room for `n` of them.
abbrev and_room : ℕ → ℕ → ℕ → ℕ
and_room n a b = digits (λ b. zero) min n a b

and_room_step :
    (n a b : ℕ) → and_room (suc n) a b ≡ and_room n (a / 2) (b / 2) * 2 + min (a % 2) (b % 2)
and_room_step zero zero b = omega arith
and_room_step (suc n) zero b = omega arith
and_room_step n (suc a) b = refl

times_two : (q k : ℕ) → q * 2 ^ suc k ≡ 2 * (q * 2 ^ k)
times_two q k = omega (arith, ap (λ (t : ℕ). q * t) (pow-suc 2 k))

-- `j` digits of one keep a number of `j` digits.
keeps_low : (n j q : ℕ) → q ≤ n → q < 2 ^ j → and_room n q (2 ^ j - 1) ≡ q
keeps_low zero j q h l = omega arith
keeps_low (suc n) zero q h l =
    omega (arith, and_room_step n q (2 ^ 0 - 1), keeps_low n 0 (q / 2) (omega arith) (omega arith))
keeps_low (suc n) (suc j) q h l =
    let p = pow-suc 2 j in
    let one = one-le-pow j 2 (omega arith) in
    let half : (2 ^ suc j - 1) / 2 ≡ 2 ^ j - 1 = omega (arith, p, one) in
    and_room_step n q (2 ^ suc j - 1)
    ∙ ap (λ (t : ℕ). and_room n (q / 2) t * 2 + min (q % 2) ((2 ^ suc j - 1) % 2)) half
    ∙ omega (arith, p, one, keeps_low n j (q / 2) (omega arith) (omega arith))

-- And `k` digits of zero behind them clear the last `k`.
clears_low :
    (k n j q r : ℕ)
    → q * 2 ^ k + r ≤ n
    → r < 2 ^ k
    → q < 2 ^ j
    → and_room n (q * 2 ^ k + r) ((2 ^ j - 1) * 2 ^ k) ≡ q * 2 ^ k
clears_low zero n j q r h s l =
    let a : q * 2 ^ 0 + r ≡ q = omega arith in
    let b : (2 ^ j - 1) * 2 ^ 0 ≡ 2 ^ j - 1 = omega arith in
    ap (λ (t : ℕ). and_room n t ((2 ^ j - 1) * 2 ^ 0)) a
    ∙ ap (and_room n q) b
    ∙ keeps_low n j q (omega arith) l
    ∙ omega arith
clears_low (suc k) zero j q r h s l = omega arith
clears_low (suc k) (suc n) j q r h s l =
    let x = q * 2 ^ suc k + r in
    let mask = (2 ^ j - 1) * 2 ^ suc k in
    let p = times_two q k in
    let m = times_two (2 ^ j - 1) k in
    let two = pow-suc 2 k in
    let a : x / 2 ≡ q * 2 ^ k + r / 2 = omega (arith, p) in
    let b : mask / 2 ≡ (2 ^ j - 1) * 2 ^ k = omega (arith, m) in
    let rest = clears_low k n j q (r / 2) (omega (arith, p)) (omega (arith, two)) l in
    and_room_step n x mask
    ∙ ap (λ (t : ℕ). and_room n t (mask / 2) * 2 + min (x % 2) (mask % 2)) a
    ∙ ap (λ (t : ℕ). and_room n (q * 2 ^ k + r / 2) t * 2 + min (x % 2) (mask % 2)) b
    ∙ omega (arith, p, m, rest)

two_pow-add : (j k : ℕ) → 2 ^ j * 2 ^ k ≡ 2 ^ (j + k)
two_pow-add j zero =
    let e : 2 ^ j ≡ 2 ^ (j + 0) = ap (λ (t : ℕ). 2 ^ t) {x = j} {y = j + 0} (omega arith) in
    omega (arith, e)
two_pow-add j (suc k) =
    let e : 2 ^ suc (j + k) ≡ 2 ^ (j + suc k) =
      ap (λ (t : ℕ). 2 ^ t) {x = suc (j + k)} {y = j + suc k} (omega arith) in
    omega (arith, times_two (2 ^ j) k, two_pow-add j k, pow-suc 2 (j + k), e)

less_one : (m p : ℕ) → 1 ≤ m → (m - 1) * p ≡ m * p - p
less_one zero p h = absurd (omega arith)
less_one (suc m) p h = let e : suc m - 1 ≡ m = omega arith in ap (λ (t : ℕ). t * p) e ∙ omega arith

-- Up to the alignments of `Layout`, the words of 64 bits are aligned as by division.
pub align_up-two_pow :
    (addr k : ℕ)
    → k ≤ 63
    → addr + 2 ^ k - 1 < 2 ^ 64
    → align_up addr (2 ^ k) ≡ (addr + 2 ^ k - 1) / 2 ^ k * 2 ^ k
unfolding align_up
align_up-two_pow addr k h w =
    let p : ℕ = 2 ^ k in
    let j : ℕ = 64 - k in
    let x : ℕ = addr + p - 1 in
    let one : 1 ≤ p = one-le-pow k 2 (omega arith) in
    let whole : 2 ^ j * p ≡ 2 ^ 64 =
      two_pow-add j k ∙ ap (λ (t : ℕ). 2 ^ t) {x = j + k} {y = 64} (omega arith) in
    let split = div-add-mod' x p in
    let less : x / p < 2 ^ j =
      (div-lt_iff_lt-mul {k = p} {x = x} {y = 2 ^ j} one).1 (omega (arith, whole)) in
    let mask : 2 ^ 64 - 1 - (p - 1) ≡ (2 ^ j - 1) * p =
      omega (arith, whole, one, less_one (2 ^ j) p (omega (arith, one-le-pow j 2 (omega arith)))) in
    let word : x % 2 ^ 64 ≡ x / p * p + x % p = mod-eq_of_lt w ∙ sym split in
    ap (λ (t : ℕ). bit_and (x % 2 ^ 64) t) mask
    ∙ ap (λ (t : ℕ). bit_and t ((2 ^ j - 1) * p)) word
    ∙ bit_and-bitwise (x / p * p + x % p) ((2 ^ j - 1) * p)
    ∙ clears_low k (x / p * p + x % p) j (x / p) (x % p) (omega arith) (mod-lt x one) less
