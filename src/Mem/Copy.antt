-- ===== src/Mem/Copy.antt =====
-- What the copying and filling routines leave in memory, overlapping ranges included.
use mini_agent_os.Base.{
  ℕ, zero, suc, ◌+◌, ◌-◌, ◌%◌, ◌≤◌, ◌<◌, Bool, ◌&&◌, ◌≡◌, ◌⊎◌, ◌↔◌, sym, ap, ◌∙◌, arith, none, leb,
  ltb, ◌==◌, if◌then◌else◌, Bool-cases, inl, inr, Bytes, [], ◌∷◌,
}
use mini_agent_os.Mem.{
  Memory, store, copy_up, copy_down, memcpy, memmove, fill, memset, memcmp_from, memcmp,
}

-- `x` is in the range of `n` bytes from `a` on.
abbrev pub in_range : ℕ → ℕ → ℕ → Bool
in_range a n x = leb a x && ltb x (a + n)

-- One round of a copy, before and after the bytes that follow.
round_up :
    (left i dst src : ℕ) (m : Memory) (x : ℕ)
    → (dst ≤ src) ⊎ (src + i + suc left ≤ dst)
    → (if in_range (dst + suc i) left x
        then store m (dst + i) (m (src + i)) (src + (x - dst))
        else store m (dst + i) (m (src + i)) x)
      ≡ (if in_range (dst + i) (suc left) x then m (src + (x - dst)) else m x)
round_up left i dst src m x h = elim (Bool-cases (x == dst + i)) [
  | inl e ↦
      let q : src + (x - dst) ≡ src + i = ground arith in
      let r : m (src + (x - dst)) ≡ m (src + i) = ap m q in ground arith
  | inr e ↦ ground arith
]

copy_up_lem :
    (left i dst src : ℕ) (m : Memory) (x : ℕ)
    → (dst ≤ src) ⊎ (src + i + left ≤ dst)
    → copy_up left i dst src m x ≡ (if in_range (dst + i) left x then m (src + (x - dst)) else m x)
unfolding copy_up
copy_up_lem zero i dst src m x h = ground arith
copy_up_lem (suc left) i dst src m x h =
    copy_up_lem left (suc i) dst src (store m (dst + i) (m (src + i))) x (ground arith)
    ∙ round_up left i dst src m x h

round_down :
    (i dst src : ℕ) (m : Memory) (x : ℕ)
    → src < dst
    → (if in_range dst i x
        then store m (dst + i) (m (src + i)) (src + (x - dst))
        else store m (dst + i) (m (src + i)) x)
      ≡ (if in_range dst (suc i) x then m (src + (x - dst)) else m x)
round_down i dst src m x h = elim (Bool-cases (x == dst + i)) [
  | inl e ↦
      let q : src + (x - dst) ≡ src + i = ground arith in
      let r : m (src + (x - dst)) ≡ m (src + i) = ap m q in ground arith
  | inr e ↦ ground arith
]

copy_down_lem :
    (n dst src : ℕ) (m : Memory) (x : ℕ)
    → src < dst
    → copy_down n dst src m x ≡ (if in_range dst n x then m (src + (x - dst)) else m x)
unfolding copy_down
copy_down_lem zero dst src m x h = ground arith
copy_down_lem (suc i) dst src m x h =
    copy_down_lem i dst src (store m (dst + i) (m (src + i))) x h ∙ round_down i dst src m x h

-- `memmove` leaves in the destination what the source held before the call, however the two ranges
-- overlap, and every other byte as it was.
pub memmove_lem :
    (dst src n : ℕ) (m : Memory) (x : ℕ)
    → memmove dst src n m x ≡ (if in_range dst n x then m (src + (x - dst)) else m x)
unfolding memmove memcpy
memmove_lem dst src n m x = elim (Bool-cases (leb dst src)) [
  | inl e ↦
      let start : dst + 0 ≡ dst = omega arith in
      rw e (
        copy_up_lem n 0 dst src m x (inl (ground arith))
        ∙ ap (λ (a : ℕ). if in_range a n x then m (src + (x - dst)) else m x) start)
  | inr e ↦ rw e (copy_down_lem n dst src m x (ground arith))
]

-- On ranges that do not overlap, `memcpy` and `memmove` agree.
memcpy-memmove :
    (dst src n : ℕ) (m : Memory) (x : ℕ)
    → (src + n ≤ dst) ⊎ (dst + n ≤ src)
    → memcpy dst src n m x ≡ memmove dst src n m x
unfolding memcpy
memcpy-memmove dst src n m x h =
    let start : dst + 0 ≡ dst = omega arith in
    copy_up_lem n 0 dst src m x (ground arith)
    ∙ ap (λ (a : ℕ). if in_range a n x then m (src + (x - dst)) else m x) start
    ∙ sym (memmove_lem dst src n m x)

fill_lem :
    (left i dst v : ℕ) (m : Memory) (x : ℕ)
    → fill left i dst v m x ≡ (if in_range (dst + i) left x then v else m x)
unfolding fill
fill_lem zero i dst v m x = ground arith
fill_lem (suc left) i dst v m x = fill_lem left (suc i) dst v (store m (dst + i) v) x ∙ ground arith

-- `memset` leaves the low byte of `c` in the whole range and every other byte as it was.
memset_lem :
    (dst c n : ℕ) (m : Memory) (x : ℕ)
    → memset dst c n m x ≡ (if in_range dst n x then c % 256 else m x)
unfolding memset
memset_lem dst c n m x =
    let start : dst + 0 ≡ dst = omega arith in
    fill_lem n 0 dst (c % 256) m x ∙ ap (λ (a : ℕ). if in_range a n x then c % 256 else m x) start

-- The bytes of a range from `i` on.
abbrev pub slice : ℕ → ℕ → ℕ → Memory → Bytes
slice zero i a m = []
slice (suc left) i a m = m (a + i) ∷ slice left (suc i) a m

memcmp_from_iff :
    (left i a b : ℕ) (m : Memory)
    → (memcmp_from left i a b m ≡ none) ↔ (slice left i a m ≡ slice left i b m)
unfolding memcmp_from
memcmp_from_iff zero i a b m = ground arith
memcmp_from_iff (suc left) i a b m = ground (arith, memcmp_from_iff left (suc i) a b m)

-- `memcmp` answers 0 exactly if the two ranges hold the same bytes.
memcmp_iff : (a b n : ℕ) (m : Memory) → (memcmp a b n m ≡ none) ↔ (slice n 0 a m ≡ slice n 0 b m)
unfolding memcmp
memcmp_iff a b n m = memcmp_from_iff n 0 a b m
