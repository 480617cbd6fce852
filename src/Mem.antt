-- ===== src/Mem.antt =====
-- The memory routines of runtime/src/mem.rs that the compiler and mbedtls call. Memory is the byte at
-- each address; the addresses of a call do not wrap around.
pub mod Copy
use mini_agent_os.Base.{
  ℕ, zero, suc, ◌+◌, ◌%◌, Bool, true, false, Option, none, some, leb, ◌==◌, if◌then◌else◌,
}

abbrev pub Memory : Type 0
Memory = ℕ → ℕ

abbrev pub store : Memory → ℕ → ℕ → Memory
store m a v = λ x. if x == a then v else m x

-- The loop of `memcpy`, with `left` bytes to go from `i` on.
unfoldable pub copy_up : ℕ → ℕ → ℕ → ℕ → Memory → Memory
copy_up zero i dst src m = m
copy_up (suc left) i dst src m = copy_up left (suc i) dst src (store m (dst + i) (m (src + i)))

-- The loop of `memmove` from the end.
unfoldable pub copy_down : ℕ → ℕ → ℕ → Memory → Memory
copy_down zero dst src m = m
copy_down (suc i) dst src m = copy_down i dst src (store m (dst + i) (m (src + i)))

unfoldable pub memcpy : ℕ → ℕ → ℕ → Memory → Memory
memcpy dst src n m = copy_up n 0 dst src m

unfoldable pub memmove : ℕ → ℕ → ℕ → Memory → Memory
memmove dst src n m = if leb dst src then memcpy dst src n m else copy_down n dst src m

-- `c as u8`, of a word.
unfoldable pub fill : ℕ → ℕ → ℕ → ℕ → Memory → Memory
fill zero i dst v m = m
fill (suc left) i dst v m = fill left (suc i) dst v (store m (dst + i) v)

unfoldable pub memset : ℕ → ℕ → ℕ → Memory → Memory
memset dst c n m = fill n 0 dst (c % 256) m

-- The loop of `memcmp`: the two bytes that differ first, whose difference is the answer; `none` is
-- the answer 0.
unfoldable pub memcmp_from : ℕ → ℕ → ℕ → ℕ → Memory → Option (ℕ × ℕ)
memcmp_from zero i a b m = none
memcmp_from (suc left) i a b m =
    let rest = memcmp_from left (suc i) a b m in
    if m (a + i) == m (b + i) then rest else some (m (a + i), m (b + i))

unfoldable pub memcmp : ℕ → ℕ → ℕ → Memory → Option (ℕ × ℕ)
memcmp a b n m = memcmp_from n 0 a b m
