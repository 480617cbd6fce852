-- ===== src/Heap.antt =====
-- The bump allocator of runtime/src/allocator.rs. Addresses are 64-bit words.
pub mod Blocks
pub mod Mask
use Prim.Native.Nat.{bit_and}
use mini_agent_os.Base.{
  ℕ, ◌+◌, ◌-◌, ◌*◌, ◌/◌, ◌%◌, ◌^◌, Bool, true, false, ◌||◌, List, [], ◌∷◌, Option, none, some, ltb,
  leb, ◌==◌, if◌then◌else◌,
}

abbrev pub heap_size : ℕ
heap_size = 1024 * 1024

-- The address of HEAP_SPACE, and the word `next`, 0 before the first call.
pub record Heap : Type 0 where
  pub heap_start : ℕ
  pub next : ℕ

abbrev pub heap_end : Heap → ℕ
heap_end h = h.heap_start + heap_size

-- `core::alloc::Layout`
pub record Layout : Type 0 where
  pub size : ℕ
  pub align : ℕ

-- `(addr + align - 1) & !(align - 1)`
unfoldable pub align_up : ℕ → ℕ → ℕ
align_up addr align = bit_and ((addr + align - 1) % 2 ^ 64) (2 ^ 64 - 1 - (align - 1))

-- The value that the round works on: the first call sets `next` to the start.
abbrev pub current : Heap → ℕ
current h = if h.next == 0 then h.heap_start else h.next

-- The round of `alloc` whose exchange succeeds; `none` is the null pointer. A round whose exchange
-- fails changes nothing and starts again from the word that it has read.
unfoldable pub alloc : Layout → Heap → Option ℕ × Heap
alloc layout h =
    let alloc_start = align_up (current h) layout.align in
    let alloc_end = alloc_start + layout.size in
    let started = record h { next = current h } in
    if leb (2 ^ 64) alloc_end || ltb (heap_end h) alloc_end
    then (none, started)
    else (some alloc_start, record h { next = alloc_end })
