-- ===== src/Heap/Blocks.antt =====
-- The blocks that the allocator hands out.
use mathlib.Core.Path.{subst}
use mini_agent_os.Base.{
  ℕ, ◌+◌, ◌-◌, ◌*◌, ◌/◌, ◌^◌, ◌≤◌, ◌<◌, ◌||◌, List, [], ◌∷◌, ◌≡◌, sym, ap, ◌∙◌, arith, Option, none,
  some, ltb, leb, All, Bool-cases, inl, inr,
}
use mini_agent_os.Heap.{Heap, Layout, heap_end, align_up, current, alloc}
use mini_agent_os.Heap.Mask.{align_up-two_pow}
use native.Mathlib.Nat.{lt-div-mul-add, one-le-pow, pow-le-pow_right}

-- A block by its address and its layout.
abbrev pub Block : Type 0
Block = ℕ × Layout

abbrev pub IsAligned : Block → Type 0
IsAligned b = (q : ℕ) × (b.0 ≡ q * b.1.align)

-- Blocks, the newest first, that lie one behind the other between two addresses.
abbrev pub Stacked : ℕ → List Block → ℕ → Type 0
Stacked lo [] hi = lo ≤ hi
Stacked lo (b ∷ blocks) hi = (b.0 + b.1.size ≤ hi) × Stacked lo blocks b.0

-- What a heap knows of the blocks that it has handed out.
abbrev pub IsHeap : Heap → List Block → Type 0
IsHeap h blocks =
    (0 < h.heap_start)
    × (heap_end h ≤ 2 ^ 63)
    × Stacked h.heap_start blocks (current h)
    × (current h ≤ heap_end h)
    × All IsAligned blocks

-- `Layout` has alignments that are powers of two.
abbrev pub IsLayout : Layout → Type 0
IsLayout l = (k : ℕ) × (l.align ≡ 2 ^ k) × (k ≤ 63)

pow_bound : (k : ℕ) → k ≤ 63 → (1 ≤ 2 ^ k) × (2 ^ k ≤ 2 ^ 63)
pow_bound k h = (one-le-pow k 2 (omega arith), pow-le-pow_right (omega arith) h)

aligned :
    (addr : ℕ) (l : Layout)
    → IsLayout l
    → addr ≤ 2 ^ 63
    → (addr ≤ align_up addr l.align) × ((q : ℕ) × (align_up addr l.align ≡ q * l.align))
aligned addr l (k, e, h) a =
    let p : ℕ = 2 ^ k in
    let b = pow_bound k h in
    let up : align_up addr l.align ≡ (addr + p - 1) / p * p =
      ap (align_up addr) e ∙ align_up-two_pow addr k h (omega (arith, b.0, b.1)) in
    (
      omega (arith, up, b.0, lt-div-mul-add {a = addr + p - 1} {b = p} b.0),
      ((addr + p - 1) / p, up ∙ ap (λ (t : ℕ). (addr + p - 1) / p * t) (sym e)),
    )

raise :
    (lo : ℕ) (blocks : List Block) (hi more : ℕ)
    → Stacked lo blocks hi
    → hi ≤ more
    → Stacked lo blocks more
raise lo [] hi more s h = omega (arith, s)
raise lo (b ∷ blocks) hi more s h = (omega (arith, s.0), s.1)

-- The block of a call, in front of those before it.
abbrev pub handed : Layout → Option ℕ → List Block → List Block
handed layout none blocks = blocks
handed layout (some addr) blocks = (addr, layout) ∷ blocks

current_pos : (h : Heap) → 0 < h.heap_start → 0 < current h
current_pos h p = ground arith

current_set : (h : Heap) (n : ℕ) → 0 < n → current (record h { next = n }) ≡ n
current_set h n p = ground arith

alloc-IsHeap :
    (layout : Layout) (h : Heap) (blocks : List Block)
    → IsLayout layout
    → IsHeap h blocks
    → IsHeap (alloc layout h).1 (handed layout (alloc layout h).0 blocks)
unfolding alloc
alloc-IsHeap layout h blocks l i =
    let addr = align_up (current h) layout.align in
    let top = addr + layout.size in
    let up = aligned (current h) layout l (omega (arith, i.1, i.3)) in
    let ge = up.0 in
    let pos = current_pos h i.0 in
    elim (Bool-cases (leb (2 ^ 64) top || ltb (heap_end h) top)) [
      | inl full ↦
          let same = current_set h (current h) pos in
          rw (full, alloc)
            (
              i.0,
              i.1,
              subst (Stacked h.heap_start blocks) (sym same) i.2,
              omega (arith, same, i.3),
              i.4,
            )
      | inr fits ↦
          let same = current_set h top (omega (arith, ge, pos)) in
          rw (fits, alloc)
            (
              i.0,
              i.1,
              (omega (arith, same), raise h.heap_start blocks (current h) addr i.2 ge),
              ground arith,
              (up.1, i.4),
            )
    ]

abbrev pub alloc_all : List Layout → Heap → List Block → Heap × List Block
alloc_all [] h blocks = (h, blocks)
alloc_all (l ∷ layouts) h blocks = alloc_all layouts (alloc l h).1 (handed l (alloc l h).0 blocks)

-- After any calls, each with an alignment that is a power of two up to 2^63, the blocks that were
-- handed out lie in the heap, one behind the other without overlap, and each at a multiple of its
-- alignment, if that was so before; the heap lies below 2^63.
pub alloc_all-IsHeap :
    (layouts : List Layout) (h : Heap) (blocks : List Block)
    → All IsLayout layouts
    → IsHeap h blocks
    → IsHeap (alloc_all layouts h blocks).0 (alloc_all layouts h blocks).1
alloc_all-IsHeap [] h blocks l i = i
alloc_all-IsHeap (x ∷ layouts) h blocks l i =
    alloc_all-IsHeap layouts (alloc x h).1 (handed x (alloc x h).0 blocks) l.1
      (alloc-IsHeap x h blocks l.0 i)
