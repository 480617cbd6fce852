-- ===== src/Tests/Heap.antt =====
-- Runs of the allocator and of the local summary.
use mini_agent_os.Agent.Summary.Shape.{IsFlat, sentence_ends, summarize_agent_response-Shape}
use mini_agent_os.Agent.Summary.{drop_spaces, summarize_agent_response, summarize_loop}
use mini_agent_os.Base.{◌≤◌, [], ◌∷◌, ◌≡◌, refl, arith, some, All, codes, length}
use mini_agent_os.Heap.Blocks.{alloc_all, alloc_all-IsHeap, IsHeap}
use mini_agent_os.Heap.{Heap, Layout, align_up, alloc}

abbrev fresh_heap : Heap
fresh_heap = record { heap_start = 0x4020_0010; next = 0 }

abbrev word : Layout
word = record { size = 8; align = 64 }

alloc_runs : (alloc word fresh_heap).0 ≡ some 0x4020_0040
unfolding alloc align_up
alloc_runs = refl

alloc_all-IsHeap_example :
    IsHeap
      (alloc_all (word ∷ word ∷ []) fresh_heap []).0
      (alloc_all (word ∷ word ∷ []) fresh_heap []).1
alloc_all-IsHeap_example =
    alloc_all-IsHeap (word ∷ word ∷ []) fresh_heap []
      ((6, refl, omega arith), ((6, refl, omega arith), tt))
      (omega arith, omega arith, omega arith, omega arith, tt)

-- The mask at an alignment that is no power of two.
odd_alignment : align_up 0x4020_0010 3 ≡ 0x4020_0010
unfolding align_up
odd_alignment = refl

summary_runs :
    summarize_agent_response 4096 2 (codes "One.\n Two  is it! Three.") ≡ codes "One. Two is it!"
unfolding summarize_agent_response summarize_loop drop_spaces
summary_runs = refl

summarize_agent_response-Shape_example :
    (length (summarize_agent_response 4096 2 (codes "One. Two! Three.")) ≤ 4096)
    × All IsFlat (summarize_agent_response 4096 2 (codes "One. Two! Three."))
    × (sentence_ends (summarize_agent_response 4096 2 (codes "One. Two! Three.")) ≤ 2)
summarize_agent_response-Shape_example =
    summarize_agent_response-Shape 4096 2 (codes "One. Two! Three.")
