-- ===== src/Tests/Memory.antt =====
-- Runs of the working memory, and instances of its theorems.
use mini_agent_os.Base.{◌≡◌, refl, arith, true, false, List, [], ◌∷◌, none, inl, All, codes}
use mini_agent_os.Buffer.{fresh}
use mini_agent_os.Memory.Bounds.{Grown, sections-Grown}
use mini_agent_os.Memory.Latest.{told, shown, latest, take_notes-latest}
use mini_agent_os.Memory.Notes.{Note, user, tool, assistant, take_notes}
use mini_agent_os.Memory.Prompt.{
  append_working_memory_to, append_known_sources_to, append_workspace_memory_to,
}
use mini_agent_os.Memory.Store.{IsMemory, IsStore, OfTexts, take_notes-IsMemory, ensure-IsStore}
use mini_agent_os.Memory.Text.{count_occurrences, count_from}
use mini_agent_os.Memory.{Memory, no_budget, memory_reset, ensure_started, entry_at}
use mini_agent_os.Ascii.{starts_with}

-- The second find starts behind the first.
count_example : count_occurrences (codes "aaaab") (codes "aa") ≡ 2
unfolding count_occurrences count_from starts_with
count_example = refl

abbrev boot : Memory
boot = record {
  started = false;
  turn = 0;
  entries = [];
  budget = no_budget;
  tracing = true;
  traces = [];
}

abbrev notes : List Note
notes =
    user (codes "fetch it")
    ∷ tool (codes "fetch_url") (codes "page")
    ∷ tool (codes "memory_status") (codes "{}")
    ∷ assistant (codes "done")
    ∷ []

notes-OfTexts : All OfTexts notes
notes-OfTexts = (
  record { bytes = omega arith },
  (
    (record { bytes = omega arith }, record { bytes = omega arith }),
    (
      (record { bytes = omega arith }, record { bytes = omega arith }),
      (record { bytes = omega arith }, tt),
    ),
  ),
)

take_notes-IsMemory_example : IsMemory (take_notes notes boot)
take_notes-IsMemory_example = take_notes-IsMemory notes boot notes-OfTexts (inl refl)

take_notes-latest_example :
    told (entry_at 1 (take_notes notes (memory_reset boot)).entries) ≡ shown (latest 1 none notes)
take_notes-latest_example = take_notes-latest 1 notes boot (omega arith)

abbrev store : Memory
store = ensure_started (take_notes notes boot)

store-IsStore : IsStore store
store-IsStore =
    ensure-IsStore (take_notes notes boot) (take_notes-IsMemory notes boot notes-OfTexts (inl refl))

sections-Grown_example :
    Grown (fresh 512) (append_working_memory_to 256 store (fresh 512)) 256
    × Grown (fresh 512) (append_known_sources_to 256 store (fresh 512)) 256
    × Grown (fresh 512) (append_workspace_memory_to 256 store (fresh 512)) 256
sections-Grown_example = sections-Grown 256 store (fresh 512) store-IsStore (omega arith)
