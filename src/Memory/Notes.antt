-- ===== src/Memory/Notes.antt =====
-- The notes as the calls that change the store, and what each leaves in it.
use mini_agent_os.Base.{
  ℕ, zero, suc, ◌<◌, ◌≢◌, true, false, List, [], ◌∷◌, ◌≡◌, refl, ap, ◌||◌, inl, inr, ◌==◌,
  if◌then◌else◌, length, set, get_elem?-set_self, get_elem?-set_ne, Bytes, Bool-cases,
}
use mini_agent_os.Memory.Compact.{
  Content, note_content, note_user_request, note_tool_result, note_assistant_response,
}
use mini_agent_os.Memory.{
  Memory, Entry, cleared, memory_reset, ensure_started, entry_at, noted, set_slot,
  trace_memory_event, trace_memory_entry_snapshot, trace_memory_compacted, slot_count, kind_none,
}

pub data Note : Type 0 where
  user : Bytes → Note
  tool : Bytes → Bytes → Note
  assistant : Bytes → Note
  reset : Note

abbrev pub take_note : Note → Memory → Memory
take_note (user text) m = note_user_request text m
take_note (tool name result) m = note_tool_result name result m
take_note (assistant text) m = note_assistant_response text m
take_note reset m = memory_reset m

abbrev pub take_notes : List Note → Memory → Memory
take_notes [] m = m
take_notes (n ∷ notes) m = take_notes notes (take_note n m)

-- A store that has been started and has its five slots.
pub record IsStarted (m : Memory) : Type 0 where
  pub started : m.started ≡ true
  pub slots : length m.entries ≡ slot_count

pub ensure_started_lem : (m : Memory) → m.started ≡ true → ensure_started m ≡ m
unfolding ensure_started
ensure_started_lem m h = rw h

pub ensure_started-reset : (m : Memory) → m.started ≡ false → ensure_started m ≡ memory_reset m
unfolding ensure_started
ensure_started-reset m h = ap (λ b. if b then m else memory_reset m) h

pub reset-IsStarted : (m : Memory) → IsStarted (memory_reset m)
unfolding memory_reset
reset-IsStarted m = record { started = refl; slots = refl }

pub entry_at-reset : (m : Memory) (i : ℕ) → entry_at i (memory_reset m).entries ≡ cleared
unfolding memory_reset entry_at
entry_at-reset m zero = refl
entry_at-reset m (suc zero) = refl
entry_at-reset m (suc (suc zero)) = refl
entry_at-reset m (suc (suc (suc zero))) = refl
entry_at-reset m (suc (suc (suc (suc zero)))) = refl
entry_at-reset m (suc (suc (suc (suc (suc i))))) = refl

pub entry_at-set_self :
    (es : List Entry) (i : ℕ) (e : Entry) → i < length es → entry_at i (set es i e) ≡ e
unfolding entry_at
entry_at-set_self es i e h = rw (get_elem?-set_self es i e h, entry_at)

pub entry_at-set_ne :
    (es : List Entry) (i j : ℕ) (e : Entry) → i ≢ j → entry_at j (set es i e) ≡ entry_at j es
unfolding entry_at
entry_at-set_ne es i j e h = rw (get_elem?-set_ne es i j e h, entry_at)

-- What changes besides the trace.
pub record Leaves (m : Memory) (entries : List Entry) (turn : ℕ) : Type 0 where
  pub started : m.started ≡ true
  pub entries_lem : m.entries ≡ entries
  pub turn_lem : m.turn ≡ turn

module _ (slot kind size : ℕ) (c : Content) (m : Memory) (h : m.started ≡ true) where
  -- The entry that a note writes.
  abbrev pub written : Entry
  written =
      noted slot kind (c.state) (c.source) (c.summary) (c.detail) (m.turn) (entry_at slot m.entries)

  set_slot-Leaves :
      Leaves
        (set_slot slot kind c.state c.source c.summary c.detail m).0
        (set m.entries slot written)
        m.turn
  unfolding set_slot trace_memory_event trace_memory_entry_snapshot
  set_slot-Leaves =
      rw (ensure_started_lem m h)
        (elim (Bool-cases ((kind == kind_none) || (length (written.summary) == 0))) [
          | inl e ↦ rw e (record { started = h; entries_lem = refl; turn_lem = refl })
          | inr e ↦ rw e (record { started = h; entries_lem = refl; turn_lem = refl })
        ])

  pub note_content-Leaves :
      Leaves (note_content slot kind size c m) (set m.entries slot written) m.turn
  unfolding note_content trace_memory_compacted
  note_content-Leaves =
      let s = set_slot-Leaves in
      elim (Bool-cases (c.state == 2)) [
        | inl e ↦
            rw e
              (record { started = s.started; entries_lem = s.entries_lem; turn_lem = s.turn_lem })
        | inr e ↦
            rw e
              (record { started = s.started; entries_lem = s.entries_lem; turn_lem = s.turn_lem })
      ]
