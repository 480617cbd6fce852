-- ===== src/Memory/Latest.antt =====
-- The store against the log of its notes: a slot tells of the latest note for it.
use mini_agent_os.Base.{
  ℕ, ◌<◌, ◌≢◌, false, List, [], ◌∷◌, ◌≡◌, sym, ap, ◌∙◌, inl, inr, arith, ltb, ◌==◌, if◌then◌else◌,
  Option, none, some, length, length-set, set, Bytes, Bool-cases,
}
use mini_agent_os.Memory.Compact.{
  Content, note_content, note_user_request, note_tool_result, note_assistant_response, user_content,
  tool_content, assistant_content, slot_kind,
}
use mini_agent_os.Memory.Notes.{
  Note, user, tool, assistant, reset, take_notes, IsStarted, reset-IsStarted, ensure_started_lem,
  entry_at-reset, entry_at-set_self, entry_at-set_ne, written, note_content-Leaves,
}
use mini_agent_os.Memory.{
  Memory, Entry, cleared, memory_reset, entry_at, noted, tool_kind_slot, slot_count, slot_task,
  slot_conversation, summary_max, detail_max, source_max,
}
use mini_agent_os.Utf8.{copy_utf8_prefix}

-- What a slot tells, and nothing if it is free.
abbrev pub told : Entry → Content
told e = record { state = e.state; source = e.source; summary = e.summary; detail = e.detail }

abbrev pub shown : Option Content → Content
shown none = told cleared
shown (some c) = record {
  state = c.state;
  source = copy_utf8_prefix source_max (c.source);
  summary = copy_utf8_prefix summary_max (c.summary);
  detail = copy_utf8_prefix detail_max (c.detail);
}

-- The slot of a note and what it says; a reset, or a tool without a slot, has none.
abbrev pub note_slot : Note → ℕ
note_slot (user text) = slot_task
note_slot (tool name result) = tool_kind_slot name
note_slot (assistant text) = slot_conversation
note_slot reset = slot_count

abbrev pub says : Note → Content
says (user text) = user_content text
says (tool name result) = tool_content name result
says (assistant text) = assistant_content text
says reset = told cleared

-- The latest note for a slot in a log, after `before`. A reset forgets.
abbrev pub latest : ℕ → Option Content → List Note → Option Content
latest slot before [] = before
latest slot before (reset ∷ notes) = latest slot none notes
latest slot before (user text ∷ notes) =
    latest slot (if note_slot (user text) == slot then some (says (user text)) else before) notes
latest slot before (tool name result ∷ notes) =
    latest slot
      (if note_slot (tool name result) == slot then some (says (tool name result)) else before)
      notes
latest slot before (assistant text ∷ notes) =
    latest slot
      (if note_slot (assistant text) == slot then some (says (assistant text)) else before) notes

-- The store tells at a slot what `before` says.
record Tells (slot : ℕ) (before : Option Content) (m : Memory) : Type 0 where
  base : IsStarted m
  tells : told (entry_at slot m.entries) ≡ shown before

content-Tells :
    (slot i kind size : ℕ) (c : Content) (before : Option Content) (m : Memory)
    → i < slot_count
    → Tells i before m
    → Tells i (if slot == i then some c else before) (note_content slot kind size c m)
unfolding noted
content-Tells slot i kind size c before m h t =
    let l = note_content-Leaves slot kind size c m t.base.started in
    let new = written slot kind size c m t.base.started in
    let base : IsStarted (note_content slot kind size c m) = record {
      started = l.started;
      slots = ap length l.entries_lem ∙ length-set m.entries slot new ∙ t.base.slots;
    } in
    elim (Bool-cases (slot == i)) [
      | inl q ↦
          let p : slot ≡ i = ground arith in
          let at : entry_at i (set m.entries slot new) ≡ new =
            ap (λ (j : ℕ). entry_at j (set m.entries slot new)) (sym p)
            ∙ entry_at-set_self m.entries slot new (omega (arith, t.base.slots)) in
          rw q (record {
            base = base;
            tells = ap (λ es. told (entry_at i es)) l.entries_lem ∙ ap told at;
          })
      | inr q ↦
          let ne : slot ≢ i = ground arith in
          rw q (record {
            base = base;
            tells =
                ap (λ es. told (entry_at i es)) l.entries_lem
                ∙ ap told (entry_at-set_ne m.entries slot i new ne)
                ∙ t.tells;
          })
    ]

module _ (i : ℕ) (h : i < slot_count) where
  user-Tells :
      (text : Bytes) (before : Option Content) (m : Memory)
      → Tells i before m
      → Tells i
          (if slot_task == i then some (user_content text) else before)
          (note_user_request text m)
  unfolding note_user_request
  user-Tells text before m t = rw (ensure_started_lem m t.base.started) (
      content-Tells slot_task i 1 (length text) (user_content text) before _ h (record {
        base = record { started = t.base.started; slots = t.base.slots };
        tells = t.tells;
      }))

  assistant-Tells :
      (text : Bytes) (before : Option Content) (m : Memory)
      → Tells i before m
      → Tells i
          (if slot_conversation == i then some (assistant_content text) else before)
          (note_assistant_response text m)
  unfolding note_assistant_response
  assistant-Tells text before m t =
      rw (ensure_started_lem m t.base.started)
        (content-Tells slot_conversation i 5 (length text) (assistant_content text) before m h t)

  tool-Tells :
      (name result : Bytes) (before : Option Content) (m : Memory)
      → Tells i before m
      → Tells i
          (if tool_kind_slot name == i then some (tool_content name result) else before)
          (note_tool_result name result m)
  unfolding note_tool_result
  tool-Tells name result before m t =
      rw (ensure_started_lem m t.base.started)
        (elim (Bool-cases (ltb (tool_kind_slot name) slot_count)) [
          | inl e ↦ rw e (
              content-Tells (tool_kind_slot name) i (slot_kind (tool_kind_slot name))
                (length result) (tool_content name result) before m h t)
          | inr e ↦ let other : (tool_kind_slot name == i) ≡ false = ground arith in rw (e, other) t
        ])

  notes-Tells :
      (notes : List Note) (before : Option Content) (m : Memory)
      → Tells i before m
      → told (entry_at i (take_notes notes m).entries) ≡ shown (latest i before notes)
  notes-Tells [] before m t = t.tells
  notes-Tells (user text ∷ notes) before m t =
      notes-Tells notes _ (note_user_request text m) (user-Tells text before m t)
  notes-Tells (tool name result ∷ notes) before m t =
      notes-Tells notes _ (note_tool_result name result m) (tool-Tells name result before m t)
  notes-Tells (assistant text ∷ notes) before m t =
      notes-Tells notes _ (note_assistant_response text m) (assistant-Tells text before m t)
  notes-Tells (reset ∷ notes) before m t =
      notes-Tells notes none (memory_reset m)
        (record { base = reset-IsStarted m; tells = ap told (entry_at-reset m i) })

-- The store refines the log of its notes: after any notes since a reset, in any order, each of the
-- five slots tells exactly what the latest note for it says, each text cut to its field, or is free
-- if there is no such note. A note for one slot changes no other.
pub take_notes-latest :
    (slot : ℕ) (notes : List Note) (m : Memory)
    → slot < slot_count
    → told (entry_at slot (take_notes notes (memory_reset m)).entries)
      ≡ shown (latest slot none notes)
take_notes-latest slot notes m h =
    notes-Tells slot h notes none (memory_reset m)
      (record { base = reset-IsStarted m; tells = ap told (entry_at-reset m slot) })
