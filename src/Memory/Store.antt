-- ===== src/Memory/Store.antt =====
-- The invariant of the store: every slot is free or holds a note of its own kind under its own
-- identifier, with texts that are UTF-8 and fit.
use mathlib.Core.Path.{subst}
use mini_agent_os.Base.{
  ℕ, zero, suc, ◌^◌, ◌≤◌, ◌<◌, ◌≢◌, ◌⊎◌, true, false, List, [], ◌∷◌, ◌≡◌, refl, sym, ap, ◌∙◌, inl,
  inr, arith, ltb, ◌==◌, if◌then◌else◌, length, length-set, set, All, Bytes, Bool-cases,
}
use mini_agent_os.Buffer.{copy_bytes}
use mini_agent_os.Memory.Compact.{
  Content, note_content, note_user_request, note_tool_result, note_assistant_response, user_content,
  tool_content, assistant_content, slot_kind,
}
use mini_agent_os.Memory.Content.{IsContent, user-IsContent, tool-IsContent, assistant-IsContent}
use mini_agent_os.Memory.Notes.{
  Note, user, tool, assistant, reset, take_note, take_notes, IsStarted, reset-IsStarted,
  ensure_started_lem, ensure_started-reset, entry_at-reset, entry_at-set_self, entry_at-set_ne,
  written, note_content-Leaves,
}
use mini_agent_os.Memory.Written.{IsText}
use mini_agent_os.Memory.{
  Memory, Entry, cleared, memory_reset, ensure_started, entry_at, noted, tool_kind_slot, slot_count,
  slot_id_bytes, summary_max, detail_max, source_max,
}
use mini_agent_os.Utf8.Prefix.{copy_utf8_prefix-IsUtf8}
use mini_agent_os.Utf8.Scalar.{IsUtf8}

-- A field of `n` bytes with well-formed text.
abbrev pub IsField : ℕ → Bytes → Type 0
IsField n s = IsUtf8 s × (length s ≤ n)

-- A slot that holds a note.
pub record IsHeld (slot : ℕ) (e : Entry) : Type 0 where
  pub kind : e.kind ≡ suc slot
  pub state : (0 < e.state) × (e.state ≤ 3)
  pub id : e.id ≡ slot_id_bytes slot
  pub summary : IsField summary_max e.summary
  pub detail : IsField detail_max e.detail
  pub source : IsField source_max e.source
  pub turn : e.updated_turn < 2 ^ 16

abbrev pub IsSlot : ℕ → Entry → Type 0
IsSlot slot e = (e ≡ cleared) ⊎ IsHeld slot e

pub record IsStore (m : Memory) : Type 0 where
  pub base : IsStarted m
  pub slots : (i : ℕ) → i < slot_count → IsSlot i (entry_at i m.entries)
  pub turn : m.turn < 2 ^ 16

reset-IsStore : (m : Memory) → IsStore (memory_reset m)
unfolding memory_reset
reset-IsStore m = record {
  base = reset-IsStarted m;
  slots = λ i h. inl (entry_at-reset m i);
  turn = omega arith;
}

-- A store that has not been started is started by its first use.
abbrev pub IsMemory : Memory → Type 0
IsMemory m = (m.started ≡ false) ⊎ IsStore m

pub ensure-IsStore : (m : Memory) → IsMemory m → IsStore (ensure_started m)
ensure-IsStore m (inl h) = rw (ensure_started-reset m h) (reset-IsStore m)
ensure-IsStore m (inr s) = rw (ensure_started_lem m s.base.started) s

-- The identifier of a slot fits and is not empty.
slot_id_whole :
    (slot : ℕ) → slot < slot_count → copy_bytes 24 (slot_id_bytes slot) ≡ slot_id_bytes slot
unfolding copy_bytes slot_id_bytes
slot_id_whole zero h = refl
slot_id_whole (suc zero) h = refl
slot_id_whole (suc (suc zero)) h = refl
slot_id_whole (suc (suc (suc zero))) h = refl
slot_id_whole (suc (suc (suc (suc zero)))) h = refl
slot_id_whole (suc (suc (suc (suc (suc n))))) h = absurd (omega arith)

-- The identifier in a slot after a note.
noted_id :
    (slot : ℕ) (e : Entry)
    → slot < slot_count
    → IsSlot slot e
    → (if length e.id == 0 then copy_bytes 24 (slot_id_bytes slot) else e.id) ≡ slot_id_bytes slot
noted_id slot e h (inl free) = rw free (slot_id_whole slot h)
noted_id slot e h (inr held) = elim (Bool-cases (length (e.id) == 0)) [
  | inl z ↦ rw z (slot_id_whole slot h)
  | inr z ↦ rw z (held.id)
]

written-IsHeld :
    (slot size : ℕ) (c : Content) (turn : ℕ) (e : Entry)
    → slot < slot_count
    → IsContent c
    → IsSlot slot e
    → turn < 2 ^ 16
    → IsHeld slot (noted slot (suc slot) c.state c.source c.summary c.detail turn e)
unfolding noted
written-IsHeld slot size c turn e h k s t = record {
  kind = refl;
  state = k.state;
  id = noted_id slot e h s;
  summary = copy_utf8_prefix-IsUtf8 summary_max c.summary k.summary.bytes;
  detail = copy_utf8_prefix-IsUtf8 detail_max c.detail k.detail.bytes;
  source = copy_utf8_prefix-IsUtf8 source_max c.source k.source.bytes;
  turn = t;
}

note_content-IsStore :
    (slot kind size : ℕ) (c : Content) (m : Memory)
    → slot < slot_count
    → kind ≡ suc slot
    → IsContent c
    → IsStore m
    → IsStore (note_content slot kind size c m)
note_content-IsStore slot kind size c m h e k s =
    let l = note_content-Leaves slot kind size c m s.base.started in
    let new = written slot kind size c m s.base.started in
    let held : IsHeld slot new =
      subst
        (λ n.
          IsHeld slot
            (noted slot n c.state c.source c.summary c.detail m.turn (entry_at slot m.entries)))
        (sym e)
        (written-IsHeld slot size c m.turn (entry_at slot m.entries) h k (s.slots slot h) s.turn) in
    record {
      base = record {
        started = l.started;
        slots = ap length l.entries_lem ∙ length-set m.entries slot new ∙ s.base.slots;
      };
      slots = λ i b. rw l.entries_lem (elim (Bool-cases (slot == i)) [
        | inl q ↦
            let p : slot ≡ i = ground arith in
            subst (λ j. IsSlot j (entry_at j (set m.entries slot new))) p
              (rw (entry_at-set_self m.entries slot new (omega (arith, s.base.slots))) (inr held))
        | inr q ↦
            let ne : slot ≢ i = ground arith in
            rw (entry_at-set_ne m.entries slot i new ne) (s.slots i b)
      ]);
      turn = rw l.turn_lem s.turn;
    }

-- A tool that has a slot writes the kind of the slot.
slot_kind_lem :
    (name : Bytes)
    → ltb (tool_kind_slot name) slot_count ≡ true
    → slot_kind (tool_kind_slot name) ≡ suc (tool_kind_slot name)
unfolding slot_kind tool_kind_slot
slot_kind_lem name h = ground arith

-- The texts of a note are made of bytes.
abbrev pub OfTexts : Note → Type 0
OfTexts (user text) = IsText text
OfTexts (tool name result) = IsText name × IsText result
OfTexts (assistant text) = IsText text
OfTexts reset = Unit

note-IsMemory : (n : Note) (m : Memory) → OfTexts n → IsMemory m → IsMemory (take_note n m)
unfolding note_user_request note_tool_result note_assistant_response
note-IsMemory (user text) m h s =
    let t = ensure-IsStore m s in
    inr (
      note_content-IsStore 0 1 (length text) (user_content text) _ (omega arith) refl
        (user-IsContent h)
        (record {
          base = record { started = t.base.started; slots = t.base.slots };
          slots = t.slots;
          turn = omega arith;
        }))
note-IsMemory (tool name result) m h s =
    let t = ensure-IsStore m s in
    elim (Bool-cases (ltb (tool_kind_slot name) slot_count)) [
      | inl e ↦ rw e (
          inr (
            note_content-IsStore (tool_kind_slot name) (slot_kind (tool_kind_slot name))
              (length result) (tool_content name result) _ (ground arith) (slot_kind_lem name e)
              (tool-IsContent h.0 h.1) t))
      | inr e ↦ rw e (inr t)
    ]
note-IsMemory (assistant text) m h s = inr (
    note_content-IsStore 4 5 (length text) (assistant_content text) _ (omega arith) refl
      (assistant-IsContent h) (ensure-IsStore m s))
note-IsMemory reset m h s = inr (reset-IsStore m)

-- Whatever notes are taken and in whatever order, each of the five slots is free or holds a note of
-- the kind and with the identifier of the slot, in one of the three states, whose summary, detail and
-- source are well-formed UTF-8 of at most 192, 512 and 128 bytes. This holds although a compaction may
-- cut its texts inside a character; the texts that the notes are made from are any bytes.
pub take_notes-IsMemory :
    (notes : List Note) (m : Memory)
    → All OfTexts notes
    → IsMemory m
    → IsMemory (take_notes notes m)
take_notes-IsMemory [] m h s = s
take_notes-IsMemory (n ∷ notes) m h s =
    take_notes-IsMemory notes (take_note n m) h.1 (note-IsMemory n m h.0 s)
