-- ===== src/Memory/Bounds.antt =====
-- The sections that the store gives to a prompt keep to their budget and are UTF-8.
use mathlib.Core.Path.{subst}
use mini_agent_os.Base.{
  ℕ, ◌+◌, ◌-◌, ◌≤◌, ◌<◌, min, List, [], ◌∷◌, ◌++◌, ◌≡◌, refl, sym, ap, ◌∙◌, inl, inr, arith, ltb,
  length, length-append, length-take, take, All, All-append, Bytes, Bool-cases,
}
use mini_agent_os.Buffer.{Out, index, put, append_copy}
use mini_agent_os.Buffer.Laws.{put-put, put-nil, index-put, copy_bytes_all}
use mini_agent_os.Json.OfBytes.{encode-IsBytes}
use mini_agent_os.Memory.Prompt.{
  entry_line, append_entry_prompt_line, is_told, append_slots, append_slots_to,
  append_working_memory_to, append_known_sources_to, append_workspace_memory_to,
}
use mini_agent_os.Memory.Store.{IsStore, IsSlot, IsField}
use mini_agent_os.Memory.Written.{IsText, IsWritten, writing, copy_utf8_prefix-IsBytes}
use mini_agent_os.Memory.{Memory, Entry, entry_at, kind_name, state_name, slot_count}
use mini_agent_os.Session.History.{IsUtf8-append}
use mini_agent_os.Utf8.Prefix.{utf8_safe_prefix_len_lem}
use mini_agent_os.Utf8.Scalar.{IsUtf8, nil, char, encode}
use mini_agent_os.Utf8.Table.{IsByte, IsBytes, is_bytes}
use mini_agent_os.Utf8.{copy_utf8_prefix, utf8_safe_prefix_len}

IsUtf8-IsBytes : (s : Bytes) → IsUtf8 s → IsBytes s
IsUtf8-IsBytes s nil = tt
IsUtf8-IsBytes s (char {rest = rest} cp v e u) =
    subst IsBytes (sym e) (
      All-append IsByte (encode cp) rest (encode-IsBytes cp (ground arith)) (IsUtf8-IsBytes rest u))

IsWritten-utf8 :
    {o : Out} {s : Bytes} (n : ℕ)
    → IsWritten o
    → IsText s
    → IsWritten (put o (copy_utf8_prefix n s))
IsWritten-utf8 {o} {s} n p q = record {
  bytes = All-append IsByte o.bytes _ p.bytes (copy_utf8_prefix-IsBytes n s q.bytes);
}

name : (kind : ℕ) → IsText (kind_name kind)
unfolding kind_name is_bytes
name kind = search writing depth 12

state : (n : ℕ) → IsText (state_name n)
unfolding state_name is_bytes
state n = search writing depth 12

line : (e : Entry) → IsText (e.summary) → IsText (e.detail) → IsText (entry_line e)
unfolding entry_line is_bytes
line e p q = search (writing, name, state, IsWritten-utf8) depth 14

held-line : (slot : ℕ) (e : Entry) → IsSlot slot e → IsBytes (entry_line e)
held-line slot e (inl free) =
    (line e (rw free (record { bytes = tt })) (rw free (record { bytes = tt }))).bytes
held-line slot e (inr held) =
    (line e (record { bytes = IsUtf8-IsBytes e.summary held.summary.0 })
      (record { bytes = IsUtf8-IsBytes e.detail held.detail.0 })).bytes

-- What has been appended to a buffer, within a budget.
pub record Grown (o o' : Out) (budget : ℕ) : Type 0 where
  pub text : Bytes
  pub appended : o' ≡ put o text
  pub field : IsField budget text

Grown-nil : (o : Out) (budget : ℕ) → Grown o o budget
Grown-nil o budget = record { text = []; appended = sym (put-nil o); field = (nil, omega arith) }

-- One line takes what is left of the budget at most.
line-Grown :
    (e : Entry) (remaining : ℕ) (o : Out)
    → IsBytes (entry_line e)
    → index o + remaining ≤ o.capacity
    → Grown o (append_entry_prompt_line e remaining o) remaining
unfolding append_entry_prompt_line append_copy
line-Grown e remaining o h r =
    let s = entry_line e in
    let n = utf8_safe_prefix_len s (min remaining (length s)) in
    let k = utf8_safe_prefix_len_lem s (min remaining (length s)) [] s h refl nil (omega arith) in
    let l = length-take n s in
    record {
      text = take n s;
      appended =
          ap (put o) (copy_bytes_all (o.capacity - index o) (take n s) (omega (arith, k.1, l)));
      field = (k.0, omega (arith, k.1, l));
    }

-- What a round adds stands behind what stands there.
Grown-then :
    (start budget : ℕ) (o o' o'' : Out) (left : ℕ)
    → index o ≤ start + budget
    → start ≤ index o
    → left ≤ budget - (index o - start)
    → Grown o o' left
    → Grown o' o'' (budget - (index o' - start))
    → Grown o o'' (budget - (index o - start))
Grown-then start budget o o' o'' left b c d g h =
    let i : index o' ≡ index o + length g.text =
      ap (λ (x : Out). index x) g.appended ∙ index-put o g.text in
    record {
      text = g.text ++ h.text;
      appended = h.appended ∙ ap (λ x. put x h.text) g.appended ∙ put-put o g.text h.text;
      field = (
        IsUtf8-append g.text h.text g.field.0 h.field.0,
        omega (arith, length-append g.text h.text, g.field.1, h.field.1, i),
      );
    }

module _ (start budget : ℕ) (m : Memory) (s : IsStore m) where
  slots-Grown :
      (slots : List ℕ) (o : Out)
      → All (λ i. i < slot_count) slots
      → start ≤ index o
      → index o ≤ start + budget
      → start + budget ≤ o.capacity
      → Grown o (append_slots start budget m.entries slots o) (budget - (index o - start))
  unfolding append_slots
  slots-Grown [] o a lo hi r = Grown-nil o (budget - (index o - start))
  slots-Grown (slot ∷ slots) o a lo hi r =
      let e = entry_at slot m.entries in
      let left = budget - (index o - start) in
      elim (Bool-cases (ltb (index o - start) budget)) [
        | inr full ↦ rw full (Grown-nil o left)
        | inl more ↦ rw more (elim (Bool-cases (is_told e)) [
          | inr none ↦ rw none (slots-Grown slots o a.1 lo hi r)
          | inl shown ↦
              let o' = append_entry_prompt_line e left o in
              let g = line-Grown e left o (held-line slot e (s.slots slot a.0)) (omega arith) in
              let i : index o' ≡ index o + length g.text =
                ap (λ (x : Out). index x) g.appended ∙ index-put o g.text in
              let c : o'.capacity ≡ o.capacity = ap (λ (x : Out). x.capacity) g.appended in
              rw shown (
                Grown-then start budget o o' _ left hi lo (omega arith) g (
                  slots-Grown slots o' a.1 (omega (arith, i)) (omega (arith, i, g.field.1))
                    (omega (arith, c))))
        ])
      ]

slots_to-Grown :
    (slots : List ℕ) (budget : ℕ) (m : Memory) (o : Out)
    → All (λ i. i < slot_count) slots
    → IsStore m
    → index o + budget ≤ o.capacity
    → Grown o (append_slots_to slots budget m o) budget
unfolding append_slots_to
slots_to-Grown slots budget m o a s r =
    let g = slots-Grown (index o) budget m s slots o a (omega arith) (omega arith) r in
    record { text = g.text; appended = g.appended; field = (g.field.0, omega (arith, g.field.1)) }

-- Each of the three sections appends at most its budget of bytes, and what it appends is well-formed
-- UTF-8, whatever has been noted: a line that does not fit is cut at a character. The store is
-- well-formed, and the buffer has room for the budget.
pub sections-Grown :
    (budget : ℕ) (m : Memory) (o : Out)
    → IsStore m
    → index o + budget ≤ o.capacity
    → Grown o (append_working_memory_to budget m o) budget
      × Grown o (append_known_sources_to budget m o) budget
      × Grown o (append_workspace_memory_to budget m o) budget
unfolding append_working_memory_to append_known_sources_to append_workspace_memory_to
sections-Grown budget m o s r = (
  slots_to-Grown (0 ∷ 3 ∷ 4 ∷ []) budget m o (omega arith) s r,
  slots_to-Grown (1 ∷ []) budget m o (omega arith) s r,
  slots_to-Grown (2 ∷ []) budget m o (omega arith) s r,
)
