-- ===== src/Memory/Prompt.antt =====
-- The lines that the store gives to a prompt: `append_entry_prompt_line`, `append_slots_to` and the
-- three sections of runtime/src/agent/memory.rs.
use mini_agent_os.Base.{
  ℕ, ◌-◌, min, Bool, not, ◌&&◌, List, [], ◌∷◌, ltb, ◌==◌, if◌then◌else◌, length, take, Bytes, codes,
}
use mini_agent_os.Buffer.{Out, index, fresh, put}
use mini_agent_os.Memory.Text.{◌<+◌}
use mini_agent_os.Memory.{
  Memory, Entry, entry_at, kind_name, state_name, kind_none, slot_task, slot_source, slot_workspace,
  slot_execution, slot_conversation,
}
use mini_agent_os.Utf8.{utf8_safe_prefix_len, copy_utf8_prefix}

-- `line_len += copy_utf8_prefix(&mut line[line_len..], src)`
abbrev pub append_utf8 : Out → Bytes → Out
append_utf8 o src = put o (copy_utf8_prefix (o.capacity - index o) src)

unfoldable pub entry_line : Entry → Bytes
entry_line e =
    let head = fresh 896 <+ codes "- [" <+ kind_name e.kind <+ codes "/" <+ state_name e.state in
    let told = append_utf8 (head <+ codes "] ") e.summary in
    let detailed = append_utf8 (told <+ codes " | ") e.detail in
    ((if length e.detail == 0 then told else detailed) <+ codes "\n").bytes

-- `append_entry_prompt_line`; its only caller drops the answer.
unfoldable pub append_entry_prompt_line : Entry → ℕ → Out → Out
unfolding entry_line
append_entry_prompt_line e remaining o =
    let line = entry_line e in
    o <+ take (utf8_safe_prefix_len line (min remaining (length line))) line

-- `M7_MEMORY_KIND[slot] != M7_KIND_NONE && M7_MEMORY_SUMMARY_LEN[slot] != 0`
abbrev pub is_told : Entry → Bool
is_told e = not (e.kind == kind_none) && not (length e.summary == 0)

-- The loop of `append_slots_to`, from the cursor `start` on.
unfoldable pub append_slots : ℕ → ℕ → List Entry → List ℕ → Out → Out
append_slots start budget entries [] o = o
append_slots start budget entries (slot ∷ slots) o =
    let e = entry_at slot entries in
    let o' = if is_told e then append_entry_prompt_line e (budget - (index o - start)) o else o in
    let rest = append_slots start budget entries slots o' in
    if ltb (index o - start) budget then rest else o

-- The answer `*idx - start` is the growth of the cursor.
unfoldable pub append_slots_to : List ℕ → ℕ → Memory → Out → Out
append_slots_to slots budget m o = append_slots (index o) budget m.entries slots o

unfoldable pub append_working_memory_to : ℕ → Memory → Out → Out
append_working_memory_to budget m o =
    append_slots_to (slot_task ∷ slot_execution ∷ slot_conversation ∷ []) budget m o

unfoldable pub append_known_sources_to : ℕ → Memory → Out → Out
append_known_sources_to budget m o = append_slots_to (slot_source ∷ []) budget m o

unfoldable pub append_workspace_memory_to : ℕ → Memory → Out → Out
append_workspace_memory_to budget m o = append_slots_to (slot_workspace ∷ []) budget m o
