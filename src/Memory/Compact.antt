-- ===== src/Memory/Compact.antt =====
-- Compaction, and the notes that change the store, of runtime/src/agent/memory.rs.
use mini_agent_os.Ascii.{strip_prefix}
use mini_agent_os.Base.{
  ℕ, ◌+◌, ◌%◌, ◌^◌, Bool, ◌&&◌, ◌||◌, [], Option, none, some, ltb, ◌==◌, if◌then◌else◌, length,
  Bytes, codes,
}
use mini_agent_os.Buffer.{Out, fresh}
use mini_agent_os.Json.{json_extract_string, json_extract_u64}
use mini_agent_os.Memory.Text.{
  ◌<+◌, ◌<#◌, count_occurrences, contains_bytes, append_normalized_excerpt, summary_from_text,
}
use mini_agent_os.Memory.{
  Memory, ensure_started, set_slot, entry_at, trace_memory_compacted, is_tool, tool_kind_slot,
  slot_count, summary_max, detail_max, kind_none, kind_task, kind_source, kind_workspace,
  kind_execution, kind_conversation, state_raw, state_compacted, state_derived, slot_task,
  slot_source, slot_workspace, slot_execution, slot_conversation,
}

-- M7_COMPACTION_TRIGGER_CHARS
abbrev pub trigger_chars : ℕ
trigger_chars = 240

-- `json_extract_string(..).unwrap_or(0)`, into an array of `size` bytes.
unfoldable pub text_or_empty : Bytes → Bytes → ℕ → Bytes
text_or_empty buf key size = elim (json_extract_string buf key (fresh size)) [
  | none ↦ []
  | some o ↦ o.bytes
]

-- An excerpt behind its label, if there is a text.
unfoldable pub labelled : Bytes → Bytes → Out → Out
labelled label text o = if length text == 0 then o else append_normalized_excerpt (o <+ label) text

unfoldable pub build_generic_compacted_detail : Bytes → Bytes → Bytes → Out → Out
build_generic_compacted_detail tool result source_label o =
    append_normalized_excerpt
      (o <+ codes "Retained " <+ source_label <+ codes " excerpt from " <+ tool <+ codes ": ")
      result
    <+ codes ". Full raw result not carried forward."

-- What a builder leaves in `summary_out` and `detail_out`.
pub record Compacted : Type 0 where
  pub summary : Bytes
  pub detail : Bytes

abbrev pub compacted : Out → Out → Compacted
compacted s d = record { summary = s.bytes; detail = d.bytes }

abbrev pub summary_out : Out
summary_out = fresh summary_max

abbrev pub detail_out : Out
detail_out = fresh detail_max

unfoldable pub build_search_compacted : Bytes → Compacted
unfolding labelled
build_search_compacted result =
    let n = count_occurrences result (codes "\"url\":\"") in
    let title = text_or_empty result (codes "title") 160 in
    let url = text_or_empty result (codes "url") 160 in
    let snippet = text_or_empty result (codes "snippet") 256 in
    let head = summary_out <+ codes "Compacted search results from search_web" in
    let counted = if n == 0 then head else head <+ codes " (" <# n <+ codes " results)" in
    let top = labelled (codes ": ") title (detail_out <+ codes "Retained top result") in
    let linked = labelled (codes " | ") snippet (labelled (codes " | ") url top) in
    compacted (counted <+ codes ".") (linked <+ codes ". Full raw search JSON not carried forward.")

-- The page behind the prefix that the tool puts in front of it.
unfoldable pub page_body : Bytes → Bytes
page_body result = elim (strip_prefix result (codes "Fetched URL content preview:\n")) [
  | none ↦ result
  | some body ↦ body
]

unfoldable pub build_fetch_compacted : Bytes → Compacted
build_fetch_compacted result =
    let kept =
      append_normalized_excerpt (detail_out <+ codes "Retained excerpt: ") (page_body result)
      <+ codes ". Full fetched page content not carried forward." in
    let noted =
      if contains_bytes result (codes "...(truncated)")
      then kept <+ codes " The original preview was already truncated before retention."
      else kept in
    compacted (summary_out <+ codes "Compacted fetched source from fetch_url.") noted

-- `json_extract_u64(..).unwrap_or(0)`
abbrev pub number_or_zero : Option ℕ → ℕ
number_or_zero none = 0
number_or_zero (some n) = n

unfoldable pub build_execution_compacted : Bytes → Compacted
unfolding labelled
build_execution_compacted result =
    let exit_code = number_or_zero (json_extract_u64 result (codes "exit_code")) in
    let stdout = text_or_empty result (codes "stdout") 256 in
    let stderr = text_or_empty result (codes "stderr") 256 in
    let head =
      if exit_code == 0
      then codes "Compacted successful execution result from read_process_output (exit_code="
      else codes "Compacted failed execution result from read_process_output (exit_code=" in
    let code = detail_out <+ codes "Retained exit_code=" <# exit_code in
    let streams =
      labelled (codes "; stderr: ") stderr (labelled (codes "; stdout: ") stdout code) in
    compacted (summary_out <+ head <# exit_code <+ codes ").")
      (streams <+ codes ". Full raw process output not carried forward.")

unfoldable pub build_workspace_compacted : Bytes → Bytes → Compacted
unfolding build_generic_compacted_detail
build_workspace_compacted tool result =
    compacted (summary_out <+ codes "Compacted workspace result from " <+ tool <+ codes ".")
      (build_generic_compacted_detail tool result (codes "workspace") detail_out)

unfoldable pub build_conversation_compacted : Bytes → Compacted
build_conversation_compacted text =
    compacted (summary_out <+ codes "Compacted assistant response.") (
      append_normalized_excerpt (detail_out <+ codes "Retained response excerpt: ") text
      <+ codes ". Full response text not carried forward.")

-- The test `should_compact`.
unfoldable pub should_compact : Bytes → Bytes → Bool
should_compact tool result =
    ltb trigger_chars (length result)
    || (is_tool tool (codes "fetch_url") && ltb 160 (length result))
    || (is_tool tool (codes "search_web") && ltb 160 (length result))
    || (is_tool tool (codes "read_process_output") && ltb 160 (length result))
    || (is_tool tool (codes "read_file") && ltb 160 (length result))

unfoldable pub compact_tool_result_if_needed : Bytes → Bytes → Option Compacted
unfolding should_compact
compact_tool_result_if_needed tool result =
    if should_compact tool result
    then if is_tool tool (codes "search_web")
      then some (build_search_compacted result)
      else if is_tool tool (codes "fetch_url")
      then some (build_fetch_compacted result)
      else if is_tool tool (codes "read_process_output")
      then some (build_execution_compacted result)
      else if is_tool tool (codes "list_workspace")
          || is_tool tool (codes "read_file")
          || is_tool tool (codes "write_file")
          || is_tool tool (codes "apply_patch")
      then some (build_workspace_compacted tool result)
      else none
    else none

unfoldable pub tool_kind_name : Bytes → Bytes
tool_kind_name tool =
    let slot = tool_kind_slot tool in
    if slot == slot_source
    then codes "source"
    else if slot == slot_workspace
    then codes "workspace"
    else if slot == slot_execution
    then codes "execution"
    else []

unfoldable pub build_tool_summary : Bytes → Bytes → Bytes
unfolding tool_kind_name
build_tool_summary tool result =
    let named =
      summary_out <+ codes "Retained " <+ tool_kind_name tool <+ codes " result from " <+ tool in
    (if length result == 0 then named else named <+ codes ".").bytes

-- What a note puts into its slot.
pub record Content : Type 0 where
  pub state : ℕ
  pub source : Bytes
  pub summary : Bytes
  pub detail : Bytes

abbrev compacted_content : Bytes → Compacted → Content
compacted_content source c = record {
  state = state_compacted;
  source = source;
  summary = c.summary;
  detail = c.detail;
}

-- The state of a result that is kept as it is.
unfoldable pub raw_state : Bytes → ℕ
raw_state tool =
    if tool_kind_slot tool == slot_source && is_tool tool (codes "search_web")
    then state_derived
    else state_raw

-- The tuple `(state, summary_len, detail_len)` of `note_tool_result`, with the texts.
unfoldable pub tool_content : Bytes → Bytes → Content
unfolding raw_state
tool_content tool result = elim (compact_tool_result_if_needed tool result) [
  | some c ↦ compacted_content tool c
  | none ↦ record {
    state = raw_state tool;
    source = tool;
    summary = build_tool_summary tool result;
    detail = summary_from_text detail_max result;
  }
]

unfoldable pub assistant_content : Bytes → Content
assistant_content text =
    if ltb trigger_chars (length text)
    then compacted_content (codes "assistant_turn") (build_conversation_compacted text)
    else record {
      state = state_derived;
      source = codes "assistant_turn";
      summary = summary_from_text summary_max text;
      detail = [];
    }

unfoldable pub user_content : Bytes → Content
user_content text = record {
  state = state_derived;
  source = codes "user_turn";
  summary = summary_from_text summary_max text;
  detail = [];
}

-- The call of `set_slot` and the trace of a compaction.
unfoldable pub note_content : ℕ → ℕ → ℕ → Content → Memory → Memory
note_content slot kind size c m =
    let (m', previous) = set_slot slot kind c.state c.source c.summary c.detail m in
    if c.state == state_compacted
    then trace_memory_compacted (entry_at slot m'.entries) previous size
        (length c.summary + length c.detail) m'
    else m'

unfoldable pub note_user_request : Bytes → Memory → Memory
unfolding note_content user_content
note_user_request text m =
    let m = ensure_started m in
    note_content slot_task kind_task (length text) (user_content text)
      (record m { turn = (m.turn + 1) % 2 ^ 16 })

-- The match on the slot.
unfoldable pub slot_kind : ℕ → ℕ
slot_kind slot =
    if slot == slot_source
    then kind_source
    else if slot == slot_workspace
    then kind_workspace
    else if slot == slot_execution
    then kind_execution
    else kind_none

unfoldable pub note_tool_result : Bytes → Bytes → Memory → Memory
unfolding note_content slot_kind
note_tool_result tool result m =
    let m = ensure_started m in
    let slot = tool_kind_slot tool in
    if ltb slot slot_count
    then note_content slot (slot_kind slot) (length result) (tool_content tool result) m
    else m

unfoldable pub note_assistant_response : Bytes → Memory → Memory
unfolding note_content
note_assistant_response text m =
    note_content slot_conversation kind_conversation (length text) (assistant_content text)
      (ensure_started m)
