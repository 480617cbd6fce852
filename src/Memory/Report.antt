-- ===== src/Memory/Report.antt =====
-- What the store tells a tool or the console: the JSON builders and the lookup of an entry by its
-- identifier in runtime/src/agent/memory.rs. Each command writes such a text to the console.
use mini_agent_os.Base.{
  ℕ, zero, suc, ◌+◌, Bool, true, false, not, ◌&&◌, List, [], ◌∷◌, Option, none, some, ◌==◌,
  if◌then◌else◌, length, Bytes, codes, bytes_eq,
}
use mini_agent_os.Buffer.{Out}
use mini_agent_os.Json.Escape.{json_escape_append}
use mini_agent_os.Memory.Prompt.{is_told}
use mini_agent_os.Memory.Text.{◌<+◌, ◌<#◌}
use mini_agent_os.Memory.{
  Memory, Entry, Budget, ensure_started, entry_at, kind_name, state_name, estimate_tokens,
  kind_task, kind_source, kind_workspace, kind_execution, kind_conversation,
}

-- A text member: the text in front of it, and its contents escaped.
abbrev member : Out → Bytes → Bytes → Out
member o label text = json_escape_append (o <+ label) text

unfoldable pub append_entry_json : Entry → Bool → Out → Out
append_entry_json e include_detail o =
    let id = member o (codes "{\"id\":\"") e.id in
    let kind = id <+ codes "\",\"kind\":\"" <+ kind_name e.kind in
    let summary = member kind (codes "\",\"summary\":\"") e.summary in
    let detail =
      if include_detail then member summary (codes "\",\"detail\":\"") e.detail else summary in
    let source = member detail (codes "\",\"source\":\"") e.source in
    let state = source <+ codes "\",\"state\":\"" <+ state_name e.state in
    let turns =
      state
      <+ codes "\",\"created_turn\":"
      <# e.created_turn
      <+ codes ",\"updated_turn\":"
      <# e.updated_turn in
    let chars = length e.summary + length e.detail in
    turns
    <+ codes ",\"chars\":"
    <# chars
    <+ codes ",\"estimated_tokens\":"
    <# estimate_tokens chars
    <+ codes "}"

-- The loop of `slot_from_id`: an index in the rest of the slots.
unfoldable pub slot_from_id : Bytes → List Entry → Option ℕ
slot_from_id id [] = none
slot_from_id id (e ∷ entries) =
    let here = length e.id == length id && bytes_eq e.id id in
    let later : Option ℕ = elim (slot_from_id id entries) [ none ↦ none | some i ↦ some (suc i) ] in
    if here then some zero else later

unfoldable pub kind_matches_filter : Entry → Bytes → Bool
kind_matches_filter e kind = if length kind == 0 then true else bytes_eq (kind_name e.kind) kind

-- The number of entries of a kind that have a summary.
unfoldable pub count_kind : ℕ → List Entry → ℕ
count_kind kind [] = 0
count_kind kind (e ∷ entries) =
    (if e.kind == kind && not (length e.summary == 0) then 1 else 0) + count_kind kind entries

unfoldable pub append_budget_json : Budget → Out → Out
append_budget_json b o =
    o
    <+ codes "\"instructions_chars\":"
    <# b.instructions_chars
    <+ codes ",\"current_request_chars\":"
    <# b.current_request_chars
    <+ codes ",\"latest_tool_result_chars\":"
    <# b.latest_tool_result_chars
    <+ codes ",\"working_memory_chars\":"
    <# b.working_memory_chars
    <+ codes ",\"known_sources_chars\":"
    <# b.known_sources_chars
    <+ codes ",\"workspace_memory_chars\":"
    <# b.workspace_memory_chars
    <+ codes ",\"session_state_chars\":"
    <# b.session_state_chars
    <+ codes ",\"recent_conversation_chars\":"
    <# b.recent_conversation_chars
    <+ codes ",\"estimated_total_tokens\":"
    <# b.estimated_total_tokens

-- Each builder answers with the store, which it has started, and the text.
unfoldable pub build_memory_status_json : Out → Memory → Memory × Out
unfolding count_kind append_budget_json
build_memory_status_json o m =
    let m = ensure_started m in
    let counts =
      o
      <+ codes "{\"ok\":true,\"counts\":{"
      <+ codes "\"task\":"
      <# count_kind kind_task m.entries
      <+ codes ",\"source\":"
      <# count_kind kind_source m.entries
      <+ codes ",\"workspace\":"
      <# count_kind kind_workspace m.entries
      <+ codes ",\"execution\":"
      <# count_kind kind_execution m.entries
      <+ codes ",\"conversation\":"
      <# count_kind kind_conversation m.entries in
    (
      m,
      append_budget_json m.budget (counts <+ codes "},\"budget\":{")
          <+ codes "},\"checkpoint_available\":false}",
    )

-- The loop of `build_list_memory_json`, over the number of entries that are written.
unfoldable pub append_entries : Bytes → ℕ → List Entry → Out → Out
append_entries kind count [] o = o
append_entries kind count (e ∷ entries) o =
    let shown = is_told e && kind_matches_filter e kind in
    let o' = if count == 0 then o else o <+ codes "," in
    append_entries kind (if shown then count + 1 else count) entries
      (if shown then append_entry_json e false o' else o)

unfoldable pub build_list_memory_json : Bytes → Out → Memory → Memory × Out
unfolding append_entries
build_list_memory_json kind o m =
    let m = ensure_started m in
    (
      m,
      append_entries kind 0 m.entries (o <+ codes "{\"ok\":true,\"entries\":[")
          <+ codes "],\"truncated\":false}",
    )

abbrev pub unknown_memory_id : Bytes
unknown_memory_id =
    codes
      "{\"ok\":false,\"error\":{\"code\":\"unknown_memory_id\",\"message\":\"memory entry was not found\"}}"

unfoldable pub build_read_memory_json : Bytes → Out → Memory → Memory × Out
unfolding slot_from_id append_entry_json
build_read_memory_json id o m =
    let m = ensure_started m in
    (
      m,
      elim (slot_from_id id m.entries) [
        | none ↦ o <+ unknown_memory_id
        | some slot ↦
            append_entry_json (entry_at slot m.entries) true (o <+ codes "{\"ok\":true,\"entry\":")
            <+ codes "}"
      ],
    )
