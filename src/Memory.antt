-- ===== src/Memory.antt =====
-- The working memory of runtime/src/agent/memory.rs: five slots, one for each kind of note, that
-- hold the latest note of their kind. The arrays of the statics M7_MEMORY_* at one slot are an
-- `Entry`, an array with its length the list of the bytes in front of the length.
pub mod Text
pub mod Compact
pub mod Prompt
pub mod Report
pub mod Excerpt
pub mod Written
pub mod Content
pub mod Notes
pub mod Store
pub mod Bounds
pub mod Latest
pub mod Lookup
use mini_agent_os.Ascii.{starts_with}
use mini_agent_os.Base.{
  ℕ, zero, suc, ◌+◌, ◌-◌, ◌*◌, ◌/◌, ◌%◌, ◌^◌, Bool, true, false, not, ◌&&◌, ◌||◌, List, [], ◌∷◌,
  Option, none, some, ltb, leb, ◌==◌, if◌then◌else◌, length, get_elem?, set, replicate, Bytes,
  codes,
}
use mini_agent_os.Buffer.{copy_bytes}
use mini_agent_os.Utf8.{copy_utf8_prefix}

-- The sizes M7_MEMORY_SLOT_COUNT, M7_MEMORY_ID_MAX, M7_MEMORY_SUMMARY_MAX, M7_MEMORY_DETAIL_MAX and
-- M7_MEMORY_SOURCE_MAX.
abbrev pub slot_count : ℕ
slot_count = 5

abbrev pub id_max : ℕ
id_max = 24

abbrev pub summary_max : ℕ
summary_max = 192

abbrev pub detail_max : ℕ
detail_max = 512

abbrev pub source_max : ℕ
source_max = 128

-- M7_KIND_*, M7_STATE_* and M7_SLOT_*.
abbrev pub kind_none : ℕ
kind_none = 0

abbrev pub kind_task : ℕ
kind_task = 1

abbrev pub kind_source : ℕ
kind_source = 2

abbrev pub kind_workspace : ℕ
kind_workspace = 3

abbrev pub kind_execution : ℕ
kind_execution = 4

abbrev pub kind_conversation : ℕ
kind_conversation = 5

abbrev pub state_none : ℕ
state_none = 0

abbrev pub state_raw : ℕ
state_raw = 1

abbrev pub state_compacted : ℕ
state_compacted = 2

abbrev pub state_derived : ℕ
state_derived = 3

abbrev pub slot_task : ℕ
slot_task = 0

abbrev pub slot_source : ℕ
slot_source = 1

abbrev pub slot_workspace : ℕ
slot_workspace = 2

abbrev pub slot_execution : ℕ
slot_execution = 3

abbrev pub slot_conversation : ℕ
slot_conversation = 4

pub record Entry : Type 0 where
  pub kind : ℕ
  pub state : ℕ
  pub id : Bytes
  pub summary : Bytes
  pub detail : Bytes
  pub source : Bytes
  pub created_turn : ℕ
  pub updated_turn : ℕ

-- The statics M7_BUDGET_*.
pub record Budget : Type 0 where
  pub instructions_chars : ℕ
  pub current_request_chars : ℕ
  pub latest_tool_result_chars : ℕ
  pub working_memory_chars : ℕ
  pub known_sources_chars : ℕ
  pub workspace_memory_chars : ℕ
  pub session_state_chars : ℕ
  pub recent_conversation_chars : ℕ
  pub estimated_total_tokens : ℕ

-- The lines that the store writes to the trace: the identifier, kind, states and turn of a change;
-- an entry; the identifier, kind, old state, sizes and turn of a compaction; the budget.
pub data Trace : Type 0 where
  memory_event : Bytes → ℕ → ℕ → ℕ → ℕ → Trace
  memory_entry_snapshot : Entry → Trace
  memory_compacted : Bytes → ℕ → ℕ → ℕ → ℕ → ℕ → ℕ → Trace
  context_budget_snapshot : Budget → Trace

-- `tracing` is `trace_output_enabled`; `traces` holds the latest line first.
pub record Memory : Type 0 where
  pub started : Bool
  pub turn : ℕ
  pub entries : List Entry
  pub budget : Budget
  pub tracing : Bool
  pub traces : List Trace

-- `clear_slot`
abbrev pub cleared : Entry
cleared = record {
  kind = kind_none;
  state = state_none;
  id = [];
  summary = [];
  detail = [];
  source = [];
  created_turn = 0;
  updated_turn = 0;
}

abbrev pub no_budget : Budget
no_budget = record {
  instructions_chars = 0;
  current_request_chars = 0;
  latest_tool_result_chars = 0;
  working_memory_chars = 0;
  known_sources_chars = 0;
  workspace_memory_chars = 0;
  session_state_chars = 0;
  recent_conversation_chars = 0;
  estimated_total_tokens = 0;
}

unfoldable pub memory_reset : Memory → Memory
memory_reset m = record m {
  started = true;
  turn = 0;
  entries = replicate slot_count cleared;
  budget = no_budget;
}

unfoldable pub ensure_started : Memory → Memory
ensure_started m = if m.started then m else memory_reset m

unfoldable pub estimate_tokens : ℕ → ℕ
estimate_tokens chars = if chars == 0 then 0 else (chars + 3) / 4

unfoldable pub slot_id_bytes : ℕ → Bytes
slot_id_bytes slot =
    if slot == slot_task
    then codes "mem-task"
    else if slot == slot_source
    then codes "mem-source"
    else if slot == slot_workspace
    then codes "mem-workspace"
    else if slot == slot_execution
    then codes "mem-execution"
    else if slot == slot_conversation
    then codes "mem-conversation"
    else codes "mem-unknown"

unfoldable pub kind_name : ℕ → Bytes
kind_name kind =
    if kind == kind_task
    then codes "task"
    else if kind == kind_source
    then codes "source"
    else if kind == kind_workspace
    then codes "workspace"
    else if kind == kind_execution
    then codes "execution"
    else if kind == kind_conversation
    then codes "conversation"
    else codes "unknown"

unfoldable pub state_name : ℕ → Bytes
state_name state =
    if state == state_raw
    then codes "raw"
    else if state == state_compacted
    then codes "compacted"
    else if state == state_derived
    then codes "derived"
    else codes "unknown"

-- The arrays at one index, which is always in range.
unfoldable pub entry_at : ℕ → List Entry → Entry
entry_at slot entries = elim (get_elem? entries slot) [ none ↦ cleared | some e ↦ e ]

-- A line of the trace, if it is on.
abbrev pub trace : Trace → Memory → Memory
trace line m = record m { traces = if m.tracing then line ∷ m.traces else m.traces }

unfoldable pub trace_memory_event : ℕ → Entry → ℕ → ℕ → Memory → Memory
trace_memory_event slot e from_state to_state m =
    trace (memory_event e.id e.kind from_state to_state e.updated_turn) m

-- An entry without a kind or a summary leaves no line.
unfoldable pub trace_memory_entry_snapshot : ℕ → Entry → Memory → Memory
trace_memory_entry_snapshot slot e m =
    if e.kind == kind_none || length e.summary == 0 then m else trace (memory_entry_snapshot e) m

unfoldable pub trace_memory_compacted : Entry → ℕ → ℕ → ℕ → Memory → Memory
trace_memory_compacted e from_state source_chars retained_chars m =
    trace
      (memory_compacted e.id e.kind from_state source_chars retained_chars
        (source_chars - retained_chars) e.updated_turn)
      m

-- The stores of `set_slot` at its slot.
unfoldable pub noted : ℕ → ℕ → ℕ → Bytes → Bytes → Bytes → ℕ → Entry → Entry
noted slot kind state source summary detail turn old = record {
  kind = kind;
  state = state;
  id = if length old.id == 0 then copy_bytes id_max (slot_id_bytes slot) else old.id;
  summary = copy_utf8_prefix summary_max summary;
  detail = copy_utf8_prefix detail_max detail;
  source = copy_utf8_prefix source_max source;
  created_turn = if length old.id == 0 then turn else old.created_turn;
  updated_turn = turn;
}

-- `set_slot`, with its answer: the state that the entry had.
unfoldable pub set_slot : ℕ → ℕ → ℕ → Bytes → Bytes → Bytes → Memory → Memory × ℕ
unfolding noted trace_memory_event trace_memory_entry_snapshot
set_slot slot kind state source summary detail m =
    let m = ensure_started m in
    let old = entry_at slot m.entries in
    let new = noted slot kind state source summary detail m.turn old in
    let stored = record m { entries = set m.entries slot new } in
    (
      trace_memory_entry_snapshot slot new (trace_memory_event slot new old.state state stored),
      old.state,
    )

abbrev pub is_tool : Bytes → Bytes → Bool
is_tool tool name = starts_with tool name

-- `tool_kind_slot`; the result M7_MEMORY_SLOT_COUNT is no slot.
unfoldable pub tool_kind_slot : Bytes → ℕ
tool_kind_slot tool =
    if is_tool tool (codes "fetch_url") || is_tool tool (codes "search_web")
    then slot_source
    else if is_tool tool (codes "list_workspace")
        || is_tool tool (codes "read_file")
        || is_tool tool (codes "write_file")
        || is_tool tool (codes "apply_patch")
    then slot_workspace
    else if is_tool tool (codes "run_process") || is_tool tool (codes "read_process_output")
    then slot_execution
    else slot_count

unfoldable pub record_context_budget : ℕ → ℕ → ℕ → ℕ → ℕ → ℕ → ℕ → ℕ → Memory → Memory
unfolding estimate_tokens
record_context_budget instructions request tool_result working sources workspace session recent m =
    let b : Budget = record {
      instructions_chars = instructions;
      current_request_chars = request;
      latest_tool_result_chars = tool_result;
      working_memory_chars = working;
      known_sources_chars = sources;
      workspace_memory_chars = workspace;
      session_state_chars = session;
      recent_conversation_chars = recent;
      estimated_total_tokens =
          estimate_tokens (
            instructions + request + tool_result + working + sources + workspace + session
            + recent);
    } in
    trace (context_budget_snapshot b) (record m { budget = b })
