-- ===== src/Agent.antt =====
-- The agent's task state: the statics AGENT_* and FETCH_* of runtime/src/main.rs that the task
-- machine reads and writes, what it makes visible (traces, console, requests), and the helpers of
-- runtime/src/agent/mod.rs and runtime/src/agent/model.rs on them. An array with its length is the
-- list of the bytes in front of the length.
pub mod Policy
pub mod Summary
pub mod Skill
pub mod Task
use mini_agent_os.Base.{
  ℕ, ◌+◌, Bool, true, false, ◌&&◌, List, [], ◌∷◌, Option, none, some, ltb, leb, if◌then◌else◌,
  Bytes, codes,
}
use mini_agent_os.Buffer.{Out, fresh, copy_bytes}
use mini_agent_os.Json.{json_extract_string}

-- The constants of `AGENT_MODE`, `AGENT_PHASE`, `AGENT_TERMINAL_KIND` and `FETCH_STATE`.
abbrev pub mode_none : ℕ
mode_none = 0

abbrev pub mode_m0 : ℕ
mode_m0 = 1

abbrev pub mode_m1 : ℕ
mode_m1 = 2

abbrev pub mode_m2 : ℕ
mode_m2 = 3

abbrev pub mode_m3 : ℕ
mode_m3 = 4

abbrev pub phase_idle : ℕ
phase_idle = 0

abbrev pub phase_fetch_source : ℕ
phase_fetch_source = 1

abbrev pub phase_call_model : ℕ
phase_call_model = 2

abbrev pub phase_post_result : ℕ
phase_post_result = 3

abbrev pub phase_interpret_goal : ℕ
phase_interpret_goal = 4

abbrev pub terminal_none : ℕ
terminal_none = 0

abbrev pub terminal_completed : ℕ
terminal_completed = 1

abbrev pub terminal_refused : ℕ
terminal_refused = 2

abbrev pub terminal_failed : ℕ
terminal_failed = 3

abbrev pub fetch_idle : ℕ
fetch_idle = 0

-- The request in preparation and the state of the transfer. `trace_last_state` is
-- FETCH_TRACE_LAST_STATE, `reusable` is FETCH_OPENAI_REUSABLE.
pub record Fetch : Type 0 where
  pub method_post : Bool
  pub body : Bytes
  pub extra_header : Bytes
  pub oauth_active : Bool
  pub state : ℕ
  pub trace_last_state : ℕ
  pub reusable : Bool
  pub error_reason : Bytes
  pub http_status : ℕ

-- What the machine makes visible: the trace calls, the console, the calls of the transport with
-- their URL, and `tls::hard_reset`.
pub data Effect : Type 0 where
  event : Bytes → ℕ → Effect
  policy_checked : Bytes → ℕ → Bytes → Effect
  skill_denied : Bytes → ℕ → Bytes → Effect
  skill_called : Bytes → ℕ → Effect
  skill_result : Bytes → ℕ → Bytes → Effect
  goal_status : Bytes → ℕ → Bytes → Effect
  retry_scheduled : ℕ → Bytes → ℕ → Effect
  human_status : Bytes → Effect
  clear_inline_status : Effect
  uart_write : Bytes → Effect
  uart_prompt : Effect
  request : Bytes → Effect
  tls_hard_reset : Effect
  goal_compiled : Effect
  goal_compilation_failed : Bytes → Effect
  goal_compilation_fallback : Bytes → Effect
  model_interpretation_result : Bytes → Effect
  intent_compiled : Bytes → Bytes → Bytes → ℕ → Bytes → Bytes → Effect
  model_response_snapshot : Bytes → ℕ → Bool → Bool → Bytes → Effect

-- `effects` holds the latest effect first.
pub record Agent : Type 0 where
  pub mode : ℕ
  pub task_active : Bool
  pub phase : ℕ
  pub goal_id : Bytes
  pub goal_text : Bytes
  pub source_url : Bytes
  pub sink_url : Bytes
  pub model_url : Bytes
  pub task_json : Bytes
  pub max_steps : ℕ
  pub summary : Bytes
  pub response_body : Bytes
  pub output_text : Bytes
  pub summary_sentences : ℕ
  pub output_language : Bytes
  pub output_style : Bytes
  pub result_status : Bytes
  pub result_reason : Bytes
  pub terminal_kind : ℕ
  pub openai_interpret_retries : ℕ
  pub openai_summary_retries : ℕ
  pub fetch : Fetch
  pub effects : List Effect

abbrev pub emit : Effect → Agent → Agent
emit e s = record s { effects = e ∷ s.effects }

-- `agent_set_result`, into arrays of 16 and 128 bytes.
unfoldable pub agent_set_result : Bytes → Bytes → Agent → Agent
agent_set_result status reason s = record s {
  result_status = copy_bytes 16 status;
  result_reason = copy_bytes 128 reason;
}

-- `agent_reset`, on the statics of this state.
unfoldable pub agent_reset : Agent → Agent
agent_reset s = record s {
  mode = mode_none;
  task_active = false;
  phase = phase_idle;
  goal_id = [];
  goal_text = [];
  source_url = [];
  sink_url = [];
  model_url = [];
  task_json = [];
  max_steps = 0;
  summary = [];
  response_body = [];
  output_text = [];
  summary_sentences = 3;
  output_language = [];
  output_style = [];
  result_status = [];
  result_reason = [];
  terminal_kind = terminal_none;
  openai_interpret_retries = 0;
  openai_summary_retries = 0;
}

-- `fetch_finish_agent_idle`
unfoldable pub fetch_finish_agent_idle : Agent → Agent
fetch_finish_agent_idle s =
    let idle = record s {
      fetch = record (s.fetch) {
        extra_header = [];
        oauth_active = false;
        state = fetch_idle;
        trace_last_state = 0xff;
      };
    } in
    if s.fetch.reusable then idle else emit tls_hard_reset idle

-- `fetch_failure_reason_or`
unfoldable pub fetch_failure_reason_or : Bytes → Agent → Bytes
fetch_failure_reason_or default s = elim (s.fetch.error_reason) [
  | [] ↦ default
  | (b ∷ reason) ↦ b ∷ reason
]

unfoldable pub agent_http_success : Bool → Agent → Bool
agent_http_success ok s = ok && leb 200 s.fetch.http_status && ltb s.fetch.http_status 300

-- `capture_model_summary`; `none` is the result false. The source may then have written over
-- AGENT_SUMMARY, whose length its only caller sets to 0.
unfoldable pub capture_model_summary : Agent → Option Agent
capture_model_summary s =
    elim (json_extract_string s.response_body (codes "summary") (fresh 4096)) [
      | none ↦ none
      | some out ↦ some (record s { summary = out.bytes })
    ]
