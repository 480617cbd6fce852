-- ===== src/Agent/Skill.antt =====
-- The task machine of runtime/src/agent/skill.rs and runtime/src/agent/task.rs: a task fetches its
-- source, has it summarised, and posts the result. Each answer of the transport is one step.
pub mod Done
pub mod Denied
pub mod Governed
pub mod Post
pub mod Lifecycle
pub mod Run
use mini_agent_os.Agent.Policy.{agent_policy_check}
use mini_agent_os.Agent.Summary.{
  build_agent_result_body, build_model_request_body, summarize_agent_response,
}
use mini_agent_os.Agent.{
  Agent, Fetch, emit, agent_set_result, agent_reset, agent_http_success, capture_model_summary,
  fetch_finish_agent_idle, fetch_failure_reason_or, mode_m1, mode_m2, mode_m3, phase_fetch_source,
  phase_call_model, phase_post_result, terminal_none, terminal_completed, terminal_refused,
  terminal_failed, fetch_idle, event, skill_called, skill_result, goal_status, retry_scheduled,
  human_status, clear_inline_status, uart_write, uart_prompt, request,
}
use mini_agent_os.Ascii.{starts_with}
use mini_agent_os.Base.{
  ℕ, suc, ◌+◌, ◌%◌, Bool, true, false, ◌&&◌, ◌||◌, not, List, [], ◌∷◌, Option, none, some, ltb,
  ◌==◌, within, if◌then◌else◌, Bytes, codes,
}
use mini_agent_os.Buffer.{fresh}
use mini_agent_os.Net.Url.{AgentUrlParts, parse_agent_url}

-- The components that the machine calls: the transport (`fetch_start_ex` of runtime/src/main.rs,
-- which answers whether the transfer has started), the key and the texts of runtime/src/openai.rs,
-- the OpenAI part of runtime/src/agent/model.rs, and what `handle_goal_interpretation_done` of
-- runtime/src/agent/goal.rs does behind its guard.
pub record Services : Type 0 where
  pub fetch_start_ex : AgentUrlParts → Fetch → Bool × Fetch
  pub api_key_ready : Bool
  pub responses_url : Bytes
  pub bearer_header : Bytes
  pub openai_summary_body : Agent → Bytes
  pub openai_output_text : Agent → Option Bytes
  pub openai_failure_reason : Fetch → Bytes
  pub goal_interpretation_done : Bool → Agent → Agent

unfoldable pub agent_emit_terminal_event : ℕ → Agent → Agent
agent_emit_terminal_event step s =
    if s.terminal_kind == terminal_completed
    then emit (goal_status (codes "goal_completed") step (codes "ok")) s
    else if s.terminal_kind == terminal_refused
    then emit (goal_status (codes "goal_refused") step (codes "refused")) s
    else emit (goal_status (codes "goal_failed") step (codes "error")) s

unfoldable pub agent_finish_now : Agent → Agent
agent_finish_now s = emit uart_prompt (agent_reset (fetch_finish_agent_idle s))

-- The console lines of `agent_finish_local`.
unfoldable pub report : Agent → Agent
report s = elim (s.terminal_kind == terminal_completed) [
  | true ↦ elim (s.summary) [
    | [] ↦ s
    | (b ∷ text) ↦ emit (uart_write (codes "\n")) (emit (uart_write (b ∷ text)) s)
  ]
  | false ↦ elim (s.result_reason) [
    | [] ↦ s
    | (b ∷ text) ↦
        emit (uart_write (codes "\n"))
          (emit (uart_write (b ∷ text)) (emit (uart_write (codes "reason: ")) s))
  ]
]

unfoldable pub agent_finish_local : ℕ → ℕ → Agent → Agent
agent_finish_local step terminal_kind s =
    let ended = record s { terminal_kind = terminal_kind } in
    agent_finish_now (agent_emit_terminal_event step (report (emit clear_inline_status ended)))

-- `openai_failure_retryable`
unfoldable pub openai_failure_retryable : Fetch → Bool
openai_failure_retryable f =
    let starts = starts_with f.error_reason in
    if f.http_status == 429 || within 500 599 f.http_status
    then true
    else if not (f.http_status == 0)
    then false
    else starts (codes "network request timed out")
      || starts (codes "gateway arp timed out")
      || starts (codes "dns lookup timed out")
      || starts (codes "tcp connect timed out")
      || starts (codes "proxy handshake timed out")
      || starts (codes "proxy connect timed out")
      || starts (codes "http response timed out")
      || starts (codes "tls handshake failed")
      || starts (codes "tls write failed")
      || starts (codes "tls read failed")

-- The stores in front of a request.
abbrev pub prepare : Bool → Bytes → Bytes → Bool → Agent → Agent
prepare method_post body extra_header oauth_active s = record s {
  fetch = record (s.fetch) {
    method_post = method_post;
    body = body;
    extra_header = extra_header;
    oauth_active = oauth_active;
  };
}

abbrev pub ok_or_error : Bool → Bytes
ok_or_error true = codes "ok"
ok_or_error false = codes "error"

module _ (v : Services) where
  -- The fields of the parts are handed to the transport.
  unfoldable pub start_parts : Bytes → Option AgentUrlParts → Agent → Bool × Agent
  start_parts url none s =
      (false, record s { fetch = record (s.fetch) { error_reason = codes "invalid url" } })
  start_parts url (some parts) s =
      let started = v.fetch_start_ex parts s.fetch in
      (started.0, emit (request url) (record s { fetch = started.1 }))

  unfoldable pub fetch_start_agent_url : Bytes → Agent → Bool × Agent
  fetch_start_agent_url url s = start_parts url (parse_agent_url url) s

  unfoldable pub post_started : Bool × Agent → Agent
  post_started (true, s) = record s { phase = phase_post_result }
  post_started (false, s) =
      let reason = fetch_failure_reason_or (codes "post result start failed") s in
      agent_finish_now (
        agent_emit_terminal_event 3 (
          agent_set_result (codes "error") reason
            (emit (skill_result (codes "post_result") 3 (codes "error")) s)))

  -- What follows the policy check of `agent_start_terminal_post`.
  unfoldable pub post_checked : Bool × Agent → Agent
  post_checked (false, s) = agent_finish_now (agent_emit_terminal_event 3 s)
  post_checked (true, s) =
      let body = (build_agent_result_body s (fresh 65_536)).bytes in
      let called = emit (skill_called (codes "post_result") 3) (prepare true body [] false s) in
      post_started
        (fetch_start_agent_url s.sink_url (emit (human_status (codes "posting result...")) called))

  -- With the URL of the sink.
  unfoldable pub post_to : Bytes → ℕ → Agent → Agent
  post_to [] terminal_kind s = agent_finish_local 3 terminal_kind s
  post_to (b ∷ url) terminal_kind s = post_checked (
      if s.mode == mode_m1
      then agent_policy_check (codes "post_result") 3 (some (b ∷ url)) s
      else (true, s))

  unfoldable pub agent_start_terminal_post : ℕ → Agent → Agent
  agent_start_terminal_post terminal_kind s =
      post_to s.sink_url terminal_kind (record s { terminal_kind = terminal_kind })

  -- The choice that follows most ends: post to the sink if there is one.
  unfoldable pub post_or_finish : ℕ → ℕ → Agent → Agent
  post_or_finish step terminal_kind s = elim (s.sink_url) [
    | [] ↦ agent_finish_local step terminal_kind s
    | (b ∷ url) ↦ agent_start_terminal_post terminal_kind s
  ]

  -- The answer `started` of the model call of a governed task.
  unfoldable pub m1_model_started : Bool × Agent → Agent
  m1_model_started (true, s) = record s { phase = phase_call_model }
  m1_model_started (false, s) =
      let reason = fetch_failure_reason_or (codes "model request failed") s in
      agent_start_terminal_post terminal_failed (
        agent_set_result (codes "error") reason
          (emit (skill_result (codes "call_model") 2 (codes "error")) s))

  -- With the body of the request.
  unfoldable pub m1_model_request : Bytes → Agent → Agent
  m1_model_request [] s =
      agent_start_terminal_post terminal_failed
        (agent_set_result (codes "error") (codes "model request build failed") s)
  m1_model_request (b ∷ body) s =
      let cleared = record s { response_body = []; output_text = [] } in
      let called =
        emit (skill_called (codes "call_model") 2) (prepare true (b ∷ body) [] false cleared) in
      m1_model_started
        (fetch_start_agent_url s.model_url (emit (human_status (codes "summarizing...")) called))

  unfoldable pub m1_model_checked : Bool × Agent → Agent
  m1_model_checked (false, s) = agent_start_terminal_post terminal_refused s
  m1_model_checked (true, s) = m1_model_request (build_model_request_body s (fresh 65_536)).bytes s

  -- The three phases of a governed task, on the answer of the transfer.
  unfoldable pub m1_source_done : Bool → Agent → Agent
  m1_source_done ok s =
      let fetch_ok = agent_http_success ok s in
      let told = emit (skill_result (codes "fetch_url") 1 (ok_or_error fetch_ok)) s in
      if fetch_ok
      then m1_model_checked (agent_policy_check (codes "call_model") 2 (some s.model_url) told)
      else agent_start_terminal_post terminal_failed
          (agent_set_result (codes "error") (codes "fetch failed") (record told { summary = [] }))

  -- The summary that the model's answer holds.
  unfoldable pub m1_captured : Option Agent → Agent → Agent
  m1_captured none s =
      let told = emit (skill_result (codes "call_model") 2 (codes "error")) s in
      agent_start_terminal_post terminal_failed (
        agent_set_result (codes "error") (codes "model gateway error")
          (record told { summary = [] }))
  m1_captured (some captured) s = agent_start_terminal_post terminal_completed (
      agent_set_result (codes "ok") []
        (emit (skill_result (codes "call_model") 2 (codes "ok")) captured))

  unfoldable pub m1_model_done : Bool → Agent → Agent
  m1_model_done ok s =
      m1_captured (if agent_http_success ok s then capture_model_summary s else none) s

  unfoldable pub m1_post_done : Bool → Agent → Agent
  m1_post_done ok s = agent_finish_now (
      agent_emit_terminal_event 3
        (emit (skill_result (codes "post_result") 3 (ok_or_error (agent_http_success ok s))) s))
