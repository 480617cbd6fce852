-- ===== src/Agent/Skill/Done.antt =====
-- `handle_agent_fetch_done` of runtime/src/agent/skill.rs: the step of a task on the end of a
-- transfer.
use mini_agent_os.Agent.Policy.{agent_policy_check}
use mini_agent_os.Agent.Skill.{
  Services, agent_emit_terminal_event, fetch_start_agent_url, m1_source_done, m1_model_done,
  m1_post_done, openai_failure_retryable, ok_or_error, post_or_finish, prepare,
}
use mini_agent_os.Agent.Summary.{summarize_agent_response}
use mini_agent_os.Agent.{
  Agent, emit, agent_set_result, agent_reset, agent_http_success, fetch_failure_reason_or, mode_m1,
  mode_m3, phase_fetch_source, phase_call_model, phase_post_result, phase_interpret_goal,
  terminal_none, terminal_completed, terminal_refused, terminal_failed, fetch_idle, skill_called,
  skill_result, goal_status, retry_scheduled, human_status, uart_prompt,
}
use mini_agent_os.Base.{
  ℕ, ◌+◌, ◌%◌, Bool, true, false, ◌&&◌, not, [], ◌∷◌, Option, none, some, ltb, ◌==◌, if◌then◌else◌,
  Bytes, codes,
}
use mini_agent_os.Buffer.{copy_bytes}

abbrev pub openai_max_retries : ℕ
openai_max_retries = 1

module _ (v : Services) where
  -- The answer `started` of the OpenAI call.
  unfoldable pub m3_started : Bool × Agent → Agent
  m3_started (true, s) = record s { phase = phase_call_model }
  m3_started (false, s) =
      let reason = fetch_failure_reason_or (codes "openai request failed") s in
      post_or_finish v 2 terminal_failed (
        agent_set_result (codes "error") reason
          (emit (skill_result (codes "call_model") 2 (codes "error")) s))

  unfoldable pub m3_build_failed : Agent → Agent
  m3_build_failed s =
      post_or_finish v 2 terminal_failed
        (agent_set_result (codes "error") (codes "openai request build failed") s)

  unfoldable pub m3_request : Bytes → Bytes → Agent → Agent
  m3_request [] auth s = m3_build_failed s
  m3_request (b ∷ body) [] s = m3_build_failed s
  m3_request (b ∷ body) (a ∷ auth) s =
      let cleared = record s { response_body = []; output_text = [] } in
      let called =
        emit (skill_called (codes "call_model") 2)
          (prepare true (b ∷ body) (a ∷ auth) true cleared) in
      m3_started (
        fetch_start_agent_url v v.responses_url
          (emit (human_status (codes "summarizing...")) called))

  unfoldable pub m3_checked : Bool × Agent → Agent
  m3_checked (false, s) = post_or_finish v 2 terminal_refused s
  m3_checked (true, s) = m3_request (v.openai_summary_body s) v.bearer_header s

  -- No caller reads the answer of `start_m3_openai_summary_request`.
  unfoldable pub start_m3_openai_summary_request : Agent → Agent
  start_m3_openai_summary_request s =
      m3_checked (agent_policy_check (codes "call_model") 2 (some v.responses_url) s)

  unfoldable pub summarize_checked : Bool × Agent → Agent
  summarize_checked (false, s) = post_or_finish v 2 terminal_refused s
  summarize_checked (true, s) =
      let called = emit (skill_called (codes "summarize_text") 2) s in
      let summary = summarize_agent_response 4096 s.summary_sentences s.response_body in
      let told = agent_set_result (codes "ok") [] (record called { summary = summary }) in
      post_or_finish v 2 terminal_completed
        (emit (skill_result (codes "summarize_text") 2 (codes "ok")) told)

  -- The phases of the other modes.
  unfoldable pub source_done : Bool → Agent → Agent
  source_done ok s =
      let told = emit (skill_result (codes "fetch_url") 1 (ok_or_error ok)) s in
      if ok
      then if s.mode == mode_m3 && v.api_key_ready
        then start_m3_openai_summary_request told
        else summarize_checked (agent_policy_check (codes "summarize_text") 2 none told)
      else post_or_finish v 1 terminal_failed
          (agent_set_result (codes "error") (codes "fetch failed") told)

  -- A failed OpenAI summary is asked for again as long as retries are left.
  unfoldable pub m3_failed : Agent → Agent
  m3_failed s =
      let told = emit (skill_result (codes "call_model") 2 (codes "error")) s in
      let cleared = record told { summary = [] } in
      let retries = (s.openai_summary_retries + 1) % 256 in
      let scheduled =
        emit (retry_scheduled 2 (codes "openai_summary") retries)
          (record cleared { openai_summary_retries = retries }) in
      let reason = copy_bytes 160 (v.openai_failure_reason s.fetch) in
      if openai_failure_retryable s.fetch && ltb s.openai_summary_retries openai_max_retries
      then start_m3_openai_summary_request
          (emit (human_status (codes "retrying summary...")) scheduled)
      else post_or_finish v 2 terminal_failed (agent_set_result (codes "error") reason cleared)

  -- `capture_openai_summary` needs a text that is not empty.
  unfoldable pub m3_captured : Option Bytes → Agent → Agent
  m3_captured none s = m3_failed s
  m3_captured (some []) s = m3_failed s
  m3_captured (some (b ∷ text)) s =
      let told =
        emit (skill_result (codes "call_model") 2 (codes "ok")) (record s { summary = b ∷ text }) in
      post_or_finish v 2 terminal_completed (agent_set_result (codes "ok") [] told)

  unfoldable pub m3_model_done : Bool → Agent → Agent
  m3_model_done ok s =
      m3_captured (if agent_http_success ok s then v.openai_output_text s else none) s

  unfoldable pub post_done : Bool → Agent → Agent
  post_done ok s =
      let told = emit (skill_result (codes "post_result") 3 (ok_or_error ok)) s in
      let ended =
        if s.terminal_kind == terminal_none
        then if ok
          then emit (goal_status (codes "goal_completed") 3 (codes "ok")) told
          else emit (goal_status (codes "goal_failed") 3 (codes "error")) told
        else agent_emit_terminal_event 3 told in
      let idle = record (ended.fetch) {
        extra_header = [];
        oauth_active = false;
        state = fetch_idle;
      } in
      emit uart_prompt (agent_reset (record ended { fetch = idle }))

  -- The phases by mode; `none` is the answer false.
  unfoldable pub dispatch : Bool → Agent → Option Agent
  dispatch ok s =
      if s.mode == mode_m1 && s.phase == phase_fetch_source
      then some (m1_source_done v ok s)
      else if s.mode == mode_m1 && s.phase == phase_call_model
      then some (m1_model_done v ok s)
      else if s.mode == mode_m1 && s.phase == phase_post_result
      then some (m1_post_done v ok s)
      else if s.phase == phase_fetch_source
      then some (source_done ok s)
      else if s.mode == mode_m3 && s.phase == phase_call_model
      then some (m3_model_done ok s)
      else if s.phase == phase_post_result
      then some (post_done ok s)
      else none

  -- The guard of `handle_goal_interpretation_done`.
  unfoldable pub interprets : Agent → Bool
  interprets s = s.mode == mode_m3 && s.phase == phase_interpret_goal

  unfoldable pub handle_agent_fetch_done : Bool → Agent → Option Agent
  handle_agent_fetch_done ok s =
      if not s.task_active
      then none
      else if interprets s
      then some (v.goal_interpretation_done ok s)
      else dispatch ok s
