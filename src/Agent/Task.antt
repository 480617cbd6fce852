-- ===== src/Agent/Task.antt =====
-- The start of a task: runtime/src/agent/task.rs.
pub mod Start
use mini_agent_os.Agent.Policy.{agent_policy_check, agent_store_task_json}
use mini_agent_os.Agent.Skill.{
  Services, agent_finish_local, agent_start_terminal_post, fetch_start_agent_url, prepare,
  agent_emit_terminal_event, agent_finish_now,
}
use mini_agent_os.Agent.{
  Agent, emit, agent_set_result, agent_reset, fetch_finish_agent_idle, fetch_failure_reason_or,
  mode_m0, mode_m1, mode_m2, phase_fetch_source, terminal_refused, terminal_failed, fetch_idle,
  event, skill_called, skill_result, goal_status, human_status, uart_write, uart_prompt,
  clear_inline_status,
}
use mini_agent_os.Base.{
  ℕ, Bool, true, false, ◌||◌, not, [], ◌∷◌, Option, none, some, ltb, ◌==◌, if◌then◌else◌, Bytes,
  codes, bytes_eq,
}
use mini_agent_os.Buffer.{fresh}
use mini_agent_os.Json.{json_extract_string, json_extract_u64}

-- `agent_fail`
unfoldable pub agent_fail : Agent → Agent
agent_fail s =
    let told =
      emit (goal_status (codes "goal_failed") 3 (codes "error")) (emit clear_inline_status s) in
    emit uart_prompt (agent_reset (fetch_finish_agent_idle told))

-- The bound on the number of sentences.
unfoldable pub sentences : ℕ → ℕ
sentences n = if n == 0 then 1 else if ltb 8 n then 8 else n

abbrev pub or_default : ℕ → Option ℕ → ℕ
or_default d none = d
or_default d (some n) = n

-- A governed task up to its first check.
unfoldable pub planned : Agent → Agent
planned s =
    let fetching = prepare false [] [] false (record s {
      mode = mode_m1;
      phase = phase_fetch_source;
      response_body = [];
      output_text = [];
      output_language = [];
      output_style = [];
    }) in
    let told = emit (event (codes "plan_created") 0) (agent_set_result (codes "ok") [] fetching) in
    emit (human_status (codes "fetching source...")) told

module _ (v : Services) where
  -- The answer `started` of the fetch.
  unfoldable pub m1_fetch_started : Bool × Agent → Agent
  m1_fetch_started (true, s) = s
  m1_fetch_started (false, s) =
      let told = emit (skill_result (codes "fetch_url") 1 (codes "error")) s in
      let reason = fetch_failure_reason_or (codes "fetch start failed") s in
      agent_start_terminal_post v terminal_failed
        (agent_set_result (codes "error") reason (record told { summary = [] }))

  unfoldable pub m1_fetch_checked : Bool × Agent → Agent
  m1_fetch_checked (false, s) = agent_start_terminal_post v terminal_refused s
  m1_fetch_checked (true, s) =
      m1_fetch_started
        (fetch_start_agent_url v s.source_url (emit (skill_called (codes "fetch_url") 1) s))

  unfoldable pub start_governed_m1_task : Agent → Agent
  start_governed_m1_task s =
      m1_fetch_checked (agent_policy_check (codes "fetch_url") 1 (some s.source_url) (planned s))

  unfoldable pub local_fetch_started : Bool × Agent → Agent
  local_fetch_started (true, s) = s
  local_fetch_started (false, s) =
      let told = emit (skill_result (codes "fetch_url") 1 (codes "error")) s in
      let reason = fetch_failure_reason_or (codes "fetch start failed") s in
      agent_finish_local 1 terminal_failed
        (agent_set_result (codes "error") reason (record told { summary = [] }))

  unfoldable pub local_fetch_checked : Bool × Agent → Agent
  local_fetch_checked (false, s) = agent_finish_local 1 terminal_refused s
  local_fetch_checked (true, s) =
      local_fetch_started
        (fetch_start_agent_url v s.source_url (emit (skill_called (codes "fetch_url") 1) s))

  unfoldable pub start_local_summary_task_with_mode : ℕ → Agent → Agent
  start_local_summary_task_with_mode mode s =
      let fetching = prepare false [] [] false (record s {
        mode = mode;
        phase = phase_fetch_source;
        response_body = [];
        output_text = [];
      }) in
      let ready =
        emit (event (codes "plan_created") 0) (agent_set_result (codes "ok") [] fetching) in
      let told = emit (human_status (codes "fetching source...")) ready in
      local_fetch_checked (agent_policy_check (codes "fetch_url") 1 (some s.source_url) told)

  unfoldable pub m0_fetch_started : Bool × Agent → Agent
  m0_fetch_started (true, s) = s
  m0_fetch_started (false, s) =
      let told = emit (skill_result (codes "fetch_url") 1 (codes "error")) s in
      let reason = fetch_failure_reason_or (codes "fetch start failed") s in
      agent_fail (agent_set_result (codes "error") reason told)

  -- The traces of a task that has been read.
  abbrev pub received : Agent → Agent
  received s =
      emit (event (codes "intent_parsed") 0)
        (emit (event (codes "goal_received") 0) (agent_set_result (codes "ok") [] s))

  unfoldable pub start_m0 : Bytes → Agent → Agent
  start_m0 line s =
      let n = or_default 3 (json_extract_u64 line (codes "summary_sentences")) in
      let set = record s { mode = mode_m0; summary_sentences = sentences n } in
      let ready = emit (event (codes "plan_created") 0) (received set) in
      m0_fetch_started
        (fetch_start_agent_url v s.source_url (emit (skill_called (codes "fetch_url") 1) ready))

  unfoldable pub m1_stored : Bytes → Option Agent → Agent → Agent
  m1_stored line none s = agent_reset (emit (uart_write (codes "task too large\n")) s)
  m1_stored line (some stored) s =
      let steps = or_default 6 (json_extract_u64 line (codes "max_steps")) in
      let items = or_default 3 (json_extract_u64 line (codes "max_items")) in
      start_governed_m1_task (
        received (record stored {
          mode = mode_m1;
          max_steps = (if steps == 0 then 6 else steps);
          summary_sentences = sentences items;
        }))

  unfoldable pub start_m1 : Bytes → Agent → Agent
  start_m1 line s = elim (json_extract_string line (codes "model_url") (fresh 256)) [
    | none ↦ agent_reset (emit (uart_write (codes "missing model_url\n")) s)
    | some url ↦
        m1_stored line (agent_store_task_json line (record s { model_url = url.bytes }))
          (record s { model_url = url.bytes })
  ]

  -- The stores of a task whose goal, source and sink have been read.
  abbrev pub accept : Bytes → Bytes → Bytes → Agent → Agent
  accept goal_id source_url sink_url s = prepare false [] [] false (record s {
    task_active = true;
    phase = phase_fetch_source;
    goal_id = goal_id;
    source_url = source_url;
    sink_url = sink_url;
    response_body = [];
    output_text = [];
    summary = [];
    output_language = [];
    output_style = [];
    result_reason = [];
    openai_interpret_retries = 0;
    openai_summary_retries = 0;
  })

  -- The fields of the line, one after the other, each into its own array.
  unfoldable pub read_task : Bool → Bytes → Agent → Agent
  read_task is_m0 line s = elim (json_extract_string line (codes "goal_id") (fresh 96)) [
    | none ↦ emit (uart_write (codes "missing goal_id\n")) s
    | some goal_id ↦ elim (json_extract_string line (codes "source_url") (fresh 256)) [
      | none ↦ emit (uart_write (codes "missing source_url\n")) s
      | some source_url ↦ elim (json_extract_string line (codes "sink_url") (fresh 256)) [
        | none ↦ emit (uart_write (codes "missing sink_url\n")) s
        | some sink_url ↦
            let accepted = accept goal_id.bytes source_url.bytes sink_url.bytes s in
            if is_m0 then start_m0 line accepted else start_m1 line accepted
      ]
    ]
  ]

  unfoldable pub read_kind : Bytes → Agent → Agent
  read_kind line s = elim (json_extract_string line (codes "kind") (fresh 64)) [
    | none ↦ emit (uart_write (codes "invalid task\n")) s
    | some kind ↦
        if bytes_eq kind.bytes (codes "fetch_summarize_post")
        then read_task true line s
        else if bytes_eq kind.bytes (codes "agent_task")
        then read_task false line s
        else emit (uart_write (codes "unsupported task\n")) s
  ]

  -- `none` is the answer false.
  unfoldable pub handle_agent_task_line : Bytes → Agent → Option Agent
  handle_agent_task_line [] s = none
  handle_agent_task_line (b ∷ line) s =
      if not (b == b'{')
      then none
      else if s.task_active || not (s.fetch.state == fetch_idle)
      then some (emit (uart_write (codes "busy\n")) s)
      else some (read_kind (b ∷ line) s)
