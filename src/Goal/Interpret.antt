-- ===== src/Goal/Interpret.antt =====
-- A goal in other words is read by the model, runtime/src/agent/goal.rs: the request, its retries,
-- and the answer that becomes a task.
use mini_agent_os.Agent.Policy.{agent_store_task_json, m3_summary_profile, m3_post_profile}
use mini_agent_os.Agent.Skill.Done.{openai_max_retries}
use mini_agent_os.Agent.Skill.{
  Services, agent_finish_local, fetch_start_agent_url, prepare, openai_failure_retryable,
}
use mini_agent_os.Agent.Task.{start_local_summary_task_with_mode, sentences, or_default}
use mini_agent_os.Agent.{
  Agent, emit, agent_set_result, agent_http_success, fetch_failure_reason_or, mode_m3,
  phase_interpret_goal, event, retry_scheduled, human_status, model_interpretation_result,
  intent_compiled, model_response_snapshot,
}
use mini_agent_os.Ascii.{starts_with}
use mini_agent_os.Base.{
  ℕ, ◌+◌, ◌%◌, Bool, true, false, ◌&&◌, ◌||◌, [], ◌∷◌, Option, none, some, ltb, if◌then◌else◌,
  Bytes, codes,
}
use mini_agent_os.Buffer.{fresh, copy_bytes}
use mini_agent_os.Goal.Compile.{refused_or_error, refused_or_failed, default_max_steps}
use mini_agent_os.Goal.{contains_ascii_phrase, normalize_output_language, normalize_output_style}
use mini_agent_os.Json.{json_extract_string, json_extract_u64}

-- What the reader of goals takes from runtime/src/agent/model.rs: the body of its request, the text
-- of the model's answer in 1024 bytes, and the flag of an answer that was cut.
pub record GoalServices : Type 0 where
  pub interpretation_body : Agent → Bytes
  pub output_text : Agent → Option Bytes
  pub response_body_truncated : Agent → Bool

unfoldable pub finish_goal_interpretation_failure : Bytes → Agent → Agent
finish_goal_interpretation_failure reason s =
    let refused =
      contains_ascii_phrase reason (codes "unsupported")
      || contains_ascii_phrase reason (codes "missing openai key")
      || contains_ascii_phrase reason (codes "run openai-key") in
    agent_finish_local 0 (refused_or_failed refused)
      (agent_set_result (refused_or_error refused) reason s)

-- `Ok(action)` and `Err(reason)`.
pub data Verdict : Type 0 where
  ok : Bytes → Verdict
  err : Bytes → Verdict

-- `json_extract_string(..).unwrap_or(0)`, into an array of `size` bytes.
unfoldable pub field_or_empty : Bytes → Bytes → ℕ → Bytes
field_or_empty response key size = elim (json_extract_string response key (fresh size)) [
  | none ↦ []
  | some o ↦ o.bytes
]

-- The reason of an answer with the status of an error.
unfoldable pub error_reason : Bytes → Bytes
error_reason reason = elim reason [
  | [] ↦ codes "interpretation failed"
  | (b ∷ text) ↦
      if starts_with (b ∷ text) (codes "unsupported goal")
      then codes "unsupported goal"
      else if starts_with (b ∷ text) (codes "translation backend unavailable")
          || starts_with (b ∷ text) (codes "interpretation backend unavailable")
      then codes "interpretation backend unavailable"
      else codes "interpretation failed"
]

abbrev pub or_text : Bytes → Bytes → Bytes
or_text default [] = default
or_text default (b ∷ text) = b ∷ text

-- A field that is normalised if it is there.
abbrev pub normalized_or : Bytes → (Bytes → Bytes) → Bytes → Bytes
normalized_or default f [] = default
normalized_or default f (b ∷ text) = f (b ∷ text)

-- The stores of an answer, in front of the choice of the action.
unfoldable pub intended : Bytes → Bytes → Bytes → Agent → Agent
intended response source sink s = record s {
  source_url = copy_bytes 256 source;
  sink_url = sink;
  model_url = [];
  max_steps = default_max_steps;
  summary_sentences = sentences (or_default 3 (json_extract_u64 response (codes "max_items")));
  output_language =
      normalized_or (codes "default") normalize_output_language
        (field_or_empty response (codes "output_language") 16);
  output_style =
      normalized_or (codes "bullet") normalize_output_style
        (field_or_empty response (codes "style") 16);
}

abbrev pub stored_or : Bytes → Option Agent → Agent → Verdict × Agent
stored_or action none s = (err (codes "goal policy unavailable"), s)
stored_or action (some stored) s = (ok action, stored)

-- A summary that is posted needs a sink.
unfoldable pub choose_post : Bytes → Agent → Verdict × Agent
choose_post [] s = (err (codes "missing interpreted sink_url"), s)
choose_post (b ∷ url) s =
    stored_or (codes "post_summary") (agent_store_task_json m3_post_profile s) s

-- The choice of the action.
unfoldable pub choose_action : Bytes → Agent → Verdict × Agent
unfolding choose_post
choose_action action s =
    if starts_with action (codes "post_summary")
    then choose_post s.sink_url s
    else if starts_with action (codes "local_summary")
    then stored_or (codes "local_summary") (agent_store_task_json m3_summary_profile s) s
    else (err (codes "unsupported interpreted action"), s)

-- The fields of an answer that is no error, one after the other.
unfoldable pub apply_fields : Bytes → Agent → Verdict × Agent
unfolding choose_action intended
apply_fields response s = elim (json_extract_string response (codes "action") (fresh 32)) [
  | none ↦ (err (codes "missing interpretation action"), s)
  | some action ↦ elim (json_extract_string response (codes "source_url") (fresh 256)) [
    | none ↦ (err (codes "missing interpreted source_url"), s)
    | some source ↦
        choose_action (action.bytes)
          (intended response (source.bytes) (field_or_empty response (codes "sink_url") 256) s)
  ]
]

-- The answer itself.
unfoldable pub apply_response : Bytes → Agent → Verdict × Agent
unfolding apply_fields
apply_response response s = elim (json_extract_string response (codes "status") (fresh 16)) [
  | none ↦ (err (codes "invalid interpretation response"), s)
  | some status ↦
      if starts_with (status.bytes) (codes "error")
      then (err (error_reason (field_or_empty response (codes "reason") 128)), s)
      else apply_fields response s
]

module _ (g : GoalServices) (v : Services) where
  -- The text of the model, or the answer as it came.
  unfoldable pub apply_interpretation_response : Agent → Verdict × Agent
  unfolding apply_response
  apply_interpretation_response s =
      let snapshot = λ (parsed : Bool) (text : Bytes).
        emit
          (model_response_snapshot (codes "goal_interpretation") s.fetch.http_status
            (g.response_body_truncated s) parsed text)
          s in
      elim (g.output_text s) [
        | none ↦ apply_response s.response_body (snapshot false s.response_body)
        | some text ↦ elim text [
          | [] ↦ apply_response s.response_body (snapshot false s.response_body)
          | (b ∷ rest) ↦ apply_response (b ∷ rest) (snapshot true (b ∷ rest))
        ]
      ]

  abbrev pub missing_key : Bytes
  missing_key = codes "missing openai key; run openai-key <key> before Goal > input"

  -- The answer `started` of the request.
  unfoldable pub interpretation_started : Bool × Agent → Agent
  interpretation_started (true, s) = s
  interpretation_started (false, s) =
      finish_goal_interpretation_failure
        (fetch_failure_reason_or (codes "openai interpretation request failed") s) s

  -- With the body and the header of the request.
  unfoldable pub interpretation_request : Bytes → Bytes → Agent → Agent
  interpretation_request [] auth s =
      finish_goal_interpretation_failure (codes "openai interpretation request too large") s
  interpretation_request (b ∷ body) [] s = finish_goal_interpretation_failure missing_key s
  interpretation_request (b ∷ body) (c ∷ auth) s = interpretation_started (
      fetch_start_agent_url v v.responses_url (
        prepare true (b ∷ body) (c ∷ auth) true
          (record s { response_body = []; output_text = [] })))

  -- Both callers drop the answer of `start_openai_interpretation_request`.
  unfoldable pub start_openai_interpretation_request : Agent → Agent
  start_openai_interpretation_request s =
      if v.api_key_ready
      then interpretation_request (g.interpretation_body s) v.bearer_header s
      else finish_goal_interpretation_failure missing_key s

  -- The stores of `start_goal_interpretation`.
  abbrev pub interpreting : Agent → Agent
  interpreting s = record s {
    mode = mode_m3;
    phase = phase_interpret_goal;
    source_url = [];
    sink_url = [];
    model_url = [];
    task_json = [];
    max_steps = default_max_steps;
    response_body = [];
    output_text = [];
    summary = [];
    output_language = [];
    output_style = [];
    result_reason = [];
    openai_interpret_retries = 0;
    openai_summary_retries = 0;
    fetch = record (s.fetch) { method_post = true; extra_header = []; oauth_active = false };
  }

  unfoldable pub start_goal_interpretation : Agent → Agent
  start_goal_interpretation s =
      let received = emit (event (codes "goal_received") 0) (interpreting s) in
      let text = emit (event (codes "goal_text_received") 0) received in
      let looped = emit (event (codes "agent_loop_started") 0) text in
      let asked = emit (event (codes "model_interpretation_started") 0) looped in
      start_openai_interpretation_request
        (emit (human_status (codes "understanding goal...")) asked)

  -- The result of the interpretation.
  unfoldable pub interpreted : Verdict × Agent → Agent
  interpreted (err reason, s) = finish_goal_interpretation_failure reason s
  interpreted (ok action, s) =
      let told = emit (model_interpretation_result action) s in
      start_local_summary_task_with_mode v mode_m3 (
        emit
          (intent_compiled action s.source_url s.sink_url s.summary_sentences s.output_language
            s.output_style)
          told)

  -- The retry of a request that failed.
  unfoldable pub retry_interpretation : Agent → Agent
  retry_interpretation s =
      let retries = (s.openai_interpret_retries + 1) % 256 in
      let scheduled =
        emit (retry_scheduled 0 (codes "openai_interpretation") retries)
          (record s { openai_interpret_retries = retries }) in
      start_openai_interpretation_request
        (emit (human_status (codes "retrying interpretation...")) scheduled)

  -- The end of an interpretation that failed.
  unfoldable pub interpretation_failed : Agent → Agent
  interpretation_failed s =
      if openai_failure_retryable s.fetch && ltb s.openai_interpret_retries openai_max_retries
      then retry_interpretation s
      else if v.api_key_ready
      then finish_goal_interpretation_failure (copy_bytes 160 (v.openai_failure_reason s.fetch)) s
      else finish_goal_interpretation_failure (codes "interpretation request failed") s

  -- `handle_goal_interpretation_done` behind its guard.
  unfoldable pub goal_interpretation_done : Bool → Agent → Agent
  goal_interpretation_done success s =
      if agent_http_success success s
      then if g.response_body_truncated s
        then finish_goal_interpretation_failure
            (codes "openai interpretation: response body truncated") s
        else interpreted (apply_interpretation_response s)
      else interpretation_failed s

-- The task machine with this reader of goals in its place.
abbrev pub with_goals : GoalServices → Services → Services
with_goals g v = record v { goal_interpretation_done = goal_interpretation_done g v }
