-- ===== src/Goal/Line.antt =====
-- `handle_goal_line` of runtime/src/agent/goal.rs: a line of the console that is no task is a goal.
use mini_agent_os.Agent.Skill.{Services}
use mini_agent_os.Agent.Task.{start_governed_m1_task, start_local_summary_task_with_mode}
use mini_agent_os.Agent.{
  Agent, emit, mode_m2, phase_idle, fetch_idle, event, uart_write, goal_compiled,
  goal_compilation_fallback,
}
use mini_agent_os.Ascii.{starts_with}
use mini_agent_os.Base.{
  true, false, ◌||◌, not, [], ◌∷◌, Option, none, some, if◌then◌else◌, ◌==◌, Bytes, codes,
}
use mini_agent_os.Buffer.{copy_bytes}
use mini_agent_os.Goal.Compile.{
  Compiled, copy_sink_hint_from_goal, compile_goal_locally, finish_goal_compilation_failure,
}
use mini_agent_os.Goal.Interpret.{GoalServices, start_goal_interpretation}
use mini_agent_os.Goal.{starts_with_fetch_goal}

-- The stores of a goal that is taken.
unfoldable pub take_goal : Bytes → Agent → Agent
take_goal line s = record s {
  task_active = true;
  mode = mode_m2;
  phase = phase_idle;
  goal_id = copy_bytes 96 (codes "goal-shell");
  goal_text = copy_bytes 768 line;
  source_url = [];
  sink_url = [];
  model_url = [];
  task_json = [];
  max_steps = 0;
  response_body = [];
  output_text = [];
  summary = [];
  output_language = [];
  output_style = [];
  result_reason = [];
  openai_interpret_retries = 0;
  openai_summary_retries = 0;
  fetch = record (s.fetch) {
    method_post = false;
    body = [];
    extra_header = [];
    oauth_active = false;
  };
}

module _ (g : GoalServices) (v : Services) where
  -- What follows the local compiler.
  unfoldable pub start_compiled : Compiled → Agent
  start_compiled (none, s) =
      let told = emit goal_compiled s in
      elim (s.sink_url) [
        | [] ↦ start_local_summary_task_with_mode v mode_m2 told
        | (b ∷ url) ↦ start_governed_m1_task v told
      ]
  start_compiled (some reason, s) =
      if starts_with reason (codes "unsupported goal")
        || starts_with reason (codes "goal compilation failed")
      then start_goal_interpretation g v (emit (goal_compilation_fallback reason) s)
      else finish_goal_compilation_failure v reason s

  unfoldable pub compile_line : Agent → Agent
  unfolding start_compiled
  compile_line s =
      let received = emit (event (codes "goal_received") 0) (copy_sink_hint_from_goal s) in
      let text = emit (event (codes "goal_text_received") 0) received in
      start_compiled (compile_goal_locally (emit (event (codes "goal_compilation_started") 0) text))

  -- `none` is the answer false.
  unfoldable pub handle_goal_line : Bytes → Agent → Option Agent
  unfolding compile_line take_goal
  handle_goal_line [] s = none
  handle_goal_line (b ∷ line) s =
      if s.task_active || not (s.fetch.state == fetch_idle)
      then some (emit (uart_write (codes "busy\n")) s)
      else if starts_with_fetch_goal (b ∷ line)
      then some (compile_line (take_goal (b ∷ line) s))
      else some (start_goal_interpretation g v (take_goal (b ∷ line) s))
