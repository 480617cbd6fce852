-- ===== src/Tests/Goal.antt =====
-- Runs of the reader of goals, and instances of its theorems.
use mini_agent_os.Agent.Policy.{agent_store_task_json}
use mini_agent_os.Agent.Skill.Run.{Transfer}
use mini_agent_os.Agent.Skill.{Services}
use mini_agent_os.Agent.{Agent, Fetch, mode_none, phase_idle, terminal_none}
use mini_agent_os.Ascii.{ascii_eq_ignore_case, is_space, skip_spaces, starts_with, strip_prefix}
use mini_agent_os.Base.{◌⊎◌, ◌≡◌, refl, true, false, [], ◌∷◌, none, Bytes, codes}
use mini_agent_os.Goal.Compile.{compile_goal_locally}
use mini_agent_os.Goal.Intent.{IsIntent, apply_response-IsIntent}
use mini_agent_os.Goal.Interpret.{GoalServices, ok, apply_response, start_goal_interpretation}
use mini_agent_os.Goal.Plan.{IsPosting, IsLocal, compile_goal_locally-plan}
use mini_agent_os.Goal.Retry.{IsOver, answers, start_goal_interpretation-IsOver}
use mini_agent_os.Goal.{
  contains_ascii_phrase, phrase_from, phrase_here, extract_urls, urls_from, url_here, trim_tail,
}
use mini_agent_os.Buffer.{append_byte}
use mini_agent_os.Json.{expect, json_extract_string, json_find_key, string_body}
use mini_agent_os.Net.Url.{
  parse_agent_url, trim, span_until, scheme_of, colon_loop, host_and_port, path_of,
}

abbrev idle : Fetch
idle = record {
  method_post = false;
  body = [];
  extra_header = [];
  oauth_active = false;
  state = 0;
  trace_last_state = 0;
  reusable = false;
  error_reason = [];
  http_status = 0;
}

abbrev asked : Bytes → Agent
asked goal = record {
  mode = mode_none;
  task_active = true;
  phase = phase_idle;
  goal_id = [];
  goal_text = goal;
  source_url = [];
  sink_url = [];
  model_url = [];
  task_json = [];
  max_steps = 0;
  summary = [];
  response_body = [];
  output_text = [];
  summary_sentences = 3;
  output_language = [];
  output_style = [];
  result_status = [];
  result_reason = [];
  terminal_kind = terminal_none;
  openai_interpret_retries = 0;
  openai_summary_retries = 0;
  fetch = idle;
  effects = [];
}

-- A transport that starts every transfer, and a key.
abbrev services : Services
services = record {
  fetch_start_ex = λ parts f. (true, f);
  api_key_ready = true;
  responses_url = codes "https://api.openai.com/v1/responses";
  bearer_header = codes "Authorization: Bearer k";
  openai_summary_body = λ s. [];
  openai_output_text = λ s. none;
  openai_failure_reason = λ f. [];
  goal_interpretation_done = λ success s. s;
}

abbrev goal_services : GoalServices
goal_services = record {
  interpretation_body = λ s. codes "{}";
  output_text = λ s. none;
  response_body_truncated = λ s. false;
}

-- A server that is too busy, twice.
abbrev busy : Transfer
busy = record { success = true; fetch = record idle { http_status = 503 }; body = [] }

start_goal_interpretation-IsOver_example : IsOver (
    answers goal_services services
      (busy ∷ busy ∷ [])
      (start_goal_interpretation goal_services services (asked (codes "sum it up"))))
start_goal_interpretation-IsOver_example =
    start_goal_interpretation-IsOver goal_services services busy busy [] (asked (codes "sum it up"))
      refl refl refl

abbrev local_goal : Agent
local_goal = asked (codes "fetch http://10.0.2.2/a, summarize")

local_goal_compiles : compile_goal_locally local_goal ≡ (none, (compile_goal_locally local_goal).1)
unfolding compile_goal_locally contains_ascii_phrase phrase_from phrase_here ascii_eq_ignore_case
    extract_urls urls_from url_here starts_with trim_tail span_until is_space parse_agent_url trim
    skip_spaces scheme_of strip_prefix host_and_port agent_store_task_json colon_loop path_of expect
local_goal_compiles = refl

compile_goal_locally-plan_example :
    (contains_ascii_phrase local_goal.goal_text (codes "post") ≡ true)
      × IsPosting (compile_goal_locally local_goal).1
    ⊎ (contains_ascii_phrase local_goal.goal_text (codes "post") ≡ false)
      × IsLocal (compile_goal_locally local_goal).1
compile_goal_locally-plan_example =
    compile_goal_locally-plan local_goal (compile_goal_locally local_goal).1 local_goal_compiles

abbrev reply : Bytes
reply =
    codes
      "{\"status\":\"ok\",\"action\":\"local_summary\",\"source_url\":\"http://a/\",\"sink_url\":\"http://b/\"}"

reply_is_taken :
    apply_response reply (asked [])
    ≡ (ok (codes "local_summary"), (apply_response reply (asked [])).1)
unfolding apply_response json_extract_string json_find_key strip_prefix skip_spaces is_space
    string_body starts_with append_byte agent_store_task_json
reply_is_taken = refl

apply_response-IsIntent_example :
    IsIntent reply (codes "local_summary") (apply_response reply (asked [])).1
apply_response-IsIntent_example =
    apply_response-IsIntent reply (codes "local_summary") (asked [])
      (apply_response reply (asked [])).1 reply_is_taken
