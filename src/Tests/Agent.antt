-- ===== src/Tests/Agent.antt =====
-- Runs of the policy, the task machine and the URL parser.
use mathlib.Core.List.{cons≢nil}
use mini_agent_os.Agent.Policy.{agent_policy_check, agent_skill_allowed, conclude, denial}
use mini_agent_os.Agent.Skill.Denied.{agent_start_terminal_post_denied, post_check}
use mini_agent_os.Agent.Skill.{agent_finish_now, agent_start_terminal_post}
use mini_agent_os.Agent.{emit, goal_status, terminal_completed}
use mini_agent_os.Ascii.{is_space, skip_spaces, strip_prefix}
use mini_agent_os.Json.Array.{advance, array_items, complete, json_string_array_contains}
use mini_agent_os.Json.{expect, json_find_key}
use mini_agent_os.Agent.Policy.Check.{agent_policy_check_iff}
use mini_agent_os.Agent.Policy.Profiles.{agent_policy_check-IsProfile, IsReachable}
use mini_agent_os.Agent.Policy.Stock.{
  agent_policy_check-IsM3Profile, local_summary-IsProfile, local_summary_skills, local_hosts,
}
use mini_agent_os.Agent.Policy.{
  agent_policy_check, default_goal_profile, local_summary_profile, m3_post_profile, target_allowed,
  agent_skill_allowed,
}
use mini_agent_os.Agent.Skill.Done.{handle_agent_fetch_done}
use mini_agent_os.Agent.Skill.Governed.{Permitted, Ended, Outcome}
use mini_agent_os.Agent.Skill.Lifecycle.{handle_agent_fetch_done-Outcome}
use mini_agent_os.Agent.Skill.Run.{Transfer, run}
use mini_agent_os.Agent.Skill.{Services}
use mini_agent_os.Agent.Task.Start.{start_governed_m1_task-run}
use mini_agent_os.Agent.Task.{start_governed_m1_task}
use mini_agent_os.Agent.{Agent, Fetch, mode_m1, phase_fetch_source, terminal_none}
use mini_agent_os.Ascii.{is_space, is_ascii_digit, skip_spaces, strip_prefix}
use mini_agent_os.Base.{
  ℕ, ◌≤◌, true, false, List, [], ◌∷◌, ◌≡◌, ◌↔◌, ◌⊎◌, inl, inr, refl, arith, none, some, All, Bytes,
  codes, length, ap,
}
use mini_agent_os.Json.Array.Membership.{IsAmong}
use mini_agent_os.Json.{expect}
use mini_agent_os.Net.Ipv4.Grammar.{parse_ipv4_bytes_iff, IsAddress}
use mini_agent_os.Net.Ipv4.{parse_ipv4_bytes, parts_loop, octet, octet_loop}
use mini_agent_os.Net.Url.{
  AgentUrlParts, parse_agent_url, trim, span_until, scheme_of, colon_loop, host_and_port, path_of,
}

abbrev quiet : Fetch
quiet = record {
  method_post = false;
  body = [];
  extra_header = [];
  oauth_active = false;
  state = 0;
  trace_last_state = 0;
  reusable = false;
  error_reason = [];
  http_status = 200;
}

-- A task whose source, model and sink stand on the gateway.
abbrev task_of : Bytes → Agent
task_of task_json = record {
  mode = mode_m1;
  task_active = true;
  phase = phase_fetch_source;
  goal_id = codes "g1";
  goal_text = [];
  source_url = codes "http://10.0.2.2/a";
  sink_url = codes "http://10.0.2.2/b";
  model_url = codes "http://10.0.2.2/c";
  task_json = task_json;
  max_steps = 6;
  summary = [];
  response_body = [];
  output_text = [];
  summary_sentences = 3;
  output_language = [];
  output_style = [];
  result_status = [];
  result_reason = [];
  terminal_kind = terminal_none;
  openai_interpret_retries = 0;
  openai_summary_retries = 0;
  fetch = quiet;
  effects = [];
}

-- A transport that starts every transfer.
abbrev services : Services
services = record {
  fetch_start_ex = λ parts f. (true, f);
  api_key_ready = false;
  responses_url = [];
  bearer_header = [];
  openai_summary_body = λ s. [];
  openai_output_text = λ s. none;
  openai_failure_reason = λ f. [];
  goal_interpretation_done = λ ok s. s;
}

abbrev task : Agent
task = task_of local_summary_profile

-- A page, an answer of the model and the answer to the post.
abbrev transfers : List Transfer
transfers =
    record { success = true; fetch = quiet; body = codes "a page" }
    ∷ record { success = true; fetch = quiet; body = codes "{\"summary\":\"short\"}" }
    ∷ record { success = true; fetch = quiet; body = [] }
    ∷ []

abbrev posting : Agent
posting = task_of default_goal_profile

start_governed_m1_task-run_example :
    All
      (Permitted default_goal_profile)
      (run services transfers (start_governed_m1_task services posting)).effects
    × Ended 0 (run services transfers (start_governed_m1_task services posting))
start_governed_m1_task-run_example =
    start_governed_m1_task-run services transfers posting refl tt (omega arith)

handle_agent_fetch_done-Outcome_example :
    (t : Agent) × (handle_agent_fetch_done services true task ≡ some t)
    × Outcome local_summary_profile 0 phase_fetch_source t
handle_agent_fetch_done-Outcome_example =
    handle_agent_fetch_done-Outcome services local_summary_profile 0 true task
      (refl, tt, refl, refl, refl) (inl refl)

agent_policy_check-IsProfile_example :
    ((agent_policy_check (codes "fetch_url") 1 (some (codes "http://10.0.2.2/a")) task).0 ≡ true)
    ↔ (IsAmong (codes "fetch_url") local_summary_skills
        × IsReachable local_hosts false (codes "http://10.0.2.2/a")
        × ((task.max_steps ≡ 0) ⊎ (1 ≤ task.max_steps)))
agent_policy_check-IsProfile_example =
    agent_policy_check-IsProfile task local_summary_skills local_hosts false local_summary-IsProfile
      (codes "fetch_url") (codes "http://10.0.2.2/a") 1

abbrev private_parts : AgentUrlParts
private_parts = record {
  host = codes "192.168.1.1";
  path = codes "/x";
  https = false;
  port = 80;
  fixed_ip = some (192 ∷ 168 ∷ 1 ∷ 1 ∷ []);
}

private_url : parse_agent_url (codes "http://192.168.1.1/x") ≡ some private_parts
unfolding parse_agent_url trim skip_spaces is_space scheme_of strip_prefix span_until host_and_port
    colon_loop path_of parse_ipv4_bytes parts_loop octet octet_loop is_ascii_digit expect
private_url = refl

abbrev private_ip : Bytes
private_ip = 192 ∷ 168 ∷ 1 ∷ 1 ∷ []

private_text : parse_ipv4_bytes private_parts.host ≡ some private_ip
unfolding parse_ipv4_bytes parts_loop octet octet_loop is_ascii_digit expect
private_text = refl

private_host : (length private_ip ≡ 4) × IsAddress private_parts.host private_ip
private_host = (parse_ipv4_bytes_iff private_parts.host private_ip).0 private_text

other_host : (codes "192.168.1.1" ≡ codes "10.0.2.2") → ⊥
other_host e = absurd (omega (arith, ap (length {A = ℕ}) e))

agent_policy_check-IsM3Profile_example :
    (agent_policy_check
      (codes "fetch_url")
      1
      (some (codes "http://192.168.1.1/x"))
      (task_of m3_post_profile)).0
    ≡ false
agent_policy_check-IsM3Profile_example =
    agent_policy_check-IsM3Profile (task_of m3_post_profile) (codes "fetch_url")
      (codes "http://192.168.1.1/x") 1 private_parts private_ip (inr refl) private_url refl
      private_host.1 (inr (inr (inr (inr (inr refl))))) other_host

agent_policy_check_iff_example : ((agent_policy_check (codes "fetch_url") 1 none task).0 ≡ true) ↔ (
    (agent_skill_allowed local_summary_profile (codes "fetch_url") ≡ true)
    × (target_allowed local_summary_profile none ≡ true)
    × ((task.max_steps ≡ 0) ⊎ (1 ≤ task.max_steps)))
agent_policy_check_iff_example = agent_policy_check_iff (codes "fetch_url") 1 none task

abbrev gateway_parts : AgentUrlParts
gateway_parts = record {
  host = codes "10.0.2.2";
  path = codes "/a";
  https = false;
  port = 80;
  fixed_ip = some (10 ∷ 0 ∷ 2 ∷ 2 ∷ []);
}

gateway_url : parse_agent_url (codes "http://10.0.2.2/a") ≡ some gateway_parts
unfolding parse_agent_url trim skip_spaces is_space scheme_of strip_prefix span_until host_and_port
    colon_loop path_of parse_ipv4_bytes parts_loop octet octet_loop is_ascii_digit expect
gateway_url = refl

-- The call to the gateway passes.
gateway_passes :
    (agent_policy_check (codes "fetch_url") 1 (some (codes "http://10.0.2.2/a")) task).0 ≡ true
gateway_passes =
    agent_policy_check-IsProfile_example.1
      (inl refl, (gateway_parts, gateway_url, inl (inl refl)), inr (omega arith))

abbrev gateway : Bytes
gateway = 10 ∷ 0 ∷ 2 ∷ 2 ∷ []

parse_ipv4_bytes_iff_example :
    (parse_ipv4_bytes (codes "10.0.2.2") ≡ some gateway)
    ↔ ((length gateway ≡ 4) × IsAddress (codes "10.0.2.2") gateway)
parse_ipv4_bytes_iff_example = parse_ipv4_bytes_iff (codes "10.0.2.2") gateway

post_denied : (post_check task).0 ≡ false
unfolding agent_policy_check conclude denial agent_skill_allowed json_string_array_contains
    json_find_key expect skip_spaces is_space array_items advance complete strip_prefix
post_denied = refl

agent_start_terminal_post_denied_example :
    agent_start_terminal_post services terminal_completed task
    ≡ agent_finish_now
        (emit (goal_status (codes "goal_completed") 3 (codes "ok")) (post_check task).1)
agent_start_terminal_post_denied_example =
    agent_start_terminal_post_denied services task cons≢nil refl post_denied
