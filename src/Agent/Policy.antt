-- ===== src/Agent/Policy.antt =====
-- The policy of a task, runtime/src/agent/policy.rs: which skills it may use, which hosts it may
-- reach, and how many steps it may take.
pub mod Check
pub mod Profiles
pub mod Stock
use mini_agent_os.Agent.{Agent, emit, agent_set_result, policy_checked, skill_denied}
use mini_agent_os.Base.{
  ℕ, Bool, true, false, ◌&&◌, ◌||◌, not, [], ◌∷◌, Option, none, some, ltb, ◌==◌, if◌then◌else◌,
  length, Bytes, codes,
}
use mini_agent_os.Json.Array.{json_string_array_contains}
use mini_agent_os.Json.{json_extract_bool}
use mini_agent_os.Net.Ipv4.{is_private_ipv4}
use mini_agent_os.Net.Url.{parse_agent_url}

-- `agent_store_task_json`, into an array of 1536 bytes; `none` is the result false.
unfoldable pub agent_store_task_json : Bytes → Agent → Option Agent
agent_store_task_json line s =
    if ltb 1536 (length line) then none else some (record s { task_json = line })

-- The profiles of the `agent_store_*_policy` functions.
abbrev pub default_goal_profile : Bytes
default_goal_profile =
    codes
      "{\"allowed_skills\":[\"fetch_url\",\"call_model\",\"post_result\"],\"allowed_hosts\":[\"10.0.2.2\"]}"

abbrev pub local_summary_profile : Bytes
local_summary_profile =
    codes "{\"allowed_skills\":[\"fetch_url\",\"summarize_text\"],\"allowed_hosts\":[\"10.0.2.2\"]}"

abbrev pub local_post_profile : Bytes
local_post_profile =
    codes
      "{\"allowed_skills\":[\"fetch_url\",\"summarize_text\",\"post_result\"],\"allowed_hosts\":[\"10.0.2.2\"]}"

abbrev pub m3_summary_profile : Bytes
m3_summary_profile =
    codes
      "{\"allowed_skills\":[\"fetch_url\",\"summarize_text\",\"call_model\"],\"allowed_hosts\":[\"10.0.2.2\",\"api.openai.com\"],\"allow_public_hosts\":true}"

abbrev pub m3_post_profile : Bytes
m3_post_profile =
    codes
      "{\"allowed_skills\":[\"fetch_url\",\"summarize_text\",\"call_model\",\"post_result\"],\"allowed_hosts\":[\"10.0.2.2\",\"api.openai.com\"],\"allow_public_hosts\":true}"

unfoldable pub agent_skill_allowed : Bytes → Bytes → Bool
agent_skill_allowed task_json skill =
    elim (json_string_array_contains task_json (codes "allowed_skills") skill) [
      | some v ↦ v
      | none ↦ true
    ]

unfoldable pub agent_allow_public_hosts : Bytes → Bool
agent_allow_public_hosts task_json =
    elim (json_extract_bool task_json (codes "allow_public_hosts")) [ some v ↦ v | none ↦ false ]

-- The test of a host behind the parser of the URL.
unfoldable pub host_allowed : Bytes → Bytes → Bool
host_allowed task_json host =
    elim (json_string_array_contains task_json (codes "allowed_hosts") host) [
      | some explicit ↦ explicit || agent_allow_public_hosts task_json && not (is_private_ipv4 host)
      | none ↦ true
    ]

unfoldable pub agent_host_allowed : Bytes → Bytes → Bool
agent_host_allowed task_json url = elim (parse_agent_url url) [
  | some parts ↦ host_allowed task_json parts.host
  | none ↦ false
]

-- The URL of the call, if there is one.
unfoldable pub target_allowed : Bytes → Option Bytes → Bool
target_allowed task_json none = true
target_allowed task_json (some url) = agent_host_allowed task_json url

-- `max_steps != 0 && step > max_steps`
unfoldable pub over_budget : ℕ → ℕ → Bool
over_budget max_steps step = not (max_steps == 0) && ltb max_steps step

-- The reason of a denial, `none` where the call is allowed.
unfoldable pub denial : Agent → Bytes → ℕ → Option Bytes → Option Bytes
denial s skill step target =
    if not (agent_skill_allowed s.task_json skill)
    then some (codes "skill denied by policy")
    else if not (target_allowed s.task_json target)
    then some (codes "host denied by policy")
    else if over_budget s.max_steps step
    then some (codes "step budget exceeded")
    else none

-- What follows the tests, given the reason of a denial.
unfoldable pub conclude : Bytes → ℕ → Option Bytes → Agent → Bool × Agent
conclude skill step none s = (true, emit (policy_checked skill step (codes "ok")) s)
conclude skill step (some reason) s =
    let traced = emit (policy_checked skill step (codes "denied")) s in
    let denied = emit (skill_denied skill step reason) traced in
    (false, agent_set_result (codes "refused") reason (record denied { summary = [] }))

unfoldable pub agent_policy_check : Bytes → ℕ → Option Bytes → Agent → Bool × Agent
agent_policy_check skill step target s = conclude skill step (denial s skill step target) s
