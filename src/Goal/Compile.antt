-- ===== src/Goal/Compile.antt =====
-- The local compiler of runtime/src/agent/goal.rs: a goal that starts with the word for a fetch is
-- read by its phrases and its URLs.
use mini_agent_os.Agent.Policy.{agent_store_task_json, default_goal_profile, local_summary_profile}
use mini_agent_os.Agent.Skill.{Services, agent_finish_local, agent_start_terminal_post}
use mini_agent_os.Agent.{
  Agent, emit, agent_set_result, terminal_refused, terminal_failed, goal_compilation_failed,
}
use mini_agent_os.Base.{
  ℕ, Bool, ◌&&◌, ◌||◌, not, List, [], ◌∷◌, Option, none, some, if◌then◌else◌, Bytes, codes,
}
use mini_agent_os.Buffer.{copy_bytes}
use mini_agent_os.Goal.{contains_ascii_phrase, extract_urls, detect_goal_max_items}

abbrev pub default_max_steps : ℕ
default_max_steps = 6

abbrev pub default_model_url : Bytes
default_model_url = codes "http://10.0.2.2:8083/summarize"

abbrev pub url_max : ℕ
url_max = 256

-- The last of the URLs, if there are at least two.
abbrev pub last_of_two : List Bytes → Option Bytes
last_of_two [] = none
last_of_two (a ∷ []) = none
last_of_two (a ∷ b ∷ []) = some b
last_of_two (a ∷ b ∷ c ∷ rest) = last_of_two (b ∷ c ∷ rest)

unfoldable pub copy_sink_hint_from_goal : Agent → Agent
copy_sink_hint_from_goal s =
    if contains_ascii_phrase s.goal_text (codes "post")
    then elim (last_of_two (extract_urls s.goal_text)) [
      | none ↦ s
      | some url ↦ record s { sink_url = copy_bytes url_max url }
    ]
    else s

abbrev pub unsupported_goal : Bytes
unsupported_goal = codes "unsupported goal"

-- `Ok(())` is `none`, and `Err(reason)` is the reason.
abbrev pub Compiled : Type 0
Compiled = Option Bytes × Agent

-- The store of a policy at the end.
unfoldable pub with_policy : Bytes → Agent → Compiled
with_policy profile s = elim (agent_store_task_json profile s) [
  | none ↦ (some (codes "goal policy unavailable"), s)
  | some stored ↦ (none, stored)
]

-- The stores behind the URLs.
abbrev pub sized : Agent → Agent
sized s = record s {
  summary_sentences = detect_goal_max_items (s.goal_text);
  max_steps = default_max_steps;
}

-- With the model and the sink of a goal that posts.
abbrev pub posting : Bytes → Bytes → Agent → Agent
posting model sink s = record s {
  model_url = copy_bytes url_max model;
  sink_url = copy_bytes url_max sink;
}

-- The URLs of a goal that posts, behind the first.
unfoldable pub compile_post : List Bytes → Agent → Compiled
unfolding with_policy
compile_post [] s = (some unsupported_goal, s)
compile_post (a ∷ []) s = with_policy default_goal_profile (sized (posting default_model_url a s))
compile_post (a ∷ b ∷ rest) s = with_policy default_goal_profile (sized (posting a b s))

unfoldable pub compile_urls : Bool → List Bytes → Agent → Compiled
unfolding compile_post with_policy
compile_urls has_post [] s = (some unsupported_goal, s)
compile_urls has_post (source ∷ urls) s =
    let s = record s { source_url = copy_bytes url_max source; model_url = []; sink_url = [] } in
    if has_post then compile_post urls s else with_policy local_summary_profile (sized s)

unfoldable pub compile_goal_locally : Agent → Compiled
unfolding compile_urls
compile_goal_locally s =
    let says = contains_ascii_phrase s.goal_text in
    if says (codes "compilation error") || says (codes "ambiguous goal")
    then (some (codes "goal compilation failed"), s)
    else if not (says (codes "summarize") || says (codes "summary"))
        || not (says (codes "fetch")) && not (says (codes "post"))
    then (some unsupported_goal, s)
    else compile_urls (says (codes "post")) (extract_urls s.goal_text) s

-- The terminal kind of a failure, and the result that names it.
abbrev pub refused_or_error : Bool → Bytes
refused_or_error refused = if refused then codes "refused" else codes "error"

abbrev pub refused_or_failed : Bool → ℕ
refused_or_failed refused = if refused then terminal_refused else terminal_failed

module _ (v : Services) where
  unfoldable pub finish_goal_compilation_failure : Bytes → Agent → Agent
  finish_goal_compilation_failure reason s =
      let refused = contains_ascii_phrase reason (codes "unsupported") in
      let told =
        agent_set_result (refused_or_error refused) reason
          (emit (goal_compilation_failed reason) s) in
      elim (told.sink_url) [
        | [] ↦ agent_finish_local 0 (refused_or_failed refused) told
        | (b ∷ url) ↦ agent_start_terminal_post v (refused_or_failed refused) told
      ]
