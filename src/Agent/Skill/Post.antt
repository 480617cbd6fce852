-- ===== src/Agent/Skill/Post.antt =====
-- A governed task asks its policy before it posts its result.
use mini_agent_os.Agent.Policy.Check.{agent_policy_check_iff}
use mini_agent_os.Agent.Policy.{
  agent_host_allowed, agent_policy_check, conclude, denial, target_allowed,
}
use mini_agent_os.Agent.Skill.{
  Services, prepare, agent_start_terminal_post, fetch_start_agent_url, start_parts, post_started,
  post_checked, post_to,
}
use mini_agent_os.Agent.{
  Agent, emit, agent_set_result, mode_m1, phase_post_result, human_status, skill_called,
}
use mini_agent_os.Agent.Summary.{build_agent_result_body}
use mini_agent_os.Net.Url.{AgentUrlParts, parse_agent_url}
use mini_agent_os.Buffer.{fresh}
use mini_agent_os.Base.{
  ℕ, ◌<◌, Bool, true, false, [], ◌∷◌, ◌≡◌, ◌⊎◌, inl, inr, refl, sym, ap, ◌∙◌, arith, Option, none,
  some, ◌==◌, Bytes, codes, Bool-cases,
}
use mini_agent_os.Agent.Skill.Governed.{Governed, Outcome, finish-Ended, finish_local-Ended}

-- The check of a call with a target keeps the task governed, and what passes it may go there.
pub conclude-Governed :
    (json : Bytes) (n : ℕ) (skill : Bytes) (step : ℕ) (d : Option Bytes) (s : Agent)
    → Governed json n s
    → Governed json n (conclude skill step d s).1
unfolding conclude agent_set_result
conclude-Governed json n skill step none s g = (g.0, (tt, g.1), g.2, g.3, g.4)
conclude-Governed json n skill step (some reason) s g = (g.0, (tt, (tt, g.1)), g.2, g.3, g.4)

pub conclude-sink_url :
    (skill : Bytes) (step : ℕ) (d : Option Bytes) (s : Agent)
    → ((conclude skill step d s).1.sink_url ≡ s.sink_url)
      × ((conclude skill step d s).1.model_url ≡ s.model_url)
unfolding conclude agent_set_result
conclude-sink_url skill step none s = (refl, refl)
conclude-sink_url skill step (some reason) s = (refl, refl)

pub checked :
    (json : Bytes) (n : ℕ) (skill url : Bytes) (step : ℕ) (s : Agent)
    → Governed json n s
    → Governed json n (agent_policy_check skill step (some url) s).1
      × (((agent_policy_check skill step (some url) s).0 ≡ false)
          ⊎ (agent_host_allowed json url ≡ true))
unfolding agent_policy_check target_allowed
checked json n skill url step s g = (
  conclude-Governed json n skill step (denial s skill step (some url)) s g,
  elim (Bool-cases ((agent_policy_check skill step (some url) s).0)) [
    | inl e ↦
        let target = ((agent_policy_check_iff skill step (some url) s).0 e).1 in
        inr (ap (λ j. agent_host_allowed j url) (sym g.0) ∙ target)
    | inr e ↦ inl e
  ],
)

pub start-Governed :
    (v : Services) (json : Bytes) (n : ℕ) (url : Bytes) (o : Option AgentUrlParts) (s : Agent)
    → Governed json n s
    → agent_host_allowed json url ≡ true
    → Governed json n (start_parts v url o s).1
unfolding start_parts
start-Governed v json n url none s g h = g
start-Governed v json n url (some parts) s g h = (g.0, (h, g.1), g.2, g.3, g.4)

pub post_started-Outcome :
    (v : Services) (json : Bytes) (n phase : ℕ) (r : Bool × Agent)
    → Governed json n r.1
    → phase < phase_post_result
    → Outcome json n phase (post_started v r)
unfolding post_started agent_set_result
post_started-Outcome v json n phase (true, s) g h = (g.1, inr (g, h, inr (inr refl)))
post_started-Outcome v json n phase (false, s) g h = finish-Ended json n phase 3 _ (tt, g.1) g.2

pub post_checked-Outcome :
    (v : Services) (json : Bytes) (n phase : ℕ) (r : Bool × Agent)
    → Governed json n r.1
    → (r.0 ≡ false) ⊎ (agent_host_allowed json r.1.sink_url ≡ true)
    → phase < phase_post_result
    → Outcome json n phase (post_checked v r)
unfolding post_checked fetch_start_agent_url
post_checked-Outcome v json n phase (false, s) g a h = finish-Ended json n phase 3 s g.1 g.2
post_checked-Outcome v json n phase (true, s) g (inl e) h = absurd (ground arith)
post_checked-Outcome v json n phase (true, s) g (inr a) h =
    let t = emit (human_status (codes "posting result...")) (
      emit (skill_called (codes "post_result") 3)
        (prepare true (build_agent_result_body s (fresh 65_536)).bytes [] false s)) in
    post_started-Outcome v json n phase (start_parts v s.sink_url (parse_agent_url s.sink_url) t)
      (start-Governed v json n s.sink_url (parse_agent_url s.sink_url) t
        (g.0, (tt, (tt, g.1)), g.2, g.3, g.4) a)
      h

-- What a check of the call to the sink or to the model leads to.
pub checked_sink :
    (json : Bytes) (n : ℕ) (skill : Bytes) (step : ℕ) (s : Agent)
    → Governed json n s
    → ((agent_policy_check skill step (some s.sink_url) s).0 ≡ false)
      ⊎ (agent_host_allowed json (agent_policy_check skill step (some s.sink_url) s).1.sink_url
          ≡ true)
unfolding agent_policy_check
checked_sink json n skill step s g = elim (checked json n skill s.sink_url step s g).1 [
  | inl e ↦ inl e
  | inr a ↦
      let kept = conclude-sink_url skill step (denial s skill step (some s.sink_url)) s in
      inr (ap (agent_host_allowed json) kept.0 ∙ a)
]

pub checked_model :
    (json : Bytes) (n : ℕ) (skill : Bytes) (step : ℕ) (s : Agent)
    → Governed json n s
    → ((agent_policy_check skill step (some s.model_url) s).0 ≡ false)
      ⊎ (agent_host_allowed json (agent_policy_check skill step (some s.model_url) s).1.model_url
          ≡ true)
unfolding agent_policy_check
checked_model json n skill step s g = elim (checked json n skill s.model_url step s g).1 [
  | inl e ↦ inl e
  | inr a ↦
      let kept = conclude-sink_url skill step (denial s skill step (some s.model_url)) s in
      inr (ap (agent_host_allowed json) kept.1 ∙ a)
]

pub post_to-Outcome :
    (v : Services) (json : Bytes) (n phase kind : ℕ) (sink : Bytes) (s : Agent)
    → Governed json n s
    → sink ≡ s.sink_url
    → phase < phase_post_result
    → Outcome json n phase (post_to v sink kind s)
unfolding post_to
post_to-Outcome v json n phase kind [] s g e h = finish_local-Ended json n phase 3 kind s g.1 g.2
post_to-Outcome v json n phase kind (b ∷ url) s g e h =
    let m1 : (s.mode == mode_m1) ≡ true = let f = g.3 in ground arith in
    let skill = codes "post_result" in
    rw (m1, e)
      (post_checked-Outcome v json n phase (agent_policy_check skill 3 (some s.sink_url) s)
        (checked json n skill s.sink_url 3 s g).0 (checked_sink json n skill 3 s g) h)

pub terminal_post-Outcome :
    (v : Services) (json : Bytes) (n phase kind : ℕ) (s : Agent)
    → Governed json n s
    → phase < phase_post_result
    → Outcome json n phase (agent_start_terminal_post v kind s)
unfolding agent_start_terminal_post
terminal_post-Outcome v json n phase kind s g h =
    post_to-Outcome v json n phase kind s.sink_url (record s { terminal_kind = kind }) g refl h
