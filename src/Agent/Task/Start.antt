-- ===== src/Agent/Task/Start.antt =====
-- A governed task from its start to its end.
use mathlib.Core.Path.{subst}
use mini_agent_os.Agent.Policy.{agent_host_allowed, agent_policy_check, conclude, denial}
use mini_agent_os.Agent.Skill.{Services, fetch_start_agent_url, start_parts}
use mini_agent_os.Agent.{
  Agent, emit, agent_set_result, phase_idle, phase_fetch_source, terminal_refused, terminal_failed,
  skill_called,
}
use mini_agent_os.Net.Url.{AgentUrlParts, parse_agent_url}
use mini_agent_os.Base.{
  ℕ, Bool, true, false, List, ◌≡◌, ◌⊎◌, inl, inr, refl, sym, ap, ◌∙◌, arith, Option, none, some,
  All, Bytes, codes, length, ◌≤◌,
}
use mini_agent_os.Agent.Skill.Governed.{Permitted, terminals, Governed, Ended, Outcome}
use mini_agent_os.Agent.Skill.Post.{checked, start-Governed, terminal_post-Outcome}
use mini_agent_os.Agent.Skill.Run.{Transfer, run, run-Ended, run_ends}
use mini_agent_os.Agent.Task.{m1_fetch_started, m1_fetch_checked, planned, start_governed_m1_task}

conclude-source :
    (skill : Bytes) (step : ℕ) (d : Option Bytes) (s : Agent)
    → ((conclude skill step d s).1.source_url ≡ s.source_url)
      × ((conclude skill step d s).1.phase ≡ s.phase)
unfolding conclude agent_set_result
conclude-source skill step none s = (refl, refl)
conclude-source skill step (some reason) s = (refl, refl)

start-phase :
    (v : Services) (url : Bytes) (o : Option AgentUrlParts) (s : Agent)
    → (start_parts v url o s).1.phase ≡ s.phase
unfolding start_parts
start-phase v url none s = refl
start-phase v url (some parts) s = refl

module _ (v : Services) (json : Bytes) (n : ℕ) where
  m1_fetch_started-Outcome :
      (r : Bool × Agent)
      → Governed json n r.1
      → r.1.phase ≡ phase_fetch_source
      → Outcome json n phase_idle (m1_fetch_started v r)
  unfolding m1_fetch_started agent_set_result
  m1_fetch_started-Outcome (true, s) g e = (g.1, inr (g, omega (arith, e), inl e))
  m1_fetch_started-Outcome (false, s) g e =
      terminal_post-Outcome v json n phase_idle terminal_failed _ (g.0, (tt, g.1), g.2, g.3, g.4)
        (omega arith)

  m1_fetch_checked-Outcome :
      (r : Bool × Agent)
      → Governed json n r.1
      → (r.0 ≡ false) ⊎ (agent_host_allowed json r.1.source_url ≡ true)
      → r.1.phase ≡ phase_fetch_source
      → Outcome json n phase_idle (m1_fetch_checked v r)
  unfolding m1_fetch_checked fetch_start_agent_url
  m1_fetch_checked-Outcome (false, s) g a e =
      terminal_post-Outcome v json n phase_idle terminal_refused s g (omega arith)
  m1_fetch_checked-Outcome (true, s) g (inl f) e = absurd (ground arith)
  m1_fetch_checked-Outcome (true, s) g (inr a) e =
      let called = emit (skill_called (codes "fetch_url") 1) s in
      let o = parse_agent_url s.source_url in
      m1_fetch_started-Outcome (start_parts v s.source_url o called)
        (start-Governed v json n s.source_url o called (g.0, (tt, g.1), g.2, g.3, g.4) a)
        (start-phase v s.source_url o called ∙ e)

  checked_source :
      (skill : Bytes) (step : ℕ) (s : Agent)
      → Governed json n s
      → s.phase ≡ phase_fetch_source
      → (((agent_policy_check skill step (some s.source_url) s).0 ≡ false)
          ⊎ (agent_host_allowed json
                (agent_policy_check skill step (some s.source_url) s).1.source_url
              ≡ true))
        × ((agent_policy_check skill step (some s.source_url) s).1.phase ≡ phase_fetch_source)
  unfolding agent_policy_check
  checked_source skill step s g e =
      let kept = conclude-source skill step (denial s skill step (some s.source_url)) s in
      (
        elim (checked json n skill s.source_url step s g).1 [
          | inl f ↦ inl f
          | inr a ↦ inr (ap (agent_host_allowed json) kept.0 ∙ a)
        ],
        kept.1 ∙ e,
      )

  start_governed_m1_task-Outcome :
      (s : Agent)
      → s.task_json ≡ json
      → All (Permitted json) s.effects
      → terminals s.effects ≡ n
      → s.task_active ≡ true
      → Outcome json n phase_idle (start_governed_m1_task v s)
  unfolding start_governed_m1_task planned agent_set_result
  start_governed_m1_task-Outcome s j p c a =
      let skill = codes "fetch_url" in
      let t = planned s in
      let g : Governed json n t = (j, (tt, (tt, p)), c, refl, a) in
      let source = checked_source skill 1 t g refl in
      m1_fetch_checked-Outcome (agent_policy_check skill 1 (some t.source_url) t)
        (checked json n skill t.source_url 1 t g).0 source.0 source.1

-- From its start on, a governed task ends with the third transfer at the latest, whether transfers
-- start, succeed or fail, and whatever states and bodies, an answer of the model among them, they
-- bring: there is exactly one terminal event, the machine is idle, and every request went to a host
-- that the policy of the task allows. The task is active and no earlier request went elsewhere.
pub start_governed_m1_task-run :
    (v : Services) (xs : List Transfer) (s : Agent)
    → s.task_active ≡ true
    → All (Permitted s.task_json) s.effects
    → 3 ≤ length xs
    → All (Permitted s.task_json) (run v xs (start_governed_m1_task v s)).effects
      × Ended (terminals s.effects) (run v xs (start_governed_m1_task v s))
start_governed_m1_task-run v xs s a p h =
    let n = terminals s.effects in
    let t = start_governed_m1_task v s in
    let start = start_governed_m1_task-Outcome v s.task_json n s refl p refl a in
    elim start.1 [
      | inl ended ↦
          subst (λ (r : Agent). All (Permitted s.task_json) r.effects × Ended n r)
            (sym (run-Ended v xs t ended.0)) (start.0, ended)
      | inr (going, later, phase) ↦ run_ends v s.task_json n xs t going phase h
    ]
