-- ===== src/Agent/Policy/Check.antt =====
-- When a policy lets a call pass.
use mini_agent_os.Agent.Policy.{
  agent_skill_allowed, target_allowed, over_budget, denial, conclude, agent_policy_check,
}
use mini_agent_os.Agent.{Agent}
use mini_agent_os.Base.{ℕ, ◌≤◌, true, ◌≡◌, ◌↔◌, ◌⊎◌, refl, arith, Option, none, some, Bytes}

conclude-true :
    (skill : Bytes) (step : ℕ) (d : Option Bytes) (s : Agent)
    → ((conclude skill step d s).0 ≡ true) ↔ (d ≡ none)
unfolding conclude
conclude-true skill step none s = (λ h. refl, λ h. refl)
conclude-true skill step (some reason) s = ground arith

denial_iff :
    (skill : Bytes) (step : ℕ) (target : Option Bytes) (s : Agent)
    → (denial s skill step target ≡ none) ↔ (
        (agent_skill_allowed s.task_json skill ≡ true)
        × (target_allowed s.task_json target ≡ true)
        × ((s.max_steps ≡ 0) ⊎ (step ≤ s.max_steps)))
unfolding denial over_budget
denial_iff skill step target s = ground arith

-- The call passes exactly if the skill is allowed, the target is allowed and the step is within the
-- budget, in which 0 stands for no limit.
pub agent_policy_check_iff :
    (skill : Bytes) (step : ℕ) (target : Option Bytes) (s : Agent)
    → ((agent_policy_check skill step target s).0 ≡ true) ↔ (
        (agent_skill_allowed s.task_json skill ≡ true)
        × (target_allowed s.task_json target ≡ true)
        × ((s.max_steps ≡ 0) ⊎ (step ≤ s.max_steps)))
unfolding agent_policy_check
agent_policy_check_iff skill step target s =
    let c = conclude-true skill step (denial s skill step target) s in
    let d = denial_iff skill step target s in (λ h. d.0 (c.0 h), λ h. c.1 (d.1 h))
