-- ===== src/Agent/Skill/Denied.antt =====
-- A governed task that has its summary and may not post it.
use mini_agent_os.Agent.Policy.{agent_policy_check, conclude, denial}
use mini_agent_os.Agent.Skill.{
  Services, agent_emit_terminal_event, agent_finish_now, agent_start_terminal_post, post_checked,
  post_to,
}
use mini_agent_os.Agent.{Agent, agent_set_result, emit, goal_status, mode_m1, terminal_completed}
use mini_agent_os.Base.{
  ℕ, Bool, true, false, [], ◌∷◌, ◌≡◌, ◌≢◌, refl, ap, ◌∙◌, arith, Option, none, some, ◌==◌, Bytes,
  codes,
}

post_checked-false :
    (v : Services) (r : Bool × Agent)
    → r.0 ≡ false
    → post_checked v r ≡ agent_finish_now (agent_emit_terminal_event 3 r.1)
unfolding post_checked
post_checked-false v (false, s) e = refl
post_checked-false v (true, s) e = absurd (ground arith)

conclude-terminal_kind :
    (skill : Bytes) (step : ℕ) (d : Option Bytes) (s : Agent)
    → (conclude skill step d s).1.terminal_kind ≡ s.terminal_kind
unfolding conclude agent_set_result
conclude-terminal_kind skill step none s = refl
conclude-terminal_kind skill step (some reason) s = refl

completed_event :
    (s : Agent)
    → s.terminal_kind ≡ terminal_completed
    → agent_emit_terminal_event 3 s ≡ emit (goal_status (codes "goal_completed") 3 (codes "ok")) s
unfolding agent_emit_terminal_event
completed_event s e = let f : (s.terminal_kind == terminal_completed) ≡ true = ground arith in rw f

-- The check of the call that would post the result.
abbrev pub post_check : Agent → Bool × Agent
post_check s =
    agent_policy_check (codes "post_result") 3 (some s.sink_url)
      (record s { terminal_kind = terminal_completed })

checked_kind : (s : Agent) → (post_check s).1.terminal_kind ≡ terminal_completed
unfolding agent_policy_check
checked_kind s =
    let t : Agent = record s { terminal_kind = terminal_completed } in
    conclude-terminal_kind (codes "post_result") 3
      (denial t (codes "post_result") 3 (some s.sink_url)) t

post_to-post_checked :
    (v : Services) (sink : Bytes) (kind : ℕ) (s : Agent)
    → sink ≢ []
    → s.mode ≡ mode_m1
    → post_to v sink kind s
      ≡ post_checked v (agent_policy_check (codes "post_result") 3 (some sink) s)
unfolding post_to
post_to-post_checked v [] kind s ne m = absurd (ne refl)
post_to-post_checked v (b ∷ url) kind s ne m =
    let e : (s.mode == mode_m1) ≡ true = ground arith in rw e

-- When a governed task with a sink is to end as completed and its policy denies the post, it is
-- finished at once, and the terminal event behind the trace of the denial is `goal_completed`.
pub agent_start_terminal_post_denied :
    (v : Services) (s : Agent)
    → s.sink_url ≢ []
    → s.mode ≡ mode_m1
    → (post_check s).0 ≡ false
    → agent_start_terminal_post v terminal_completed s
      ≡ agent_finish_now
          (emit (goal_status (codes "goal_completed") 3 (codes "ok")) (post_check s).1)
unfolding agent_start_terminal_post
agent_start_terminal_post_denied v s ne m d =
    let t : Agent = record s { terminal_kind = terminal_completed } in
    post_to-post_checked v s.sink_url terminal_completed t ne m
    ∙ post_checked-false v (post_check s) d
    ∙ ap agent_finish_now (completed_event (post_check s).1 (checked_kind s))
