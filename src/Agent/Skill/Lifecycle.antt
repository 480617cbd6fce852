-- ===== src/Agent/Skill/Lifecycle.antt =====
-- The step of a governed task: where its requests go and how it ends.
use mathlib.Core.Path.{subst}
use mini_agent_os.Agent.Policy.{agent_host_allowed, agent_policy_check}
use mini_agent_os.Agent.Skill.Done.{handle_agent_fetch_done, interprets, dispatch}
use mini_agent_os.Agent.Skill.{
  Services, fetch_start_agent_url, m1_model_request, m1_source_done, m1_model_done, m1_post_done,
  m1_model_started, m1_model_checked, m1_captured,
}
use mini_agent_os.Agent.{
  Agent, emit, agent_set_result, agent_http_success, capture_model_summary, phase_fetch_source,
  phase_call_model, phase_post_result, terminal_completed, terminal_refused, terminal_failed,
  skill_result,
}
use mini_agent_os.Agent.Summary.{build_model_request_body}
use mini_agent_os.Net.Url.{parse_agent_url}
use mini_agent_os.Buffer.{fresh}
use mini_agent_os.Json.{json_extract_string}
use mini_agent_os.Base.{
  ℕ, Bool, true, false, [], ◌∷◌, ◌≡◌, ◌⊎◌, inl, inr, refl, sym, arith, Option, none, some, Bytes,
  codes, Bool-cases, Option-cases,
}
use mini_agent_os.Agent.Skill.Governed.{Governed, IsPhase, Outcome, finish-Ended}
use mini_agent_os.Agent.Skill.Post.{checked, start-Governed, checked_model, terminal_post-Outcome}

m1_model_started-Outcome :
    (v : Services) (json : Bytes) (n : ℕ) (r : Bool × Agent)
    → Governed json n r.1
    → Outcome json n phase_fetch_source (m1_model_started v r)
unfolding m1_model_started agent_set_result
m1_model_started-Outcome v json n (true, s) g = (g.1, inr (g, omega arith, inr (inl refl)))
m1_model_started-Outcome v json n (false, s) g =
    terminal_post-Outcome v json n phase_fetch_source terminal_failed _
      (g.0, (tt, g.1), g.2, g.3, g.4) (omega arith)

m1_model_request-Outcome :
    (v : Services) (json : Bytes) (n : ℕ) (body : Bytes) (s : Agent)
    → Governed json n s
    → agent_host_allowed json s.model_url ≡ true
    → Outcome json n phase_fetch_source (m1_model_request v body s)
unfolding m1_model_request fetch_start_agent_url agent_set_result
m1_model_request-Outcome v json n [] s g a =
    terminal_post-Outcome v json n phase_fetch_source terminal_failed _ g (omega arith)
m1_model_request-Outcome v json n (b ∷ body) s g a = m1_model_started-Outcome v json n _ (
    start-Governed v json n s.model_url (parse_agent_url s.model_url) _
      (g.0, (tt, (tt, g.1)), g.2, g.3, g.4) a)

m1_model_checked-Outcome :
    (v : Services) (json : Bytes) (n : ℕ) (r : Bool × Agent)
    → Governed json n r.1
    → (r.0 ≡ false) ⊎ (agent_host_allowed json r.1.model_url ≡ true)
    → Outcome json n phase_fetch_source (m1_model_checked v r)
unfolding m1_model_checked
m1_model_checked-Outcome v json n (false, s) g a =
    terminal_post-Outcome v json n phase_fetch_source terminal_refused s g (omega arith)
m1_model_checked-Outcome v json n (true, s) g (inl e) = absurd (ground arith)
m1_model_checked-Outcome v json n (true, s) g (inr a) =
    m1_model_request-Outcome v json n (build_model_request_body s (fresh 65_536)).bytes s g a

m1_source_done-Outcome :
    (v : Services) (json : Bytes) (n : ℕ) (ok : Bool) (s : Agent)
    → Governed json n s
    → Outcome json n phase_fetch_source (m1_source_done v ok s)
unfolding m1_source_done agent_set_result
m1_source_done-Outcome v json n ok s g =
    let told = emit (skill_result (codes "fetch_url") 1 (codes "ok")) s in
    let kept : Governed json n told = (g.0, (tt, g.1), g.2, g.3, g.4) in
    let skill = codes "call_model" in
    elim (Bool-cases (agent_http_success ok s)) [
      | inl e ↦ rw e (
          m1_model_checked-Outcome v json n (agent_policy_check skill 2 (some s.model_url) told)
            (checked json n skill s.model_url 2 told kept).0
            (checked_model json n skill 2 told kept))
      | inr e ↦ rw e (
          terminal_post-Outcome v json n phase_fetch_source terminal_failed _
            (g.0, (tt, g.1), g.2, g.3, g.4) (omega arith))
    ]

abbrev Captured : Bytes → ℕ → Option Agent → Type 0
Captured json n none = Unit
Captured json n (some t) = Governed json n t

m1_captured-Outcome :
    (v : Services) (json : Bytes) (n : ℕ) (o : Option Agent) (s : Agent)
    → Governed json n s
    → Captured json n o
    → Outcome json n phase_call_model (m1_captured v o s)
unfolding m1_captured agent_set_result
m1_captured-Outcome v json n none s g h =
    terminal_post-Outcome v json n phase_call_model terminal_failed _
      (g.0, (tt, g.1), g.2, g.3, g.4) (omega arith)
m1_captured-Outcome v json n (some t) s g h =
    terminal_post-Outcome v json n phase_call_model terminal_completed _
      (h.0, (tt, h.1), h.2, h.3, h.4) (omega arith)

capture-Captured :
    (json : Bytes) (n : ℕ) (s : Agent)
    → Governed json n s
    → Captured json n (capture_model_summary s)
unfolding capture_model_summary
capture-Captured json n s g =
    elim (Option-cases (json_extract_string s.response_body (codes "summary") (fresh 4096))) [
      | inl e ↦ rw (e, capture_model_summary) tt
      | inr (o, e) ↦ rw (e, capture_model_summary) g
    ]

m1_model_done-Outcome :
    (v : Services) (json : Bytes) (n : ℕ) (ok : Bool) (s : Agent)
    → Governed json n s
    → Outcome json n phase_call_model (m1_model_done v ok s)
unfolding m1_model_done
m1_model_done-Outcome v json n ok s g = elim (Bool-cases (agent_http_success ok s)) [
  | inl e ↦
      rw e
        (m1_captured-Outcome v json n (capture_model_summary s) s g (capture-Captured json n s g))
  | inr e ↦ rw e (m1_captured-Outcome v json n none s g tt)
]

m1_post_done-Outcome :
    (v : Services) (json : Bytes) (n : ℕ) (ok : Bool) (s : Agent)
    → Governed json n s
    → Outcome json n phase_post_result (m1_post_done v ok s)
unfolding m1_post_done
m1_post_done-Outcome v json n ok s g = finish-Ended json n phase_post_result 3 _ (tt, g.1) g.2

-- On the end of a transfer, good or bad, a governed task either ends, with exactly one terminal
-- event and the machine idle, or goes on in a later phase with none; and every request it has made
-- by then goes to a host that its policy allows, whatever the transport and the model answer.
pub handle_agent_fetch_done-Outcome :
    (v : Services) (json : Bytes) (n : ℕ) (ok : Bool) (s : Agent)
    → Governed json n s
    → IsPhase s.phase
    → (t : Agent) × (handle_agent_fetch_done v ok s ≡ some t) × Outcome json n s.phase t
unfolding handle_agent_fetch_done dispatch interprets
handle_agent_fetch_done-Outcome v json n ok s g p =
    let m = g.3 in
    let a = g.4 in
    elim p [
      | inl e ↦ (
        m1_source_done v ok s,
        rw (a, m, e),
        subst (λ q. Outcome json n q (m1_source_done v ok s)) (sym e)
            (m1_source_done-Outcome v json n ok s g),
      )
      | inr (inl e) ↦ (
        m1_model_done v ok s,
        rw (a, m, e),
        subst (λ q. Outcome json n q (m1_model_done v ok s)) (sym e)
            (m1_model_done-Outcome v json n ok s g),
      )
      | inr (inr e) ↦ (
        m1_post_done v ok s,
        rw (a, m, e),
        subst (λ q. Outcome json n q (m1_post_done v ok s)) (sym e)
            (m1_post_done-Outcome v json n ok s g),
      )
    ]
