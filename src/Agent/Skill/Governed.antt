-- ===== src/Agent/Skill/Governed.antt =====
-- A governed task, the permission of its requests, and what its end leaves behind.
use mini_agent_os.Agent.Policy.{agent_host_allowed}
use mini_agent_os.Agent.Skill.{
  agent_emit_terminal_event, agent_finish_now, agent_finish_local, report,
}
use mini_agent_os.Agent.{
  Agent, Effect, emit, agent_reset, fetch_finish_agent_idle, mode_none, mode_m1, phase_idle,
  phase_fetch_source, phase_call_model, phase_post_result, fetch_idle, terminal_completed,
  terminal_refused, goal_status, request, clear_inline_status,
}
use mini_agent_os.Base.{
  ℕ, suc, ◌<◌, true, false, List, [], ◌∷◌, ◌≡◌, ◌⊎◌, inl, inr, refl, ap, ◌==◌, All, Bytes,
  Bool-cases,
}

-- A request goes where the policy `json` lets it go.
abbrev pub Permitted : Bytes → Effect → Type 0
Permitted json (request url) = agent_host_allowed json url ≡ true
Permitted json e = Unit

-- The number of terminal events.
abbrev pub terminals : List Effect → ℕ
terminals [] = 0
terminals (goal_status event step status ∷ es) = suc (terminals es)
terminals (e ∷ es) = terminals es

-- A governed task under the policy `json`, after `n` terminal events.
abbrev pub Governed : Bytes → ℕ → Agent → Type 0
Governed json n s =
    (s.task_json ≡ json)
    × All (Permitted json) s.effects
    × (terminals s.effects ≡ n)
    × (s.mode ≡ mode_m1)
    × (s.task_active ≡ true)

-- The task has ended: one terminal event more, and the machine is ready for the next task.
abbrev pub Ended : ℕ → Agent → Type 0
Ended n t =
    (t.task_active ≡ false)
    × (t.mode ≡ mode_none)
    × (t.phase ≡ phase_idle)
    × (t.fetch.state ≡ fetch_idle)
    × (terminals t.effects ≡ suc n)

-- The phases of a governed task.
abbrev pub IsPhase : ℕ → Type 0
IsPhase p = (p ≡ phase_fetch_source) ⊎ (p ≡ phase_call_model) ⊎ (p ≡ phase_post_result)

-- It goes on, in a later phase and with no terminal event more.
abbrev pub Continues : Bytes → ℕ → ℕ → Agent → Type 0
Continues json n phase t = Governed json n t × (phase < t.phase) × IsPhase t.phase

abbrev pub Outcome : Bytes → ℕ → ℕ → Agent → Type 0
Outcome json n phase t = All (Permitted json) t.effects × (Ended n t ⊎ Continues json n phase t)

-- What the end of a task leaves of the effects.
pub idle_effects :
    (json : Bytes) (n : ℕ) (s : Agent)
    → All (Permitted json) s.effects
    → terminals s.effects ≡ n
    → All (Permitted json) (fetch_finish_agent_idle s).effects
      × (terminals (fetch_finish_agent_idle s).effects ≡ n)
      × ((fetch_finish_agent_idle s).fetch.state ≡ fetch_idle)
unfolding fetch_finish_agent_idle
idle_effects json n s p c = elim (Bool-cases (s.fetch.reusable)) [
  | inl e ↦ rw e (p, c, refl)
  | inr e ↦ rw e ((tt, p), c, refl)
]

pub terminal_effects :
    (json : Bytes) (n step : ℕ) (s : Agent)
    → All (Permitted json) s.effects
    → terminals s.effects ≡ n
    → All (Permitted json) (agent_emit_terminal_event step s).effects
      × (terminals (agent_emit_terminal_event step s).effects ≡ suc n)
unfolding agent_emit_terminal_event
terminal_effects json n step s p c = elim (Bool-cases (s.terminal_kind == terminal_completed)) [
  | inl e ↦ rw e ((tt, p), ap suc c)
  | inr e ↦ elim (Bool-cases (s.terminal_kind == terminal_refused)) [
    | inl f ↦ rw (e, f) ((tt, p), ap suc c)
    | inr f ↦ rw (e, f) ((tt, p), ap suc c)
  ]
]

pub finish-Ended :
    (json : Bytes) (n phase step : ℕ) (s : Agent)
    → All (Permitted json) s.effects
    → terminals s.effects ≡ n
    → Outcome json n phase (agent_finish_now (agent_emit_terminal_event step s))
unfolding agent_finish_now agent_reset
finish-Ended json n phase step s p c =
    let told = terminal_effects json n step s p c in
    let idle = idle_effects json (suc n) (agent_emit_terminal_event step s) told.0 told.1 in
    ((tt, idle.0), inl (refl, refl, refl, idle.2, idle.1))

pub List-cases : (xs : Bytes) → (xs ≡ []) ⊎ ((b : ℕ) × (rest : Bytes) × (xs ≡ b ∷ rest))
List-cases [] = inl refl
List-cases (b ∷ rest) = inr (b, rest, refl)

pub report_effects :
    (json : Bytes) (n : ℕ) (s : Agent)
    → All (Permitted json) s.effects
    → terminals s.effects ≡ n
    → All (Permitted json) (report s).effects × (terminals (report s).effects ≡ n)
unfolding report
report_effects json n s p c = elim (Bool-cases (s.terminal_kind == terminal_completed)) [
  | inl e ↦ elim (List-cases (s.summary)) [
    | inl f ↦ rw (e, f, report) (p, c)
    | inr f ↦ let g = f.2 in rw (e, g, report) ((tt, (tt, p)), c)
  ]
  | inr e ↦ elim (List-cases (s.result_reason)) [
    | inl f ↦ rw (e, f, report) (p, c)
    | inr f ↦ let g = f.2 in rw (e, g, report) ((tt, (tt, (tt, p))), c)
  ]
]

pub finish_local-Ended :
    (json : Bytes) (n phase step kind : ℕ) (s : Agent)
    → All (Permitted json) s.effects
    → terminals s.effects ≡ n
    → Outcome json n phase (agent_finish_local step kind s)
unfolding agent_finish_local
finish_local-Ended json n phase step kind s p c =
    let t = emit clear_inline_status (record s { terminal_kind = kind }) in
    let told = report_effects json n t (tt, p) c in
    finish-Ended json n phase step (report t) told.0 told.1
