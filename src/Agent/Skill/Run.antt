-- ===== src/Agent/Skill/Run.antt =====
-- The whole run of a governed task.
use mathlib.Core.Path.{subst}
use mini_agent_os.Agent.Skill.Done.{handle_agent_fetch_done}
use mini_agent_os.Agent.Skill.{Services}
use mini_agent_os.Agent.{Agent, Fetch}
use mini_agent_os.Base.{
  ℕ, ◌+◌, Bool, false, List, [], ◌∷◌, ◌≡◌, inl, inr, refl, sym, ap, ◌∙◌, arith, Option, none, some,
  All, Bytes, length, ◌≤◌,
}
use mini_agent_os.Agent.Skill.Governed.{Permitted, Governed, Ended, IsPhase}
use mini_agent_os.Agent.Skill.Lifecycle.{handle_agent_fetch_done-Outcome}

abbrev pub after : Option Agent → Agent → Agent
after none s = s
after (some t) s = t

-- The end of a transfer: the answer of the transport, its state, and the body.
pub record Transfer : Type 0 where
  pub success : Bool
  pub fetch : Fetch
  pub body : Bytes

-- What the transport leaves in the state before the task machine is told.
abbrev pub deliver : Transfer → Agent → Agent
deliver x s = record s { fetch = x.fetch; response_body = x.body }

-- The transfers that end, one after the other; a step that is not taken changes nothing.
abbrev pub run : Services → List Transfer → Agent → Agent
run v [] s = s
run v (x ∷ xs) s = run v xs (after (handle_agent_fetch_done v x.success (deliver x s)) s)

not_taken :
    (v : Services) (x : Transfer) (s : Agent)
    → s.task_active ≡ false
    → handle_agent_fetch_done v x.success (deliver x s) ≡ none
unfolding handle_agent_fetch_done
not_taken v x s e = rw e

-- A task that has ended takes no step.
pub run-Ended :
    (v : Services) (xs : List Transfer) (s : Agent) → s.task_active ≡ false → run v xs s ≡ s
run-Ended v [] s e = refl
run-Ended v (x ∷ xs) s e = ap (λ o. run v xs (after o s)) (not_taken v x s e) ∙ run-Ended v xs s e

run_long :
    (v : Services) (json : Bytes) (n : ℕ) (xs : List Transfer) (s : Agent)
    → Governed json n s
    → IsPhase s.phase
    → 4 ≤ s.phase + length xs
    → All (Permitted json) (run v xs s).effects × Ended n (run v xs s)
run_long v json n [] s g p h = absurd (elim p [
  | inl e ↦ omega (arith, e)
  | inr (inl e) ↦ omega (arith, e)
  | inr (inr e) ↦ omega (arith, e)
])
run_long v json n (x ∷ xs) s g p h =
    let (t, e, (permitted, o)) =
      handle_agent_fetch_done-Outcome v json n x.success (deliver x s) g p in
    let step : run v (x ∷ xs) s ≡ run v xs t = ap (λ o. run v xs (after o s)) e in
    subst (λ (r : Agent). All (Permitted json) r.effects × Ended n r) (sym step)
      (elim o [
        | inl ended ↦
            subst (λ (r : Agent). All (Permitted json) r.effects × Ended n r)
              (sym (run-Ended v xs t ended.0)) (permitted, ended)
        | inr (going, later, phase) ↦ run_long v json n xs t going phase (omega arith)
      ])

-- Three transfers end a governed task, whatever they bring and whatever the transport and the model
-- do meanwhile: there is exactly one terminal event, the machine is idle and takes no
-- further step, and every request went to a host that the policy allows.
pub run_ends :
    (v : Services) (json : Bytes) (n : ℕ) (xs : List Transfer) (s : Agent)
    → Governed json n s
    → IsPhase s.phase
    → 3 ≤ length xs
    → All (Permitted json) (run v xs s).effects × Ended n (run v xs s)
run_ends v json n xs s g p h = run_long v json n xs s g p (elim p [
  | inl e ↦ omega (arith, e)
  | inr (inl e) ↦ omega (arith, e)
  | inr (inr e) ↦ omega (arith, e)
])
