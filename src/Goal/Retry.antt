-- ===== src/Goal/Retry.antt =====
-- A goal whose interpretation fails ends: there is one retry.
use mini_agent_os.Agent.Skill.Done.{openai_max_retries, interprets, handle_agent_fetch_done}
use mini_agent_os.Agent.Skill.Run.{Transfer, deliver}
use mini_agent_os.Agent.Skill.{
  Services, agent_finish_local, agent_finish_now, fetch_start_agent_url, start_parts,
  openai_failure_retryable,
}
use mini_agent_os.Agent.{
  Agent, agent_reset, agent_http_success, mode_m3, mode_none, phase_interpret_goal, phase_idle,
}
use mini_agent_os.Base.{
  ℕ, ◌⊎◌, Bool, true, false, ◌&&◌, List, [], ◌∷◌, Option, none, some, ◌≡◌, refl, inl, inr, arith,
  leb, ltb, if◌then◌else◌, Bytes, codes, Bool-cases, Option-cases,
}
use mini_agent_os.Goal.Interpret.{
  GoalServices, with_goals, finish_goal_interpretation_failure, interpretation_started,
  interpretation_request, start_openai_interpretation_request, start_goal_interpretation,
  retry_interpretation, interpretation_failed, goal_interpretation_done,
}
use mini_agent_os.Net.Url.{parse_agent_url}

-- The task is over.
pub record IsOver (s : Agent) : Type 0 where
  pub inactive : s.task_active ≡ false
  pub mode : s.mode ≡ mode_none
  pub phase : s.phase ≡ phase_idle

-- The machine waits for an interpretation, after `n` retries.
pub record Waits (n : ℕ) (s : Agent) : Type 0 where
  pub active : s.task_active ≡ true
  pub mode : s.mode ≡ mode_m3
  pub phase : s.phase ≡ phase_interpret_goal
  pub retries : s.openai_interpret_retries ≡ n

finish-IsOver : (reason : Bytes) (s : Agent) → IsOver (finish_goal_interpretation_failure reason s)
unfolding finish_goal_interpretation_failure agent_finish_local agent_finish_now agent_reset
finish-IsOver reason s = record { inactive = refl; mode = refl; phase = refl }

-- The task is over, or a request is on its way.
abbrev Asked : ℕ → Agent → Type 0
Asked n s = IsOver s ⊎ Waits n s

either-way : (P : Agent → Type 0) (b : Bool) {x y : Agent} → P x → P y → P (if b then x else y)
either-way P true p q = p
either-way P false p q = q

abbrev missing_text : Bytes
missing_text = codes "missing openai key; run openai-key <key> before Goal > input"

module _ (g : GoalServices) (v : Services) where
  start-Waits :
      (n : ℕ) (url : Bytes) (s : Agent) → Waits n s → Waits n (fetch_start_agent_url v url s).1
  unfolding fetch_start_agent_url start_parts
  start-Waits n url s w = elim (Option-cases (parse_agent_url url)) [
    | inl e ↦
        rw e (record { active = w.active; mode = w.mode; phase = w.phase; retries = w.retries })
    | inr (p, e) ↦
        rw e (record { active = w.active; mode = w.mode; phase = w.phase; retries = w.retries })
  ]

  started-Waits :
      (n : ℕ) (r : Bool × Agent)
      → Waits n r.1
      → IsOver (interpretation_started g v r) ⊎ Waits n (interpretation_started g v r)
  unfolding interpretation_started
  started-Waits n (true, s) w = inr w
  started-Waits n (false, s) w = inl (finish-IsOver _ s)

  request-Waits :
      (n : ℕ) (body auth : Bytes) (s : Agent)
      → Waits n s
      → IsOver (interpretation_request g v body auth s)
        ⊎ Waits n (interpretation_request g v body auth s)
  unfolding interpretation_request
  request-Waits n [] auth s w = inl (finish-IsOver _ s)
  request-Waits n (b ∷ body) [] s w = inl (finish-IsOver _ s)
  request-Waits n (b ∷ body) (c ∷ auth) s w = started-Waits n _ (
      start-Waits n v.responses_url _
        (record { active = w.active; mode = w.mode; phase = w.phase; retries = w.retries }))

  -- A request waits, or ends the task.
  openai-Waits :
      (n : ℕ) (s : Agent)
      → Waits n s
      → IsOver (start_openai_interpretation_request g v s)
        ⊎ Waits n (start_openai_interpretation_request g v s)
  unfolding start_openai_interpretation_request
  openai-Waits n s w =
      either-way (Asked n) v.api_key_ready
        (request-Waits n (g.interpretation_body s) v.bearer_header s w)
        (inl (finish-IsOver missing_text s))

  goal-Waits :
      (s : Agent)
      → s.task_active ≡ true
      → IsOver (start_goal_interpretation g v s) ⊎ Waits 0 (start_goal_interpretation g v s)
  unfolding start_goal_interpretation
  goal-Waits s a =
      openai-Waits 0 _ (record { active = a; mode = refl; phase = refl; retries = refl })

  -- A failure asks again once, and ends the task otherwise.
  failed-Waits :
      (n : ℕ) (s : Agent)
      → Waits n s
      → IsOver (interpretation_failed g v s) ⊎ (n ≡ 0) × Waits 1 (interpretation_failed g v s)
  unfolding interpretation_failed retry_interpretation
  failed-Waits n s w =
      elim (Bool-cases (
        openai_failure_retryable (s.fetch)
        && ltb (s.openai_interpret_retries) openai_max_retries)) [
          | inl e ↦
              let r = w.retries in
              let z : n ≡ 0 = ground arith in
              let next = openai-Waits 1 _ (record {
                active = w.active;
                mode = w.mode;
                phase = w.phase;
                retries = ground arith;
              }) in
              rw e (elim next [ inl over ↦ inl over | inr waits ↦ inr (z, waits) ])
          | inr e ↦ rw e (
              inl (
                either-way IsOver v.api_key_ready (finish-IsOver _ s)
                  (finish-IsOver (codes "interpretation request failed") s)))
        ]

  unfoldable pub after : Option Agent → Agent → Agent
  after none s = s
  after (some t) s = t

  abbrev pub answer : Transfer → Agent → Agent
  answer x s =
      after (handle_agent_fetch_done (with_goals g v) x.success (deliver x s)) (deliver x s)

  abbrev pub answers : List Transfer → Agent → Agent
  answers [] s = s
  answers (x ∷ xs) s = answers xs (answer x s)

  -- A transfer that fails, or whose status is no success.
  abbrev pub Fails : Transfer → Type 0
  Fails x = (x.success && leb 200 x.fetch.http_status && ltb x.fetch.http_status 300) ≡ false

  -- An answer to a task that is over changes nothing.
  IsOver-answer : (x : Transfer) (s : Agent) → IsOver s → IsOver (answer x s)
  unfolding handle_agent_fetch_done after
  IsOver-answer x s o =
      let same : handle_agent_fetch_done (with_goals g v) x.success (deliver x s) ≡ none =
        simp (o.inactive) in
      rw same (record { inactive = o.inactive; mode = o.mode; phase = o.phase })

  IsOver-answers : (xs : List Transfer) (s : Agent) → IsOver s → IsOver (answers xs s)
  IsOver-answers [] s o = o
  IsOver-answers (x ∷ xs) s o = IsOver-answers xs (answer x s) (IsOver-answer x s o)

  failing-answer :
      (n : ℕ) (x : Transfer) (s : Agent)
      → Fails x
      → Waits n s
      → answer x s ≡ interpretation_failed g v (deliver x s)
  unfolding handle_agent_fetch_done interprets after goal_interpretation_done agent_http_success
  failing-answer n x s f w = simp (w.active, w.mode, w.phase, f)

  failing-Waits :
      (n : ℕ) (x : Transfer) (s : Agent)
      → Fails x
      → Waits n s
      → IsOver (answer x s) ⊎ (n ≡ 0) × Waits 1 (answer x s)
  failing-Waits n x s f w = rw (failing-answer n x s f w) (
      failed-Waits n (deliver x s)
        (record { active = w.active; mode = w.mode; phase = w.phase; retries = w.retries }))

  two-failures :
      (x y : Transfer) (xs : List Transfer) (s : Agent)
      → Fails x
      → Fails y
      → Asked 0 s
      → IsOver (answers (x ∷ y ∷ xs) s)
  two-failures x y xs s f h (inl over) = IsOver-answers (x ∷ y ∷ xs) s over
  two-failures x y xs s f h (inr w) = elim (failing-Waits 0 x s f w) [
    | inl over ↦ IsOver-answers (y ∷ xs) (answer x s) over
    | inr (z, w') ↦ elim (failing-Waits 1 y (answer x s) h w') [
      | inl over ↦ IsOver-answers xs (answer y (answer x s)) over
      | inr (q, _) ↦ absurd (omega (arith, q))
    ]
  ]

  -- A goal that is sent to the model ends after two transfers that fail, however they fail and
  -- whatever comes later: a failure is retried at most once, and then the task is over and idle.
  pub start_goal_interpretation-IsOver :
      (x y : Transfer) (xs : List Transfer) (s : Agent)
      → Fails x
      → Fails y
      → s.task_active ≡ true
      → IsOver (answers (x ∷ y ∷ xs) (start_goal_interpretation g v s))
  start_goal_interpretation-IsOver x y xs s f h a =
      two-failures x y xs (start_goal_interpretation g v s) f h (goal-Waits s a)
