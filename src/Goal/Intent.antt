-- ===== src/Goal/Intent.antt =====
-- What the answer of the model has become: a task within one of two policies.
use mathlib.Core.Path.{subst}
use mini_agent_os.Agent.Policy.{agent_store_task_json, m3_summary_profile, m3_post_profile}
use mini_agent_os.Agent.Task.{sentences}
use mini_agent_os.Agent.{Agent}
use mini_agent_os.Base.{
  ℕ, ◌≤◌, ◌≢◌, ◌⊎◌, [], ◌∷◌, ◌≡◌, refl, sym, ap, ◌∙◌, inl, inr, arith, Bytes, codes, Bool-cases,
  Option-cases,
}
use mini_agent_os.Ascii.{starts_with}
use mini_agent_os.Buffer.{fresh}
use mini_agent_os.Json.{json_extract_string}
use mini_agent_os.Goal.Compile.{default_max_steps}
use mini_agent_os.Goal.Interpret.{
  Verdict, ok, err, choose_post, choose_action, intended, apply_fields, apply_response, stored_or,
  field_or_empty,
}
use mini_agent_os.Goal.{word}

-- What the model's answer has become.
pub record IsIntent (response action : Bytes) (t : Agent) : Type 0 where
  pub steps : t.max_steps ≡ default_max_steps
  pub items : (1 ≤ t.summary_sentences) × (t.summary_sentences ≤ 8)
  pub model : t.model_url ≡ []
  pub sink : t.sink_url ≡ field_or_empty response (codes "sink_url") 256
  pub policy :
      (action ≡ codes "post_summary") × (t.sink_url ≢ []) × (t.task_json ≡ m3_post_profile)
      ⊎ (action ≡ codes "local_summary") × (t.task_json ≡ m3_summary_profile)

sentences_range : (n : ℕ) → (1 ≤ sentences n) × (sentences n ≤ 8)
unfolding sentences
sentences_range n = ground arith

-- An `Ok(action)` names the action and hands on its state.
ok-action :
    (a b : Bytes) (s t : Agent)
    → (let v : Verdict × Agent = (ok a, s) in v) ≡ (ok b, t)
    → (a ≡ b) × (s ≡ t)
ok-action a b s t h = (cc, ap (λ (v : Verdict × Agent). v.1) h)

err-no_action :
    (a b : Bytes) (s t : Agent) → (let v : Verdict × Agent = (err a, s) in v) ≡ (ok b, t) → ⊥
err-no_action a b s t h = cc

-- What the choice of the action leaves alone.
record IsReady (response : Bytes) (s : Agent) : Type 0 where
  steps : s.max_steps ≡ default_max_steps
  items : (1 ≤ s.summary_sentences) × (s.summary_sentences ≤ 8)
  model : s.model_url ≡ []
  sink : s.sink_url ≡ field_or_empty response (codes "sink_url") 256

post-IsIntent :
    (response sink action : Bytes) (s t : Agent)
    → IsReady response s
    → s.sink_url ≡ sink
    → choose_post sink s ≡ (ok action, t)
    → IsIntent response action t
unfolding choose_post agent_store_task_json
post-IsIntent response [] action s t r q e = absurd (err-no_action _ action s t e)
post-IsIntent response (b ∷ url) action s t r q e =
    let p = ok-action (codes "post_summary") action _ t e in
    subst (IsIntent response action) p.1 (record {
      steps = r.steps;
      items = r.items;
      model = r.model;
      sink = r.sink;
      policy = inl (sym p.0, (λ z. let x = sym q ∙ z in cc), refl);
    })

local-IsIntent :
    (response action : Bytes) (s t : Agent)
    → IsReady response s
    → stored_or (codes "local_summary") (agent_store_task_json m3_summary_profile s) s
      ≡ (ok action, t)
    → IsIntent response action t
unfolding agent_store_task_json
local-IsIntent response action s t r e =
    let p = ok-action (codes "local_summary") action _ t e in
    subst (IsIntent response action) p.1 (record {
      steps = r.steps;
      items = r.items;
      model = r.model;
      sink = r.sink;
      policy = inr (sym p.0, refl);
    })

choose-IsIntent :
    (response word action : Bytes) (s t : Agent)
    → IsReady response s
    → choose_action word s ≡ (ok action, t)
    → IsIntent response action t
unfolding choose_action
choose-IsIntent response word action s t r e =
    elim (Bool-cases (starts_with word (codes "post_summary"))) [
      | inl p ↦ post-IsIntent response s.sink_url action s t r refl (rw p at e)
      | inr p ↦ elim (Bool-cases (starts_with word (codes "local_summary"))) [
        | inl l ↦ local-IsIntent response action s t r (rw (p, l) at e)
        | inr l ↦ absurd (err-no_action _ action s t (rw (p, l) at e))
      ]
    ]

intended-IsReady :
    (response source : Bytes) (s : Agent)
    → IsReady response (intended response source (field_or_empty response (codes "sink_url") 256) s)
unfolding intended
intended-IsReady response source s = record {
  steps = refl;
  items = sentences_range _;
  model = refl;
  sink = refl;
}

fields-IsIntent :
    (response action : Bytes) (s t : Agent)
    → apply_fields response s ≡ (ok action, t)
    → IsIntent response action t
unfolding apply_fields
fields-IsIntent response action s t e =
    elim (Option-cases (json_extract_string response (codes "action") (fresh 32))) [
      | inl a ↦ absurd (err-no_action _ action s t (rw (a, apply_fields) at e))
      | inr (w, a) ↦
          elim (Option-cases (json_extract_string response (codes "source_url") (fresh 256))) [
            | inl c ↦ absurd (err-no_action _ action s t (rw (a, c, apply_fields) at e))
            | inr (o, c) ↦
                choose-IsIntent response w.bytes action _ t (intended-IsReady response o.bytes s)
                  (rw (a, c, apply_fields) at e)
          ]
    ]

-- An answer of the model that is taken, whatever text it is, has become a task with six steps, one to
-- eight items and no model of its own. Its sink is the text that the reader of JSON finds under
-- sink_url, or empty if it finds none, for either action. The action post_summary stores the policy
-- of a posted summary, and the sink is not empty then; the action local_summary stores the policy of
-- a local summary, whatever the sink; there is no third action.
pub apply_response-IsIntent :
    (response action : Bytes) (s t : Agent)
    → apply_response response s ≡ (ok action, t)
    → IsIntent response action t
unfolding apply_response
apply_response-IsIntent response action s t e =
    elim (Option-cases (json_extract_string response (codes "status") (fresh 16))) [
      | inl a ↦ absurd (err-no_action _ action s t (rw (a, apply_response) at e))
      | inr (o, a) ↦ elim (Bool-cases (starts_with o.bytes (codes "error"))) [
        | inl b ↦ absurd (err-no_action _ action s t (rw (a, b, apply_response) at e))
        | inr b ↦ fields-IsIntent response action s t (rw (a, b, apply_response) at e)
      ]
    ]
