-- ===== src/Goal/Plan.antt =====
-- What a goal has become when it has been read: the task of the local compiler and of the model.
use mathlib.Core.Option.{none-ne-some}
use mathlib.Core.Path.{subst}
use mini_agent_os.Agent.Policy.{agent_store_task_json, default_goal_profile, local_summary_profile}
use mini_agent_os.Agent.{Agent}
use mini_agent_os.Base.{
  ◌≤◌, ◌<◌, ◌⊎◌, Bool, true, false, ◌&&◌, ◌||◌, not, List, [], ◌∷◌, none, some, ◌≡◌, refl, sym, ap,
  ◌∙◌, inl, inr, arith, ltb, length, take, take_all, Bytes, codes, Bool-cases, All,
}
use mini_agent_os.Buffer.{copy_bytes}
use mini_agent_os.Goal.Compile.{
  Compiled, url_max, default_max_steps, default_model_url, with_policy, sized, posting,
  compile_post, compile_urls, compile_goal_locally, unsupported_goal,
}
use mini_agent_os.Goal.{contains_ascii_phrase, extract_urls, detect_goal_max_items}
use mini_agent_os.Goal.Urls.{IsUrl, extract_urls-IsUrl}

pub detect_goal_max_items_range :
    (buf : Bytes) → (1 ≤ detect_goal_max_items buf) × (detect_goal_max_items buf ≤ 8)
unfolding detect_goal_max_items
detect_goal_max_items_range buf = ground arith

-- The text `field` is `url`, or its first 256 bytes if it is longer.
abbrev IsCut : Bytes → Bytes → Type 0
IsCut url field = (field ≡ url) ⊎ (url_max < length url) × (field ≡ take url_max url)

-- A field that holds a URL of the goal, or the beginning of a long one.
abbrev pub HoldsUrl : Bytes → Bytes → Type 0
HoldsUrl goal field = (url : Bytes) × IsUrl goal url × IsCut url field

-- What every plan has: its source, its budget of steps and its number of items.
pub record IsSized (t : Agent) : Type 0 where
  pub source : HoldsUrl t.goal_text t.source_url
  pub steps : t.max_steps ≡ default_max_steps
  pub items : (1 ≤ t.summary_sentences) × (t.summary_sentences ≤ 8)

-- A goal that posts: the sink is a URL of the goal, and so is the model, or it is the usual one.
pub record IsPosting (t : Agent) : Type 0 where
  pub sized : IsSized t
  pub sink : HoldsUrl t.goal_text t.sink_url
  pub model : HoldsUrl t.goal_text t.model_url ⊎ (t.model_url ≡ default_model_url)
  pub policy : t.task_json ≡ default_goal_profile

-- A goal that does not post has no sink and no model.
pub record IsLocal (t : Agent) : Type 0 where
  pub sized : IsSized t
  pub sink : t.sink_url ≡ []
  pub model : t.model_url ≡ []
  pub policy : t.task_json ≡ local_summary_profile

with_policy_lem :
    (profile : Bytes) (s : Agent)
    → ltb 1536 (length profile) ≡ false
    → with_policy profile s ≡ (none, record s { task_json = profile })
unfolding with_policy agent_store_task_json
with_policy_lem profile s h = rw (h, with_policy)

-- A result that is `Ok(())` hands on its state.
ok-state : (s t : Agent) → (let c : Compiled = (none, s) in c) ≡ (none, t) → s ≡ t
ok-state s t h = ap (λ (c : Compiled). c.1) h

err-absurd : (r : Bytes) (s t : Agent) → (let c : Compiled = (some r, s) in c) ≡ (none, t) → ⊥
err-absurd r s t h = none-ne-some r (sym (ap (λ (c : Compiled). c.0) h))

copy_bytes-IsCut : (url : Bytes) → IsCut url (copy_bytes url_max url)
unfolding copy_bytes
copy_bytes-IsCut url = elim (Bool-cases (ltb url_max (length url))) [
  | inl long ↦ rw long (inr (ground arith, refl))
  | inr short ↦ rw short (inl (take_all (length url) url (omega arith)))
]

held : (goal url : Bytes) → IsUrl goal url → HoldsUrl goal (copy_bytes url_max url)
held goal url u = (url, u, copy_bytes-IsCut url)

usual_model : copy_bytes url_max default_model_url ≡ default_model_url
unfolding copy_bytes
usual_model = refl

sized-IsSized :
    (profile : Bytes) (s : Agent)
    → HoldsUrl s.goal_text s.source_url
    → IsSized (record (sized s) { task_json = profile })
sized-IsSized profile s h = record {
  source = h;
  steps = refl;
  items = detect_goal_max_items_range s.goal_text;
}

post-IsPosting :
    (urls : List Bytes) (s t : Agent)
    → All (IsUrl s.goal_text) urls
    → HoldsUrl s.goal_text s.source_url
    → compile_post urls s ≡ (none, t)
    → IsPosting t
unfolding compile_post
post-IsPosting [] s t u h e = absurd (err-absurd unsupported_goal s t e)
post-IsPosting (a ∷ []) s t u h e =
    let r = ok-state _ t (
      sym (with_policy_lem default_goal_profile (sized (posting default_model_url a s)) refl)
      ∙ e) in
    subst IsPosting r (record {
      sized = sized-IsSized default_goal_profile (posting default_model_url a s) h;
      sink = held s.goal_text a u.0;
      model = inr usual_model;
      policy = refl;
    })
post-IsPosting (a ∷ b ∷ rest) s t u h e =
    let r =
      ok-state _ t (sym (with_policy_lem default_goal_profile (sized (posting a b s)) refl) ∙ e) in
    subst IsPosting r (record {
      sized = sized-IsSized default_goal_profile (posting a b s) h;
      sink = held s.goal_text b u.1.0;
      model = inl (held s.goal_text a u.0);
      policy = refl;
    })

urls-plan :
    (posts : Bool) (urls : List Bytes) (s t : Agent)
    → All (IsUrl s.goal_text) urls
    → compile_urls posts urls s ≡ (none, t)
    → (posts ≡ true) × IsPosting t ⊎ (posts ≡ false) × IsLocal t
unfolding compile_urls
urls-plan posts [] s t u e = absurd (err-absurd unsupported_goal s t e)
urls-plan true (a ∷ urls) s t u e =
    inl (refl, post-IsPosting urls _ t u.1 (held s.goal_text a u.0) e)
urls-plan false (a ∷ urls) s t u e =
    let base = record s { source_url = copy_bytes url_max a; model_url = []; sink_url = [] } in
    let r = ok-state _ t (sym (with_policy_lem local_summary_profile (sized base) refl) ∙ e) in
    inr (
      refl,
      subst IsLocal r (record {
        sized = sized-IsSized local_summary_profile base (held s.goal_text a u.0);
        sink = refl;
        model = refl;
        policy = refl;
      }),
    )

-- A goal that the local compiler accepts has become a plan: the source is a URL that stands in the
-- goal and that the parser reads, or the first 256 bytes of one that is longer, six steps and one to
-- eight items are asked for, and the stored policy is the one of a posted summary exactly if the goal
-- says to post; then the sink is a URL of the goal in the same sense, and the model is one or is the
-- usual gateway. Otherwise there is no sink and no model.
pub compile_goal_locally-plan :
    (s t : Agent)
    → compile_goal_locally s ≡ (none, t)
    → (contains_ascii_phrase s.goal_text (codes "post") ≡ true) × IsPosting t
      ⊎ (contains_ascii_phrase s.goal_text (codes "post") ≡ false) × IsLocal t
unfolding compile_goal_locally
compile_goal_locally-plan s t e =
    let says = contains_ascii_phrase s.goal_text in
    let bad = says (codes "compilation error") || says (codes "ambiguous goal") in
    let poor =
      not (says (codes "summarize") || says (codes "summary"))
      || not (says (codes "fetch")) && not (says (codes "post")) in
    elim (Bool-cases bad) [
      | inl b ↦ absurd (err-absurd (codes "goal compilation failed") s t (rw b at e))
      | inr b ↦ elim (Bool-cases poor) [
        | inl p ↦ absurd (err-absurd unsupported_goal s t (rw (b, p) at e))
        | inr p ↦
            urls-plan (says (codes "post")) (extract_urls s.goal_text) s t
              (extract_urls-IsUrl s.goal_text) (rw (b, p) at e)
      ]
    ]
