-- ===== src/Agent/Policy/Profiles.antt =====
-- What a policy permits that lists its skills and its hosts.
use mini_agent_os.Agent.Policy.Check.{agent_policy_check_iff}
use mini_agent_os.Agent.Policy.{
  agent_skill_allowed, agent_allow_public_hosts, agent_host_allowed, host_allowed, target_allowed,
  agent_policy_check,
}
use mini_agent_os.Agent.{Agent}
use mini_agent_os.Base.{
  ℕ, ◌≤◌, Bool, true, false, ◌&&◌, ◌||◌, not, List, [], ◌∷◌, ◌≡◌, ◌↔◌, ◌⊎◌, sym, ◌∙◌, arith, some,
  ◌==◌, All, Bytes, codes, Option-cases, inl, inr,
}
use mini_agent_os.Json.Array.Membership.{
  items_text, member, IsAmong, member_iff, json_string_array_contains-items_text,
}
use mini_agent_os.Json.Find.{IsPlain}
use mini_agent_os.Json.{json_find_key}
use mini_agent_os.Net.Ipv4.{is_private_ipv4}
use mini_agent_os.Net.Url.{AgentUrlParts, parse_agent_url}

-- The strings of a profile, tested for a quote or a backslash.
abbrev pub is_plain : Bytes → Bool
is_plain [] = true
is_plain (b ∷ v) = not (b == b'"' || b == b'\\') && is_plain v

abbrev pub all_plain : List Bytes → Bool
all_plain [] = true
all_plain (v ∷ vs) = is_plain v && all_plain vs

pub is_plain-IsPlain : (v : Bytes) → is_plain v ≡ true → All IsPlain v
is_plain-IsPlain [] h = tt
is_plain-IsPlain (b ∷ v) h =
    ((λ e. absurd (ground arith), λ e. absurd (ground arith)), is_plain-IsPlain v (ground arith))

pub all_plain-IsPlain : (vs : List Bytes) → all_plain vs ≡ true → All (All IsPlain) vs
all_plain-IsPlain [] h = tt
all_plain-IsPlain (v ∷ vs) h =
    (is_plain-IsPlain v (ground arith), all_plain-IsPlain vs (ground arith))

-- A profile that lists `skills` and `hosts`, and whether it opens public hosts.
abbrev pub IsProfile : Bytes → List Bytes → List Bytes → Bool → Type 0
IsProfile json skills hosts public =
    ((rest : Bytes) × (json_find_key (codes "allowed_skills") json
        ≡ some (b'[' ∷ items_text skills rest)))
    × ((rest : Bytes) × (json_find_key (codes "allowed_hosts") json
          ≡ some (b'[' ∷ items_text hosts rest)))
    × (agent_allow_public_hosts json ≡ public)
    × (all_plain skills ≡ true)
    × (all_plain hosts ≡ true)

-- The host of a URL is listed, or public hosts are open and it is no private address.
abbrev pub IsReachable : List Bytes → Bool → Bytes → Type 0
IsReachable hosts public url =
    (parts : AgentUrlParts) × (parse_agent_url url ≡ some parts)
    × (IsAmong parts.host hosts ⊎ ((public ≡ true) × (is_private_ipv4 parts.host ≡ false)))

module _ (json : Bytes) (skills hosts : List Bytes) (public : Bool) where
  pub skill_value :
      (skill : Bytes)
      → IsProfile json skills hosts public
      → agent_skill_allowed json skill ≡ member skill skills
  unfolding agent_skill_allowed
  skill_value skill p =
      let e =
        json_string_array_contains-items_text json (codes "allowed_skills") skill skills p.0.0 p.0.1
          (all_plain-IsPlain skills p.3) in
      rw (e, agent_skill_allowed)

  pub host_value :
      (host : Bytes)
      → IsProfile json skills hosts public
      → host_allowed json host ≡ (member host hosts || public && not (is_private_ipv4 host))
  unfolding host_allowed
  host_value host p =
      let e =
        json_string_array_contains-items_text json (codes "allowed_hosts") host hosts p.1.0 p.1.1
          (all_plain-IsPlain hosts p.4) in
      let f = p.2 in rw (e, f, host_allowed)

  pub host_iff :
      (host : Bytes)
      → IsProfile json skills hosts public
      → (host_allowed json host ≡ true)
        ↔ (IsAmong host hosts ⊎ ((public ≡ true) × (is_private_ipv4 host ≡ false)))
  host_iff host p = ground (arith, host_value host p, member_iff host hosts)

  pub url_iff :
      (url : Bytes)
      → IsProfile json skills hosts public
      → (agent_host_allowed json url ≡ true) ↔ IsReachable hosts public url
  unfolding agent_host_allowed
  url_iff url p = (
    λ h. elim (Option-cases (parse_agent_url url)) [
      | inl e ↦ absurd (let h' : false ≡ true = rw (e, agent_host_allowed) at h in ground arith)
      | inr (parts, e) ↦
          let h' : host_allowed json parts.host ≡ true = rw (e, agent_host_allowed) at h in
          (parts, e, (host_iff parts.host p).0 h')
    ],
    λ (parts, e, r). rw (e, agent_host_allowed) ((host_iff parts.host p).1 r),
  )

-- Under a profile, a call with a target passes the check exactly if its skill is listed, its host
-- is listed or is no private address while public hosts are open, and its step is within the
-- budget, in which 0 stands for no limit.
pub agent_policy_check-IsProfile :
    (s : Agent) (skills hosts : List Bytes) (public : Bool)
    → IsProfile s.task_json skills hosts public
    → (skill url : Bytes) (step : ℕ)
    → ((agent_policy_check skill step (some url) s).0 ≡ true) ↔ (
        IsAmong skill skills
        × IsReachable hosts public url
        × ((s.max_steps ≡ 0) ⊎ (step ≤ s.max_steps)))
unfolding target_allowed
agent_policy_check-IsProfile s skills hosts public p skill url step =
    let c = agent_policy_check_iff skill step (some url) s in
    let a = skill_value s.task_json skills hosts public skill p in
    let b = member_iff skill skills in
    let t = url_iff s.task_json skills hosts public url p in
    (λ h. (b.0 (sym a ∙ (c.0 h).0), t.0 (c.0 h).1, (c.0 h).2), λ h. c.1 (a ∙ b.1 h.0, t.1 h.1, h.2))
