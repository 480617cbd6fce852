-- ===== src/Agent/Policy/Stock.antt =====
-- What the profiles of runtime/src/agent/policy.rs permit.
use mathlib.Core.Option.{some-injective}
use mathlib.Core.Path.{subst}
use mini_agent_os.Agent.Policy.{
  default_goal_profile, local_summary_profile, local_post_profile, m3_summary_profile,
  m3_post_profile, agent_allow_public_hosts, agent_policy_check,
}
use mini_agent_os.Agent.{Agent}
use mini_agent_os.Ascii.{is_ascii_digit, is_space, skip_spaces, strip_prefix, starts_with}
use mini_agent_os.Base.{
  ℕ, Bool, true, false, List, [], ◌∷◌, ◌≡◌, ◌⊎◌, ◌≢◌, refl, sym, ap, ◌∙◌, arith, some, length,
  Bytes, codes, Bool-cases, inl, inr,
}
use mini_agent_os.Json.Array.Membership.{IsAmong}
use mini_agent_os.Json.{json_find_key, json_extract_bool, expect, bool_of}
use mini_agent_os.Net.Ipv4.{is_private_ipv4, parse_ipv4_bytes, parts_loop, octet, octet_loop}
use mini_agent_os.Net.Ipv4.Grammar.{IsAddress}
use mini_agent_os.Net.Ipv4.Private.{IsPrivate, is_private_ipv4-IsPrivate}
use mini_agent_os.Net.Url.{AgentUrlParts, parse_agent_url}
use mini_agent_os.Agent.Policy.Profiles.{IsProfile, agent_policy_check-IsProfile}

-- The lists that the profiles write.
abbrev pub local_hosts : List Bytes
local_hosts = codes "10.0.2.2" ∷ []

abbrev m3_hosts : List Bytes
m3_hosts = codes "10.0.2.2" ∷ codes "api.openai.com" ∷ []

abbrev default_goal_skills : List Bytes
default_goal_skills = codes "fetch_url" ∷ codes "call_model" ∷ codes "post_result" ∷ []

abbrev pub local_summary_skills : List Bytes
local_summary_skills = codes "fetch_url" ∷ codes "summarize_text" ∷ []

abbrev local_post_skills : List Bytes
local_post_skills = codes "fetch_url" ∷ codes "summarize_text" ∷ codes "post_result" ∷ []

abbrev m3_summary_skills : List Bytes
m3_summary_skills = codes "fetch_url" ∷ codes "summarize_text" ∷ codes "call_model" ∷ []

abbrev m3_post_skills : List Bytes
m3_post_skills =
    codes "fetch_url" ∷ codes "summarize_text" ∷ codes "call_model" ∷ codes "post_result" ∷ []

default_goal-IsProfile : IsProfile default_goal_profile default_goal_skills local_hosts false
unfolding json_find_key agent_allow_public_hosts json_extract_bool expect strip_prefix skip_spaces
    is_space bool_of starts_with
default_goal-IsProfile = ((_, refl), (_, refl), refl, refl, refl)

pub local_summary-IsProfile : IsProfile local_summary_profile local_summary_skills local_hosts false
unfolding json_find_key agent_allow_public_hosts json_extract_bool expect strip_prefix skip_spaces
    is_space bool_of starts_with
local_summary-IsProfile = ((_, refl), (_, refl), refl, refl, refl)

local_post-IsProfile : IsProfile local_post_profile local_post_skills local_hosts false
unfolding json_find_key agent_allow_public_hosts json_extract_bool expect strip_prefix skip_spaces
    is_space bool_of starts_with
local_post-IsProfile = ((_, refl), (_, refl), refl, refl, refl)

m3_summary-IsProfile : IsProfile m3_summary_profile m3_summary_skills m3_hosts true
unfolding json_find_key agent_allow_public_hosts json_extract_bool expect strip_prefix skip_spaces
    is_space bool_of starts_with
m3_summary-IsProfile = ((_, refl), (_, refl), refl, refl, refl)

m3_post-IsProfile : IsProfile m3_post_profile m3_post_skills m3_hosts true
unfolding json_find_key agent_allow_public_hosts json_extract_bool expect strip_prefix skip_spaces
    is_space bool_of starts_with
m3_post-IsProfile = ((_, refl), (_, refl), refl, refl, refl)

-- The hosts that the profiles of a local goal reach.
abbrev IsLocalProfile : Bytes → Type 0
IsLocalProfile json =
    (json ≡ default_goal_profile) ⊎ (json ≡ local_summary_profile) ⊎ (json ≡ local_post_profile)

abbrev pub IsM3Profile : Bytes → Type 0
IsM3Profile json = (json ≡ m3_summary_profile) ⊎ (json ≡ m3_post_profile)

-- The host of a call that passes.
passed :
    (s : Agent) (json : Bytes) (skills hosts : List Bytes) (public : Bool) (skill url : Bytes)
    (step : ℕ) (parts : AgentUrlParts)
    → IsProfile json skills hosts public
    → s.task_json ≡ json
    → parse_agent_url url ≡ some parts
    → (agent_policy_check skill step (some url) s).0 ≡ true
    → IsAmong parts.host hosts ⊎ ((public ≡ true) × (is_private_ipv4 parts.host ≡ false))
passed s json skills hosts public skill url step parts p q e h =
    let p' = subst (λ j. IsProfile j skills hosts public) (sym q) p in
    let check = agent_policy_check-IsProfile s skills hosts public p' skill url step in
    let (found, f, r) = (check.0 h).1 in
    let same : found ≡ parts = some-injective found parts (sym f ∙ e) in
    subst
      (λ (x : AgentUrlParts).
        IsAmong x.host hosts ⊎ ((public ≡ true) × (is_private_ipv4 x.host ≡ false)))
      same r

only_host :
    (host : Bytes)
    → IsAmong host local_hosts ⊎ ((false ≡ true) × (is_private_ipv4 host ≡ false))
    → host ≡ codes "10.0.2.2"
only_host host (inl (inl m)) = m
only_host host (inl (inr m)) = absurd m
only_host host (inr o) = absurd (let f = o.0 in ground arith)

api_public : is_private_ipv4 (codes "api.openai.com") ≡ false
unfolding is_private_ipv4 parse_ipv4_bytes parts_loop octet octet_loop is_ascii_digit
api_public = refl

no_private :
    (host : Bytes)
    → is_private_ipv4 host ≡ true
    → host ≢ codes "10.0.2.2"
    → IsAmong host m3_hosts ⊎ ((true ≡ true) × (is_private_ipv4 host ≡ false))
    → ⊥
no_private host v ne (inl (inl m)) = ne m
no_private host v ne (inl (inr (inl m))) =
    let f = sym (ap is_private_ipv4 m ∙ api_public) ∙ v in ground arith
no_private host v ne (inl (inr (inr m))) = m
no_private host v ne (inr o) = let f = o.1 in ground arith

-- Under the profiles that the local goals store, every call with a target that passes the check
-- goes to the host 10.0.2.2, whatever the skill, the step and the rest of the state.
agent_policy_check-IsLocalProfile :
    (s : Agent) (skill url : Bytes) (step : ℕ) (parts : AgentUrlParts)
    → IsLocalProfile s.task_json
    → parse_agent_url url ≡ some parts
    → (agent_policy_check skill step (some url) s).0 ≡ true
    → parts.host ≡ codes "10.0.2.2"
agent_policy_check-IsLocalProfile s skill url step parts p e h = elim p [
  | inl q ↦ only_host parts.host (
      passed s default_goal_profile default_goal_skills local_hosts false skill url step parts
        default_goal-IsProfile q e h)
  | inr (inl q) ↦ only_host parts.host (
      passed s local_summary_profile local_summary_skills local_hosts false skill url step parts
        local_summary-IsProfile q e h)
  | inr (inr q) ↦ only_host parts.host (
      passed s local_post_profile local_post_skills local_hosts false skill url step parts
        local_post-IsProfile q e h)
]

-- Under the profiles of an interpreted goal, which open public hosts, no call passes whose URL
-- writes its host as a private address, with leading zeros or without, but for the host 10.0.2.2. The
-- private addresses are the blocks 10.0.0.0/8, 127.0.0.0/8, 0.0.0.0/8, 169.254.0.0/16, 172.16.0.0/12
-- and 192.168.0.0/16. A name is no written address, whatever it resolves to.
pub agent_policy_check-IsM3Profile :
    (s : Agent) (skill url : Bytes) (step : ℕ) (parts : AgentUrlParts) (ip : Bytes)
    → IsM3Profile s.task_json
    → parse_agent_url url ≡ some parts
    → length ip ≡ 4
    → IsAddress parts.host ip
    → IsPrivate ip
    → parts.host ≢ codes "10.0.2.2"
    → (agent_policy_check skill step (some url) s).0 ≡ false
agent_policy_check-IsM3Profile s skill url step parts ip p e l a b ne =
    let v = is_private_ipv4-IsPrivate parts.host ip l a b in
    elim (Bool-cases (agent_policy_check skill step (some url) s).0) [
      | inl h ↦ absurd (elim p [
        | inl q ↦ no_private parts.host v ne (
            passed s m3_summary_profile m3_summary_skills m3_hosts true skill url step parts
              m3_summary-IsProfile q e h)
        | inr q ↦ no_private parts.host v ne (
            passed s m3_post_profile m3_post_skills m3_hosts true skill url step parts
              m3_post-IsProfile q e h)
      ])
      | inr h ↦ h
    ]
