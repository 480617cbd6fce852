-- ===== src/Memory/Content.antt =====
-- A note is made of bytes, if the texts that it is made from are.
use mathlib.Core.Option.{some-injective, none-ne-some}
use mathlib.Core.Path.{subst}
use mini_agent_os.Base.{
  ℕ, ◌≤◌, ◌<◌, Bool, true, false, [], ◌∷◌, ◌≡◌, refl, inl, inr, arith, Option, none, some, ltb,
  ◌==◌, if◌then◌else◌, length, Bytes, Bool-cases, Option-cases,
}
use mini_agent_os.Memory.Compact.{
  Compacted, Content, build_generic_compacted_detail, build_search_compacted, build_fetch_compacted,
  build_execution_compacted, build_workspace_compacted, build_conversation_compacted,
  compact_tool_result_if_needed, tool_kind_name, build_tool_summary, raw_state, tool_content,
  assistant_content, user_content,
}
use mini_agent_os.Memory.Text.{newline_onto, trim_newlines, summary_from_text}
use mini_agent_os.Utf8.Table.{IsByte, IsBytes, is_bytes}
use mini_agent_os.Memory.Written.{IsText, telling, literal, copy_utf8_prefix-IsBytes}

-- Both texts of a compaction.
record IsKept (c : Compacted) : Type 0 where
  pub summary : IsText c.summary
  pub detail : IsText c.detail

search-IsKept : {s : Bytes} → IsText s → IsKept (build_search_compacted s)
unfolding build_search_compacted is_bytes
search-IsKept h = record { summary = search telling depth 12; detail = search telling depth 12 }

fetch-IsKept : {s : Bytes} → IsText s → IsKept (build_fetch_compacted s)
unfolding build_fetch_compacted is_bytes
fetch-IsKept h = record { summary = search telling depth 12; detail = search telling depth 12 }

execution-IsKept : {s : Bytes} → IsText s → IsKept (build_execution_compacted s)
unfolding build_execution_compacted is_bytes
execution-IsKept h = record { summary = search telling depth 12; detail = search telling depth 12 }

workspace-IsKept :
    {tool s : Bytes} → IsText tool → IsText s → IsKept (build_workspace_compacted tool s)
unfolding build_workspace_compacted build_generic_compacted_detail is_bytes
workspace-IsKept t h = record {
  summary = search telling depth 12;
  detail = search telling depth 12;
}

conversation-IsKept : {s : Bytes} → IsText s → IsKept (build_conversation_compacted s)
unfolding build_conversation_compacted is_bytes
conversation-IsKept h = record {
  summary = search telling depth 12;
  detail = search telling depth 12;
}

newline_onto-IsBytes : (b : ℕ) (r : Bytes) → IsByte b → IsBytes r → IsBytes (newline_onto b r)
unfolding newline_onto
newline_onto-IsBytes b [] p q = elim (Bool-cases (b == b'\n')) [
  | inl e ↦ rw e tt
  | inr e ↦ rw e (p, tt)
]
newline_onto-IsBytes b (c ∷ r) p q = (p, q)

newlines-IsBytes : (s : Bytes) → IsBytes s → IsBytes (trim_newlines s)
unfolding trim_newlines
newlines-IsBytes [] h = tt
newlines-IsBytes (b ∷ s) h = newline_onto-IsBytes b (trim_newlines s) h.0 (newlines-IsBytes s h.1)

summarized : {s : Bytes} (n : ℕ) → IsText s → IsText (summary_from_text n s)
unfolding summary_from_text
summarized n h = record { bytes = newlines-IsBytes _ (copy_utf8_prefix-IsBytes n _ h.bytes) }

tool_summary : {tool : Bytes} (s : Bytes) → IsText tool → IsText (build_tool_summary tool s)
unfolding build_tool_summary tool_kind_name is_bytes
tool_summary s t = search telling depth 12

-- A content of bytes, in one of the three states.
pub record IsContent (c : Content) : Type 0 where
  pub source : IsText c.source
  pub summary : IsText c.summary
  pub detail : IsText c.detail
  pub state : (0 < c.state) × (c.state ≤ 3)

record KeptIfAny (o : Option Compacted) : Type 0 where
  pub kept : (c : Compacted) → o ≡ some c → IsKept c

kept-some : {c : Compacted} → IsKept c → KeptIfAny (some c)
kept-some {c} h = record { kept = λ d e. subst IsKept (some-injective c d e) h }

kept-none : KeptIfAny none
kept-none = record { kept = λ c e. absurd (none-ne-some c e) }

kept-if :
    (b : Bool) {x y : Option Compacted} → KeptIfAny x → KeptIfAny y → KeptIfAny (if b then x else y)
kept-if true p q = p
kept-if false p q = q

compact-IsKept :
    {tool s : Bytes} → IsText tool → IsText s → KeptIfAny (compact_tool_result_if_needed tool s)
unfolding compact_tool_result_if_needed
compact-IsKept t h =
    kept-if _
      (kept-if _ (kept-some (search-IsKept h)) (
        kept-if _ (kept-some (fetch-IsKept h)) (
          kept-if _ (kept-some (execution-IsKept h))
            (kept-if _ (kept-some (workspace-IsKept t h)) kept-none))))
      kept-none

raw_state_range : (tool : Bytes) → (0 < raw_state tool) × (raw_state tool ≤ 3)
unfolding raw_state
raw_state_range tool = ground arith

pub tool-IsContent : {tool s : Bytes} → IsText tool → IsText s → IsContent (tool_content tool s)
unfolding tool_content
tool-IsContent {tool} {s} t h =
    let k = compact-IsKept t h in
    elim (Option-cases (compact_tool_result_if_needed tool s)) [
      | inl e ↦
          rw (e, tool_content)
            (record {
              source = t;
              summary = tool_summary s t;
              detail = summarized 512 h;
              state = raw_state_range tool;
            })
      | inr (c, e) ↦
          let r = k.kept c e in
          rw (e, tool_content)
            (record { source = t; summary = r.summary; detail = r.detail; state = omega arith })
    ]

pub assistant-IsContent : {s : Bytes} → IsText s → IsContent (assistant_content s)
unfolding assistant_content is_bytes
assistant-IsContent {s} h =
    let k = conversation-IsKept h in
    elim (Bool-cases (ltb 240 (length s))) [
      | inl e ↦ rw e (record {
        source = literal refl;
        summary = k.summary;
        detail = k.detail;
        state = omega arith;
      })
      | inr e ↦ rw e (record {
        source = literal refl;
        summary = summarized 192 h;
        detail = record { bytes = tt };
        state = omega arith;
      })
    ]

pub user-IsContent : {s : Bytes} → IsText s → IsContent (user_content s)
unfolding user_content is_bytes
user-IsContent h = record {
  source = literal refl;
  summary = summarized 192 h;
  detail = record { bytes = tt };
  state = omega arith;
}
