-- ===== src/Agent/Summary.antt =====
-- The local summary and the result body of runtime/src/agent/model.rs.
pub mod Shape
use mathlib.Core.List.{reverse}
use mini_agent_os.Agent.{Agent}
use mini_agent_os.Base.{
  ℕ, suc, ◌+◌, ◌-◌, Bool, true, false, ◌||◌, [], ◌∷◌, leb, ◌==◌, if◌then◌else◌, Bytes, codes,
}
use mini_agent_os.Buffer.{Out, append_copy}
use mini_agent_os.Decimal.{append_u64_dec}
use mini_agent_os.Json.Escape.{json_escape_append}

-- Line breaks and tabs count as spaces.
abbrev pub unbreak : ℕ → ℕ
unbreak b = if b == b'\n' || b == b'\r' || b == b'\t' then b' ' else b

abbrev pub ends_sentence : ℕ → Bool
ends_sentence b = b == b'.' || b == b'!' || b == b'?'

-- The loop over the source: what it writes into `room` places, with the flag `saw_space` and the
-- number of sentences so far.
unfoldable pub summarize_loop : ℕ → ℕ → Bool → ℕ → Bytes → Bytes
summarize_loop limit room saw_space count [] = []
summarize_loop limit room saw_space count (c ∷ src) =
    let b = unbreak c in
    let skip = summarize_loop limit room saw_space count src in
    let space = summarize_loop limit (room - 1) true count src in
    let letter = summarize_loop limit (room - 1) false count src in
    let sentence = summarize_loop limit (room - 1) false (suc count) src in
    if room == 0
    then []
    else if b == b' '
    then if saw_space then skip else b ∷ space
    else if ends_sentence b
    then b ∷ (if leb limit (suc count) then [] else sentence)
    else b ∷ letter

unfoldable pub drop_spaces : Bytes → Bytes
drop_spaces [] = []
drop_spaces (b ∷ s) = if b == b' ' then drop_spaces s else b ∷ s

-- `summarize_agent_response` of the body `src`, into an array of `size` bytes.
unfoldable pub summarize_agent_response : ℕ → ℕ → Bytes → Bytes
summarize_agent_response size sentence_limit src =
    let limit = if sentence_limit == 0 then 1 else sentence_limit in
    reverse (drop_spaces (reverse (summarize_loop limit size true 0 src)))

-- A field that is left out when it is empty.
unfoldable pub append_field : Bytes → Bytes → Out → Out
append_field head [] o = o
append_field head (b ∷ value) o = json_escape_append (append_copy o head) (b ∷ value)

unfoldable pub build_agent_result_body : Agent → Out → Out
build_agent_result_body s o =
    let goal = json_escape_append (append_copy o (codes "{\"goal_id\":\"")) s.goal_id in
    let status = json_escape_append (append_copy goal (codes "\",\"status\":\"")) s.result_status in
    let summary = append_field (codes "\",\"summary\":\"") s.summary status in
    let reason = append_field (codes "\",\"reason\":\"") s.result_reason summary in
    append_copy reason (codes "\"}")

unfoldable pub build_model_request_body : Agent → Out → Out
build_model_request_body s o =
    let source = json_escape_append (append_copy o (codes "{\"source_text\":\"")) s.response_body in
    let items =
      append_u64_dec (append_copy source (codes "\",\"max_items\":")) s.summary_sentences in
    append_copy items (codes "}")
