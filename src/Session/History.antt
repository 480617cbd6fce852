-- ===== src/Session/History.antt =====
-- The history stays within its bound and remains UTF-8 text.
use mini_agent_os.Base.{
  ◌-◌, ◌≤◌, true, [], ◌∷◌, ◌++◌, ◌≡◌, refl, ap, ◌∙◌, arith, append_assoc, length, length-append,
  length-take, take, All, Bytes, codes, inl, inr, Bool-cases, List,
}
use mini_agent_os.Session.{
  Session, history_max, history_append_bytes, session_reset, ensure_session_started,
  append_user_turn, append_tool_result, append_assistant_turn,
}
use mini_agent_os.Utf8.Prefix.{utf8_safe_prefix_len_lem}
use mini_agent_os.Utf8.Scalar.{IsUtf8, nil, char, encode}
use mini_agent_os.Utf8.Table.{IsByte, is_bytes, bytes_of}
use mini_agent_os.Utf8.{utf8_safe_prefix_len}

pub IsUtf8-append : (a b : Bytes) → IsUtf8 a → IsUtf8 b → IsUtf8 (a ++ b)
IsUtf8-append a b nil v = v
IsUtf8-append a b (char {rest = rest} cp s e u) v =
    char cp s (ap (λ x. x ++ b) e ∙ append_assoc (encode cp) rest b) (IsUtf8-append rest b u v)

-- A history that a reader may print: well-formed text within the bound.
abbrev pub IsHistory : Session → Type 0
IsHistory s = IsUtf8 s.history × (length s.history ≤ history_max)

history_append_bytes-IsHistory :
    (bytes : Bytes) (s : Session)
    → All IsByte bytes
    → IsHistory s
    → IsHistory (history_append_bytes bytes s)
unfolding history_append_bytes
history_append_bytes-IsHistory bytes s v h =
    let room = history_max - length s.history in
    let n = utf8_safe_prefix_len bytes room in
    let r = utf8_safe_prefix_len_lem bytes room [] bytes v refl nil (omega arith) in
    (
      IsUtf8-append s.history (take n bytes) h.0 r.0,
      omega (arith, h.1, r.1, length-append s.history (take n bytes), length-take n bytes),
    )

-- The calls that change the history.
pub data Turn : Type 0 where
  user : Bytes → Turn
  tool : Bytes → Bytes → Turn
  assistant : Bytes → Turn
  reset : Turn

abbrev pub take_turn : Turn → Session → Session
take_turn (user text) s = append_user_turn text s
take_turn (tool name result) s = append_tool_result name result s
take_turn (assistant text) s = append_assistant_turn text s
take_turn reset s = session_reset s

abbrev pub take_turns : List Turn → Session → Session
take_turns [] s = s
take_turns (t ∷ turns) s = take_turns turns (take_turn t s)

-- The texts of a turn are made of bytes, of whatever kind.
abbrev pub IsBytes : Turn → Type 0
IsBytes (user text) = All IsByte text
IsBytes (tool name result) = All IsByte name × All IsByte result
IsBytes (assistant text) = All IsByte text
IsBytes reset = Unit

reset-IsHistory : (s : Session) → IsHistory (session_reset s)
unfolding session_reset
reset-IsHistory s = (nil, omega arith)

started-IsHistory : (s : Session) → IsHistory s → IsHistory (ensure_session_started s)
unfolding ensure_session_started session_reset
started-IsHistory s h = elim (Bool-cases s.started) [
  | inl e ↦ rw e h
  | inr e ↦ rw e (reset-IsHistory s)
]

label-IsHistory :
    (label : Bytes) (s : Session)
    → is_bytes label ≡ true
    → IsHistory s
    → IsHistory (history_append_bytes label s)
label-IsHistory label s e h = history_append_bytes-IsHistory label s (bytes_of label e) h

turn-IsHistory : (t : Turn) (s : Session) → IsBytes t → IsHistory s → IsHistory (take_turn t s)
unfolding append_user_turn append_tool_result append_assistant_turn is_bytes
turn-IsHistory (user text) s v h = label-IsHistory (codes "\n") _ refl (
    history_append_bytes-IsHistory text _ v
      (label-IsHistory (codes "User: ") _ refl (started-IsHistory s h)))
turn-IsHistory (tool name result) s v h = label-IsHistory (codes "\n") _ refl (
    history_append_bytes-IsHistory result _ v.1 (
      label-IsHistory (codes "]: ") _ refl (
        history_append_bytes-IsHistory name _ v.0
          (label-IsHistory (codes "Tool[") _ refl (started-IsHistory s h)))))
turn-IsHistory (assistant text) s v h = label-IsHistory (codes "\n") _ refl (
    history_append_bytes-IsHistory text _ v
      (label-IsHistory (codes "Assistant: ") _ refl (started-IsHistory s h)))
turn-IsHistory reset s v h = reset-IsHistory s

-- After any turns, whatever bytes their texts hold, the history is well-formed UTF-8 of at most
-- 16384 bytes, if it was before them.
pub take_turns-IsHistory :
    (turns : List Turn) (s : Session)
    → All IsBytes turns
    → IsHistory s
    → IsHistory (take_turns turns s)
take_turns-IsHistory [] s v h = h
take_turns-IsHistory (t ∷ turns) s v h =
    take_turns-IsHistory turns (take_turn t s) v.1 (turn-IsHistory t s v.0 h)
