-- ===== src/Session.antt =====
-- The session of runtime/src/agent/session.rs: a bounded history of turns, and eight slots that hold
-- a value under a key. An array with its length is the list of the bytes in front of the length.
pub mod Slots
pub mod Store
pub mod History
pub mod Suffix
use mini_agent_os.Ascii.{starts_with}
use mini_agent_os.Base.{
  ℕ, zero, suc, ◌+◌, ◌-◌, Bool, true, false, ◌&&◌, ◌||◌, not, List, [], ◌∷◌, ◌++◌, Option, none,
  some, ltb, leb, ◌==◌, if◌then◌else◌, length, get_elem?, set, take, drop, replicate, Bytes, codes,
  bytes_eq,
}
use mini_agent_os.Buffer.{Out, append_copy, copy_bytes}
use mini_agent_os.Utf8.{is_utf8_continuation, utf8_safe_prefix_len, copy_utf8_prefix}

-- SESSION_HISTORY_MAX, SESSION_STATE_SLOTS, SESSION_STATE_KEY_MAX and SESSION_STATE_VALUE_MAX.
abbrev pub history_max : ℕ
history_max = 16_384

abbrev pub state_slots : ℕ
state_slots = 8

abbrev pub key_max : ℕ
key_max = 32

abbrev pub value_max : ℕ
value_max = 2048

-- SESSION_STATE_KEYS and SESSION_STATE_VALUES at one slot; an empty key is a free slot.
pub record Slot : Type 0 where
  pub key : Bytes
  pub value : Bytes

pub record Session : Type 0 where
  pub started : Bool
  pub history : Bytes
  pub slots : List Slot

unfoldable pub history_append_bytes : Bytes → Session → Session
history_append_bytes bytes s =
    let remaining = history_max - length s.history in
    record s { history = s.history ++ take (utf8_safe_prefix_len bytes remaining) bytes }

-- `SESSION_STATE_KEY_LENS[slot] != 0 && key_matches(slot, key)`
unfoldable pub key_matches : Bytes → Slot → Bool
key_matches key slot = not (length slot.key == 0) && bytes_eq slot.key key

-- An index in the rest of the slots.
abbrev pub next : Option ℕ → Option ℕ
next none = none
next (some i) = some (suc i)

-- The index of the first slot that holds the key.
unfoldable pub find_slot : Bytes → List Slot → Option ℕ
find_slot key [] = none
find_slot key (slot ∷ slots) =
    let more = next (find_slot key slots) in if key_matches key slot then some zero else more

-- The index of the first free slot.
unfoldable pub free_slot : List Slot → Option ℕ
free_slot [] = none
free_slot (slot ∷ slots) =
    let more = next (free_slot slots) in if length slot.key == 0 then some zero else more

-- `alloc_slot`: slot 0 is taken when none is free.
unfoldable pub alloc_slot : List Slot → ℕ
alloc_slot slots = elim (free_slot slots) [ none ↦ zero | some i ↦ i ]

-- `session_reset`, on this state.
unfoldable pub session_reset : Session → Session
session_reset s = record {
  started = true;
  history = [];
  slots = replicate state_slots (record { key = []; value = [] });
}

unfoldable pub ensure_session_started : Session → Session
ensure_session_started s = if s.started then s else session_reset s

-- The history part of `append_user_turn`, `append_tool_result` and `append_assistant_turn`.
unfoldable pub append_user_turn : Bytes → Session → Session
append_user_turn text s =
    history_append_bytes (codes "\n")
      (history_append_bytes text (history_append_bytes (codes "User: ") (ensure_session_started s)))

unfoldable pub append_tool_result : Bytes → Bytes → Session → Session
append_tool_result tool result s = history_append_bytes (codes "\n") (
    history_append_bytes result (
      history_append_bytes (codes "]: ") (
        history_append_bytes tool
          (history_append_bytes (codes "Tool[") (ensure_session_started s)))))

unfoldable pub append_assistant_turn : Bytes → Session → Session
append_assistant_turn text s = history_append_bytes (codes "\n") (
    history_append_bytes text
      (history_append_bytes (codes "Assistant: ") (ensure_session_started s)))

-- `append_history_to`
unfoldable pub append_history_to : Session → Out → Out
append_history_to s o = append_copy o s.history

-- The loop of `utf8_safe_suffix_start_local`: what is left of the text from `start` on.
unfoldable pub skip_continuations : Bytes → Bytes
skip_continuations [] = []
skip_continuations (b ∷ rest) = if is_utf8_continuation b then skip_continuations rest else b ∷ rest

-- The suffix that starts at `utf8_safe_suffix_start_local`.
unfoldable pub utf8_safe_suffix : Bytes → ℕ → Bytes
utf8_safe_suffix buf keep =
    if leb (length buf) keep then buf else skip_continuations (drop (length buf - keep) buf)

-- `append_state_snapshot_to`
unfoldable pub append_state_snapshot_to : List Slot → Out → Out
append_state_snapshot_to [] o = o
append_state_snapshot_to (slot ∷ slots) o =
    let key = append_copy (append_copy o (codes "State[")) slot.key in
    let value = append_copy (append_copy key (codes "] = ")) slot.value in
    let rest = append_state_snapshot_to slots (append_copy value (codes "\n")) in
    let skip = append_state_snapshot_to slots o in if length slot.key == 0 then skip else rest

-- The value at an index; the index of a slot is always in range.
abbrev pub value_of : Option Slot → Bytes
value_of none = []
value_of (some slot) = slot.value

-- `read_session_state`, into an array of `size` bytes.
unfoldable pub read_session_state : Bytes → ℕ → Session → Bytes
read_session_state key size s = elim (find_slot key s.slots) [
  | none ↦ []
  | some i ↦ copy_bytes size (value_of (get_elem? s.slots i))
]

-- `find_slot(key).or_else(alloc_slot)`
unfoldable pub target_slot : Bytes → List Slot → ℕ
target_slot key slots = elim (find_slot key slots) [ none ↦ alloc_slot slots | some i ↦ i ]

-- The stores of `write_session_state`.
abbrev pub stored : Bytes → Bytes → Session → Session
stored key value s = record s {
  slots =
      set s.slots (target_slot key s.slots)
        (record { key = copy_bytes key_max key; value = copy_utf8_prefix value_max value });
}

-- `none` is the answer false.
unfoldable pub write_session_state : Bytes → Bytes → Session → Option Session
write_session_state key value s =
    if length key == 0 || ltb key_max (length key) || ltb value_max (length value)
    then none
    else some (stored key value s)

abbrev user_label : Bytes
user_label = codes "User: "

-- `tail[tail.len() - 1] == b'\n'`
abbrev ends_line : Bytes → Bool
ends_line tail = elim (get_elem? tail (length tail - 1)) [ none ↦ false | some b ↦ b == b'\n' ]

-- The tail of the history is the turn of the current goal.
unfoldable pub is_current_turn : Bytes → Bytes → Bool
is_current_turn goal tail =
    starts_with tail user_label
    && ends_line tail
    && bytes_eq (take (length tail - 1 - length user_label) (drop (length user_label) tail)) goal

-- The history without the turn of the current goal at its end.
unfoldable pub without_current_turn : Bytes → Bytes → Bytes
without_current_turn goal history =
    let expected = length user_label + length goal + 1 in
    let start = length history - expected in
    if leb expected (length history) && is_current_turn goal (drop start history)
    then take start history
    else history

unfoldable pub append_history_suffix_excluding_current_user_to : Bytes → Session → ℕ → Out → Out
append_history_suffix_excluding_current_user_to goal s budget o =
    append_copy o (utf8_safe_suffix (without_current_turn goal s.history) budget)
