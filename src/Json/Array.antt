-- ===== src/Json/Array.antt =====
-- `json_string_array_contains` of runtime/src/agent/mod.rs: a string among the items of an array.
pub mod Membership
use mini_agent_os.Ascii.{is_space, skip_spaces}
use mini_agent_os.Base.{
  ℕ, Bool, true, false, ◌||◌, [], ◌∷◌, Option, none, some, ◌==◌, if◌then◌else◌, Bytes,
}
use mini_agent_os.Json.{◌>>=◌, json_find_key, expect}

-- The flag `matched` with the rest `want[idx..]` of the wanted text; `none` is `matched = false`.
unfoldable pub advance : Option Bytes → ℕ → Option Bytes
advance none b = none
advance (some []) b = none
advance (some (w ∷ ws)) b = if b == w then some ws else none

-- `matched && idx == want.len()`
unfoldable pub complete : Option Bytes → Bool
complete none = false
complete (some []) = true
complete (some (w ∷ ws)) = false

-- The loop over the items, the loop over one item, and the byte behind a backslash, which is
-- compared as it stands.
unfoldable mutual
  pub array_items : Bytes → Bytes → Option Bool
  array_items want [] = none
  array_items want (b ∷ rest) = elim (is_space b || b == b',') [
    | true ↦ array_items want rest
    | false ↦ elim (b == b']') [
      | true ↦ some false
      | false ↦ elim (b == b'"') [ true ↦ array_string want (some want) rest | false ↦ none ]
    ]
  ]

  pub array_string : Bytes → Option Bytes → Bytes → Option Bool
  array_string want left [] = none
  array_string want left (b ∷ rest) = elim (b == b'"') [
    | true ↦ elim (complete left) [ true ↦ some true | false ↦ array_items want rest ]
    | false ↦ elim (b == b'\\') [
      | true ↦ array_escaped want left rest
      | false ↦ array_string want (advance left b) rest
    ]
  ]

  pub array_escaped : Bytes → Option Bytes → Bytes → Option Bool
  array_escaped want left [] = none
  array_escaped want left (b ∷ rest) = array_string want (advance left b) rest

-- `none` where the key has no array, or the array is not closed.
unfoldable pub json_string_array_contains : Bytes → Bytes → Bytes → Option Bool
json_string_array_contains buf key want = do
  rest ← json_find_key key buf
  items ← expect b'[' (skip_spaces rest)
  array_items want items
