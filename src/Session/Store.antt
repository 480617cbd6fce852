-- ===== src/Session/Store.antt =====
-- What is written under a key is read under it, and other keys keep their values.
use mathlib.Core.Option.{some-injective, none-ne-some}
use mini_agent_os.Base.{
  ℕ, zero, suc, ◌<◌, ◌≤◌, true, false, ◌||◌, List, [], ◌∷◌, ◌≡◌, ◌≢◌, ◌⊎◌, inl, inr, sym, ap, ◌∙◌,
  arith, Option, none, some, ltb, ◌==◌, length, get_elem?, Bytes, bytes_eq_iff, Bool-cases,
  Option-cases,
}
use mini_agent_os.Buffer.{copy_bytes}
use mini_agent_os.Session.{
  Session, Slot, key_max, value_max, key_matches, find_slot, free_slot, alloc_slot, target_slot,
  read_session_state, write_session_state, stored, state_slots,
}
use mini_agent_os.Utf8.{copy_utf8_prefix}
use mini_agent_os.Session.Slots.{
  key_matches_self, key_matches_other, copy_bytes_whole, lookup, Miss, lookup-First, lookup-Miss,
  find-Found, lookup-none, free-some, target-First,
}

or_empty : ℕ → Option Bytes → Bytes
or_empty size none = []
or_empty size (some value) = copy_bytes size value

read-lookup :
    (key : Bytes) (size : ℕ) (s : Session)
    → read_session_state key size s ≡ or_empty size (lookup key s.slots)
unfolding read_session_state or_empty
read-lookup key size s = elim (Option-cases (find_slot key s.slots)) [
  | inl e ↦ let f = lookup-none key s.slots e in rw (e, f, read_session_state)
  | inr (i, e) ↦ let f = (find-Found key s.slots i e).1 in rw (e, f, read_session_state)
]

write_some :
    (key value : Bytes) (s t : Session)
    → write_session_state key value s ≡ some t
    → (0 < length key)
      × (length key ≤ key_max)
      × (length value ≤ value_max)
      × (stored key value s ≡ t)
unfolding write_session_state
write_some key value s t e =
    elim (Bool-cases
      (length key == 0 || ltb key_max (length key) || ltb value_max (length value))) [
        | inl g ↦ absurd (none-ne-some t (rw (g, write_session_state) at e))
        | inr g ↦ (
          ground arith,
          ground arith,
          ground arith,
          some-injective (stored key value s) t (rw (g, write_session_state) at e),
        )
      ]

-- A value that has been written is read back: the bytes up to the last whole character within the
-- 2048 of a slot, or as many of them as the reader's array holds. The session has its eight slots.
pub read_session_state-write_session_state :
    (key value : Bytes) (size : ℕ) (s t : Session)
    → length s.slots ≡ state_slots
    → write_session_state key value s ≡ some t
    → read_session_state key size t ≡ copy_bytes size (copy_utf8_prefix value_max value)
unfolding or_empty
read_session_state-write_session_state key value size s t l e =
    let (pos, fits, _, same) = write_some key value s t e in
    let new : Slot = record {
      key = copy_bytes key_max key;
      value = copy_utf8_prefix value_max value;
    } in
    let holds = key_matches_self key new (copy_bytes_whole key fits) pos in
    let first = target-First key s.slots (omega (arith, l)) in
    let found = lookup-First key s.slots (target_slot key s.slots) new first holds in
    ap (read_session_state key size) (sym same)
    ∙ read-lookup key size (stored key value s)
    ∙ ap (or_empty size) found

-- The write has a slot of its own: the key's, or a free one.
abbrev pub HasSlot : Bytes → Session → Type 0
HasSlot key s = (find_slot key s.slots ≢ none) ⊎ (free_slot s.slots ≢ none)

Miss-at :
    (key : Bytes) (slots : List Slot) (i : ℕ) (slot : Slot)
    → get_elem? slots i ≡ some slot
    → key_matches key slot ≡ false
    → Miss key slots i
Miss-at key [] i slot e m = tt
Miss-at key (x ∷ slots) zero slot e m = ap (key_matches key) (some-injective x slot e) ∙ m
Miss-at key (x ∷ slots) (suc i) slot e m = Miss-at key slots i slot e m

holds_key : (key : Bytes) (slot : Slot) → key_matches key slot ≡ true → slot.key ≡ key
unfolding key_matches
holds_key key slot m = (bytes_eq_iff slot.key key).0 (ground arith)

empty_key : (key : Bytes) (slot : Slot) → length slot.key ≡ 0 → key_matches key slot ≡ false
unfolding key_matches
empty_key key slot e = ground arith

target-Miss :
    (key other : Bytes) (s : Session)
    → HasSlot key s
    → other ≢ key
    → Miss other s.slots (target_slot key s.slots)
unfolding target_slot alloc_slot
target-Miss key other s h ne = elim (Option-cases (find_slot key s.slots)) [
  | inr (i, e) ↦
      let (slot, at, m) = (find-Found key s.slots i e).2 in
      rw (e, target_slot)
        (Miss-at other s.slots i slot at
          (key_matches_other other slot (λ q. ne (sym q ∙ holds_key key slot m))))
  | inl e ↦ elim (Option-cases (free_slot s.slots)) [
    | inl f ↦ absurd (elim h [ inl x ↦ x e | inr x ↦ x f ])
    | inr (i, f) ↦
        let (slot, at, z) = (free-some s.slots i f).1 in
        rw (e, f, target_slot, alloc_slot)
          (Miss-at other s.slots i slot at (empty_key other slot z))
  ]
]

-- A write leaves the value of every other key as it was, if the key has a slot or one is free.
pub read_session_state_other :
    (key other value : Bytes) (size : ℕ) (s t : Session)
    → HasSlot key s
    → other ≢ key
    → write_session_state key value s ≡ some t
    → read_session_state other size t ≡ read_session_state other size s
read_session_state_other key other value size s t h ne e =
    let (pos, fits, _, same) = write_some key value s t e in
    let new : Slot = record {
      key = copy_bytes key_max key;
      value = copy_utf8_prefix value_max value;
    } in
    let kept =
      lookup-Miss other s.slots (target_slot key s.slots) new (target-Miss key other s h ne)
        (key_matches_other other new (λ q. ne (sym q ∙ copy_bytes_whole key fits))) in
    ap (read_session_state other size) (sym same)
    ∙ read-lookup other size (stored key value s)
    ∙ ap (or_empty size) kept
    ∙ sym (read-lookup other size s)
