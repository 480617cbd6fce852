-- ===== src/Memory/Lookup.antt =====
-- An entry by its identifier.
use mathlib.Core.Option.{some-injective, none-ne-some}
use mathlib.Core.Path.{subst}
use mini_agent_os.Base.{
  ℕ, zero, suc, ◌<◌, ◌≢◌, ◌↔◌, true, ◌&&◌, List, [], ◌∷◌, ◌≡◌, refl, sym, ap, ◌∙◌, inl, inr, arith,
  none, some, ◌==◌, if◌then◌else◌, length, get_elem?, Bytes, bytes_eq, bytes_eq_iff, Bool-cases,
  Option-cases,
}
use mini_agent_os.Memory.Report.{slot_from_id}
use mini_agent_os.Memory.Store.{IsStore, IsHeld, IsSlot}
use mini_agent_os.Memory.{Memory, Entry, entry_at, slot_count, slot_id_bytes}

id_test :
    (e : Entry) (id : Bytes) → ((length e.id == length id && bytes_eq e.id id) ≡ true) ↔ (e.id ≡ id)
id_test e id = (
  (λ h. (bytes_eq_iff e.id id).0 (ground arith)),
  (λ h. let p = (bytes_eq_iff e.id id).1 h in let q = ap (length {A = ℕ}) h in ground arith),
)

found-id :
    (id : Bytes) (es : List Entry) (slot : ℕ)
    → slot_from_id id es ≡ some slot
    → (slot < length es) × ((entry_at slot es).id ≡ id)
unfolding slot_from_id entry_at
found-id id [] slot h = absurd (none-ne-some slot h)
found-id id (e ∷ es) slot h = elim (Bool-cases (length (e.id) == length id && bytes_eq (e.id) id)) [
  | inl here ↦
      let q = some-injective zero slot (rw here at h) in
      subst (λ n. (n < suc (length es)) × ((entry_at n (e ∷ es)).id ≡ id)) q
        (omega arith, (id_test e id).0 here)
  | inr no_match ↦ elim (Option-cases (slot_from_id id es)) [
    | inl miss ↦ absurd (none-ne-some slot (rw (no_match, miss, slot_from_id) at h))
    | inr (i, hit) ↦
        let q = some-injective (suc i) slot (rw (no_match, hit, slot_from_id) at h) in
        let r = found-id id es i hit in
        subst (λ n. (n < suc (length es)) × ((entry_at n (e ∷ es)).id ≡ id)) q
          (omega (arith, r.0), r.1)
  ]
]

missed-id :
    (id : Bytes) (es : List Entry) (i : ℕ)
    → slot_from_id id es ≡ none
    → i < length es
    → (entry_at i es).id ≢ id
unfolding slot_from_id entry_at
missed-id id [] i h l = absurd (omega arith)
missed-id id (e ∷ es) i h l = elim (Bool-cases (length (e.id) == length id && bytes_eq (e.id) id)) [
  | inl here ↦ absurd (none-ne-some zero (sym (rw here at h)))
  | inr no_match ↦ elim (Option-cases (slot_from_id id es)) [
    | inr (j, hit) ↦ absurd (none-ne-some (suc j) (sym (rw (no_match, hit, slot_from_id) at h)))
    | inl miss ↦ at i l (λ q. let x = (id_test e id).1 q in cc) (λ j b. missed-id id es j miss b)
  ]
]
  where
    at :
        (i : ℕ)
        → i < suc (length es)
        → (e.id ≢ id)
        → ((j : ℕ) → j < length es → (entry_at j es).id ≢ id)
        → (entry_at i (e ∷ es)).id ≢ id
    at zero l p q = p
    at (suc j) l p q = q j (omega arith)

-- The slot that an identifier belongs to, by the byte behind its prefix.
slot_of : Bytes → ℕ
slot_of id = elim (get_elem? id 4) [
  | none ↦ 5
  | some b ↦
      if b == b't'
      then 0
      else if b == b's'
      then 1
      else if b == b'w'
      then 2
      else if b == b'e'
      then 3
      else 4
]

slot_of-id : (slot : ℕ) → slot < slot_count → slot_of (slot_id_bytes slot) ≡ slot
unfolding slot_of slot_id_bytes
slot_of-id zero h = refl
slot_of-id (suc zero) h = refl
slot_of-id (suc (suc zero)) h = refl
slot_of-id (suc (suc (suc zero))) h = refl
slot_of-id (suc (suc (suc (suc zero)))) h = refl
slot_of-id (suc (suc (suc (suc (suc n))))) h = absurd (omega arith)

-- A slot with an identifier that is not empty is no free one.
IsHeld-of :
    (slot : ℕ) (e : Entry) (id : Bytes) → IsSlot slot e → e.id ≡ id → id ≢ [] → IsHeld slot e
IsHeld-of slot e id (inl free) h ne = absurd (ne (sym h ∙ ap (λ (x : Entry). x.id) free))
IsHeld-of slot e id (inr held) h ne = held

-- In a well-formed store the lookup of an identifier that is not empty finds a slot exactly if the
-- slot holds a note and the identifier is the slot's own.
slot_from_id_iff :
    (id : Bytes) (m : Memory) (slot : ℕ)
    → IsStore m
    → id ≢ []
    → (slot_from_id id m.entries ≡ some slot)
      ↔ ((slot < slot_count) × (id ≡ slot_id_bytes slot) × IsHeld slot (entry_at slot m.entries))
slot_from_id_iff id m slot s ne = (
  (λ h.
      let r = found-id id m.entries slot h in
      let b : slot < slot_count = omega (arith, r.0, s.base.slots) in
      let held = IsHeld-of slot (entry_at slot m.entries) id (s.slots slot b) r.1 ne in
      (b, sym r.1 ∙ held.id, held)),
  (λ r. elim (Option-cases (slot_from_id id m.entries)) [
    | inl miss ↦
        absurd
          (missed-id id m.entries slot miss (omega (arith, r.0, s.base.slots)) (r.2.id ∙ sym r.1))
    | inr (j, hit) ↦
        let f = found-id id m.entries j hit in
        let b : j < slot_count = omega (arith, f.0, s.base.slots) in
        let held = IsHeld-of j (entry_at j m.entries) id (s.slots j b) f.1 ne in
        let same =
          sym (slot_of-id j b) ∙ ap slot_of (sym held.id ∙ f.1 ∙ r.1) ∙ slot_of-id slot r.0 in
        hit ∙ ap some same
  ]),
)
