-- ===== src/Session/Slots.antt =====
-- The search for a slot.
use mathlib.Core.Option.{some-injective, none-ne-some}
use mathlib.Core.Path.{subst}
use mini_agent_os.Base.{
  ℕ, zero, suc, ◌<◌, ◌≤◌, true, false, List, [], ◌∷◌, ◌≡◌, ◌≢◌, inl, inr, refl, sym, ap, ◌∙◌, arith,
  Option, none, some, ◌==◌, if◌then◌else◌, length, get_elem?, set, Bytes, bytes_eq, bytes_eq_iff,
  Bool-cases, Option-cases, take_all,
}
use mini_agent_os.Buffer.{copy_bytes}
use mini_agent_os.Session.{
  Slot, key_max, value_of, key_matches, next, find_slot, free_slot, alloc_slot, target_slot,
}

pub key_matches_self :
    (key : Bytes) (slot : Slot) → slot.key ≡ key → 0 < length key → key_matches key slot ≡ true
unfolding key_matches
key_matches_self key slot e p =
    let f = (bytes_eq_iff slot.key key).1 e in
    let q : (length slot.key == 0) ≡ false = let l = ap (length {A = ℕ}) e in ground arith in
    rw (f, q)

pub key_matches_other : (key : Bytes) (slot : Slot) → slot.key ≢ key → key_matches key slot ≡ false
unfolding key_matches
key_matches_other key slot ne = elim (Bool-cases (bytes_eq slot.key key)) [
  | inl e ↦ absurd (ne ((bytes_eq_iff slot.key key).0 e))
  | inr e ↦ ground arith
]

pub copy_bytes_whole : (key : Bytes) → length key ≤ key_max → copy_bytes key_max key ≡ key
unfolding copy_bytes
copy_bytes_whole key h = ground (arith, take_all (length key) key)

-- The value of the first slot that holds the key.
abbrev pub lookup : Bytes → List Slot → Option Bytes
lookup key [] = none
lookup key (slot ∷ slots) = if key_matches key slot then some slot.value else lookup key slots

pub next-some : (o : Option ℕ) (i : ℕ) → next o ≡ some i → (j : ℕ) × (o ≡ some j) × (i ≡ suc j)
next-some none i e = absurd (none-ne-some i e)
next-some (some j) i e = (j, refl, sym (some-injective (suc j) i e))

pub next-none : (o : Option ℕ) → next o ≡ none → o ≡ none
next-none none e = refl
next-none (some j) e = absurd (none-ne-some (suc j) (sym e))

-- No slot in front of the index holds the key.
abbrev pub First : Bytes → List Slot → ℕ → Type 0
First key [] i = ⊥
First key (slot ∷ slots) zero = Unit
First key (slot ∷ slots) (suc i) = (key_matches key slot ≡ false) × First key slots i

-- The slot at the index does not hold the key.
abbrev pub Miss : Bytes → List Slot → ℕ → Type 0
Miss key [] i = Unit
Miss key (slot ∷ slots) zero = key_matches key slot ≡ false
Miss key (slot ∷ slots) (suc i) = Miss key slots i

pub lookup-First :
    (key : Bytes) (slots : List Slot) (i : ℕ) (new : Slot)
    → First key slots i
    → key_matches key new ≡ true
    → lookup key (set slots i new) ≡ some new.value
lookup-First key [] i new f m = absurd f
lookup-First key (slot ∷ slots) zero new f m = rw m
lookup-First key (slot ∷ slots) (suc i) new f m =
    let e = f.0 in rw e (lookup-First key slots i new f.1 m)

pub lookup-Miss :
    (key : Bytes) (slots : List Slot) (i : ℕ) (new : Slot)
    → Miss key slots i
    → key_matches key new ≡ false
    → lookup key (set slots i new) ≡ lookup key slots
lookup-Miss key [] i new f m = refl
lookup-Miss key (slot ∷ slots) zero new f m = rw (m, f)
lookup-Miss key (slot ∷ slots) (suc i) new f m =
    ap (λ o. if key_matches key slot then some slot.value else o) (lookup-Miss key slots i new f m)

-- What the search for a key finds at an index.
abbrev pub Found : Bytes → List Slot → ℕ → Type 0
Found key slots i =
    First key slots i
    × (lookup key slots ≡ some (value_of (get_elem? slots i)))
    × ((slot : Slot) × (get_elem? slots i ≡ some slot) × (key_matches key slot ≡ true))

pub find_step :
    (key : Bytes) (slot : Slot) (slots : List Slot)
    → key_matches key slot ≡ false
    → find_slot key (slot ∷ slots) ≡ next (find_slot key slots)
unfolding find_slot
find_step key slot slots m = rw m

pub find_here :
    (key : Bytes) (slot : Slot) (slots : List Slot)
    → key_matches key slot ≡ true
    → find_slot key (slot ∷ slots) ≡ some zero
unfolding find_slot
find_here key slot slots m = rw m

pub find-Found :
    (key : Bytes) (slots : List Slot) (i : ℕ) → find_slot key slots ≡ some i → Found key slots i
unfolding find_slot
find-Found key [] i e = absurd (none-ne-some i e)
find-Found key (slot ∷ slots) i e = elim (Bool-cases (key_matches key slot)) [
  | inl m ↦
      let zero_is : zero ≡ i = some-injective zero i (sym (find_here key slot slots m) ∙ e) in
      subst (Found key (slot ∷ slots)) zero_is (tt, rw m, (slot, refl, m))
  | inr m ↦
      let (j, f, suc_is) =
        next-some (find_slot key slots) i (sym (find_step key slot slots m) ∙ e) in
      let (first, value, holds) = find-Found key slots j f in
      subst (Found key (slot ∷ slots)) (sym suc_is) ((m, first), rw m value, holds)
]

pub find-none :
    (key : Bytes) (slots : List Slot) (i : ℕ)
    → find_slot key slots ≡ none
    → i < length slots
    → First key slots i
find-none key [] i e h = absurd (omega arith)
find-none key (slot ∷ slots) zero e h = tt
find-none key (slot ∷ slots) (suc i) e h = elim (Bool-cases (key_matches key slot)) [
  | inl m ↦ absurd (none-ne-some zero (sym e ∙ find_here key slot slots m))
  | inr m ↦ (
    m,
    find-none key slots i (next-none (find_slot key slots) (sym (find_step key slot slots m) ∙ e))
        (omega arith),
  )
]

pub lookup-none :
    (key : Bytes) (slots : List Slot) → find_slot key slots ≡ none → lookup key slots ≡ none
lookup-none key [] e = refl
lookup-none key (slot ∷ slots) e = elim (Bool-cases (key_matches key slot)) [
  | inl m ↦ absurd (none-ne-some zero (sym e ∙ find_here key slot slots m))
  | inr m ↦ rw m (
      lookup-none key slots
        (next-none (find_slot key slots) (sym (find_step key slot slots m) ∙ e)))
]

pub free-some :
    (slots : List Slot) (i : ℕ)
    → free_slot slots ≡ some i
    → (i < length slots) × ((slot : Slot) × (get_elem? slots i ≡ some slot) × (length slot.key ≡ 0))
unfolding free_slot
free-some [] i e = absurd (none-ne-some i e)
free-some (slot ∷ slots) i e = elim (Bool-cases (length slot.key == 0)) [
  | inl m ↦
      let zero_is : zero ≡ i = some-injective zero i (rw (m, free_slot) at e) in
      subst
        (λ j.
          (j < suc (length slots))
          × ((x : Slot) × (get_elem? (slot ∷ slots) j ≡ some x) × (length x.key ≡ 0)))
        zero_is (omega arith, (slot, refl, ground arith))
  | inr m ↦
      let e' : next (free_slot slots) ≡ some i = rw (m, free_slot) at e in
      let (j, f, suc_is) = next-some (free_slot slots) i e' in
      let (lt, empty) = free-some slots j f in
      subst
        (λ j.
          (j < suc (length slots))
          × ((x : Slot) × (get_elem? (slot ∷ slots) j ≡ some x) × (length x.key ≡ 0)))
        (sym suc_is) (omega (arith, lt), empty)
]

pub alloc-lt : (slots : List Slot) → 0 < length slots → alloc_slot slots < length slots
unfolding alloc_slot
alloc-lt slots h = elim (Option-cases (free_slot slots)) [
  | inl e ↦ rw (e, alloc_slot) h
  | inr (i, e) ↦ rw (e, alloc_slot) ((free-some slots i e).0)
]

pub target-First :
    (key : Bytes) (slots : List Slot) → 0 < length slots → First key slots (target_slot key slots)
unfolding target_slot
target-First key slots h = elim (Option-cases (find_slot key slots)) [
  | inl e ↦ rw (e, target_slot) (find-none key slots (alloc_slot slots) e (alloc-lt slots h))
  | inr (i, e) ↦ rw (e, target_slot) ((find-Found key slots i e).0)
]
