-- ===== src/Net/Dns/Cache/Fresh.antt =====
-- What the cache of addresses has stored is found: `dns_cache_store` and `dns_cache_lookup` of
-- runtime/src/main.rs.
use mathlib.Core.Path.{subst}
use mini_agent_os.Ascii.{ascii_lower}
use mini_agent_os.Base.{
  ℕ, zero, suc, ◌+◌, ◌^◌, ◌≤◌, ◌<◌, ◌⊎◌, ◌↔◌, Bool, true, false, ◌&&◌, ◌||◌, List, [], ◌∷◌, map,
  Option, none, some, ltb, leb, ◌==◌, if◌then◌else◌, length, set, Bytes, ◌≡◌, refl, sym, ap, ◌∙◌,
  arith, Bool-cases, inl, inr,
}
use mini_agent_os.Net.Dns.Cache.{
  Entry, Cache, dns_cache_slots, dns_cache_ttl_ms, dns_name_max, dns_cache_name_eq, bad_name,
  lookup_slots, dns_cache_lookup, target_loop, slot_or_next, entry_of, dns_cache_store,
}

-- The same name, in letters of either case.
abbrev pub SameName : Bytes → Bytes → Type 0
SameName a b = map ascii_lower a ≡ map ascii_lower b

pub ascii_lower_twice : (b : ℕ) → ascii_lower (ascii_lower b) ≡ ascii_lower b
unfolding ascii_lower
ascii_lower_twice b = ground arith

pub name_eq_iff : (a b : Bytes) → (dns_cache_name_eq a b ≡ true) ↔ SameName a b
unfolding dns_cache_name_eq
name_eq_iff [] [] = ground arith
name_eq_iff [] (n ∷ b) = ground arith
name_eq_iff (m ∷ a) [] = ground arith
name_eq_iff (m ∷ a) (n ∷ b) = ground (arith, name_eq_iff a b)

pub SameName-lower : (a : Bytes) → SameName (map ascii_lower a) a
SameName-lower [] = refl
SameName-lower (b ∷ a) = rw (ascii_lower_twice b, SameName-lower a) refl

pub length-SameName : (a b : Bytes) → SameName a b → length a ≡ length b
length-SameName [] [] h = refl
length-SameName [] (n ∷ b) h = ground (arith, h)
length-SameName (m ∷ a) [] h = ground (arith, h)
length-SameName (m ∷ a) (n ∷ b) h = ground (arith, h, length-SameName a b)

name_eq-SameName : (a b c : Bytes) → SameName b c → dns_cache_name_eq a b ≡ dns_cache_name_eq a c
name_eq-SameName a b c h = elim (Bool-cases (dns_cache_name_eq a b)) [
  | inl e ↦ e ∙ sym ((name_eq_iff a c).1 ((name_eq_iff a b).0 e ∙ h))
  | inr e ↦ elim (Bool-cases (dns_cache_name_eq a c)) [
    | inl f ↦ absurd (other e ((name_eq_iff a b).1 ((name_eq_iff a c).0 f ∙ sym h)))
    | inr f ↦ e ∙ sym f
  ]
]
  where
    other : {x : Bool} → x ≡ false → x ≡ true → ⊥
    other e f = ground (arith, e, f)

-- None of the first `n` slots answers for the name.
abbrev pub Clear : Bytes → ℕ → List Entry → Type 0
Clear name zero slots = Unit
Clear name (suc n) [] = Unit
Clear name (suc n) (e ∷ slots) =
    ((e.valid && dns_cache_name_eq e.name name) ≡ false) × Clear name n slots

Clear-SameName :
    (a b : Bytes) (n : ℕ) (slots : List Entry) → SameName a b → Clear a n slots → Clear b n slots
Clear-SameName a b zero slots h c = tt
Clear-SameName a b (suc n) [] h c = tt
Clear-SameName a b (suc n) (e ∷ slots) h c = (
  ap (λ (x : Bool). e.valid && x) (sym (name_eq-SameName e.name a b h)) ∙ c.0,
  Clear-SameName a b n slots h c.1,
)

-- What the loop for a slot comes to: one in front of which none answers, or what it had.
abbrev Chosen : Bytes → ℕ → Option ℕ → List Entry → Option ℕ → Type 0
Chosen name slot t slots r =
    ((k : ℕ) × (r ≡ some (slot + k)) × (k < length slots) × Clear name k slots)
    ⊎ ((r ≡ t) × Clear name (length slots) slots)

next_Chosen :
    (name : Bytes) (slot : ℕ) (t u : Option ℕ) (e : Entry) (slots : List Entry) (r : Option ℕ)
    → (e.valid && dns_cache_name_eq e.name name) ≡ false
    → (u ≡ t) ⊎ (u ≡ some slot)
    → Chosen name (slot + 1) u slots r
    → Chosen name slot t (e ∷ slots) r
next_Chosen name slot t u e slots r f d (inl (k, q, l, c)) =
    inl (suc k, q ∙ ap some (omega arith), omega arith, (f, c))
next_Chosen name slot t u e slots r f (inl d) (inr (q, c)) = inr (q ∙ d, (f, c))
next_Chosen name slot t u e slots r f (inr d) (inr (q, c)) =
    inl (0, q ∙ d ∙ ap some (omega arith), omega arith, tt)

freed :
    (b : Bool) (slot : ℕ) (u : Option ℕ)
    → u ≡ (if b then none else some slot)
    → (u ≡ none) ⊎ (u ≡ some slot)
freed true slot u e = inl e
freed false slot u e = inr e

either_Chosen :
    (name : Bytes) (slot : ℕ) (t : Option ℕ) (e : Entry) (slots : List Entry) (later : Option ℕ)
    → (b : Bool) → (b ≡ false → Chosen name slot t (e ∷ slots) later)
    → Chosen name slot t (e ∷ slots) (if b then some slot else later)
either_Chosen name slot t e slots later true h = inl (0, ap some (omega arith), omega arith, tt)
either_Chosen name slot t e slots later false h = h refl

target-Chosen :
    (name : Bytes) (slots : List Entry) (slot : ℕ) (t : Option ℕ)
    → Chosen name slot t slots (target_loop name slot t slots)
unfolding target_loop
target-Chosen name [] slot t = inr (refl, tt)
target-Chosen name (e ∷ slots) slot none =
    let free : Option ℕ = if e.valid then none else some slot in
    either_Chosen name slot none e slots _ (e.valid && dns_cache_name_eq e.name name) (λ f.
      next_Chosen name slot none free e slots _ f (freed e.valid slot free refl)
        (target-Chosen name slots (slot + 1) free))
target-Chosen name (e ∷ slots) slot (some t) =
    either_Chosen name slot (some t) e slots _ (e.valid && dns_cache_name_eq e.name name) (λ f.
      next_Chosen name slot (some t) (some t) e slots _ f (inl refl)
        (target-Chosen name slots (slot + 1) (some t)))

lookup-set :
    (now : ℕ) (name : Bytes) (slots : List Entry) (k : ℕ) (new : Entry)
    → Clear name k slots
    → k < length slots
    → new.valid ≡ true
    → now < new.expiry_ms
    → dns_cache_name_eq new.name name ≡ true
    → (lookup_slots now name (set slots k new)).0 ≡ some (new.ip)
unfolding lookup_slots
lookup-set now name [] k new c l v x n = absurd (omega arith)
lookup-set now name (e ∷ slots) zero new c l v x n =
    let live : leb new.expiry_ms now ≡ false = ground arith in simp (v, live, n)
lookup-set now name (e ∷ slots) (suc k) new c l v x n =
    let later = lookup-set now name slots k new c.1 (omega arith) v x n in
    elim (Bool-cases (e.valid && leb e.expiry_ms now)) [
      | inl old ↦ rw old later
      | inr live ↦ rw (live, c.0) later
    ]

Clear-all :
    (name : Bytes) (slots : List Entry) (k : ℕ)
    → Clear name (length slots) slots
    → Clear name k slots
Clear-all name slots zero c = tt
Clear-all name [] (suc k) c = tt
Clear-all name (e ∷ slots) (suc k) c = (c.0, Clear-all name slots k c.1)

-- The slot that is written to has none in front of it that answers.
slot_Clear :
    (name : Bytes) (c : Cache) (r : Option ℕ)
    → length c.slots ≡ dns_cache_slots
    → Chosen name 0 none c.slots r
    → ((slot_or_next c r).0 < length c.slots) × Clear name (slot_or_next c r).0 c.slots
unfolding slot_or_next
slot_Clear name c none l (inl (k, q, _, _)) = ground (arith, q)
slot_Clear name c none l (inr (q, h)) = (omega arith, Clear-all name c.slots _ h)
slot_Clear name c (some slot) l (inr (q, _)) = ground (arith, q)
slot_Clear name c (some slot) l (inl (k, q, lt, h)) =
    let e : k ≡ slot = ground (arith, q) in
    (omega arith, subst (λ (n : ℕ). Clear name n c.slots) e h)

-- An address that is stored for a name is found for a minute, for the name in letters of either
-- case, whatever the cache held before. The cache has its eight slots, the name is not empty and
-- fits, and the clock of 64 bits does not wrap around.
pub dns_cache_lookup-dns_cache_store :
    (now later : ℕ) (name asked ip : Bytes) (c : Cache)
    → length c.slots ≡ dns_cache_slots
    → SameName name asked
    → 0 < length name
    → length name ≤ dns_name_max
    → later < now + dns_cache_ttl_ms
    → now + dns_cache_ttl_ms < 2 ^ 64
    → (dns_cache_lookup later asked (dns_cache_store now name ip c)).0 ≡ some ip
unfolding dns_cache_lookup dns_cache_store bad_name
dns_cache_lookup-dns_cache_store now later name asked ip c l s p m h w =
    let same = length-SameName name asked s in
    let good : (length name == 0 || ltb dns_name_max (length name)) ≡ false = ground arith in
    let good_asked : (length asked == 0 || ltb dns_name_max (length asked)) ≡ false =
      ground (arith, same) in
    let r : Option ℕ = target_loop name 0 none c.slots in
    let chosen = slot_Clear name c r l (target-Chosen name c.slots 0 none) in
    let clear = Clear-SameName name asked _ c.slots s chosen.1 in
    let eq = (name_eq_iff (map ascii_lower name) asked).1 (SameName-lower name ∙ s) in
    rw (good_asked, good)
      (lookup-set later asked c.slots (slot_or_next c r).0 (entry_of now name ip) clear chosen.0
        refl (omega arith) eq)
