-- ===== src/Net/Dns/Cache/Log.antt =====
-- What the cache of addresses answers has been stored: `dns_cache_store` and `dns_cache_lookup` of
-- runtime/src/main.rs, called in any order.
use mini_agent_os.Ascii.{ascii_lower}
use mini_agent_os.Base.{
  ℕ, zero, suc, ◌+◌, ◌%◌, ◌^◌, ◌<◌, ◌⊎◌, Bool, true, false, ◌&&◌, ◌||◌, List, [], ◌∷◌, map, Option,
  none, some, ltb, leb, ◌==◌, if◌then◌else◌, length, set, Bytes, ◌≡◌, refl, sym, ap, ◌∙◌, arith,
  All, Bool-cases, inl, inr,
}
use mini_agent_os.Net.Dns.Cache.Fresh.{SameName, SameName-lower, name_eq_iff}
use mini_agent_os.Net.Dns.Cache.{
  Entry, Cache, dns_cache_ttl_ms, dns_name_max, dns_cache_name_eq, bad_name, lookup_slots,
  dns_cache_lookup, entry_of, dns_cache_store,
}

-- An address that was stored: when, for which name, and which.
pub record Stored : Type 0 where
  pub at : ℕ
  pub name : Bytes
  pub ip : Bytes

-- Some element has the property.
abbrev pub Any : (Stored → Type 0) → List Stored → Type 0
Any P [] = ⊥
Any P (d ∷ log) = P d ⊎ Any P log

Any-map :
    {P Q : Stored → Type 0}
    → ((d : Stored) → P d → Q d)
    → (log : List Stored) → Any P log
    → Any Q log
Any-map f [] x = elim x [ ]
Any-map f (d ∷ log) (inl p) = inl (f d p)
Any-map f (d ∷ log) (inr p) = inr (Any-map f log p)

-- A call of one of the two operations.
pub data Call : Type 0 where
  store : Stored → Call
  lookup : ℕ → Bytes → Call

abbrev pub called : Call → Cache → Cache
called (store d) c = dns_cache_store d.at d.name d.ip c
called (lookup now name) c = (dns_cache_lookup now name c).1

abbrev pub calls : List Call → Cache → Cache
calls [] c = c
calls (x ∷ xs) c = calls xs (called x c)

-- The addresses that the calls store, the latest first.
abbrev pub stores : List Call → List Stored → List Stored
stores [] log = log
stores (store d ∷ xs) log = stores xs (d ∷ log)
stores (lookup now name ∷ xs) log = stores xs log

abbrev IsEntry : Entry → Stored → Type 0
IsEntry e d =
    (e.name ≡ map ascii_lower d.name)
    × (e.ip ≡ d.ip)
    × (e.expiry_ms ≡ (d.at + dns_cache_ttl_ms) % 2 ^ 64)

abbrev IsFree : List Stored → Entry → Type 0
IsFree log e = (e.valid ≡ false) ⊎ Any (IsEntry e) log

later_stored :
    (d : Stored) (log : List Stored) (slots : List Entry)
    → All (IsFree log) slots
    → All (IsFree (d ∷ log)) slots
later_stored d log [] h = tt
later_stored d log (e ∷ slots) (inl f, h) = (inl f, later_stored d log slots h)
later_stored d log (e ∷ slots) (inr p, h) = (inr (inr p), later_stored d log slots h)

set-IsFree :
    (log : List Stored) (slots : List Entry) (k : ℕ) (e : Entry)
    → IsFree log e
    → All (IsFree log) slots
    → All (IsFree log) (set slots k e)
set-IsFree log [] k e f h = tt
set-IsFree log (x ∷ slots) zero e f h = (f, h.1)
set-IsFree log (x ∷ slots) (suc k) e f h = (h.0, set-IsFree log slots k e f h.1)

lookup-IsFree :
    (now : ℕ) (name : Bytes) (log : List Stored) (slots : List Entry)
    → All (IsFree log) slots
    → All (IsFree log) (lookup_slots now name slots).1
unfolding lookup_slots
lookup-IsFree now name log [] h = tt
lookup-IsFree now name log (e ∷ slots) h =
    let later = lookup-IsFree now name log slots h.1 in
    elim (Bool-cases (e.valid && leb e.expiry_ms now)) [
      | inl old ↦ rw old (inl refl, later)
      | inr live ↦ elim (Bool-cases (e.valid && dns_cache_name_eq e.name name)) [
        | inl here ↦ rw (live, here) h
        | inr other ↦ rw (live, other) (h.0, later)
      ]
    ]

either_slots :
    (P : List Entry → Type 0) (b : Bool) (x y : Option Bytes × Cache)
    → P x.1.slots
    → P y.1.slots
    → P (if b then x else y).1.slots
either_slots P true x y p q = p
either_slots P false x y p q = q

called-IsFree :
    (x : Call) (c : Cache) (log : List Stored)
    → All (IsFree log) c.slots
    → All (IsFree (stores (x ∷ []) log)) (called x c).slots
unfolding dns_cache_store dns_cache_lookup bad_name
called-IsFree (store d) c log h =
    elim (Bool-cases (length d.name == 0 || ltb dns_name_max (length d.name))) [
      | inl bad ↦ rw bad (later_stored d log c.slots h)
      | inr good ↦ rw good (
          set-IsFree (d ∷ log) c.slots _ (entry_of d.at d.name d.ip) (inr (inl (refl, refl, refl)))
            (later_stored d log c.slots h))
    ]
called-IsFree (lookup now name) c log h =
    either_slots (All (IsFree log)) (length name == 0 || ltb dns_name_max (length name)) _ _ h
      (lookup-IsFree now name log c.slots h)

calls-IsFree :
    (xs : List Call) (c : Cache) (log : List Stored)
    → All (IsFree log) c.slots
    → All (IsFree (stores xs log)) (calls xs c).slots
calls-IsFree [] c log h = h
calls-IsFree (store d ∷ xs) c log h =
    calls-IsFree xs (called (store d) c) (d ∷ log) (called-IsFree (store d) c log h)
calls-IsFree (lookup now name ∷ xs) c log h =
    calls-IsFree xs (called (lookup now name) c) log (called-IsFree (lookup now name) c log h)

-- The address was stored for the name, and not yet a minute ago.
abbrev pub IsFresh : ℕ → Bytes → Bytes → Stored → Type 0
IsFresh now name ip d =
    SameName d.name name × (ip ≡ d.ip) × (now < (d.at + dns_cache_ttl_ms) % 2 ^ 64)

-- Where an answer of a round comes from.
answer_of :
    (ip : Bytes) (a b : Bool) (p q r : Option Bytes × List Entry)
    → (if a then p else if b then q else r).0 ≡ some ip
    → ((p.0 ≡ some ip) ⊎ (r.0 ≡ some ip)) ⊎ ((a ≡ false) × (b ≡ true) × (q.0 ≡ some ip))
answer_of ip true b p q r e = inl (inl e)
answer_of ip false true p q r e = inr (refl, refl, e)
answer_of ip false false p q r e = inl (inr e)

entry-IsFresh :
    (now : ℕ) (name ip : Bytes) (log : List Stored) (x : Entry)
    → IsFree log x
    → (x.valid && leb x.expiry_ms now) ≡ false
    → (x.valid && dns_cache_name_eq x.name name) ≡ true
    → x.ip ≡ ip
    → Any (IsFresh now name ip) log
entry-IsFresh now name ip log x (inl f) live here e = ground (arith, f, here)
entry-IsFresh now name ip log x (inr p) live here e = Any-map fresh log p
  where
    valid : x.valid ≡ true
    valid = ground (arith, here)

    same : dns_cache_name_eq x.name name ≡ true
    same = ground (arith, here)

    fresh : (d : Stored) → IsEntry x d → IsFresh now name ip d
    fresh d q = (
      sym (SameName-lower d.name)
          ∙ ap (map ascii_lower) (sym q.0)
          ∙ (name_eq_iff x.name name).0 same,
      sym e ∙ q.1,
      ground (arith, live, valid, q.2),
    )

slots-IsFresh :
    (now : ℕ) (name ip : Bytes) (log : List Stored) (slots : List Entry)
    → All (IsFree log) slots
    → (lookup_slots now name slots).0 ≡ some ip
    → Any (IsFresh now name ip) log
unfolding lookup_slots
slots-IsFresh now name ip log [] h e = ground (arith, e)
slots-IsFresh now name ip log (x ∷ slots) h e =
    elim (answer_of ip (x.valid && leb x.expiry_ms now) (x.valid && dns_cache_name_eq x.name name) _
      _ _ e) [
        | inl (inl later) ↦ slots-IsFresh now name ip log slots h.1 later
        | inl (inr later) ↦ slots-IsFresh now name ip log slots h.1 later
        | inr (live, here, q) ↦ entry-IsFresh now name ip log x h.0 live here (ground (arith, q))
      ]

looked_up :
    (ip : Bytes) (b : Bool) (x y : Option Bytes × Cache)
    → x.0 ≡ none
    → (if b then x else y).0 ≡ some ip
    → y.0 ≡ some ip
looked_up ip true x y n e = ground (arith, e, n)
looked_up ip false x y n e = e

lookup-IsFresh :
    (now : ℕ) (name ip : Bytes) (log : List Stored) (c : Cache)
    → All (IsFree log) c.slots
    → (dns_cache_lookup now name c).0 ≡ some ip
    → Any (IsFresh now name ip) log
unfolding dns_cache_lookup bad_name
lookup-IsFresh now name ip log c h e =
    slots-IsFresh now name ip log c.slots h
      (looked_up ip (length name == 0 || ltb dns_name_max (length name)) (none, c) _ refl e)

abbrev pub AllFree : Cache → Type 0
AllFree c = All (λ (e : Entry). e.valid ≡ false) c.slots

AllFree-IsFree : (slots : List Entry) → All (λ e. e.valid ≡ false) slots → All (IsFree []) slots
AllFree-IsFree [] h = tt
AllFree-IsFree (e ∷ slots) h = (inl (h.0), AllFree-IsFree slots h.1)

-- The cache never makes an address up, mixes names or answers late: after any calls of its two
-- operations, at any times and in any order, what it answers for a name was stored for that name,
-- in letters of either case, and its minute is not over. It was empty at first.
pub dns_cache_lookup-IsFresh :
    (xs : List Call) (now : ℕ) (name ip : Bytes) (c : Cache)
    → AllFree c
    → (dns_cache_lookup now name (calls xs c)).0 ≡ some ip
    → Any (IsFresh now name ip) (stores xs [])
dns_cache_lookup-IsFresh xs now name ip c h e =
    let held = calls-IsFree xs c [] (AllFree-IsFree c.slots h) in
    lookup-IsFresh now name ip (stores xs []) (calls xs c) held e
