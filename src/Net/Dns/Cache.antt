-- ===== src/Net/Dns/Cache.antt =====
-- The cache of addresses in runtime/src/main.rs, statics DNS_CACHE_*: `dns_cache_lookup` and
-- `dns_cache_store`. The time `now` of the timer is an argument.
pub mod Fresh
pub mod Log
use mini_agent_os.Ascii.{ascii_lower}
use mini_agent_os.Base.{
  ℕ, zero, suc, ◌+◌, ◌%◌, ◌^◌, ◌≤◌, ◌<◌, Bool, true, false, ◌&&◌, ◌||◌, not, List, [], ◌∷◌, map,
  Option, none, some, ltb, leb, ◌==◌, if◌then◌else◌, length, set, Bytes,
}

-- The arrays, at one index.
pub record Entry : Type 0 where
  pub name : Bytes
  pub ip : Bytes
  pub expiry_ms : ℕ
  pub valid : Bool

pub record Cache : Type 0 where
  pub slots : List Entry
  pub next : ℕ

abbrev pub dns_cache_slots : ℕ
dns_cache_slots = 8

abbrev pub dns_cache_ttl_ms : ℕ
dns_cache_ttl_ms = 60_000

abbrev pub dns_name_max : ℕ
dns_name_max = 256

unfoldable pub dns_cache_name_eq : Bytes → Bytes → Bool
dns_cache_name_eq [] [] = true
dns_cache_name_eq [] (n ∷ name) = false
dns_cache_name_eq (b ∷ held) [] = false
dns_cache_name_eq (b ∷ held) (n ∷ name) =
    ascii_lower b == ascii_lower n && dns_cache_name_eq held name

unfoldable pub bad_name : Bytes → Bool
bad_name name = length name == 0 || ltb dns_name_max (length name)

-- The loop over the slots: an answer, and the slots, of which those that it finds expired are freed.
unfoldable pub lookup_slots : ℕ → Bytes → List Entry → Option Bytes × List Entry
lookup_slots now name [] = (none, [])
lookup_slots now name (e ∷ slots) =
    let later = lookup_slots now name slots in
    if e.valid && leb e.expiry_ms now
    then (later.0, record e { valid = false } ∷ later.1)
    else if e.valid && dns_cache_name_eq e.name name
    then (some (e.ip), e ∷ slots)
    else (later.0, e ∷ later.1)

unfoldable pub dns_cache_lookup : ℕ → Bytes → Cache → Option Bytes × Cache
unfolding bad_name
dns_cache_lookup now name c =
    let found = lookup_slots now name c.slots in
    if bad_name name then (none, c) else (found.0, record c { slots = found.1 })

-- The slot that holds the name, or else the first that is free.
unfoldable pub target_loop : Bytes → ℕ → Option ℕ → List Entry → Option ℕ
target_loop name slot target [] = target
target_loop name slot none (e ∷ slots) =
    let later = target_loop name (slot + 1) (if e.valid then none else some slot) slots in
    if e.valid && dns_cache_name_eq e.name name then some slot else later
target_loop name slot (some t) (e ∷ slots) =
    let later = target_loop name (slot + 1) (some t) slots in
    if e.valid && dns_cache_name_eq e.name name then some slot else later

-- The slot to write to, in turn if all are taken, and the turn of the next.
unfoldable pub slot_or_next : Cache → Option ℕ → ℕ × ℕ
slot_or_next c none = (c.next % dns_cache_slots, (c.next + 1) % dns_cache_slots)
slot_or_next c (some slot) = (slot, c.next)

abbrev pub entry_of : ℕ → Bytes → Bytes → Entry
entry_of now name ip = record {
  name = map ascii_lower name;
  ip = ip;
  expiry_ms = (now + dns_cache_ttl_ms) % 2 ^ 64;
  valid = true;
}

unfoldable pub dns_cache_store : ℕ → Bytes → Bytes → Cache → Cache
unfolding bad_name slot_or_next target_loop
dns_cache_store now name ip c =
    let chosen = slot_or_next c (target_loop name 0 none c.slots) in
    if bad_name name
    then c
    else record { slots = set c.slots chosen.0 (entry_of now name ip); next = chosen.1 }
