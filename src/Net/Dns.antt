-- ===== src/Net/Dns.antt =====
-- Name resolution in runtime/src/main.rs: the messages (`dns_build_query`, `dns_skip_name`,
-- `dns_parse_response`) and, in the child, the cache of answers.
pub mod Cache
pub mod Query
pub mod Response
use mini_agent_os.Base.{
  ℕ, zero, suc, ◌+◌, ◌-◌, ◌*◌, ◌/◌, ◌%◌, Bool, true, false, ◌&&◌, ◌||◌, not, List, [], ◌∷◌, ◌++◌,
  Option, none, some, ltb, leb, ◌==◌, within, if◌then◌else◌, length, take, drop, Bytes,
}

-- A number of 16 bits, the high byte first.
unfoldable pub word : ℕ → ℕ → ℕ
word hi lo = hi * 256 + lo

-- A pointer is two bytes long.
unfoldable pub skip_pointer : Bytes → Option Bytes
skip_pointer [] = none
skip_pointer (b ∷ rest) = some rest

-- `dns_skip_name` on the bytes from `off` on; the source gives up behind the label for which
-- `seen > 128`, so that `room` is 128 at first.
unfoldable pub skip_name_loop : ℕ → Bytes → Option Bytes
skip_name_loop room [] = none
skip_name_loop zero (b ∷ rest) =
    if b == 0 then some rest else if b / 64 % 4 == 3 then skip_pointer rest else none
skip_name_loop (suc room) (b ∷ rest) =
    let more = skip_name_loop room (drop b rest) in
    if b == 0
    then some rest
    else if b / 64 % 4 == 3
    then skip_pointer rest
    else if ltb (length rest) b
    then none
    else more

unfoldable pub dns_skip_name : Bytes → Option Bytes
dns_skip_name buf = skip_name_loop 128 buf

-- What a response tells: an address, nothing, or that it is too large, which `dns_parse_response`
-- stores as the reason of the error.
pub data DnsAnswer : Type 0 where
  found : Bytes → DnsAnswer
  nothing : DnsAnswer
  too_large : DnsAnswer

-- `off + 4 > len`
unfoldable pub skip_bytes : ℕ → Option Bytes → Option Bytes
skip_bytes n none = none
skip_bytes n (some buf) = if ltb (length buf) n then none else some (drop n buf)

unfoldable pub skip_questions : ℕ → Bytes → Option Bytes
unfolding dns_skip_name skip_bytes
skip_questions zero buf = some buf
skip_questions (suc qd) buf = elim (skip_bytes 4 (dns_skip_name buf)) [
  | none ↦ none
  | some rest ↦ skip_questions qd rest
]

-- The fixed part of a record: its type, its class, and the length of its data.
pub record Fixed : Type 0 where
  pub typ : ℕ
  pub class : ℕ
  pub rdlen : ℕ

unfoldable pub read_fixed : Bytes → Option (Fixed × Bytes)
unfolding word
read_fixed (t ∷ u ∷ c ∷ d ∷ e ∷ f ∷ g ∷ h ∷ r ∷ s ∷ rest) =
    some (record { typ = word t u; class = word c d; rdlen = word r s }, rest)
read_fixed buf = none

-- A record of the answer, at the name of which the cursor stands: what follows from it, or the bytes
-- behind it.
unfoldable pub read_record : Bytes → DnsAnswer × Option Bytes
read_record buf = elim (dns_skip_name buf) [
  | none ↦ (nothing, none)
  | some behind ↦ elim (read_fixed behind) [
    | none ↦ (nothing, none)
    | some (fixed, content) ↦
        if ltb (length content) fixed.rdlen
        then (nothing, none)
        else if fixed.typ == 1 && fixed.class == 1 && fixed.rdlen == 4
        then (found (take 4 content), none)
        else (nothing, some (drop fixed.rdlen content))
  ]
]

unfoldable pub read_records : ℕ → Bytes → DnsAnswer
unfolding read_record
read_records zero buf = nothing
read_records (suc an) buf = elim ((read_record buf).1) [
  | none ↦ (read_record buf).0
  | some rest ↦ read_records an rest
]

-- The words of the header.
unfoldable pub read_body : ℕ → ℕ → ℕ → Bytes → DnsAnswer
read_body flags qd an buf =
    if flags / 0x200 % 2 == 1
    then too_large
    else if flags / 0x8000 % 2 == 0 || not (flags % 16 == 0)
    then nothing
    else elim (skip_questions qd buf) [ none ↦ nothing | some rest ↦ read_records an rest ]

unfoldable pub dns_parse_response : Bytes → ℕ → DnsAnswer
dns_parse_response (a ∷ b ∷ c ∷ d ∷ e ∷ f ∷ g ∷ h ∷ i ∷ j ∷ k ∷ l ∷ buf) id =
    if word a b == id then read_body (word c d) (word e f) (word g h) buf else nothing
dns_parse_response buf id = nothing

-- The bytes that a label may have.
unfoldable pub is_label_char : ℕ → Bool
is_label_char b = within b'A' b'Z' b || within b'a' b'z' b || within b'0' b'9' b || b == b'-'

unfoldable pub label_chars : Bytes → Bool
label_chars [] = true
label_chars (b ∷ label) = is_label_char b && label_chars label

-- A label and its length, behind the bytes `out` in a buffer of `cap` bytes.
unfoldable pub put_label : ℕ → Bytes → Bytes → Option Bytes
put_label cap out label =
    let n = length label in
    if n == 0 || ltb 63 n || leb cap (length out + 1 + n)
    then none
    else if label_chars label
    then some (out ++ n ∷ label)
    else none

-- The loop over the name; `label` holds the bytes from `start` on.
unfoldable pub put_labels : ℕ → Bytes → Bytes → Bytes → Option Bytes
unfolding put_label
put_labels cap out label [] = put_label cap out label
put_labels cap out label (b ∷ name) = elim (b == b'.') [
  | true ↦ elim (put_label cap out label) [ none ↦ none | some put ↦ put_labels cap put [] name ]
  | false ↦ put_labels cap out (label ++ b ∷ []) name
]

-- The end of the name, and QTYPE A and QCLASS IN.
unfoldable pub put_end : ℕ → Option Bytes → Bytes
put_end cap none = []
put_end cap (some out) = if ltb cap (length out + 5) then [] else out ++ 0 ∷ 0 ∷ 1 ∷ 0 ∷ 1 ∷ []

-- The query in a buffer of `cap` bytes; the answer 0 of the source is the empty list.
unfoldable pub dns_build_query : ℕ → Bytes → ℕ → Bytes
unfolding put_labels put_end
dns_build_query cap name id =
    let head = id / 256 ∷ id % 256 ∷ 1 ∷ 0 ∷ 0 ∷ 1 ∷ 0 ∷ 0 ∷ 0 ∷ 0 ∷ 0 ∷ 0 ∷ [] in
    if ltb cap 12 then [] else put_end cap (put_labels cap head [] name)
