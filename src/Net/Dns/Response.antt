-- ===== src/Net/Dns/Response.antt =====
-- What `dns_parse_response` of runtime/src/main.rs reads of a response.
use mini_agent_os.Base.{
  ℕ, zero, suc, ◌+◌, ◌/◌, ◌%◌, ◌≤◌, ◌<◌, Bool, true, false, ◌&&◌, ◌||◌, not, List, [], ◌∷◌, ◌++◌,
  Option, none, some, ltb, ◌==◌, if◌then◌else◌, length, take, drop, Bytes, ◌≡◌, refl, ap, ◌∙◌,
  arith, All, Bool-cases, inl, inr, length-append, take-append_self, drop-append_self,
}
use mini_agent_os.Net.Dns.{
  word, skip_pointer, skip_name_loop, dns_skip_name, DnsAnswer, found, nothing, too_large,
  skip_bytes, skip_questions, read_fixed, read_record, read_records, read_body, dns_parse_response,
}

-- A name as it stands in a message: labels, and a zero or a pointer behind them.
pub record DnsName : Type 0 where
  pub labels : List Bytes
  pub pointer : Option ℕ

-- A pointer has 14 bits.
abbrev pub ending : Option ℕ → Bytes → Bytes
ending none rest = 0 ∷ rest
ending (some p) rest = (192 + p / 256 % 64) ∷ (p % 256) ∷ rest

abbrev pub labels_text : List Bytes → Bytes → Bytes
labels_text [] rest = rest
labels_text (l ∷ ls) rest = length l ∷ (l ++ labels_text ls rest)

-- Each text goes on with `rest`.
abbrev pub name_text : DnsName → Bytes → Bytes
name_text n rest = labels_text n.labels (ending n.pointer rest)

abbrev pub IsLabel : Bytes → Type 0
IsLabel l = (0 < length l) × (length l ≤ 63)

pub record IsName (n : DnsName) : Type 0 where
  pub each : All IsLabel n.labels
  pub few : length n.labels ≤ 128

abbrev pub word_text : ℕ → Bytes → Bytes
word_text n rest = (n / 256) ∷ (n % 256) ∷ rest

pub record Question : Type 0 where
  pub name : DnsName
  pub qtype : ℕ
  pub qclass : ℕ

abbrev pub questions_text : List Question → Bytes → Bytes
questions_text [] rest = rest
questions_text (q ∷ qs) rest =
    name_text q.name (word_text q.qtype (word_text q.qclass (questions_text qs rest)))

-- A record of an answer; its lifetime has two words.
pub record Resource : Type 0 where
  pub name : DnsName
  pub typ : ℕ
  pub class : ℕ
  pub ttl_high : ℕ
  pub ttl_low : ℕ
  pub content : Bytes

abbrev pub fixed_text : Resource → Bytes → Bytes
fixed_text r rest = word_text r.typ (
    word_text r.class
      (word_text r.ttl_high (word_text r.ttl_low (word_text (length r.content) rest))))

abbrev pub resources_text : List Resource → Bytes → Bytes
resources_text [] rest = rest
resources_text (r ∷ rs) rest = name_text r.name (fixed_text r (r.content ++ resources_text rs rest))

pub record IsResource (r : Resource) : Type 0 where
  pub named : IsName r.name
  pub fits : length r.content < 65536

ending_step :
    (room : ℕ) (p : Option ℕ) (rest : Bytes) → skip_name_loop room (ending p rest) ≡ some rest
unfolding skip_name_loop skip_pointer
ending_step zero none rest = refl
ending_step (suc room) none rest = refl
ending_step zero (some p) rest = ground arith
ending_step (suc room) (some p) rest = ground arith

label_step :
    (room : ℕ) (l rest : Bytes)
    → IsLabel l
    → skip_name_loop (suc room) (length l ∷ (l ++ rest)) ≡ skip_name_loop room rest
unfolding skip_name_loop
label_step room l rest h =
    let z : (length l == 0) ≡ false = ground (arith, h) in
    let p : (length l / 64 % 4 == 3) ≡ false = ground (arith, h) in
    let fits : ltb (length (l ++ rest)) (length l) ≡ false = ground (arith, length-append l rest) in
    rw (z, p, fits) (ap (skip_name_loop room) (drop-append_self l rest))

labels_step :
    (ls : List Bytes) (room : ℕ) (p : Option ℕ) (rest : Bytes)
    → All IsLabel ls
    → length ls ≤ room
    → skip_name_loop room (labels_text ls (ending p rest)) ≡ some rest
labels_step [] room p rest h k = ending_step room p rest
labels_step (l ∷ ls) zero p rest h k = absurd (omega arith)
labels_step (l ∷ ls) (suc room) p rest h k =
    label_step room l (labels_text ls (ending p rest)) h.0
    ∙ labels_step ls room p rest h.1 (omega arith)

-- A name is skipped, however it ends.
pub dns_skip_name-name_text :
    (n : DnsName) (rest : Bytes) → IsName n → dns_skip_name (name_text n rest) ≡ some rest
unfolding dns_skip_name
dns_skip_name-name_text n rest h = labels_step n.labels 128 n.pointer rest h.each h.few

skip_questions-text :
    (qs : List Question) (rest : Bytes)
    → All (λ (q : Question). IsName q.name) qs
    → skip_questions (length qs) (questions_text qs rest) ≡ some rest
unfolding skip_questions
skip_questions-text [] rest h = refl
skip_questions-text (q ∷ qs) rest h =
    let behind : Bytes = word_text q.qtype (word_text q.qclass (questions_text qs rest)) in
    let four : skip_bytes 4 (some behind) ≡ some (questions_text qs rest) = ground arith in
    ap (λ (o : Option Bytes). elim o [ none ↦ none | some left ↦ skip_questions (length qs) left ])
      (ap (skip_bytes 4) (dns_skip_name-name_text q.name behind h.0) ∙ four)
    ∙ skip_questions-text qs rest h.1

word_of : (n : ℕ) → word (n / 256) (n % 256) ≡ n
unfolding word
word_of n = omega arith

-- An address of the internet.
abbrev pub is_address : Resource → Bool
is_address r = r.typ == 1 && r.class == 1 && length r.content == 4

abbrev pub first_address : List Resource → DnsAnswer
first_address [] = nothing
first_address (r ∷ rs) = if is_address r then found (r.content) else first_address rs

read_fixed-text :
    (r : Resource) (rest : Bytes)
    → length r.content < 65536
    → read_fixed (fixed_text r rest)
      ≡ some (record { typ = r.typ; class = r.class; rdlen = length r.content }, rest)
unfolding read_fixed
read_fixed-text r rest h = rw (word_of r.typ, word_of r.class, word_of (length r.content)) refl

-- What follows from a record.
abbrev record_answer : Resource → Bytes → DnsAnswer × Option Bytes
record_answer r rest = if is_address r then (found r.content, none) else (nothing, some rest)

abbrev taken : Bytes → DnsAnswer × Option Bytes
taken content = (found content, none)

content_answer :
    (r : Resource) (rest : Bytes)
    → (if ltb (length (r.content ++ rest)) (length r.content)
        then (nothing, none)
        else if is_address r
        then (found (take 4 (r.content ++ rest)), none)
        else (nothing, some (drop (length r.content) (r.content ++ rest))))
      ≡ record_answer r rest
content_answer r rest =
    let content = r.content in
    let all = content ++ rest in
    let fits : ltb (length all) (length content) ≡ false =
      ground (arith, length-append content rest) in
    elim (Bool-cases (is_address r)) [
      | inl a ↦
          let four : 4 ≡ length content = ground (arith, a) in
          rw (fits, a) (ap taken (ap (λ (n : ℕ). take n all) four ∙ take-append_self content rest))
      | inr other ↦
          rw (fits, other) (ap (λ (x : Bytes). (nothing, some x)) (drop-append_self content rest))
    ]

read_record-text :
    (r : Resource) (rest : Bytes)
    → IsResource r
    → read_record (name_text r.name (fixed_text r (r.content ++ rest))) ≡ record_answer r rest
unfolding read_record
read_record-text r rest h =
    let all = r.content ++ rest in
    rw
      (
        read_record,
        dns_skip_name-name_text r.name (fixed_text r all) h.named,
        read_fixed-text r all h.fits,
      )
      (content_answer r rest)

next_answer :
    (n : ℕ) (b : Bool) (content rest : Bytes)
    → (let x : DnsAnswer × Option Bytes =
          if b then (found content, none) else (nothing, some rest) in
        elim x.1 [ none ↦ x.0 | some left ↦ read_records n left ])
      ≡ (if b then found content else read_records n rest)
next_answer n true content rest = refl
next_answer n false content rest = refl

read_records-text :
    (rs : List Resource) (rest : Bytes)
    → All IsResource rs
    → read_records (length rs) (resources_text rs rest) ≡ first_address rs
unfolding read_records
read_records-text [] rest h = refl
read_records-text (r ∷ rs) rest h =
    ap
      (λ (x : DnsAnswer × Option Bytes). elim x.1 [
        | none ↦ x.0
        | some left ↦ read_records (length rs) left
      ])
      (read_record-text r (resources_text rs rest) h.0)
    ∙ next_answer (length rs) (is_address r) r.content (resources_text rs rest)
    ∙ ap (λ (y : DnsAnswer). if is_address r then found r.content else y)
        (read_records-text rs rest h.1)

-- A message: its header, its questions, its answer, and what stands behind them.
pub record Message : Type 0 where
  pub id : ℕ
  pub flags : ℕ
  pub questions : List Question
  pub resources : List Resource
  pub others : ℕ
  pub extras : ℕ

abbrev pub message_text : Message → Bytes → Bytes
message_text m rest = word_text m.id (
    word_text m.flags (
      word_text (length m.questions) (
        word_text (length m.resources) (
          word_text m.others
            (word_text m.extras (questions_text m.questions (resources_text m.resources rest)))))))

pub record IsMessage (m : Message) : Type 0 where
  pub each : All (λ (q : Question). IsName q.name) m.questions
  pub every : All IsResource m.resources

-- What a message answers: a cut message is told, and one that is no answer or an error is passed
-- over.
abbrev pub answer_of : Message → DnsAnswer
answer_of m =
    if m.flags / 0x200 % 2 == 1
    then too_large
    else if m.flags / 0x8000 % 2 == 0 || not (m.flags % 16 == 0)
    then nothing
    else first_address m.resources

read_body-text :
    (m : Message) (rest : Bytes)
    → IsMessage m
    → read_body m.flags
        (length m.questions)
        (length m.resources)
        (questions_text m.questions (resources_text m.resources rest))
      ≡ answer_of m
unfolding read_body
read_body-text m rest h =
    rw
      (
        skip_questions-text m.questions (resources_text m.resources rest) h.each,
        read_records-text m.resources rest h.every,
      )
      refl

-- Of a response to the query that was sent, the first address of the internet among its records is
-- taken, whatever names, other records and trailing bytes stand around it, if it is no error and not
-- cut. Its names have at most 128 labels of at most 63 bytes, and may end in a pointer; its records
-- have less than 65536 bytes each.
pub dns_parse_response-message_text :
    (m : Message) (rest : Bytes) (id : ℕ)
    → IsMessage m
    → dns_parse_response (message_text m rest) id ≡ (if m.id == id then answer_of m else nothing)
unfolding dns_parse_response
dns_parse_response-message_text m rest id h =
    rw
      (
        word_of m.id,
        word_of m.flags,
        word_of (length m.questions),
        word_of (length m.resources),
        read_body-text m rest h,
      )
      refl
