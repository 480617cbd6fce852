-- ===== src/Memory/Written.antt =====
-- What is written from texts of bytes is made of bytes.
use mathlib.Core.List.{reverse}
use mathlib.Core.Path.{subst}
use mini_agent_os.Ascii.{is_space}
use mini_agent_os.Base.{
  ℕ, zero, suc, ◌+◌, ◌-◌, ◌≤◌, ◌<◌, Bool, true, false, ◌&&◌, ◌||◌, [], ◌∷◌, ◌++◌, ◌≡◌, refl, sym,
  ap, ◌∙◌, ◌⊎◌, inl, inr, arith, Option, none, some, ltb, leb, ◌==◌, if◌then◌else◌, length, take,
  All, All-append, Bytes, Bool-cases, Option-cases, codes,
}
use mini_agent_os.Buffer.{Out, index, fresh, has_room, put, copy_bytes, append_copy}
use mini_agent_os.Buffer.Laws.{append_bytes_lem}
use mini_agent_os.Decimal.{digits_into, u64_to_dec}
use mini_agent_os.Decimal.RoundTrip.{IsDigit, digits_into-IsDigit, All-reverse}
use mini_agent_os.Json.OfBytes.{strip-OfBytes, json_extract_string-OfOut}
use mini_agent_os.Json.{json_extract_string}
use mini_agent_os.Ascii.{strip_prefix}
use mini_agent_os.Memory.Compact.{text_or_empty, labelled, page_body}
use mini_agent_os.Memory.Text.{
  ◌<#◌, normalize_loop, normalized_excerpt, append_normalized_excerpt, trim_onto, trim_end,
  ellipsis,
}
use mini_agent_os.Utf8.Table.{IsByte, IsBytes, is_bytes, bytes_of}
use mini_agent_os.Utf8.{copy_utf8_prefix}

-- A text, and what has been written to a buffer.
pub record IsText (s : Bytes) : Type 0 where
  pub bytes : IsBytes s

pub record IsWritten (o : Out) : Type 0 where
  pub bytes : IsBytes o.bytes

pub take-IsBytes : (n : ℕ) (s : Bytes) → IsBytes s → IsBytes (take n s)
take-IsBytes zero s h = tt
take-IsBytes (suc n) [] h = tt
take-IsBytes (suc n) (b ∷ s) h = (h.0, take-IsBytes n s h.1)

pub copy_utf8_prefix-IsBytes : (n : ℕ) (s : Bytes) → IsBytes s → IsBytes (copy_utf8_prefix n s)
unfolding copy_utf8_prefix copy_bytes
copy_utf8_prefix-IsBytes n s h = take-IsBytes _ (take _ s) (take-IsBytes _ s h)

pub literal : {s : Bytes} → is_bytes s ≡ true → IsText s
literal {s} h = record { bytes = bytes_of s h }

pub IsWritten-fresh : {n : ℕ} → IsWritten (fresh n)
IsWritten-fresh = record { bytes = tt }

pub IsWritten-append_copy :
    {o : Out} {s : Bytes} → IsWritten o → IsText s → IsWritten (append_copy o s)
unfolding append_copy copy_bytes
IsWritten-append_copy {o} {s} p q = record {
  bytes = All-append IsByte o.bytes (take _ s) p.bytes (take-IsBytes _ s q.bytes);
}

IsDigit-IsBytes : (s : Bytes) → All IsDigit s → IsBytes s
IsDigit-IsBytes [] h = tt
IsDigit-IsBytes (b ∷ s) h = (omega arith, IsDigit-IsBytes s h.1)

u64_to_dec-IsBytes : (n v : ℕ) → IsBytes (u64_to_dec n v)
unfolding u64_to_dec
u64_to_dec-IsBytes n v = elim (Bool-cases (v == 0)) [
  | inl e ↦ rw e (elim (Bool-cases (ltb 0 n)) [ inl f ↦ rw f (omega arith, tt) | inr f ↦ rw f tt ])
  | inr e ↦
      rw (e, append_bytes_lem (fresh n) (reverse (digits_into 20 v)) (omega arith))
        (take-IsBytes _ (reverse (digits_into 20 v))
          (IsDigit-IsBytes _ (All-reverse _ (digits_into-IsDigit 20 v))))
]

pub IsWritten-number : {o : Out} (n : ℕ) → IsWritten o → IsWritten (o <# n)
unfolding ◌<#◌
IsWritten-number {o} n p = record {
  bytes = All-append IsByte o.bytes _ p.bytes (u64_to_dec-IsBytes (o.capacity - index o) n);
}

-- What one round of the loop leaves.
round-IsBytes :
    (o : Out) (last : Bool) (b : ℕ)
    → IsBytes o.bytes
    → IsByte b
    → IsBytes (if is_space b then if last then o else put o (b' ' ∷ []) else put o (b ∷ [])).bytes
round-IsBytes o last b q h = elim (Bool-cases (is_space b)) [
  | inr e ↦ rw e (All-append IsByte o.bytes (b ∷ []) q (h, tt))
  | inl e ↦ rw e (elim (Bool-cases last) [
    | inl f ↦ rw f q
    | inr f ↦ rw f (All-append IsByte o.bytes (b' ' ∷ []) q (omega arith, tt))
  ])
]

normalize-IsBytes :
    (raw : Bytes) (o : Out) (last : Bool)
    → IsBytes o.bytes
    → IsBytes raw
    → IsBytes (normalize_loop o last raw).bytes
unfolding normalize_loop
normalize-IsBytes [] o last q h = q
normalize-IsBytes (b ∷ raw) o last q h = elim (Bool-cases (has_room o)) [
  | inr e ↦ rw e q
  | inl e ↦ rw e (normalize-IsBytes raw _ (is_space b) (round-IsBytes o last b q h.0) h.1)
]

trim_onto-IsBytes : (b : ℕ) (r : Bytes) → IsByte b → IsBytes r → IsBytes (trim_onto b r)
unfolding trim_onto
trim_onto-IsBytes b [] p q = elim (Bool-cases (is_space b)) [
  | inl e ↦ rw e tt
  | inr e ↦ rw e (p, tt)
]
trim_onto-IsBytes b (c ∷ r) p q = (p, q)

trim-IsBytes : (s : Bytes) → IsBytes s → IsBytes (trim_end s)
unfolding trim_end
trim-IsBytes [] h = tt
trim-IsBytes (b ∷ s) h = trim_onto-IsBytes b (trim_end s) h.0 (trim-IsBytes s h.1)

excerpt-IsBytes : (n : ℕ) (s : Bytes) → IsBytes s → IsBytes (normalized_excerpt n s)
unfolding normalized_excerpt
excerpt-IsBytes n s h =
    let raw = copy_utf8_prefix-IsBytes 192 s h in
    let text = trim_end ((normalize_loop (fresh n) true (copy_utf8_prefix 192 s)).bytes) in
    let text-IsBytes : IsBytes text = trim-IsBytes _ (normalize-IsBytes _ (fresh n) true tt raw) in
    elim (Bool-cases
      (ltb (length (copy_utf8_prefix 192 s)) (length s) && leb (length text + 3) n)) [
        | inl e ↦ rw e (All-append IsByte text ellipsis text-IsBytes (omega arith))
        | inr e ↦ rw e text-IsBytes
      ]

pub IsWritten-excerpt :
    {o : Out} {s : Bytes} → IsWritten o → IsText s → IsWritten (append_normalized_excerpt o s)
unfolding append_normalized_excerpt
IsWritten-excerpt {o} {s} p q =
    IsWritten-append_copy p (record { bytes = excerpt-IsBytes 192 s q.bytes })

pub IsWritten-if :
    (b : Bool) {x y : Out} → IsWritten x → IsWritten y → IsWritten (if b then x else y)
IsWritten-if true p q = p
IsWritten-if false p q = q

pub text-if : (b : Bool) {x y : Bytes} → IsText x → IsText y → IsText (if b then x else y)
text-if true p q = p
text-if false p q = q

pub text-of : {o : Out} → IsWritten o → IsText o.bytes
text-of p = record { bytes = p.bytes }

pub text-if-of :
    (b : Bool) {x y : Out} → IsWritten x → IsWritten y → IsText (if b then x else y).bytes
text-if-of true p q = text-of p
text-if-of false p q = text-of q

pub ruleset writing = (
  text-if-of, IsWritten-fresh, IsWritten-append_copy, IsWritten-number, IsWritten-excerpt,
  IsWritten-if, text-if, text-of, literal, refl,
)

pub extracted : {buf : Bytes} (key : Bytes) (n : ℕ) → IsText buf → IsText (text_or_empty buf key n)
unfolding text_or_empty
extracted {buf} key n h =
    let r = json_extract_string-OfOut buf key (fresh n) h.bytes tt in
    elim (Option-cases (json_extract_string buf key (fresh n))) [
      | inl e ↦ rw (e, text_or_empty) (record { bytes = tt })
      | inr (o, e) ↦ rw (e, text_or_empty) (record { bytes = rw e at r })
    ]

pub IsWritten-labelled :
    {label text : Bytes} {o : Out}
    → IsText label
    → IsText text
    → IsWritten o
    → IsWritten (labelled label text o)
unfolding labelled
IsWritten-labelled l t p = search (writing)

pub body : {result : Bytes} → IsText result → IsText (page_body result)
unfolding page_body
body {result} h =
    let prefix = codes "Fetched URL content preview:\n" in
    let r = strip-OfBytes result prefix h.bytes in
    elim (Option-cases (strip_prefix result prefix)) [
      | inl e ↦ rw (e, page_body) h
      | inr (o, e) ↦ rw (e, page_body) (record { bytes = rw e at r })
    ]

pub ruleset telling = (writing, extracted, IsWritten-labelled, body)
