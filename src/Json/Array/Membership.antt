-- ===== src/Json/Array/Membership.antt =====
-- What `json_string_array_contains` answers for a list of plain strings.
use mini_agent_os.Ascii.{is_space, skip_spaces}
use mini_agent_os.Base.{
  Bool, true, false, ◌||◌, List, [], ◌∷◌, ◌++◌, ◌≡◌, ◌↔◌, ◌⊎◌, refl, ap, ◌∙◌, arith, Option, none,
  some, ◌==◌, if◌then◌else◌, All, Bytes, bytes_eq, bytes_eq_iff, Bool-cases, inl, inr,
}
use mini_agent_os.Json.Array.{
  advance, complete, array_items, array_string, json_string_array_contains,
}
use mini_agent_os.Json.Find.{IsPlain}
use mini_agent_os.Json.{expect, json_find_key}

-- The array behind its bracket, written without spaces.
abbrev pub tail_text : List Bytes → Bytes → Bytes
tail_text [] rest = b']' ∷ rest
tail_text (v ∷ vs) rest = b',' ∷ b'"' ∷ v ++ (b'"' ∷ tail_text vs rest)

abbrev pub items_text : List Bytes → Bytes → Bytes
items_text [] rest = b']' ∷ rest
items_text (v ∷ vs) rest = b'"' ∷ v ++ (b'"' ∷ tail_text vs rest)

abbrev pub member : Bytes → List Bytes → Bool
member want [] = false
member want (v ∷ vs) = bytes_eq want v || member want vs

abbrev matched : Option Bytes → Bytes → Option Bytes
matched left [] = left
matched left (b ∷ v) = matched (advance left b) v

matched-none : (v : Bytes) → complete (matched none v) ≡ false
unfolding complete advance
matched-none [] = refl
matched-none (b ∷ v) = matched-none v

complete-matched : (want v : Bytes) → complete (matched (some want) v) ≡ bytes_eq want v
unfolding complete advance bytes_eq
complete-matched [] [] = refl
complete-matched (w ∷ want) [] = refl
complete-matched [] (b ∷ v) = matched-none v
complete-matched (w ∷ want) (b ∷ v) = elim (Bool-cases (w == b)) [
  | inl e ↦ let f : (b == w) ≡ true = ground arith in rw (e, f) (complete-matched want v)
  | inr e ↦ let f : (b == w) ≡ false = ground arith in rw (e, f) (matched-none v)
]

array_string-plain :
    (want : Bytes) (left : Option Bytes) (v s : Bytes)
    → All IsPlain v
    → array_string want left (v ++ (b'"' ∷ s))
      ≡ (if complete (matched left v) then some true else array_items want s)
unfolding array_string array_items
array_string-plain want left [] s h = elim (Bool-cases (complete left)) [
  | inl e ↦ rw (e, array_string)
  | inr e ↦ rw (e, array_string)
]
array_string-plain want left (b ∷ v) s h =
    let ne = h.0 in
    let e : (b == b'"') ≡ false = ground arith in
    let f : (b == b'\\') ≡ false = ground arith in
    rw (e, f, array_string) (array_string-plain want (advance left b) v s h.1)

array_tail :
    (want : Bytes) (vs : List Bytes) (rest : Bytes)
    → All (All IsPlain) vs
    → array_items want (tail_text vs rest) ≡ some (member want vs)
unfolding array_items is_space
array_tail want [] rest h = refl
array_tail want (v ∷ vs) rest h =
    let first =
      array_string-plain want (some want) v (tail_text vs rest) h.0
      ∙ ap (λ b. if b then some true else array_items want (tail_text vs rest))
          (complete-matched want v) in
    elim (Bool-cases (bytes_eq want v)) [
      | inl e ↦ first ∙ rw e
      | inr e ↦ first ∙ rw e (array_tail want vs rest h.1)
    ]

array_items-items_text :
    (want : Bytes) (vs : List Bytes) (rest : Bytes)
    → All (All IsPlain) vs
    → array_items want (items_text vs rest) ≡ some (member want vs)
unfolding array_items is_space
array_items-items_text want [] rest h = refl
array_items-items_text want (v ∷ vs) rest h = array_tail want (v ∷ vs) rest h

-- The text is one of a list.
abbrev pub IsAmong : Bytes → List Bytes → Type 0
IsAmong want [] = ⊥
IsAmong want (v ∷ vs) = (want ≡ v) ⊎ IsAmong want vs

pub member_iff : (want : Bytes) (vs : List Bytes) → (member want vs ≡ true) ↔ IsAmong want vs
member_iff want [] = ground arith
member_iff want (v ∷ vs) =
    let same = bytes_eq_iff want v in
    let more = member_iff want vs in
    (
      λ h. elim (Bool-cases (bytes_eq want v)) [
        | inl e ↦ inl (same.0 e)
        | inr e ↦ inr (more.0 (rw e at h))
      ],
      λ h. elim h [
        | inl e ↦ rw (same.1 e)
        | inr m ↦ elim (bytes_eq want v) as (λ b. (b || member want vs) ≡ true) [
          | true ↦ refl
          | false ↦ more.1 m
        ]
      ],
    )

-- Behind a key whose value is an array of plain strings (none with a quote or a backslash), the
-- search answers exactly whether the wanted text is one of them.
pub json_string_array_contains-items_text :
    (buf key want : Bytes) (vs : List Bytes) (rest : Bytes)
    → json_find_key key buf ≡ some (b'[' ∷ items_text vs rest)
    → All (All IsPlain) vs
    → json_string_array_contains buf key want ≡ some (member want vs)
unfolding json_string_array_contains skip_spaces is_space expect
json_string_array_contains-items_text buf key want vs rest e h =
    rw e (array_items-items_text want vs rest h)
