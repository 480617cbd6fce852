-- ===== src/Net/Http/Steps.antt =====
-- The reader behind the headers, byte by byte: what the rounds of `http_feed` in runtime/src/main.rs
-- take at once.
use mini_agent_os.Ascii.{ascii_lower}
use mini_agent_os.Base.{
  ℕ, zero, suc, ◌+◌, ◌-◌, ◌≤◌, ◌<◌, min, Bool, true, false, ◌&&◌, ◌||◌, not, [], ◌∷◌, ◌++◌,
  append_assoc, none, some, ltb, leb, ◌==◌, if◌then◌else◌, length, take, drop, Bytes, ◌⊎◌, ◌≡◌,
  refl, sym, ap, ◌∙◌, arith, Bool-cases, inl, inr, length-drop,
}
use mini_agent_os.Net.Http.{
  Http, Round, usize_max, received, body_take, body_round, size_byte, chunk_round, crlf_round,
  skip_lf, is_hex, take_chunk, take_body,
}

-- The length that the headers told is reached.
unfoldable pub is_full : ℕ → ℕ → Bool
is_full limit recv = ltb 0 limit && leb limit recv

unfoldable pub body_byte : Http → ℕ → Http
body_byte s b =
    let recv = received s.body_recv 1 in
    if is_full s.heads.content_len s.body_recv then s else record s {
      body = s.body ++ b ∷ [];
      body_recv = recv;
      parse_state = (if is_full s.heads.content_len recv then 5 else s.parse_state);
    }

unfoldable pub chunk_byte : Http → ℕ → Http
chunk_byte s b = if s.chunk_remain == 0 then s else record s {
  body = s.body ++ b ∷ [];
  chunk_remain = s.chunk_remain - 1;
  parse_state = (if s.chunk_remain - 1 == 0 then 4 else s.parse_state);
}

unfoldable pub crlf_byte : Http → ℕ → Http
crlf_byte s b = if b == b'\r' then record s { parse_state = 2 } else s

unfoldable pub byte_step : Http → ℕ → Http
unfolding body_byte size_byte chunk_byte crlf_byte
byte_step s b =
    if s.parse_state == 1
    then body_byte s b
    else if s.parse_state == 2
    then size_byte s b
    else if s.parse_state == 3
    then chunk_byte s b
    else if s.parse_state == 4
    then crlf_byte s b
    else s

abbrev pub steps : Http → Bytes → Http
steps s [] = s
steps s (b ∷ rest) = steps (byte_step s b) rest

pub steps-append : (s : Http) (xs ys : Bytes) → steps s (xs ++ ys) ≡ steps (steps s xs) ys
steps-append s [] ys = refl
steps-append s (b ∷ xs) ys = steps-append (byte_step s b) xs ys

-- A reader that is past the headers: the line feed that it waits for belongs to a size.
pub record Ready (s : Http) : Type 0 where
  pub past : 0 < s.parse_state
  pub limit : s.heads.content_len ≤ usize_max
  pub lf : (s.parse_state == 2 || not s.chunk_expect_lf) ≡ true

-- A reader in a state, with what a round changes.
abbrev pub chunk_at : Http → Bytes → ℕ → ℕ → Http
chunk_at s body left state = record s { body = body; chunk_remain = left; parse_state = state }

abbrev pub body_at : Http → Bytes → ℕ → ℕ → Http
body_at s body recv state = record s { body = body; body_recv = recv; parse_state = state }

-- The bytes of a chunk, one by one.
pub chunk_bulk :
    (m : ℕ) (s : Http) (acc : Bytes) (r left : ℕ) (part : Bytes)
    → suc m ≤ length part
    → r ≡ suc m + left
    → steps (chunk_at s acc r 3) part
      ≡ steps
          (chunk_at s (acc ++ take (suc m) part) left (if left == 0 then 4 else 3))
          (drop (suc m) part)
unfolding byte_step chunk_byte
chunk_bulk m s acc r left [] h k = absurd (omega arith)
chunk_bulk zero s acc r left (b ∷ part) h k =
    let e : (r == 0) ≡ false = ground arith in
    let d : r - 1 ≡ left = omega arith in
    rw e (ap (λ (x : ℕ). steps (chunk_at s (acc ++ b ∷ []) x (if x == 0 then 4 else 3)) part) d)
chunk_bulk (suc m) s acc r left (b ∷ part) h k =
    let e : (r == 0) ≡ false = ground arith in
    let d : (r - 1 == 0) ≡ false = ground arith in
    rw (e, d)
      (chunk_bulk m s (acc ++ b ∷ []) (r - 1) left part (omega arith) (omega arith)
        ∙ ap (λ body. steps (chunk_at s body left (if left == 0 then 4 else 3)) (drop (suc m) part))
            (append_assoc acc (b ∷ []) (take (suc m) part)))

abbrev pub Room : ℕ → ℕ → ℕ → Type 0
Room limit recv m = (limit ≡ 0) ⊎ (recv + m ≤ limit)

is_full-Room : (limit recv m : ℕ) → Room limit recv (suc m) → is_full limit recv ≡ false
unfolding is_full
is_full-Room limit recv m h = ground arith

body_byte-Room :
    (s : Http) (acc : Bytes) (recv b m : ℕ)
    → Room s.heads.content_len recv (suc m)
    → byte_step (body_at s acc recv 1) b
      ≡ body_at s
          (acc ++ b ∷ [])
          (received recv 1)
          (if is_full s.heads.content_len (received recv 1) then 5 else 1)
unfolding byte_step body_byte
body_byte-Room s acc recv b m h = simp (is_full-Room s.heads.content_len recv m h)

-- The bytes of a body, one by one, up to its length.
body_bulk :
    (m : ℕ) (s : Http) (acc : Bytes) (recv new : ℕ) (part : Bytes)
    → suc m ≤ length part
    → Room s.heads.content_len recv (suc m)
    → s.heads.content_len ≤ usize_max
    → new ≡ received recv (suc m)
    → steps (body_at s acc recv 1) part
      ≡ steps
          (body_at s
            (acc ++ take (suc m) part)
            new
            (if is_full s.heads.content_len new then 5 else 1))
          (drop (suc m) part)
body_bulk m s acc recv new [] h k l q = absurd (omega arith)
body_bulk zero s acc recv new (b ∷ part) h k l q =
    ap (λ t. steps t part) (body_byte-Room s acc recv b 0 k)
    ∙ ap
        (λ (x : ℕ).
          steps (body_at s (acc ++ b ∷ []) x (if is_full s.heads.content_len x then 5 else 1)) part)
        (sym q)
body_bulk (suc m) s acc recv new (b ∷ part) h k l q =
    let limit = s.heads.content_len in
    let next = received recv 1 in
    let room : Room limit next (suc m) = elim k [ inl z ↦ inl z | inr r ↦ inr (omega arith) ] in
    let more : new ≡ received next (suc m) = omega arith in
    ap (λ t. steps t part) (body_byte-Room s acc recv b (suc m) k)
    ∙ ap (λ (x : Bool). steps (body_at s (acc ++ b ∷ []) next (if x then 5 else 1)) part)
        (is_full-Room limit next m room)
    ∙ body_bulk m s (acc ++ b ∷ []) next new part (omega arith) room l more
    ∙ ap
        (λ body.
          steps (body_at s body new (if is_full limit new then 5 else 1)) (drop (suc m) part))
        (append_assoc acc (b ∷ []) (take (suc m) part))

-- What a round leaves to do.
abbrev pub Follows : Round → Http → Bytes → ℕ → Type 0
Follows (t, none) s part n = steps s part ≡ t
Follows (t, some left) s part n = (steps s part ≡ steps t left) × (length left ≤ n) × Ready t

-- A reader that is done, or has all that it may take, takes no more.
pub stuck_steps : (s : Http) → ((b : ℕ) → byte_step s b ≡ s) → (xs : Bytes) → steps s xs ≡ s
stuck_steps s h [] = refl
stuck_steps s h (b ∷ xs) = ap (λ t. steps t xs) (h b) ∙ stuck_steps s h xs

pub size_Follows :
    (s : Http) (b : ℕ) (rest : Bytes)
    → Ready s
    → s.parse_state ≡ 2
    → Follows (size_byte s b, some rest) s (b ∷ rest) (length rest)
unfolding byte_step size_byte
size_Follows s b rest r e =
    (simp e, omega arith, record { past = ground arith; limit = ground arith; lf = ground arith })

take_chunk-steps :
    (n : ℕ) (s : Http) (part : Bytes)
    → 0 < n
    → n ≤ length part
    → n ≤ s.chunk_remain
    → s.parse_state ≡ 3
    → steps s part ≡ steps (take_chunk n s part) (drop n part)
unfolding take_chunk
take_chunk-steps zero s part p h k e = absurd (omega arith)
take_chunk-steps (suc m) s part p h k e =
    let left : ℕ = s.chunk_remain - suc m in
    ap (λ x. steps (chunk_at s s.body s.chunk_remain x) part) e
    ∙ chunk_bulk m s s.body s.chunk_remain left part h (omega arith)
    ∙ ap
        (λ x.
          steps (chunk_at s (s.body ++ take (suc m) part) left (if left == 0 then 4 else x))
            (drop (suc m) part))
        (sym e)

Ready-chunk :
    (n : ℕ) (s : Http) (part : Bytes) → Ready s → s.parse_state ≡ 3 → Ready (take_chunk n s part)
unfolding take_chunk
Ready-chunk n s part r e = record { past = ground arith; limit = r.limit; lf = ground arith }

empty_chunk :
    (s : Http) (b : ℕ) → s.parse_state ≡ 3 → (s.chunk_remain == 0) ≡ true → byte_step s b ≡ s
unfolding byte_step chunk_byte
empty_chunk s b e z = simp (e, z)

pub chunk_Follows :
    (s : Http) (b : ℕ) (rest : Bytes)
    → Ready s
    → s.parse_state ≡ 3
    → Follows (chunk_round s (b ∷ rest)) s (b ∷ rest) (length rest)
unfolding chunk_round
chunk_Follows s b rest r e =
    let n : ℕ = min (suc (length rest)) s.chunk_remain in
    elim (Bool-cases (n == 0)) [
      | inl z ↦
          let none_left : (s.chunk_remain == 0) ≡ true = ground arith in
          rw (chunk_round, z) (stuck_steps s (λ x. empty_chunk s x e none_left) (b ∷ rest))
      | inr more ↦
          let some_left : 0 < n = ground arith in
          rw (chunk_round, more)
            (
              take_chunk-steps n s (b ∷ rest) some_left (omega arith) (omega arith) e,
              omega (arith, length-drop n (b ∷ rest)),
              Ready-chunk n s (b ∷ rest) r e,
            )
    ]

Ready-crlf : (s : Http) → Ready s → s.parse_state ≡ 4 → Ready (record s { parse_state = 2 })
Ready-crlf s r e = record { past = omega arith; limit = r.limit; lf = refl }

same_either : (b : Bool) (s : Http) → (if b then s else s) ≡ s
same_either true s = refl
same_either false s = refl

-- The line feed behind a chunk means nothing to the line with the next size.
lf_step : (s : Http) → s.chunk_expect_lf ≡ false → s.parse_state ≡ 2 → byte_step s b'\n' ≡ s
unfolding byte_step size_byte is_hex ascii_lower
lf_step s h e = simp (h, e) (same_either s.chunk_ext s)

skip_lf-steps :
    (s : Http) (rest : Bytes)
    → s.chunk_expect_lf ≡ false
    → s.parse_state ≡ 2
    → steps s rest ≡ steps s (skip_lf rest)
skip_lf-steps s [] h e = refl
skip_lf-steps s (b ∷ rest) h e = elim (Bool-cases (b == b'\n')) [
  | inl lf ↦
      let q : b ≡ b'\n' = ground arith in
      rw lf (ap (λ x. steps (byte_step s x) rest) q ∙ ap (λ t. steps t rest) (lf_step s h e))
  | inr other ↦ rw other refl
]

length-skip_lf : (s : Bytes) → length (skip_lf s) ≤ length s
length-skip_lf [] = omega arith
length-skip_lf (b ∷ s) = ground arith

pub crlf_Follows :
    (s : Http) (b : ℕ) (rest : Bytes)
    → Ready s
    → s.parse_state ≡ 4
    → Follows (crlf_round s b rest) s (b ∷ rest) (length rest)
unfolding crlf_round byte_step crlf_byte
crlf_Follows s b rest r e =
    let lf : s.chunk_expect_lf ≡ false = ground arith in
    elim (Bool-cases (b == b'\r')) [
      | inl cr ↦
          let first : byte_step s b ≡ record s { parse_state = 2 } = simp (e, cr) in
          rw cr (
            ap (λ t. steps t rest) first
                ∙ skip_lf-steps (record s { parse_state = 2 }) rest lf refl,
            length-skip_lf rest,
            Ready-crlf s r e,
          )
      | inr other ↦
          let first : byte_step s b ≡ s = simp (e, other) in
          rw other (ap (λ t. steps t rest) first, omega arith, r)
    ]

pub done_step : (s : Http) → 5 ≤ s.parse_state → (b : ℕ) → byte_step s b ≡ s
unfolding byte_step
done_step s h b = ground arith

pub full_step :
    (s : Http) (b : ℕ)
    → s.parse_state ≡ 1
    → is_full s.heads.content_len s.body_recv ≡ true
    → byte_step s b ≡ s
unfolding byte_step body_byte
full_step s b e f = simp (e, f)

pub take_body-steps :
    (n : ℕ) (s : Http) (part : Bytes)
    → 0 < n
    → n ≤ length part
    → Room s.heads.content_len s.body_recv n
    → s.heads.content_len ≤ usize_max
    → s.parse_state ≡ 1
    → steps s part
      ≡ steps
          (body_at s
            (s.body ++ take n part)
            (received s.body_recv n)
            (if is_full s.heads.content_len (received s.body_recv n) then 5 else 1))
          (drop n part)
take_body-steps zero s part p h k l e = absurd (omega arith)
take_body-steps (suc m) s part p h k l e =
    ap (λ x. steps (body_at s s.body s.body_recv x) part) e
    ∙ body_bulk m s s.body s.body_recv (received s.body_recv (suc m)) part h k l refl

take_body-Follows :
    (n : ℕ) (s : Http) (b : ℕ) (rest : Bytes)
    → Ready s
    → s.parse_state ≡ 1
    → 0 < n
    → n ≤ suc (length rest)
    → Room s.heads.content_len s.body_recv n
    → Follows (take_body n s (b ∷ rest)) s (b ∷ rest) (length rest)
unfolding take_body is_full
take_body-Follows n s b rest r e p h k =
    let limit : ℕ = s.heads.content_len in
    let recv : ℕ = received s.body_recv n in
    let body : Bytes = s.body ++ take n (b ∷ rest) in
    let left : Bytes = drop n (b ∷ rest) in
    let bulk = take_body-steps n s (b ∷ rest) p h k r.limit e in
    elim (Bool-cases (ltb 0 limit && leb limit recv)) [
      | inl full ↦ rw full (
          bulk
          ∙ ap (λ (x : Bool). steps (body_at s body recv (if x then 5 else 1)) left) full
          ∙ stuck_steps (body_at s body recv 5) (done_step (body_at s body recv 5) (omega arith))
              left)
      | inr more ↦ rw more (
        bulk
            ∙ ap (λ (x : Bool). steps (body_at s body recv (if x then 5 else 1)) left) more
            ∙ ap (λ x. steps (body_at s body recv x) left) (sym e),
        omega (arith, length-drop n (b ∷ rest)),
        record { past = r.past; limit = r.limit; lf = r.lf },
      )
    ]

pub body_Follows :
    (s : Http) (b : ℕ) (rest : Bytes)
    → Ready s
    → s.parse_state ≡ 1
    → Follows (body_round s (b ∷ rest)) s (b ∷ rest) (length rest)
unfolding body_round body_take is_full
body_Follows s b rest r e =
    let n : ℕ = body_take s (b ∷ rest) in
    let limit : ℕ = s.heads.content_len in
    elim (Bool-cases (n == 0)) [
      | inl z ↦
          let full : is_full limit s.body_recv ≡ true = ground arith in
          rw z (stuck_steps s (λ x. full_step s x e full) (b ∷ rest))
      | inr more ↦
          let some : 0 < n = ground arith in
          let fits : n ≤ suc (length rest) = ground arith in
          let room : Room limit s.body_recv n = ground arith in
          rw more (take_body-Follows n s b rest r e some fits room)
    ]
