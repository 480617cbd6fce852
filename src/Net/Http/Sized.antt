-- ===== src/Net/Http/Sized.antt =====
-- What `http_feed` of runtime/src/main.rs hands on of a body whose length the headers tell, or which
-- ends with the connection.
use mini_agent_os.Base.{
  ℕ, zero, suc, ◌≤◌, ◌<◌, Bool, true, false, List, [], ◌∷◌, ◌++◌, append-nil, ◌==◌, if◌then◌else◌,
  leb, length, take, drop, Bytes, ◌≡◌, refl, sym, ap, ◌∙◌, arith, Bool-cases, not, inl, inr,
  take_all,
}
use mini_agent_os.Net.Http.Segments.{feed_all, feed_all-joined, http_feed-steps, joined}
use mini_agent_os.Net.Http.Steps.{
  steps, Ready, Room, is_full, body_at, done_step, stuck_steps, take_body-steps,
}
use mini_agent_os.Net.Http.{Http, received, usize_max}

-- The bytes of the body among those that come: all if no length is told, or the length 0.
abbrev pub told : ℕ → Bytes → Bytes
told limit xs = if limit == 0 then xs else take limit xs

-- A reader that stands before such a body.
abbrev pub at_body : Http → Http
at_body s = body_at s s.body 0 1

drop_all : (n : ℕ) (xs : Bytes) → length xs ≤ n → drop n xs ≡ []
drop_all zero [] h = refl
drop_all zero (x ∷ xs) h = absurd (omega arith)
drop_all (suc n) [] h = refl
drop_all (suc n) (x ∷ xs) h = drop_all n xs (omega arith)

took_body :
    (n state : ℕ) (s : Http) (xs left : Bytes)
    → left ≡ []
    → (steps (body_at s (s.body ++ take n xs) (received 0 n) state) left).body ≡ s.body ++ take n xs
took_body n state s xs left e =
    ap (λ (y : Bytes). (steps (body_at s (s.body ++ take n xs) (received 0 n) state) y).body) e

-- A body of which no more has come than its length.
short_body :
    (s : Http) (xs : Bytes)
    → 0 < length xs
    → Room s.heads.content_len 0 (length xs)
    → s.heads.content_len ≤ usize_max
    → (steps (at_body s) xs).body ≡ s.body ++ xs
short_body s xs p k l =
    let n : ℕ = length xs in
    ap (λ (t : Http). t.body) (take_body-steps n (at_body s) xs p (omega arith) k l refl)
    ∙ took_body n _ s xs (drop n xs) (drop_all n xs (omega arith))
    ∙ ap (◌++◌ s.body) (take_all n xs (omega arith))

-- A body of which all has come.
long_body :
    (s : Http) (xs : Bytes)
    → 0 < s.heads.content_len
    → s.heads.content_len ≤ length xs
    → s.heads.content_len ≤ usize_max
    → (steps (at_body s) xs).body ≡ s.body ++ take s.heads.content_len xs
unfolding is_full
long_body s xs p k l =
    let n : ℕ = s.heads.content_len in
    let left : Bytes = drop n xs in
    let body : Bytes = s.body ++ take n xs in
    let full : is_full n (received 0 n) ≡ true = ground arith in
    let done : Http = body_at s body (received 0 n) 5 in
    ap (λ (t : Http). t.body)
      (take_body-steps n (at_body s) xs p k (inr (omega arith)) l refl
        ∙ ap (λ (x : Bool). steps (body_at s body (received 0 n) (if x then 5 else 1)) left) full
        ∙ stuck_steps done (done_step done (omega arith)) left)

told_nil : (limit : ℕ) → told limit [] ≡ []
told_nil limit = elim (Bool-cases (limit == 0)) [
  | inl z ↦ rw z refl
  | inr more ↦ rw more (take_all limit [] (omega arith))
]

sized_body :
    (s : Http) (b : ℕ) (xs : Bytes)
    → 0 < s.heads.content_len
    → s.heads.content_len ≤ usize_max
    → (steps (at_body s) (b ∷ xs)).body ≡ s.body ++ take s.heads.content_len (b ∷ xs)
sized_body s b xs p l = elim (Bool-cases (leb s.heads.content_len (suc (length xs)))) [
  | inl e ↦ long_body s (b ∷ xs) p (ground arith) l
  | inr e ↦
      let fits : suc (length xs) ≤ s.heads.content_len = ground arith in
      short_body s (b ∷ xs) (omega arith) (inr (omega arith)) l
      ∙ ap (◌++◌ s.body) (sym (take_all s.heads.content_len (b ∷ xs) fits))
]

steps-told :
    (s : Http) (xs : Bytes)
    → s.heads.content_len ≤ usize_max
    → (steps (at_body s) xs).body ≡ s.body ++ told s.heads.content_len xs
steps-told s [] l = sym (append-nil s.body) ∙ ap (◌++◌ s.body) (sym (told_nil s.heads.content_len))
steps-told s (b ∷ xs) l = elim (Bool-cases (s.heads.content_len == 0)) [
  | inl z ↦ rw z (short_body s (b ∷ xs) (omega arith) (inl (ground arith)) l)
  | inr more ↦ rw more (sized_body s b xs (ground arith) l)
]

Ready-at_body :
    (s : Http) → s.heads.content_len ≤ usize_max → s.chunk_expect_lf ≡ false → Ready (at_body s)
Ready-at_body s l e = record { past = omega arith; limit = l; lf = ap not e }

-- A reader that stands before a body that is not chunked hands on its bytes as they come: as many
-- as the headers told, and all of them if they told no length or the length 0, however the network
-- cuts them.
pub feed_all-told :
    (s : Http) (parts : List Bytes)
    → s.heads.content_len ≤ usize_max
    → s.chunk_expect_lf ≡ false
    → (feed_all (at_body s) parts).body ≡ s.body ++ told s.heads.content_len (joined parts)
feed_all-told s parts l e =
    let r = Ready-at_body s l e in
    ap (λ (t : Http). t.body)
      (feed_all-joined (at_body s) parts r ∙ http_feed-steps (at_body s) (joined parts) r)
    ∙ steps-told s (joined parts) l
