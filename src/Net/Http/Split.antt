-- ===== src/Net/Http/Split.antt =====
-- Where the headers end, for `http_feed` of runtime/src/main.rs: the blank line is looked for in one
-- piece of the response at a time.
use mathlib.Core.Path.{subst}
use mini_agent_os.Base.{
  ℕ, ◌+◌, true, List, [], ◌∷◌, Option, none, some, leb, ◌==◌, length, Bytes, ◌≡◌, refl, sym, ap,
  ◌∙◌, arith, All, Bool-cases, inl, inr,
}
use mini_agent_os.Net.Http.Segments.{feed_all}
use mini_agent_os.Net.Http.{
  Http, Round, header_max, split_headers, store_header, header_round, stored_whole, feed_round,
  feed_loop, http_feed,
}

-- A reader that waits for the end of the headers, and has handed on what `s` has.
pub record IsWaiting (s t : Http) : Type 0 where
  pub state : t.parse_state ≡ 0
  pub body : t.body ≡ s.body
  pub statuses : t.statuses ≡ s.statuses

stored-IsWaiting :
    (part : Bytes) (s t : Http)
    → IsWaiting s t
    → IsWaiting s (stored_whole (store_header part t) t).0
unfolding store_header
stored-IsWaiting part s t w = elim (Bool-cases (leb (length t.header + length part) header_max)) [
  | inl e ↦ rw e (record { state = w.state; body = w.body; statuses = w.statuses })
  | inr e ↦ rw e (record { state = w.state; body = w.body; statuses = w.statuses })
]

header_round-none :
    (part : Bytes) (t : Http)
    → split_headers part ≡ none
    → header_round t part ≡ stored_whole (store_header part t) t
unfolding header_round
header_round-none part t e = rw (header_round, e) refl

pub feed_round-zero :
    (t : Http) (b : ℕ) (rest : Bytes)
    → t.parse_state ≡ 0
    → feed_round t b rest ≡ header_round t (b ∷ rest)
unfolding feed_round
feed_round-zero t b rest e =
    let z : (t.parse_state == 0) ≡ true = ground arith in rw (feed_round, z) refl

stored_whole_ends : (o : Option Http) (t : Http) → (stored_whole o t).1 ≡ none
stored_whole_ends none t = refl
stored_whole_ends (some u) t = refl

loop_ends :
    (fuel : ℕ) (r : Round)
    → r.1 ≡ none
    → elim r.1 [ none ↦ r.0 | some left ↦ feed_loop fuel r.0 left ] ≡ r.0
loop_ends fuel (t, o) e = rw e refl

-- A round in the headers whose piece does not end them is the last.
http_feed-none :
    (t : Http) (b : ℕ) (rest : Bytes)
    → t.parse_state ≡ 0
    → split_headers (b ∷ rest) ≡ none
    → http_feed t (b ∷ rest) ≡ (stored_whole (store_header (b ∷ rest) t) t).0
unfolding http_feed feed_loop
http_feed-none t b rest h e =
    let round = feed_round-zero t b rest h ∙ header_round-none (b ∷ rest) t e in
    ap (λ (r : Round). elim r.1 [ none ↦ r.0 | some left ↦ feed_loop (length rest) r.0 left ]) round
    ∙ loop_ends (length rest) (stored_whole (store_header (b ∷ rest) t) t)
        (stored_whole_ends (store_header (b ∷ rest) t) t)

feed-IsWaiting :
    (s t : Http) (part : Bytes)
    → split_headers part ≡ none
    → IsWaiting s t
    → IsWaiting s (http_feed t part)
unfolding http_feed feed_loop
feed-IsWaiting s t [] e w = w
feed-IsWaiting s t (b ∷ rest) e w =
    subst (IsWaiting s) (sym (http_feed-none t b rest w.state e))
      (stored-IsWaiting (b ∷ rest) s t w)

pieces-IsWaiting :
    (s t : Http) (parts : List Bytes)
    → IsWaiting s t
    → All (λ part. split_headers part ≡ none) parts
    → IsWaiting s (feed_all t parts)
pieces-IsWaiting s t [] w e = w
pieces-IsWaiting s t (part ∷ parts) w e =
    pieces-IsWaiting s (http_feed t part) parts (feed-IsWaiting s t part e.0 w) e.1

-- While no piece holds the blank line whole, the reader stays in the headers and hands on nothing,
-- whatever the pieces make together: a blank line that two pieces share is missed.
pub feed_all-IsWaiting :
    (s : Http) (parts : List Bytes)
    → s.parse_state ≡ 0
    → All (λ part. split_headers part ≡ none) parts
    → IsWaiting s (feed_all s parts)
feed_all-IsWaiting s parts h e =
    pieces-IsWaiting s s parts (record { state = h; body = refl; statuses = refl }) e
