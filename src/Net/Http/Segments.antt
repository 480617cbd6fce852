-- ===== src/Net/Http/Segments.antt =====
-- How a response is cut into pieces does not matter to `http_feed` of runtime/src/main.rs, once the
-- headers are read.
use mini_agent_os.Base.{
  ℕ, zero, suc, ◌≤◌, false, List, [], ◌∷◌, ◌++◌, some, none, ◌==◌, length, Bytes, ◌≡◌, refl, sym,
  ap, ◌∙◌, arith, Bool-cases, inl, inr,
}
use mini_agent_os.Net.Http.{Http, Round, size_byte, feed_round, feed_loop, http_feed}
use mini_agent_os.Net.Http.Steps.{
  body_byte, chunk_byte, crlf_byte, byte_step, steps, steps-append, Ready, Follows, stuck_steps,
  size_Follows, chunk_Follows, crlf_Follows, done_step, body_Follows,
}

-- The rounds behind the headers, by the state.
late_Follows :
    (s : Http) (b : ℕ) (rest : Bytes)
    → Ready s
    → 3 ≤ s.parse_state
    → Follows (feed_round s b rest) s (b ∷ rest) (length rest)
unfolding feed_round
late_Follows s b rest r h =
    let z : (s.parse_state == 0) ≡ false = ground arith in
    let one : (s.parse_state == 1) ≡ false = ground arith in
    let two : (s.parse_state == 2) ≡ false = ground arith in
    elim (Bool-cases (s.parse_state == 3)) [
      | inl e ↦ rw (z, one, two, e) (chunk_Follows s b rest r (ground arith))
      | inr d ↦ elim (Bool-cases (s.parse_state == 4)) [
        | inl e ↦ rw (z, one, two, d, e) (crlf_Follows s b rest r (ground arith))
        | inr e ↦
            let done : 5 ≤ s.parse_state = ground arith in
            rw (z, one, two, d, e) (stuck_steps s (done_step s done) (b ∷ rest))
      ]
    ]

round_Follows :
    (s : Http) (b : ℕ) (rest : Bytes)
    → Ready s
    → Follows (feed_round s b rest) s (b ∷ rest) (length rest)
unfolding feed_round
round_Follows s b rest r =
    let p = r.past in
    let z : (s.parse_state == 0) ≡ false = ground arith in
    elim (Bool-cases (s.parse_state == 1)) [
      | inl e ↦ rw (z, e) (body_Follows s b rest r (ground arith))
      | inr d ↦ elim (Bool-cases (s.parse_state == 2)) [
        | inl e ↦ rw (z, d, e) (size_Follows s b rest r (ground arith))
        | inr e ↦ late_Follows s b rest r (ground arith)
      ]
    ]

loop_steps :
    (fuel : ℕ) (r : Round) (s : Http) (part : Bytes) (n : ℕ)
    → ((t : Http) (left : Bytes)
        → length left ≤ fuel
        → Ready t
        → feed_loop fuel t left ≡ steps t left)
    → n ≤ fuel
    → Follows r s part n
    → elim r.1 [ none ↦ r.0 | some left ↦ feed_loop fuel r.0 left ] ≡ steps s part
loop_steps fuel (t, none) s part n ih h f = sym f
loop_steps fuel (t, some left) s part n ih h f = ih t left (omega (arith, f.1)) f.2 ∙ sym (f.0)

pub feed_loop-steps :
    (fuel : ℕ) (s : Http) (part : Bytes)
    → length part ≤ fuel
    → Ready s
    → feed_loop fuel s part ≡ steps s part
unfolding feed_loop
feed_loop-steps zero s [] h r = refl
feed_loop-steps zero s (b ∷ rest) h r = absurd (omega arith)
feed_loop-steps (suc fuel) s [] h r = refl
feed_loop-steps (suc fuel) s (b ∷ rest) h r =
    loop_steps fuel (feed_round s b rest) s (b ∷ rest) (length rest) (feed_loop-steps fuel)
      (omega arith) (round_Follows s b rest r)

-- A byte keeps a reader that is past the headers so.
Ready-byte_step : (s : Http) (b : ℕ) → Ready s → Ready (byte_step s b)
unfolding byte_step body_byte size_byte chunk_byte crlf_byte
Ready-byte_step s b r =
    let p = r.past in record { past = ground arith; limit = ground arith; lf = ground arith }

pub Ready-steps : (s : Http) (xs : Bytes) → Ready s → Ready (steps s xs)
Ready-steps s [] r = r
Ready-steps s (b ∷ xs) r = Ready-steps (byte_step s b) xs (Ready-byte_step s b r)

pub http_feed-steps : (s : Http) (part : Bytes) → Ready s → http_feed s part ≡ steps s part
unfolding http_feed
http_feed-steps s part r = feed_loop-steps (length part) s part (omega arith) r

abbrev pub feed_all : Http → List Bytes → Http
feed_all s [] = s
feed_all s (part ∷ parts) = feed_all (http_feed s part) parts

abbrev pub joined : List Bytes → Bytes
joined [] = []
joined (part ∷ parts) = part ++ joined parts

feed_all-steps :
    (s : Http) (parts : List Bytes) → Ready s → feed_all s parts ≡ steps s (joined parts)
feed_all-steps s [] r = refl
feed_all-steps s (part ∷ parts) r =
    ap (λ t. feed_all t parts) (http_feed-steps s part r)
    ∙ feed_all-steps (steps s part) parts (Ready-steps s part r)
    ∙ sym (steps-append s part (joined parts))

-- Behind the headers, a response that the network brings in pieces is read as if it had come at
-- once: however it is cut, even inside a size or a line break, the reader ends in the same state
-- and has handed on the same body.
pub feed_all-joined :
    (s : Http) (parts : List Bytes) → Ready s → feed_all s parts ≡ http_feed s (joined parts)
feed_all-joined s parts r = feed_all-steps s parts r ∙ sym (http_feed-steps s (joined parts) r)
