-- ===== src/Net/Http/Whole.antt =====
-- A response from its first line to its last, for `http_reset` and `http_feed` of
-- runtime/src/main.rs: the headers in one piece, and the body behind them.
use mathlib.Core.Path.{subst}
use mini_agent_os.Base.{
  suc, ◌+◌, ◌≤◌, ◌<◌, true, false, List, [], ◌∷◌, ◌++◌, none, some, leb, length, Bytes, ◌≡◌, refl,
  sym, ap, ◌∙◌, arith, All,
}
use mini_agent_os.Net.Http.Begin.{
  Behind, split_headers-Behind, http_parse_headers_fits, heads_of, read_headers,
  read_headers-chunked, read_headers-told, read_headers-IsBegun, Ready-read_headers,
}
use mini_agent_os.Net.Http.Chunks.{
  Chunk, IsChunk, IsLast, opened, payloads, chunked_body, feed_all-chunked_body,
}
use mini_agent_os.Net.Http.Headers.{Heads}
use mini_agent_os.Net.Http.Segments.{feed_all, feed_loop-steps, http_feed-steps, joined}
use mini_agent_os.Net.Http.Sized.{told, feed_all-told}
use mini_agent_os.Net.Http.Split.{feed_round-zero}
use mini_agent_os.Net.Http.{
  Http, Round, header_max, usize_max, split_headers, store_header, http_reset, headers_done,
  header_round, feed_loop, http_feed,
}

-- The piece `part` holds the headers, up to their blank line, and `rest` behind them.
pub record Holds (part head rest : Bytes) : Type 0 where
  pub split : split_headers part ≡ some (head, rest)
  pub fits : length head ≤ header_max

header_round-Holds :
    (s : Http) (part head rest : Bytes)
    → Holds part head rest
    → header_round (http_reset s) part ≡ (read_headers (heads_of s head) s head, some rest)
unfolding header_round store_header headers_done http_reset
header_round-Holds s part head rest h =
    let fits : leb (0 + length head) header_max ≡ true = ground (arith, h.fits) in
    rw (header_round, h.split) (rw (store_header, fits) refl)

http_feed-Holds :
    (s : Http) (part head rest : Bytes)
    → Holds part head rest
    → http_feed (http_reset s) part ≡ http_feed (read_headers (heads_of s head) s head) rest
unfolding http_feed feed_loop http_reset split_headers
http_feed-Holds s [] head rest h = ground (arith, h.split)
http_feed-Holds s (b ∷ more) head rest h =
    let heads = heads_of s head in
    let read = read_headers heads s head in
    let r =
      Ready-read_headers heads s head (http_parse_headers_fits head (http_reset s).heads refl) in
    let shorter : length rest < suc (length more) =
      subst (λ o. Behind o (suc (length more))) h.split (split_headers-Behind (b ∷ more)) in
    let round =
      feed_round-zero (http_reset s) b more refl ∙ header_round-Holds s (b ∷ more) head rest h in
    ap (λ (r : Round). elim r.1 [ none ↦ r.0 | some left ↦ feed_loop (length more) r.0 left ]) round
    ∙ feed_loop-steps (length more) read rest (omega arith) r
    ∙ sym (http_feed-steps read rest r)

-- A response with its headers in the first piece, and its body in the rest of it and behind.
feed_all-Holds :
    (s : Http) (part head rest : Bytes) (parts : List Bytes)
    → Holds part head rest
    → feed_all (http_reset s) (part ∷ parts)
      ≡ feed_all (read_headers (heads_of s head) s head) (rest ∷ parts)
feed_all-Holds s part head rest parts h =
    ap (λ t. feed_all t parts) (http_feed-Holds s part head rest h)

told_fits :
    (s : Http) (head : Bytes)
    → (read_headers (heads_of s head) s head).heads.content_len ≤ usize_max
unfolding http_reset
told_fits s head =
    let begun = read_headers-IsBegun (heads_of s head) s head in
    subst (λ (h : Heads). h.content_len ≤ usize_max) (sym begun.told)
      (http_parse_headers_fits head (http_reset s).heads refl)

-- A transfer whose first piece holds the headers, which tell a body in chunks, hands on the bytes
-- of the chunks, all of them and nothing else, and ends in state 5: wherever the network cuts the
-- body, whatever extensions and zeros its sizes have, and whatever follows the last chunk.
pub http_reset-chunked :
    (s : Http) (part head rest : Bytes) (parts : List Bytes) (cs : List Chunk)
    → (size ext trailer : Bytes) → Holds part head rest
    → (heads_of s head).is_chunked ≡ true
    → All IsChunk cs
    → IsLast size ext
    → rest ++ joined parts ≡ chunked_body cs size ext trailer
    → ((feed_all (http_reset s) (part ∷ parts)).body ≡ s.body ++ payloads cs)
      × ((feed_all (http_reset s) (part ∷ parts)).parse_state ≡ 5)
http_reset-chunked s part head rest parts cs size ext trailer h c v z e =
    let read = read_headers (heads_of s head) s head in
    let begun = read_headers-IsBegun (heads_of s head) s head in
    let all : feed_all (http_reset s) (part ∷ parts) ≡ opened read (read.body ++ payloads cs) 0 =
      feed_all-Holds s part head rest parts h
      ∙ ap (λ t. feed_all t (rest ∷ parts)) (read_headers-chunked (heads_of s head) s head c)
      ∙ feed_all-chunked_body read 0 (rest ∷ parts) cs size ext trailer (told_fits s head) v z e in
    (
      ap (λ (t : Http). t.body) all ∙ ap (λ body. body ++ payloads cs) begun.body,
      ap (λ (t : Http). t.parse_state) all,
    )

-- A transfer whose first piece holds the headers, which tell no chunks, hands on the bytes that
-- follow, however they are cut: as many as the headers tell, and all if they tell no length or the
-- length 0.
pub http_reset-told :
    (s : Http) (part head rest : Bytes) (parts : List Bytes)
    → Holds part head rest
    → (heads_of s head).is_chunked ≡ false
    → (feed_all (http_reset s) (part ∷ parts)).body
      ≡ s.body ++ told (heads_of s head).content_len (rest ++ joined parts)
http_reset-told s part head rest parts h c =
    let read = read_headers (heads_of s head) s head in
    let begun = read_headers-IsBegun (heads_of s head) s head in
    let xs = rest ++ joined parts in
    ap (λ (t : Http). t.body)
      (feed_all-Holds s part head rest parts h
        ∙ ap (λ t. feed_all t (rest ∷ parts)) (read_headers-told (heads_of s head) s head c))
    ∙ feed_all-told read (rest ∷ parts) (told_fits s head) begun.lf
    ∙ ap (λ body. body ++ told read.heads.content_len xs) begun.body
    ∙ ap (λ (h : Heads). s.body ++ told h.content_len xs) begun.told
