-- ===== src/Net/Http.antt =====
-- The reader of HTTP responses in runtime/src/main.rs: `http_feed` takes the bytes of a response as
-- the network brings them, piece by piece. The copies by UDP and the dumps on the console that it
-- makes of what it reads are left out.
pub mod Headers
pub mod Steps
pub mod Segments
pub mod Chunks
pub mod Sized
pub mod Split
pub mod Begin
pub mod Whole
use mini_agent_os.Ascii.{ascii_lower, starts_with}
use mini_agent_os.Base.{
  ℕ, zero, suc, ◌+◌, ◌-◌, ◌*◌, ◌%◌, ◌^◌, min, Bool, true, false, ◌&&◌, ◌||◌, List, [], ◌∷◌, ◌++◌,
  Option, none, some, ltb, leb, ◌==◌, within, if◌then◌else◌, length, take, drop, Bytes, codes,
}
use mini_agent_os.Net.Http.Headers.{Heads, http_parse_headers}

-- The statics HTTP_*, what a response has told (`Heads`), and what has become of it: `body` holds the
-- bytes that were handed to `send_body_chunks`, `statuses` those of `send_status`, the latest first.
-- `failed` is the end of the transfer by `FETCH_STATE = FETCH_DONE`.
pub record Http : Type 0 where
  pub header : Bytes
  pub heads : Heads
  pub parse_state : ℕ
  pub body_recv : ℕ
  pub chunk_remain : ℕ
  pub chunk_parse : ℕ
  pub chunk_have_digit : Bool
  pub chunk_ext : Bool
  pub chunk_expect_lf : Bool
  pub status_sent : Bool
  pub statuses : List ℕ
  pub body : Bytes
  pub failed : Bool

abbrev pub header_max : ℕ
header_max = 4096

abbrev pub usize_max : ℕ
usize_max = 2 ^ 64 - 1

unfoldable pub is_hex : ℕ → Bool
is_hex b = within b'0' b'9' b || within b'a' b'f' (ascii_lower b)

unfoldable pub hex_val : ℕ → ℕ
hex_val b = let c = ascii_lower b in if within b'0' b'9' c then c - b'0' else c - b'a' + 10

abbrev pub blank_line : Bytes
blank_line = b'\r' ∷ b'\n' ∷ b'\r' ∷ b'\n' ∷ []

abbrev pub cons_head : ℕ → Option (Bytes × Bytes) → Option (Bytes × Bytes)
cons_head b none = none
cons_head b (some (head, rest)) = some (b ∷ head, rest)

-- The search for the end of the headers: what stands up to it, and what stands behind.
unfoldable pub split_headers : Bytes → Option (Bytes × Bytes)
split_headers [] = none
split_headers (b ∷ s) =
    let more = cons_head b (split_headers s) in
    if starts_with (b ∷ s) blank_line then some (blank_line, drop 3 s) else more

-- Headers that do not fit end the transfer.
unfoldable pub store_header : Bytes → Http → Option Http
store_header part s =
    if leb (length s.header + length part) header_max
    then some (record s { header = s.header ++ part })
    else none

abbrev pub too_large : Http → Http
too_large s = record s {
  heads = record (s.heads) { error_reason = codes "http headers too large" };
  failed = true;
}

-- Before a transfer; what was handed on stays so.
unfoldable pub http_reset : Http → Http
http_reset s = record s {
  header = [];
  heads = record (s.heads) { status = 0; is_chunked = false; content_len = 0; is_json = false };
  parse_state = 0;
  body_recv = 0;
  chunk_remain = 0;
  chunk_parse = 0;
  chunk_have_digit = false;
  chunk_ext = false;
  chunk_expect_lf = false;
  status_sent = false;
}

-- What follows the last line of the headers.
unfoldable pub begin_body : Heads → Http → Http
begin_body heads s =
    let read = record s { heads = heads; parse_state = (if heads.is_chunked then 2 else 1) } in
    if s.status_sent || heads.status == 0
    then read
    else record read { status_sent = true; statuses = heads.status ∷ s.statuses }

unfoldable pub headers_done : Http → Http
unfolding begin_body
headers_done s = begin_body (http_parse_headers s.header s.heads) s

-- A round of the loop answers with what is left of the data, or returns.
abbrev pub Round : Type 0
Round = Http × Option Bytes

abbrev pub stored_whole : Option Http → Http → Round
stored_whole none s = (too_large s, none)
stored_whole (some t) s = (t, none)

abbrev pub stored_end : Bytes → Option Http → Http → Round
stored_end rest none s = (too_large s, none)
stored_end rest (some t) s = (headers_done t, some rest)

unfoldable pub header_round : Http → Bytes → Round
unfolding store_header headers_done
header_round s part = elim (split_headers part) [
  | none ↦ stored_whole (store_header part s) s
  | some split ↦ stored_end (split.1) (store_header (split.0) s) s
]

-- `HTTP_BODY_RECV.saturating_add(take)`
abbrev pub received : ℕ → ℕ → ℕ
received recv n = min usize_max (recv + n)

-- The bytes of a body that ends with the connection, or at its length.
unfoldable pub body_take : Http → Bytes → ℕ
body_take s part =
    let limit = s.heads.content_len in
    let remaining = limit - s.body_recv in
    if ltb 0 limit && ltb remaining (length part) then remaining else length part

unfoldable pub take_body : ℕ → Http → Bytes → Round
take_body n s part =
    let limit = s.heads.content_len in
    let recv = received s.body_recv n in
    let took = record s { body = s.body ++ take n part; body_recv = recv } in
    if ltb 0 limit && leb limit recv
    then (record took { parse_state = 5 }, none)
    else (took, some (drop n part))

unfoldable pub body_round : Http → Bytes → Round
unfolding body_take take_body
body_round s part = let n = body_take s part in if n == 0 then (s, none) else take_body n s part

-- One byte of the line with the size of a chunk. The shifted size leaves room for the digit, so that
-- the `|` of the source is a sum.
unfoldable pub size_byte : Http → ℕ → Http
size_byte s b =
    if s.chunk_expect_lf
    then if b == b'\n'
      then record s {
        chunk_parse = 0;
        chunk_have_digit = false;
        chunk_ext = false;
        chunk_expect_lf = false;
        chunk_remain = s.chunk_parse;
        parse_state = (if s.chunk_parse == 0 then 5 else 3);
      }
      else s
    else if b == b'\r'
    then record s { chunk_expect_lf = true }
    else if s.chunk_ext
    then s
    else if b == b';'
    then record s { chunk_ext = true }
    else if is_hex b
    then record s { chunk_parse = s.chunk_parse * 16 % 2 ^ 64 + hex_val b; chunk_have_digit = true }
    else s

-- The bytes of a chunk.
unfoldable pub take_chunk : ℕ → Http → Bytes → Http
take_chunk n s part = record s {
  body = s.body ++ take n part;
  chunk_remain = s.chunk_remain - n;
  parse_state = (if s.chunk_remain - n == 0 then 4 else s.parse_state);
}

unfoldable pub chunk_round : Http → Bytes → Round
unfolding take_chunk
chunk_round s part =
    let n = min (length part) s.chunk_remain in
    if n == 0 then (s, none) else (take_chunk n s part, some (drop n part))

abbrev pub skip_lf : Bytes → Bytes
skip_lf [] = []
skip_lf (b ∷ rest) = if b == b'\n' then rest else b ∷ rest

-- The line break behind a chunk.
unfoldable pub crlf_round : Http → ℕ → Bytes → Round
crlf_round s b rest =
    if b == b'\r' then (record s { parse_state = 2 }, some (skip_lf rest)) else (s, some rest)

-- One round, by HTTP_PARSE_STATE.
unfoldable pub feed_round : Http → ℕ → Bytes → Round
unfolding header_round body_round size_byte chunk_round crlf_round
feed_round s b rest =
    if s.parse_state == 0
    then header_round s (b ∷ rest)
    else if s.parse_state == 1
    then body_round s (b ∷ rest)
    else if s.parse_state == 2
    then (size_byte s b, some rest)
    else if s.parse_state == 3
    then chunk_round s (b ∷ rest)
    else if s.parse_state == 4
    then crlf_round s b rest
    else (s, none)

-- The loop; each round that goes on takes at least one byte.
unfoldable pub feed_loop : ℕ → Http → Bytes → Http
feed_loop zero s part = s
feed_loop (suc fuel) s [] = s
feed_loop (suc fuel) s (b ∷ rest) = elim ((feed_round s b rest).1) [
  | none ↦ (feed_round s b rest).0
  | some left ↦ feed_loop fuel (feed_round s b rest).0 left
]

unfoldable pub http_feed : Http → Bytes → Http
http_feed s part = feed_loop (length part) s part
