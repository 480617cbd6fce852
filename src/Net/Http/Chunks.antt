-- ===== src/Net/Http/Chunks.antt =====
-- What `http_feed` of runtime/src/main.rs hands on of a body in chunks.
use mini_agent_os.Ascii.{ascii_lower}
use mini_agent_os.Base.{
  ℕ, suc, ◌+◌, ◌*◌, ◌%◌, ◌^◌, ◌≤◌, ◌<◌, Bool, true, false, List, [], ◌∷◌, ◌++◌, append_assoc,
  append-nil, ◌==◌, if◌then◌else◌, length, drop, Bytes, ◌≡◌, ◌≢◌, refl, sym, ap, ◌∙◌, arith, All,
  length-append, take-append_self, drop-append_self,
}
use mini_agent_os.Net.Http.Segments.{feed_all, feed_all-joined, http_feed-steps, joined}
use mini_agent_os.Net.Http.Steps.{
  byte_step, crlf_byte, chunk_at, chunk_bulk, steps, Ready, done_step, stuck_steps,
}
use mini_agent_os.Net.Http.{Http, http_feed, usize_max, hex_val, is_hex, size_byte}

-- The number that hexadecimal digits spell, with no bound.
abbrev pub hex_value : ℕ → Bytes → ℕ
hex_value v [] = v
hex_value v (b ∷ digits) = hex_value (v * 16 + hex_val b) digits

-- A chunk: the digits of its size, an extension, and its bytes.
pub record Chunk : Type 0 where
  pub size : Bytes
  pub ext : Bytes
  pub payload : Bytes

-- An extension begins with a semicolon and goes on to the end of the line.
abbrev pub IsExt : Bytes → Type 0
IsExt [] = Unit
IsExt (b ∷ ext) = (b ≡ b';') × All (λ c. c ≢ b'\r') ext

abbrev pub IsHex : Bytes → Type 0
IsHex digits = All (λ b. is_hex b ≡ true) digits

pub record IsChunk (c : Chunk) : Type 0 where
  pub size : IsHex c.size
  pub ext : IsExt c.ext
  pub value : hex_value 0 c.size ≡ length c.payload
  pub fits : length c.payload ≤ usize_max
  pub some : 0 < length c.payload

abbrev pub crlf : Bytes
crlf = b'\r' ∷ b'\n' ∷ []

-- Chunks as they stand in a body, and the bytes behind them.
abbrev pub chunked : List Chunk → Bytes → Bytes
chunked [] rest = rest
chunked (c ∷ cs) rest = c.size ++ c.ext ++ crlf ++ (c.payload ++ (crlf ++ chunked cs rest))

abbrev pub payloads : List Chunk → Bytes
payloads [] = []
payloads (c ∷ cs) = c.payload ++ payloads cs

-- A reader inside the line with a size.
abbrev sized : Http → Bytes → ℕ → ℕ → Bool → Bool → Http
sized s body left v digit ext = record s {
  body = body;
  chunk_remain = left;
  chunk_parse = v;
  chunk_have_digit = digit;
  chunk_ext = ext;
  chunk_expect_lf = false;
  parse_state = 2;
}

-- A reader before such a line.
abbrev pub at_size : Http → Bytes → ℕ → Http
at_size s body left = sized s body left 0 false false

-- A reader behind it.
abbrev pub opened : Http → Bytes → ℕ → Http
opened s body size = record (at_size s body size) { parse_state = (if size == 0 then 5 else 3) }

ext_step :
    (s : Http) (acc : Bytes) (r v : ℕ) (d : Bool) (b : ℕ)
    → b ≢ b'\r'
    → byte_step (sized s acc r v d true) b ≡ sized s acc r v d true
unfolding byte_step size_byte
ext_step s acc r v d b h = let e : (b == b'\r') ≡ false = ground arith in rw e refl

ext_rest :
    (s : Http) (acc : Bytes) (r v : ℕ) (d : Bool) (ext rest : Bytes)
    → All (λ c. c ≢ b'\r') ext
    → steps (sized s acc r v d true) (ext ++ crlf ++ rest) ≡ steps (opened s acc v) rest
unfolding byte_step size_byte
ext_rest s acc r v d [] rest h = refl
ext_rest s acc r v d (b ∷ ext) rest h =
    ap (λ t. steps t (ext ++ crlf ++ rest)) (ext_step s acc r v d b h.0)
    ∙ ext_rest s acc r v d ext rest h.1

ext_line :
    (s : Http) (acc : Bytes) (r v : ℕ) (d : Bool) (ext rest : Bytes)
    → IsExt ext
    → steps (sized s acc r v d false) (ext ++ crlf ++ rest) ≡ steps (opened s acc v) rest
unfolding byte_step size_byte
ext_line s acc r v d [] rest h = refl
ext_line s acc r v d (b ∷ ext) rest h =
    ap (λ x. steps (byte_step (sized s acc r v d false) x) (ext ++ crlf ++ rest)) h.0
    ∙ ext_rest s acc r v d ext rest h.1

hex_value_grows : (v : ℕ) (digits : Bytes) → v ≤ hex_value v digits
hex_value_grows v [] = omega arith
hex_value_grows v (b ∷ digits) = omega (arith, hex_value_grows (v * 16 + hex_val b) digits)

digit_step :
    (s : Http) (acc : Bytes) (r v : ℕ) (d : Bool) (b : ℕ)
    → is_hex b ≡ true
    → v * 16 ≤ usize_max
    → byte_step (sized s acc r v d false) b ≡ sized s acc r (v * 16 + hex_val b) true false
unfolding byte_step size_byte is_hex ascii_lower
digit_step s acc r v d b h k =
    let cr : (b == b'\r') ≡ false = ground arith in
    let semi : (b == b';') ≡ false = ground arith in
    let e : v * 16 % 2 ^ 64 ≡ v * 16 = omega arith in simp (cr, semi, h, e)

size_line :
    (s : Http) (acc : Bytes) (r v : ℕ) (d : Bool) (size ext rest : Bytes)
    → IsHex size
    → IsExt ext
    → hex_value v size ≤ usize_max
    → steps (sized s acc r v d false) (size ++ ext ++ crlf ++ rest)
      ≡ steps (opened s acc (hex_value v size)) rest
size_line s acc r v d [] ext rest h x k = ext_line s acc r v d ext rest x
size_line s acc r v d (b ∷ size) ext rest h x k =
    let grows = hex_value_grows (v * 16 + hex_val b) size in
    ap (λ t. steps t (size ++ ext ++ crlf ++ rest)) (digit_step s acc r v d b h.0 (omega arith))
    ∙ size_line s acc r (v * 16 + hex_val b) true size ext rest h.1 x k

next_size :
    (s : Http) (acc rest : Bytes) (n : ℕ)
    → steps (chunk_at (at_size s acc n) acc 0 4) (crlf ++ rest) ≡ steps (at_size s acc 0) rest
unfolding byte_step crlf_byte size_byte is_hex ascii_lower
next_size s acc rest n = refl

-- The bytes of a chunk, and the line break behind them.
payload_line :
    (s : Http) (acc payload rest : Bytes)
    → 0 < length payload
    → steps (opened s acc (length payload)) (payload ++ (crlf ++ rest))
      ≡ steps (at_size s (acc ++ payload) 0) rest
payload_line s acc [] rest h = absurd (omega arith)
payload_line s acc (b ∷ payload) rest h =
    let n : ℕ = suc (length payload) in
    let e : (n == 0) ≡ false = ground arith in
    let part : Bytes = (b ∷ payload) ++ (crlf ++ rest) in
    let body : Bytes = acc ++ b ∷ payload in
    ap (λ (x : Bool). steps (record (at_size s acc n) { parse_state = (if x then 5 else 3) }) part)
      e
    ∙ chunk_bulk (length payload) (at_size s acc n) acc n 0 part
        (omega (arith, length-append payload (crlf ++ rest))) (omega arith)
    ∙ ap (λ (x : Bytes). steps (chunk_at (at_size s acc n) (acc ++ x) 0 4) (drop n part))
        (take-append_self (b ∷ payload) (crlf ++ rest))
    ∙ ap (λ (x : Bytes). steps (chunk_at (at_size s acc n) body 0 4) x)
        (drop-append_self (b ∷ payload) (crlf ++ rest))
    ∙ next_size s body rest n

chunk_line :
    (s : Http) (acc : Bytes) (r : ℕ) (c : Chunk) (rest : Bytes)
    → IsChunk c
    → steps (at_size s acc r) (c.size ++ c.ext ++ crlf ++ (c.payload ++ (crlf ++ rest)))
      ≡ steps (at_size s (acc ++ c.payload) 0) rest
chunk_line s acc r c rest h =
    size_line s acc r 0 false c.size c.ext (c.payload ++ (crlf ++ rest)) h.size h.ext
      (omega (arith, h.value, h.fits))
    ∙ ap (λ (x : ℕ). steps (opened s acc x) (c.payload ++ (crlf ++ rest))) h.value
    ∙ payload_line s acc c.payload rest h.some

-- The last chunk has no bytes; it is known by its size.
pub record IsLast (size ext : Bytes) : Type 0 where
  pub hex : IsHex size
  pub extension : IsExt ext
  pub value : hex_value 0 size ≡ 0

last_line :
    (s : Http) (acc : Bytes) (r : ℕ) (size ext trailer : Bytes)
    → IsLast size ext
    → steps (at_size s acc r) (size ++ ext ++ crlf ++ trailer) ≡ opened s acc 0
last_line s acc r size ext trailer h =
    size_line s acc r 0 false size ext trailer h.hex h.extension (omega (arith, h.value))
    ∙ ap (λ (x : ℕ). steps (opened s acc x) trailer) h.value
    ∙ stuck_steps (opened s acc 0) (done_step (opened s acc 0) (omega arith)) trailer

-- A body in chunks, whole.
abbrev pub chunked_body : List Chunk → Bytes → Bytes → Bytes → Bytes
chunked_body cs size ext trailer = chunked cs (size ++ ext ++ crlf ++ trailer)

chunks_line :
    (s : Http) (acc : Bytes) (r : ℕ) (cs : List Chunk) (size ext trailer : Bytes)
    → All IsChunk cs
    → IsLast size ext
    → steps (at_size s acc r) (chunked_body cs size ext trailer) ≡ opened s (acc ++ payloads cs) 0
chunks_line s acc r [] size ext trailer h z =
    last_line s acc r size ext trailer z ∙ ap (λ x. opened s x 0) (sym (append-nil acc))
chunks_line s acc r (c ∷ cs) size ext trailer h z =
    chunk_line s acc r c (chunked_body cs size ext trailer) h.0
    ∙ chunks_line s (acc ++ c.payload) 0 cs size ext trailer h.1 z
    ∙ ap (λ x. opened s x 0) (append_assoc acc c.payload (payloads cs))

Ready-at_size :
    (s : Http) (left : ℕ) → s.heads.content_len ≤ usize_max → Ready (at_size s s.body left)
Ready-at_size s left h = record { past = omega arith; limit = h; lf = refl }

-- A reader that stands before a body in chunks hands on the bytes of the chunks, all of them and
-- nothing else, and is then done. The sizes may be written in digits of either case, with zeros in
-- front and an extension behind; a last chunk of size zero ends the body, whatever follows it; and
-- the network may cut the text anywhere.
pub feed_all-chunked_body :
    (s : Http) (left : ℕ) (parts : List Bytes) (cs : List Chunk) (size ext trailer : Bytes)
    → s.heads.content_len ≤ usize_max
    → All IsChunk cs
    → IsLast size ext
    → joined parts ≡ chunked_body cs size ext trailer
    → feed_all (at_size s s.body left) parts ≡ opened s (s.body ++ payloads cs) 0
feed_all-chunked_body s left parts cs size ext trailer l h z e =
    let start : Http = at_size s s.body left in
    let r = Ready-at_size s left l in
    feed_all-joined start parts r
    ∙ ap (http_feed start) e
    ∙ http_feed-steps start (chunked_body cs size ext trailer) r
    ∙ chunks_line s s.body left cs size ext trailer h z
