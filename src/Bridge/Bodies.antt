-- ===== src/Bridge/Bodies.antt =====
-- The bodies sent to the bridge carry their arguments: the runtime's own reader finds each of them,
-- and no argument can pose as another member of the object.
use mini_agent_os.Ascii.{is_space, is_ascii_digit, skip_spaces, strip_prefix}
use mini_agent_os.Base.{
  ℕ, ◌+◌, ◌≤◌, [], ◌∷◌, ◌++◌, ◌≡◌, refl, ◌∙◌, arith, none, some, length, length-append, Bytes,
  codes, All,
}
use mini_agent_os.Bridge.{build_m5_write_body, build_m5_run_python_body}
use mini_agent_os.Buffer.Laws.{Writes, Writes-then, Writes-append_bytes}
use mini_agent_os.Buffer.{Out, index, fresh, put, append_bytes}
use mini_agent_os.Decimal.RoundTrip.{
  decimal, Writes-append_u64_dec, parse_u64-decimal, parse_u64-skip_spaces,
}
use mini_agent_os.Decimal.{u64_max, append_u64_dec}
use mini_agent_os.Json.Escape.RoundTrip.{escaped, append_json_escaped_lem, string_body-escaped}
use mini_agent_os.Json.Escape.{append_json_escaped}
use mini_agent_os.Json.Find.{IsPlain, key_here-none, Long, find_skip, find_found, find_plain}
use mini_agent_os.Json.Injection.{close, find-escaped, after_quote-escaped}
use mini_agent_os.Json.{expect, key_here, json_find_key, json_extract_string, json_extract_u64}
use mini_agent_os.Utf8.Table.{IsByte}

abbrev path_open : Bytes
path_open = codes "{\"path\":\""

abbrev content_open : Bytes
content_open = codes "\"content\":\""

abbrev write_end : Bytes
write_end = codes "\",\"create\":true,\"overwrite\":true}"

-- What stands behind the comma after the path, and the whole text.
abbrev write_tail : Bytes → Bytes
write_tail content = content_open ++ (escaped content ++ write_end)

abbrev pub write_text : Bytes → Bytes → Bytes
write_text path content = path_open ++ (escaped path ++ close (write_tail content))

Writes-escaped : (src : Bytes) → Writes (λ o. append_json_escaped o src) (escaped src)
Writes-escaped src o h = append_json_escaped_lem o src h

-- A member: what stands before its value, the value, and the closing quote in `post`.
Writes-member :
    (pre src post : Bytes)
    → Writes
        (λ o. append_bytes (append_json_escaped (append_bytes o pre) src) post)
        (pre ++ (escaped src ++ post))
Writes-member pre src post o h =
    Writes-then (λ o. append_bytes o pre) (λ o. append_bytes (append_json_escaped o src) post) pre
      (escaped src ++ post) (Writes-append_bytes pre)
      (Writes-then (λ o. append_json_escaped o src) (λ o. append_bytes o post) (escaped src) post
        (Writes-escaped src) (Writes-append_bytes post))
      o h

pub write_body-text :
    (path content : Bytes)
    → Writes (λ o. build_m5_write_body o path content) (write_text path content)
unfolding build_m5_write_body
write_body-text path content o h =
    Writes-then (λ o. append_bytes o path_open)
      (λ o.
        append_bytes
          (append_json_escaped (append_bytes (append_json_escaped o path) (close content_open))
            content)
          write_end)
      path_open (escaped path ++ close (write_tail content)) (Writes-append_bytes path_open)
      (Writes-then (λ o. append_json_escaped o path)
        (λ o.
          append_bytes (append_json_escaped (append_bytes o (close content_open)) content)
            write_end)
        (escaped path) (close (write_tail content)) (Writes-escaped path)
        (Writes-member (close content_open) content write_end))
      o h

-- The searches.
find_path :
    (path t : Bytes)
    → 12 ≤ length t
    → json_find_key (codes "path") (path_open ++ (escaped path ++ close t))
      ≡ some (b'"' ∷ (escaped path ++ close t))
unfolding key_here strip_prefix skip_spaces is_space
find_path path t h =
    let l = length-append (escaped path) (close t) in
    find_plain (codes "path") (b'{' ∷ []) (b'"' ∷ (codes "path\":\"" ++ (escaped path ++ close t)))
      (ground arith) (omega arith)
    ∙ find_found (codes "path") b'"' (codes "path\":\"" ++ (escaped path ++ close t)) _ refl
        (omega arith)

-- Any other key passes over the whole first member, whatever the path holds.
module _ (key : Bytes) (plain : All IsPlain key)
    (not_path : (s : Bytes) → key_here key (b'"' ∷ (codes "path\":\"" ++ s)) ≡ none)
    (not_colon : (s : Bytes) → key_here key (b'"' ∷ (codes ":\"" ++ s)) ≡ none)
    (not_comma : (s : Bytes) → key_here key (b'"' ∷ b',' ∷ s) ≡ none) where
  find_behind_path :
      (path t : Bytes)
      → Long key t
      → json_find_key key (path_open ++ (escaped path ++ close t)) ≡ json_find_key key t
  find_behind_path path t h =
      let e = escaped path ++ close t in
      let l = length-append (escaped path) (close t) in
      find_plain key (b'{' ∷ []) (b'"' ∷ (codes "path\":\"" ++ e)) (ground arith) (omega arith)
      ∙ find_skip key b'"' (codes "path\":\"" ++ e) (not_path e) (omega arith)
      ∙ find_plain key (codes "path") (codes "\":\"" ++ e) (ground arith) (omega arith)
      ∙ find_skip key b'"' (codes ":\"" ++ e) (not_colon e) (omega arith)
      ∙ find_plain key (codes ":") (b'"' ∷ e) (ground arith) (omega arith)
      ∙ find_skip key b'"' e (key_here-none key b'"' e (after_quote-escaped key path t plain))
          (omega arith)
      ∙ find-escaped key plain path t (omega arith)
      ∙ find_skip key b'"' (b',' ∷ t) (not_comma t) (omega arith)
      ∙ find_plain key (b',' ∷ []) t (ground arith) h

find_content :
    (path content : Bytes)
    → json_find_key (codes "content") (write_text path content)
      ≡ some (b'"' ∷ (escaped content ++ write_end))
unfolding key_here strip_prefix skip_spaces is_space
find_content path content =
    let m = length-append (escaped content) write_end in
    find_behind_path (codes "content") (ground arith) (λ s. refl) (λ s. refl) (λ s. refl) path
      (write_tail content) (omega arith)
    ∙ find_found (codes "content") b'"' (codes "content\":\"" ++ (escaped content ++ write_end)) _
        refl (omega arith)

-- Reading a text value behind its key.
extract_value :
    (buf key src tail : Bytes) (out : Out)
    → json_find_key key buf ≡ some (b'"' ∷ (escaped src ++ b'"' ∷ tail))
    → All IsByte src
    → index out + length src ≤ out.capacity
    → json_extract_string buf key out ≡ some (put out src)
unfolding json_extract_string skip_spaces is_space expect
extract_value buf key src tail out e v h = rw e (string_body-escaped out src tail v h)

-- The body of a write request, built in a buffer of `n` bytes that has room for it, yields both
-- arguments: the reader finds exactly the path and exactly the content, whatever bytes they hold,
-- if its own buffer has room for them.
pub extract-build_m5_write_body :
    (n : ℕ) (path content : Bytes) (out : Out)
    → length (write_text path content) ≤ n
    → All IsByte path
    → All IsByte content
    → index out + length path ≤ out.capacity
    → index out + length content ≤ out.capacity
    → (json_extract_string (build_m5_write_body (fresh n) path content).bytes (codes "path") out
        ≡ some (put out path))
      × (json_extract_string
            (build_m5_write_body (fresh n) path content).bytes
            (codes "content")
            out
          ≡ some (put out content))
extract-build_m5_write_body n path content out h vp vc rp rc =
    let m = length-append (escaped content) write_end in
    rw (write_body-text path content (fresh n) (omega arith)) (
      extract_value (write_text path content) (codes "path") path _ out
          (find_path path (write_tail content) (omega arith)) vp rp,
      extract_value (write_text path content) (codes "content") content _ out
          (find_content path content) vc rc,
    )

abbrev timeout_tail : ℕ → Bytes
timeout_tail seconds = codes "\"timeout_sec\":" ++ (decimal seconds ++ codes "}")

abbrev pub run_text : Bytes → ℕ → Bytes
run_text path seconds = path_open ++ (escaped path ++ close (timeout_tail seconds))

pub run_body-text :
    (path : Bytes) (seconds : ℕ)
    → Writes (λ o. build_m5_run_python_body o path seconds) (run_text path seconds)
unfolding build_m5_run_python_body
run_body-text path seconds o h =
    let number = λ (o : Out). append_bytes (append_u64_dec o seconds) (codes "}") in
    let name = codes "\",\"timeout_sec\":" in
    Writes-then (λ o. append_bytes o path_open)
      (λ o. number (append_bytes (append_json_escaped o path) name)) path_open
      (escaped path ++ close (timeout_tail seconds)) (Writes-append_bytes path_open)
      (Writes-then (λ o. append_json_escaped o path) (λ o. number (append_bytes o name))
        (escaped path) (close (timeout_tail seconds)) (Writes-escaped path)
        (Writes-then (λ o. append_bytes o name) number name (decimal seconds ++ codes "}")
          (Writes-append_bytes name)
          (Writes-then (λ o. append_u64_dec o seconds) (λ o. append_bytes o (codes "}"))
            (decimal seconds) (codes "}") (Writes-append_u64_dec seconds)
            (Writes-append_bytes (codes "}")))))
      o h

find_timeout :
    (path : Bytes) (seconds : ℕ)
    → json_find_key (codes "timeout_sec") (run_text path seconds)
      ≡ some (decimal seconds ++ codes "}")
unfolding key_here strip_prefix skip_spaces is_space
find_timeout path seconds =
    let m = length-append (decimal seconds) (codes "}") in
    find_behind_path (codes "timeout_sec") (ground arith) (λ s. refl) (λ s. refl) (λ s. refl) path
      (timeout_tail seconds) (omega arith)
    ∙ find_found (codes "timeout_sec") b'"'
        (codes "timeout_sec\":" ++ (decimal seconds ++ codes "}")) _ refl (omega arith)

-- The body of a run request, built in a buffer that has room for it, yields to the JSON reader
-- exactly the path and exactly the number of seconds, a number below 2^64, if the buffer of the reader has
-- room for the path.
extract-build_m5_run_python_body :
    (n : ℕ) (path : Bytes) (seconds : ℕ) (out : Out)
    → length (run_text path seconds) ≤ n
    → All IsByte path
    → seconds ≤ u64_max
    → index out + length path ≤ out.capacity
    → (json_extract_string
          (build_m5_run_python_body (fresh n) path seconds).bytes
          (codes "path")
          out
        ≡ some (put out path))
      × (json_extract_u64
            (build_m5_run_python_body (fresh n) path seconds).bytes
            (codes "timeout_sec")
          ≡ some seconds)
unfolding json_extract_u64
extract-build_m5_run_python_body n path seconds out h vp m rp =
    rw (run_body-text path seconds (fresh n) (omega arith)) (
      extract_value (run_text path seconds) (codes "path") path _ out
          (find_path path (timeout_tail seconds) (omega arith)) vp rp,
      rw (find_timeout path seconds) (
          parse_u64-skip_spaces (decimal seconds ++ codes "}")
          ∙ parse_u64-decimal seconds (codes "}") m (unfold is_ascii_digit in refl)),
    )
