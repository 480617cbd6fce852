-- ===== src/Tests/Text.antt =====
-- Runs of the byte-level modules.
use mini_agent_os.Ascii.{is_space, hex_lower, hex_nibble, skip_spaces, strip_prefix}
use mini_agent_os.Base.{
  ◌≤◌, [], ◌∷◌, ◌++◌, ◌≡◌, ◌↔◌, refl, inl, arith, some, Bytes, codes, length, take, min,
}
use mini_agent_os.Bridge.Bodies.{extract-build_m5_write_body}
use mini_agent_os.Bridge.{build_m5_write_body}
use mini_agent_os.Buffer.{fresh, put, append_byte}
use mini_agent_os.Decimal.RoundTrip.{parse_u64-u64_to_dec}
use mini_agent_os.Decimal.{append_u64_dec, parse_u64, u64_to_dec}
use mini_agent_os.Json.Escape.{json_escape_append, json_escape_loop, escape_byte, escape_char}
use mini_agent_os.Json.{
  expect, json_find_key, json_extract_string, string_body, hex_codepoint, unescape,
}
use mini_agent_os.Utf8.Decode.{utf8_seq_len_iff, StartsWithChar}
use mini_agent_os.Utf8.Encode.{append_utf8_codepoint_surrogate}
use mini_agent_os.Utf8.Prefix.{utf8_safe_prefix_len_lem}
use mini_agent_os.Utf8.Scalar.{IsUtf8, nil, char, encode}
use mini_agent_os.Utf8.{
  utf8_seq_len, utf8_safe_prefix_len, safe_prefix_from, append_utf8_codepoint, is_utf8_continuation,
}

-- "é" and a cut "€".
abbrev sample : Bytes
sample = 0xc3 ∷ 0xa9 ∷ 0xe2 ∷ 0x82 ∷ []

safe_prefix_runs : utf8_safe_prefix_len sample 4 ≡ 2
unfolding utf8_safe_prefix_len safe_prefix_from utf8_seq_len is_utf8_continuation
safe_prefix_runs = refl

escape_runs :
    (json_escape_append (fresh 40) (codes "a\"b\n" ++ 0x1 ∷ sample)).bytes
    ≡ codes "a\\\"b\\n\\u0001" ++ 0xc3 ∷ 0xa9 ∷ 0xef ∷ 0xbf ∷ 0xbd ∷ 0xef ∷ 0xbf ∷ 0xbd ∷ []
unfolding json_escape_append json_escape_loop escape_char utf8_seq_len is_utf8_continuation
    hex_lower append_utf8_codepoint
escape_runs = refl

extract_runs :
    json_extract_string
      (codes "{\"x\" : 1, \"goal_id\": \"a\\u0041\\n\" }")
      (codes "goal_id")
      (fresh 8)
    ≡ some (put (fresh 8) (codes "aA\n"))
unfolding json_extract_string json_find_key string_body hex_codepoint append_utf8_codepoint expect
    strip_prefix skip_spaces is_space append_byte unescape hex_nibble
extract_runs = refl

utf8_seq_len_iff_example : (utf8_seq_len sample ≡ 2) ↔ StartsWithChar sample 2
utf8_seq_len_iff_example = utf8_seq_len_iff sample 1 (omega arith)

utf8_safe_prefix_len_example :
    IsUtf8 (take (utf8_safe_prefix_len sample 4) sample)
    × (utf8_safe_prefix_len sample 4 ≤ min 4 (length sample))
    × (2 ≤ utf8_safe_prefix_len sample 4)
utf8_safe_prefix_len_example =
    utf8_safe_prefix_len_lem sample 4 (0xc3 ∷ 0xa9 ∷ []) (0xe2 ∷ 0x82 ∷ []) (omega arith) refl
      (char 0xe9 (inl (omega arith)) refl nil) (omega arith)

surrogate_example :
    (append_utf8_codepoint (fresh 8) 0xd83d ≡ put (fresh 8) (encode 0xd83d))
    × (utf8_seq_len (encode 0xd83d) ≡ 0)
surrogate_example =
    append_utf8_codepoint_surrogate (fresh 8) 0xd83d (omega arith) (omega arith) (omega arith)

u64_to_dec_example :
    (u64_to_dec 32 1_700_000_000 ≡ (append_u64_dec (fresh 32) 1_700_000_000).bytes)
    × (parse_u64 (u64_to_dec 32 1_700_000_000) ≡ some 1_700_000_000)
u64_to_dec_example = parse_u64-u64_to_dec 32 1_700_000_000 (omega arith) (omega arith)

write_body_example :
    (json_extract_string
        (build_m5_write_body (fresh 200) (codes "a\"b") (codes "x\ny")).bytes
        (codes "path")
        (fresh 64)
      ≡ some (put (fresh 64) (codes "a\"b")))
    × (json_extract_string
          (build_m5_write_body (fresh 200) (codes "a\"b") (codes "x\ny")).bytes
          (codes "content")
          (fresh 64)
        ≡ some (put (fresh 64) (codes "x\ny")))
unfolding escape_byte
write_body_example =
    extract-build_m5_write_body 200 (codes "a\"b") (codes "x\ny") (fresh 64) (omega arith)
      (omega arith) (omega arith) (omega arith) (omega arith)
