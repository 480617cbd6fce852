-- ===== src/Utf8/Encode.antt =====
-- `append_utf8_codepoint`: what it writes for each code point.
use mini_agent_os.Base.{ℕ, ◌+◌, ◌≤◌, ◌&&◌, ◌≡◌, ◌∙◌, arith, leb, if◌then◌else◌, length}
use mini_agent_os.Buffer.{Out, index, fits, put}
use mini_agent_os.Utf8.{append_utf8_codepoint, utf8_seq_len}
use mini_agent_os.Utf8.Scalar.{encode}

-- Every code point up to 0x10ffff is written whole as its encoding, if that fits; otherwise, and
-- for a greater number, nothing is written.
pub append_utf8_codepoint_lem :
    (o : Out) (cp : ℕ)
    → append_utf8_codepoint o cp
      ≡ (if leb cp 0x10_ffff && fits o (length (encode cp)) then put o (encode cp) else o)
unfolding append_utf8_codepoint
append_utf8_codepoint_lem o cp = ground arith

-- A surrogate, as `\ud800` to `\udfff` in a JSON string give it, is written as three bytes that the
-- runtime's own table rejects, so that the field is no longer well-formed.
pub append_utf8_codepoint_surrogate :
    (o : Out) (cp : ℕ)
    → 0xd800 ≤ cp
    → cp ≤ 0xdfff
    → index o + 3 ≤ o.capacity
    → (append_utf8_codepoint o cp ≡ put o (encode cp)) × (utf8_seq_len (encode cp) ≡ 0)
append_utf8_codepoint_surrogate o cp lo hi r =
    (append_utf8_codepoint_lem o cp ∙ ground arith, (unfold utf8_seq_len in ground arith))
