-- ===== src/Ascii.antt =====
-- Character classes and prefix tests of runtime/src/main.rs, runtime/src/oauth.rs and
-- runtime/src/agent/mod.rs. A slice `buf[off..len]` is a list of bytes.
use mini_agent_os.Base.{
  ℕ, ◌+◌, ◌-◌, Bool, true, false, ◌&&◌, ◌||◌, [], ◌∷◌, Option, none, some, leb, ◌==◌, within,
  if◌then◌else◌, Bytes,
}

unfoldable pub is_space : ℕ → Bool
is_space b = b == b' ' || b == b'\t' || b == b'\r' || b == b'\n'

-- `u8::is_ascii_digit`
unfoldable pub is_ascii_digit : ℕ → Bool
is_ascii_digit b = within b'0' b'9' b

unfoldable pub ascii_lower : ℕ → ℕ
ascii_lower b = if within b'A' b'Z' b then b + 32 else b

unfoldable pub ascii_eq_ignore_case : ℕ → ℕ → Bool
unfolding ascii_lower
ascii_eq_ignore_case a b = ascii_lower a == ascii_lower b

-- The table `b"0123456789ABCDEF"`, and `hex_upper` of oauth.rs.
unfoldable pub hex_upper : ℕ → ℕ
hex_upper b = if leb b 9 then b'0' + b else b'A' + (b - 10)

-- The table `b"0123456789abcdef"`.
unfoldable pub hex_lower : ℕ → ℕ
hex_lower b = if leb b 9 then b'0' + b else b'a' + (b - 10)

unfoldable pub hex_nibble : ℕ → Option ℕ
hex_nibble b =
    if within b'0' b'9' b
    then some (b - b'0')
    else if within b'a' b'f' b
    then some (10 + (b - b'a'))
    else if within b'A' b'F' b
    then some (10 + (b - b'A'))
    else none

-- `is_url_unreserved`, and its copy `is_unreserved`.
unfoldable pub is_url_unreserved : ℕ → Bool
is_url_unreserved b =
    within b'A' b'Z' b
    || within b'a' b'z' b
    || within b'0' b'9' b
    || b == b'-'
    || b == b'.'
    || b == b'_'
    || b == b'~'

-- `while off < len && is_space(buf[off]) { off += 1; }`
unfoldable pub skip_spaces : Bytes → Bytes
skip_spaces [] = []
skip_spaces (b ∷ rest) = if is_space b then skip_spaces rest else b ∷ rest

-- `starts_with`, and `starts_with_at` on the bytes from `off` on.
unfoldable pub starts_with : Bytes → Bytes → Bool
starts_with buf [] = true
starts_with [] (p ∷ pat) = false
starts_with (b ∷ buf) (p ∷ pat) = b == p && starts_with buf pat

-- The same test, handing on what stands behind the prefix.
unfoldable pub strip_prefix : Bytes → Bytes → Option Bytes
strip_prefix buf [] = some buf
strip_prefix [] (p ∷ pat) = none
strip_prefix (b ∷ buf) (p ∷ pat) = if b == p then strip_prefix buf pat else none
