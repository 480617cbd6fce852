-- ===== src/Net/Http/Headers.antt =====
-- The headers of a response, runtime/src/main.rs: the status line, the fields that the reader asks
-- for, and a redirection. A field is the list of its bytes.
use mini_agent_os.Ascii.{
  ascii_lower, is_space, is_ascii_digit, starts_with, strip_prefix, skip_spaces,
}
use mini_agent_os.Base.{
  ℕ, ◌+◌, ◌-◌, ◌*◌, ◌%◌, ◌^◌, Bool, true, false, ◌&&◌, ◌||◌, not, [], ◌∷◌, ◌++◌, Option, none, some,
  ltb, leb, ◌==◌, within, if◌then◌else◌, length, take, drop, get_elem?, Bytes, codes,
}
use mini_agent_os.Date.Http.{parse_http_date}
use mini_agent_os.Net.Url.{trim, span_until}

-- FETCH_REDIR_* and what belongs to them.
pub record Redirect : Type 0 where
  pub oauth_active : Bool
  pub pending : Bool
  pub suppress_ok : Bool
  pub redirects : ℕ
  pub domain : Bytes
  pub path : Bytes
  pub https : Bool

-- What the headers have told. `oauth_epoch` is OAUTH_EPOCH_SEC.
pub record Heads : Type 0 where
  pub status : ℕ
  pub is_chunked : Bool
  pub content_len : ℕ
  pub is_json : Bool
  pub oauth_epoch : Option ℕ
  pub error_reason : Bytes
  pub redirect : Redirect

-- The bytes up to the end of the line, and those behind.
abbrev pub ends_line : ℕ → Bool
ends_line b = b == b'\r' || b == b'\n'

unfoldable pub skip_blanks : Bytes → Bytes
skip_blanks [] = []
skip_blanks (b ∷ s) = if b == b' ' || b == b'\t' then skip_blanks s else b ∷ s

-- The text `name`, in letters of either case, at the cursor.
unfoldable pub name_here : Bytes → Bytes → Option Bytes
name_here s [] = some s
name_here [] (n ∷ name) = none
name_here (b ∷ s) (n ∷ name) = if ascii_lower b == ascii_lower n then name_here s name else none

-- `buf[i + name.len()] == b':'`
unfoldable pub behind_colon : Option Bytes → Option Bytes
behind_colon none = none
behind_colon (some []) = none
behind_colon (some (b ∷ s)) = if b == b':' then some s else none

-- The value at the end of its line; the source answers nothing if it is empty.
unfoldable pub line_value : Bytes → Option (Bytes × Bytes)
line_value s =
    let value = span_until ends_line (skip_blanks s) in
    if length value.0 == 0 then none else some value

-- `header_value`, with the bytes behind the value; the loop runs while `i + name.len() + 1 < len`.
unfoldable pub header_value : Bytes → Bytes → Option (Bytes × Bytes)
header_value [] name = none
header_value (b ∷ s) name =
    let later = header_value s name in
    if ltb (length name + 1) (length (b ∷ s))
    then elim (behind_colon (name_here (b ∷ s) name)) [ none ↦ later | some rest ↦ line_value rest ]
    else none

-- A word in a text, in letters of either case.
abbrev pub is_some {ℓ} : {A : Type ℓ} → Option A → Bool
is_some none = false
is_some (some a) = true

unfoldable pub has_word : Bytes → Bytes → Bool
has_word [] word = false
has_word (b ∷ s) word = is_some (name_here (b ∷ s) word) || has_word s word

-- The loops for a word run up to `i + k <= e` for a word of `k + 1` bytes, so that they look at one
-- byte behind the value too. It is the line break, since the headers end with one.
unfoldable pub value_has : Bytes → Option (Bytes × Bytes) → Bool
value_has word none = false
value_has word (some value) = has_word (value.0 ++ take 1 value.1) word

-- The digits of a length, with what is no digit passed over.
unfoldable pub length_loop : ℕ → Bytes → ℕ
length_loop v [] = v
length_loop v (b ∷ s) =
    length_loop (if is_ascii_digit b then (v * 10 + (b - b'0')) % 2 ^ 64 else v) s

unfoldable pub three_digits : Bytes → ℕ
three_digits (a ∷ b ∷ c ∷ rest) =
    if is_ascii_digit a && is_ascii_digit b && is_ascii_digit c
    then (a - b'0') * 100 + (b - b'0') * 10 + (c - b'0')
    else 0
three_digits (a ∷ b ∷ []) = 0
three_digits (a ∷ []) = 0
three_digits [] = 0

unfoldable pub skip_only_spaces : Bytes → Bytes
skip_only_spaces [] = []
skip_only_spaces (b ∷ s) = if b == b' ' then skip_only_spaces s else b ∷ s

unfoldable pub parse_status : Bytes → ℕ
parse_status buf =
    if ltb (length buf) 12
    then 0
    else if starts_with buf (codes "HTTP/1.1") || starts_with buf (codes "HTTP/1.0")
    then three_digits (skip_only_spaces (drop 8 buf))
    else 0

-- `find_location`, over the flag `line_start`; the loop runs while `i + 9 <= len`.
unfoldable pub location_from : Bool → Bytes → Option Bytes
location_from line_start [] = none
location_from line_start (b ∷ s) =
    let later = location_from (b == b'\n') s in
    if leb 9 (length (b ∷ s))
    then elim (behind_colon (if line_start then name_here (b ∷ s) (codes "location") else none)) [
      | none ↦ later
      | some rest ↦ elim (line_value rest) [ none ↦ none | some value ↦ some (value.0) ]
    ]
    else none

unfoldable pub find_location : Bytes → Option Bytes
find_location buf = location_from true buf

unfoldable pub is_url_host_char : ℕ → Bool
is_url_host_char b =
    within b'0' b'9' b || within b'a' b'z' (ascii_lower b) || b == b'.' || b == b'-'

-- The slices that the source names by an offset and a length.
pub record UrlParts : Type 0 where
  pub domain : Bytes
  pub path : Bytes
  pub https : Bool

-- Each byte may stand in a host, and one is a dot.
unfoldable pub host_chars : Bytes → Bool
host_chars [] = true
host_chars (b ∷ s) = is_url_host_char b && host_chars s

unfoldable pub has_dot : Bytes → Bool
has_dot [] = false
has_dot (b ∷ s) = b == b'.' || has_dot s

-- The first or the last byte of a domain.
abbrev pub is_edge : Option ℕ → Bool
is_edge none = false
is_edge (some b) = is_url_host_char b && not (b == b'.') && not (b == b'-')

unfoldable pub is_domain : Bytes → Bool
is_domain d =
    not (length d == 0)
    && host_chars d
    && has_dot d
    && is_edge (get_elem? d 0)
    && is_edge (get_elem? d (length d - 1))

abbrev pub ends_host : ℕ → Bool
ends_host b = is_space b || b == b'/'

-- The path at the cursor, or behind spaces.
unfoldable pub path_at : Bytes → Bytes
path_at s = elim (skip_spaces s) [
  | [] ↦ []
  | (b ∷ rest) ↦ if b == b'/' then (span_until is_space (b ∷ rest)).0 else []
]

-- The text behind the scheme.
unfoldable pub parse_behind : Bool → Bytes → Option UrlParts
parse_behind https s =
    let split = span_until ends_host s in
    if is_domain split.0
    then some (record { domain = split.0; path = path_at split.1; https = https })
    else none

unfoldable pub parse_scheme : Bytes → Option UrlParts
unfolding parse_behind
parse_scheme s = elim (strip_prefix s (codes "http://")) [
  | some rest ↦ parse_behind false rest
  | none ↦ elim (strip_prefix s (codes "https://")) [
    | some rest ↦ parse_behind true rest
    | none ↦ parse_behind false s
  ]
]

unfoldable pub parse_url : Bytes → Option UrlParts
unfolding parse_scheme
parse_url buf = elim (strip_prefix (trim buf) (codes "get ")) [
  | some rest ↦ parse_scheme (skip_spaces rest)
  | none ↦ parse_scheme (trim buf)
]

abbrev pub redir_domain_max : ℕ
redir_domain_max = 512

abbrev pub redir_path_max : ℕ
redir_path_max = 2048

abbrev pub max_redirects : ℕ
max_redirects = 3

-- The stores of a redirection.
abbrev pub redirected : UrlParts → Heads → Heads
redirected parts h = record h {
  redirect = record (h.redirect) {
    domain = parts.domain;
    path = parts.path;
    https = parts.https;
    pending = true;
    suppress_ok = true;
    redirects = (h.redirect.redirects + 1) % 256;
  };
}

unfoldable pub follow : Option UrlParts → Heads → Heads
follow none h = h
follow (some parts) h =
    if ltb redir_domain_max (length parts.domain) || ltb redir_path_max (length parts.path)
    then record h { error_reason = codes "redirect url too long" }
    else redirected parts h

unfoldable pub capture_redirect : Bytes → Heads → Heads
unfolding follow
capture_redirect buf h =
    if h.redirect.oauth_active || leb max_redirects h.redirect.redirects || h.redirect.pending
    then h
    else elim (find_location buf) [ none ↦ h | some value ↦ follow (parse_url value) h ]

abbrev pub length_or : ℕ → Option (Bytes × Bytes) → ℕ
length_or old none = old
length_or old (some value) = length_loop 0 (value.0)

abbrev pub epoch_or : Option ℕ → Option (Bytes × Bytes) → Option ℕ
epoch_or old none = old
epoch_or old (some value) = elim (parse_http_date (value.0)) [
  | none ↦ old
  | some epoch ↦ some epoch
]

unfoldable pub http_parse_headers : Bytes → Heads → Heads
http_parse_headers buf h =
    let field = header_value buf in
    capture_redirect buf (record h {
      status = parse_status buf;
      is_chunked = h.is_chunked || value_has (codes "chunked") (field (codes "transfer-encoding"));
      content_len = length_or h.content_len (field (codes "content-length"));
      is_json = h.is_json || value_has (codes "application/json") (field (codes "content-type"));
      oauth_epoch = epoch_or h.oauth_epoch (field (codes "date"));
    })
