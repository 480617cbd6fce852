-- ===== src/Net/Url/Text.antt =====
-- The parts that `parse_agent_url` reads in the text of a URL.
use mini_agent_os.Ascii.{is_space, is_ascii_digit, strip_prefix}
use mini_agent_os.Base.{
  ℕ, Bool, true, false, [], ◌∷◌, ◌++◌, ◌≡◌, ◌≢◌, refl, sym, ap, ◌∙◌, arith, append-nil, Option,
  none, some, ◌==◌, All, All-append, take, Bytes,
}
use mini_agent_os.Net.Ipv4.Grammar.{IsDigits}
use mini_agent_os.Net.Ipv4.{parse_ipv4_bytes}
use mini_agent_os.Net.Url.{span_until, scheme_of, nonempty, ends_host, path_of, parse_agent_url}
use mini_agent_os.Net.Url.Authority.{
  NoSpace, IsHost, IsPath, scheme_text, port_text, IsPort, port_number, trim-NoSpace,
  span_until-append, host_and_port_lem,
}

abbrev pub url_text : Bool → Bytes → Option Bytes → Bytes → Bytes
url_text https host port path = scheme_text https ++ ((host ++ port_text port) ++ path)

abbrev Ends : ℕ → Type 0
Ends b = ends_host b ≡ false

host-Ends : (s : Bytes) → IsHost s → All Ends s
host-Ends [] h = tt
host-Ends (b ∷ s) h = (let e = h.0 in ground arith, host-Ends s h.1)

digits-Ends : (ds : Bytes) → IsDigits ds → All Ends ds
unfolding is_ascii_digit is_space
digits-Ends [] h = tt
digits-Ends (b ∷ ds) h = (let e = h.0 in ground arith, digits-Ends ds h.1)

port-Ends : (port : Option Bytes) → IsPort port → All Ends (port_text port)
unfolding is_space
port-Ends none h = tt
port-Ends (some ds) h = (refl, digits-Ends ds h.0)

Ends-NoSpace : (s : Bytes) → All Ends s → NoSpace s
Ends-NoSpace [] h = tt
Ends-NoSpace (b ∷ s) h = (let e = h.0 in ground arith, Ends-NoSpace s h.1)

path-NoSpace : (path : Bytes) → IsPath path → NoSpace path
unfolding is_space
path-NoSpace [] h = tt
path-NoSpace (b ∷ path) h = (let e = h.0 in ground arith, h.1)

scheme-NoSpace : (https : Bool) → NoSpace (scheme_text https)
unfolding is_space
scheme-NoSpace true = (refl, (refl, (refl, (refl, (refl, (refl, (refl, (refl, tt))))))))
scheme-NoSpace false = (refl, (refl, (refl, (refl, (refl, (refl, (refl, tt)))))))

url-NoSpace :
    (https : Bool) (host : Bytes) (port : Option Bytes) (path : Bytes)
    → IsHost host
    → IsPort port
    → IsPath path
    → NoSpace (url_text https host port path)
url-NoSpace https host port path h p q =
    All-append _ (scheme_text https) ((host ++ port_text port) ++ path) (scheme-NoSpace https) (
      All-append _ (host ++ port_text port) path
        (Ends-NoSpace (host ++ port_text port)
          (All-append _ host (port_text port) (host-Ends host h) (port-Ends port p)))
        (path-NoSpace path q))

scheme_of_lem : (https : Bool) (s : Bytes) → scheme_of (scheme_text https ++ s) ≡ some (https, s)
unfolding scheme_of strip_prefix
scheme_of_lem true s = refl
scheme_of_lem false s = refl

path_of_lem : (path : Bytes) → IsPath path → path_of path ≡ path
unfolding path_of
path_of_lem [] h = refl
path_of_lem (b ∷ path) h =
    let e : (b == b'/') ≡ true = let f = h.0 in ground arith in
    let all = span_until-append is_space (b ∷ path) [] (path-NoSpace (b ∷ path) h) tt in
    let whole : span_until is_space (b ∷ path) ≡ (b ∷ path, []) =
      ap (span_until is_space) (sym (append-nil (b ∷ path))) ∙ all in
    rw (e, whole)

nonempty_scheme :
    (https : Bool) (s : Bytes) → nonempty (scheme_text https ++ s) ≡ some (scheme_text https ++ s)
nonempty_scheme true s = refl
nonempty_scheme false s = refl

path-Ends : (path : Bytes) → IsPath path → All (λ b. ends_host b ≡ true) (take 1 path)
path-Ends [] h = tt
path-Ends (b ∷ path) h = (let e = h.0 in ground arith, tt)

-- A URL is read as its scheme, its host, its port and its path. The host is any text without a
-- space, a slash or a colon. A port that is left out is 80 or 443 by the scheme; one that is
-- written has decimal digits whose number is not 0, and a number above 65535 is taken for 65535.
-- The path is empty, or a slash and any text without a space.
pub parse_agent_url-url_text :
    (https : Bool) (host : Bytes) (port : Option Bytes) (path : Bytes)
    → host ≢ []
    → IsHost host
    → IsPort port
    → IsPath path
    → parse_agent_url (url_text https host port path)
      ≡ some (record {
        host = host;
        path = path;
        https = https;
        port = port_number https port;
        fixed_ip = parse_ipv4_bytes host;
      })
unfolding parse_agent_url
parse_agent_url-url_text https [] port path ne h p q = absurd (ne refl)
parse_agent_url-url_text https (c ∷ host) port path ne h p q =
    let text =
      trim-NoSpace (url_text https (c ∷ host) port path)
        (url-NoSpace https (c ∷ host) port path h p q) in
    let authority = (c ∷ host) ++ port_text port in
    let none_ends =
      All-append _ (c ∷ host) (port_text port) (host-Ends (c ∷ host) h) (port-Ends port p) in
    let span = span_until-append ends_host authority path none_ends (path-Ends path q) in
    rw (
      text,
      nonempty_scheme https (authority ++ path),
      scheme_of_lem https (authority ++ path),
      span,
      host_and_port_lem https (c ∷ host) port h p,
      path_of_lem path q,
    )
