-- ===== src/Net/Url/Authority.antt =====
-- The host and the port of a URL.
use mathlib.Core.List.{reverse, reverse-cons, reverse-append, reverse-reverse}
use mathlib.Core.Path.{subst}
use mini_agent_os.Ascii.{is_space, is_ascii_digit, skip_spaces}
use mini_agent_os.Base.{
  ℕ, ◌+◌, ◌-◌, ◌*◌, ◌<◌, min, Bool, true, false, [], ◌∷◌, ◌++◌, ◌≡◌, ◌≢◌, refl, sym, ap, ◌∙◌, arith,
  append-nil, append_assoc, Option, none, some, ◌==◌, if◌then◌else◌, All, All-append, take, Bytes,
}
use mini_agent_os.Decimal.{saturating_step}
use mini_agent_os.Net.Ipv4.Grammar.{value_from, IsDigits}
use mini_agent_os.Net.Ipv4.{u16_max}
use mini_agent_os.Net.Url.{
  trim, span_until, http, https_scheme, colon_loop, port_loop, host_and_port,
}

abbrev pub NoSpace : Bytes → Type 0
NoSpace s = All (λ b. is_space b ≡ false) s

-- A byte of a host: neither a space nor a slash nor a colon.
abbrev pub IsHost : Bytes → Type 0
IsHost s = All (λ b. (is_space b ≡ false) × (b ≢ b'/') × (b ≢ b':')) s

-- Nothing, or a slash and what follows it without a space.
abbrev pub IsPath : Bytes → Type 0
IsPath [] = Unit
IsPath (b ∷ s) = (b ≡ b'/') × NoSpace s

abbrev pub scheme_text : Bool → Bytes
scheme_text https = if https then https_scheme else http

-- A port is left out or written behind a colon.
abbrev pub port_text : Option Bytes → Bytes
port_text none = []
port_text (some digits) = b':' ∷ digits

abbrev pub IsPort : Option Bytes → Type 0
IsPort none = Unit
IsPort (some digits) = IsDigits digits × (0 < value_from 0 digits)

abbrev pub port_number : Bool → Option Bytes → ℕ
port_number https none = if https then 443 else 80
port_number https (some digits) = min u16_max (value_from 0 digits)

pub All-reverse : (P : ℕ → Type 0) (s : Bytes) → All P s → All P (reverse s)
All-reverse P [] h = tt
All-reverse P (b ∷ s) h =
    subst (All P) (sym (reverse-cons b s))
      (All-append P (reverse s) (b ∷ []) (All-reverse P s h.1) (h.0, tt))

pub skip_spaces-NoSpace : (s : Bytes) → NoSpace s → skip_spaces s ≡ s
unfolding skip_spaces
skip_spaces-NoSpace [] h = refl
skip_spaces-NoSpace (b ∷ s) h = let e = h.0 in rw e

pub trim-NoSpace : (s : Bytes) → NoSpace s → trim s ≡ s
unfolding trim
trim-NoSpace s h =
    let e = skip_spaces-NoSpace s h in
    let f = skip_spaces-NoSpace (reverse s) (All-reverse _ s h) in rw (e, f) (reverse-reverse s)

pub span_until-append :
    (stop : ℕ → Bool) (a rest : Bytes)
    → All (λ b. stop b ≡ false) a
    → All (λ b. stop b ≡ true) (take 1 rest)
    → span_until stop (a ++ rest) ≡ (a, rest)
unfolding span_until
span_until-append stop [] [] h s = refl
span_until-append stop [] (b ∷ rest) h s = rw s.0
span_until-append stop (b ∷ a) rest h s = rw (h.0, span_until-append stop a rest h.1 s)

abbrev pub NoColon : Bytes → Type 0
NoColon s = All (λ b. b ≢ b':') s

pub colon_loop-none : (front behind : Bytes) → NoColon front → colon_loop front behind ≡ none
unfolding colon_loop
colon_loop-none [] behind h = refl
colon_loop-none (b ∷ front) behind h =
    let e : (b == b':') ≡ false = let ne = h.0 in ground arith in
    rw e (colon_loop-none front (b ∷ behind) h.1)

pub colon_loop_found :
    (front behind host : Bytes)
    → NoColon front
    → colon_loop (front ++ b':' ∷ host) behind ≡ some (reverse host, reverse front ++ behind)
unfolding colon_loop
colon_loop_found [] behind host h = refl
colon_loop_found (b ∷ front) behind host h =
    let e : (b == b':') ≡ false = let ne = h.0 in ground arith in
    rw e (
      colon_loop_found front (b ∷ behind) host h.1
      ∙ ap (λ r. some (reverse host, r))
          (sym
            (ap (λ r. r ++ behind) (reverse-cons b front) ∙ append_assoc (reverse front) _ behind)))

pub IsDigits-NoColon : (ds : Bytes) → IsDigits ds → NoColon ds
unfolding is_ascii_digit
IsDigits-NoColon [] h = tt
IsDigits-NoColon (b ∷ ds) h = (λ e. absurd (let d = h.0 in ground arith), IsDigits-NoColon ds h.1)

pub IsHost-NoColon : (s : Bytes) → IsHost s → NoColon s
IsHost-NoColon [] h = tt
IsHost-NoColon (b ∷ s) h = (h.0.2, IsHost-NoColon s h.1)

pub port_loop-digits :
    (v : ℕ) (ds : Bytes)
    → IsDigits ds
    → 0 < value_from v ds
    → port_loop (min u16_max v) true ds ≡ some (min u16_max (value_from v ds))
unfolding port_loop
port_loop-digits v [] h p = let e : (min u16_max v == 0) ≡ false = ground arith in rw e
port_loop-digits v (b ∷ ds) h p =
    let d = h.0 in
    let e : saturating_step u16_max (min u16_max v) (b - b'0') ≡ min u16_max (v * 10 + (b - b'0')) =
      omega arith in
    rw (d, e) (port_loop-digits (v * 10 + (b - b'0')) ds h.1 p)

pub port_first :
    (d : ℕ) (ds : Bytes)
    → IsDigits (d ∷ ds)
    → 0 < value_from 0 (d ∷ ds)
    → port_loop 0 false (d ∷ ds) ≡ some (min u16_max (value_from 0 (d ∷ ds)))
unfolding port_loop
port_first d ds h p =
    let e = h.0 in
    let f : saturating_step u16_max 0 (d - b'0') ≡ min u16_max (0 * 10 + (d - b'0')) =
      omega arith in
    rw (e, f) (port_loop-digits (0 * 10 + (d - b'0')) ds h.1 p)

pub host_and_port_lem :
    (https : Bool) (host : Bytes) (port : Option Bytes)
    → IsHost host
    → IsPort port
    → host_and_port https (host ++ port_text port) ≡ some (host, port_number https port)
unfolding host_and_port
host_and_port_lem https host none h p =
    let e : host ++ port_text none ≡ host = append-nil host in
    let f : colon_loop (reverse (host ++ port_text none)) [] ≡ none =
      ap (λ s. colon_loop (reverse s) []) e
      ∙ colon_loop-none (reverse host) [] (All-reverse _ host (IsHost-NoColon host h)) in
    rw (f, host_and_port) (ap (λ a. some (a, port_number https none)) e)
host_and_port_lem https host (some (d ∷ ds)) h p =
    let e : reverse (host ++ b':' ∷ d ∷ ds) ≡ reverse (d ∷ ds) ++ b':' ∷ reverse host =
      reverse-append host (b':' ∷ d ∷ ds)
      ∙ ap (λ r. r ++ reverse host) (reverse-cons b':' (d ∷ ds))
      ∙ append_assoc (reverse (d ∷ ds)) _ (reverse host) in
    let f =
      colon_loop_found (reverse (d ∷ ds)) [] (reverse host)
        (All-reverse _ (d ∷ ds) (IsDigits-NoColon (d ∷ ds) p.0)) in
    let found : colon_loop (reverse (host ++ b':' ∷ d ∷ ds)) [] ≡ some (host, d ∷ ds) =
      ap (λ r. colon_loop r []) e
      ∙ f
      ∙ ap (λ a. some (a, reverse (reverse (d ∷ ds)) ++ [])) (reverse-reverse host)
      ∙ ap (λ b. some (host, b)) (append-nil _ ∙ reverse-reverse (d ∷ ds)) in
    let number : port_loop 0 false (d ∷ ds) ≡ some (min u16_max (value_from 0 (d ∷ ds))) =
      port_first d ds p.0 p.1 in
    rw (found, number, host_and_port)
host_and_port_lem https host (some []) h p = absurd (omega (arith, p.1))
