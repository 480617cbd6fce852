-- ===== src/Json/OfBytes.antt =====
-- What the readers of JSON text hand on is made of bytes, if their input is.
use mini_agent_os.Ascii.{is_space, skip_spaces, strip_prefix}
use mini_agent_os.Base.{
  ℕ, ◌+◌, ◌<◌, [], ◌∷◌, arith, Option, none, some, ◌==◌, ◌&&◌, leb, All-append, Bytes, Bool-cases,
  Option-cases, inl, inr, ltb, length,
}
use mini_agent_os.Buffer.{Out, append_byte}
use mini_agent_os.Json.{
  ◌>>=◌, or_else, expect, key_here, json_find_key, unescape, hex_codepoint, string_body,
  string_escape, string_unicode, json_extract_string,
}
use mini_agent_os.Utf8.Encode.{append_utf8_codepoint_lem}
use mini_agent_os.Utf8.Scalar.{encode}
use mini_agent_os.Utf8.Table.{IsByte, IsBytes}
use mini_agent_os.Utf8.{append_utf8_codepoint}

-- An optional text.
abbrev pub OfBytes : Option Bytes → Type 0
OfBytes none = Unit
OfBytes (some s) = IsBytes s

abbrev pub OfOut : Option Out → Type 0
OfOut none = Unit
OfOut (some o) = IsBytes o.bytes

append_byte-IsBytes :
    (o : Out) (b : ℕ) → IsByte b → IsBytes o.bytes → IsBytes (append_byte o b).bytes
unfolding append_byte
append_byte-IsBytes o b h q = elim (Bool-cases (ltb (length o.bytes) o.capacity)) [
  | inl e ↦ rw e (All-append IsByte o.bytes (b ∷ []) q (h, tt))
  | inr e ↦ rw e q
]

pub encode-IsBytes : (cp : ℕ) → cp < 0x11_0000 → IsBytes (encode cp)
encode-IsBytes cp h = ground arith

codepoint-IsBytes :
    (o : Out) (cp : ℕ) → IsBytes o.bytes → IsBytes (append_utf8_codepoint o cp).bytes
codepoint-IsBytes o cp q =
    rw (append_utf8_codepoint_lem o cp)
      (elim (Bool-cases
        (leb cp 0x10_ffff && leb (length o.bytes + length (encode cp)) o.capacity)) [
          | inl e ↦
              rw e (All-append IsByte o.bytes (encode cp) q (encode-IsBytes cp (ground arith)))
          | inr e ↦ rw e q
        ])

unescape-IsByte : (e : ℕ) → IsByte e → IsByte (unescape e)
unfolding unescape
unescape-IsByte e h = ground arith

mutual
  unfolding string_body string_escape string_unicode

  body-OfOut : (o : Out) (s : Bytes) → IsBytes o.bytes → IsBytes s → OfOut (string_body o s)
  body-OfOut o [] q h = tt
  body-OfOut o (b ∷ s) q h = elim (Bool-cases (b == b'"')) [
    | inl e ↦ rw (e, string_body) q
    | inr e ↦
        rw (e, string_body)
          (elim (Bool-cases (b == b'\\')) [
            | inl f ↦ rw (f, string_body) (escape-OfOut o s q h.1)
            | inr f ↦
                rw (f, string_body)
                  (body-OfOut (append_byte o b) s (append_byte-IsBytes o b h.0 q) h.1)
          ])
  ]

  escape-OfOut : (o : Out) (s : Bytes) → IsBytes o.bytes → IsBytes s → OfOut (string_escape o s)
  escape-OfOut o [] q h = tt
  escape-OfOut o (e ∷ s) q h = elim (Bool-cases (e == b'u')) [
    | inl f ↦ rw (f, string_escape) (unicode-OfOut o s q h.1)
    | inr f ↦
        rw (f, string_escape)
          (body-OfOut (append_byte o (unescape e)) s
            (append_byte-IsBytes o (unescape e) (unescape-IsByte e h.0) q) h.1)
  ]

  unicode-OfOut : (o : Out) (s : Bytes) → IsBytes o.bytes → IsBytes s → OfOut (string_unicode o s)
  unicode-OfOut o [] q h = tt
  unicode-OfOut o (b0 ∷ []) q h = tt
  unicode-OfOut o (b0 ∷ b1 ∷ []) q h = tt
  unicode-OfOut o (b0 ∷ b1 ∷ b2 ∷ []) q h = tt
  unicode-OfOut o (b0 ∷ b1 ∷ b2 ∷ b3 ∷ s) q h = elim (Option-cases (hex_codepoint b0 b1 b2 b3)) [
    | inl e ↦ rw (e, string_unicode) tt
    | inr (cp, e) ↦
        rw (e, string_unicode)
          (body-OfOut (append_utf8_codepoint o cp) s (codepoint-IsBytes o cp q) h.1.1.1.1)
  ]

skip-IsBytes : (s : Bytes) → IsBytes s → IsBytes (skip_spaces s)
unfolding skip_spaces
skip-IsBytes [] h = tt
skip-IsBytes (b ∷ s) h = elim (Bool-cases (is_space b)) [
  | inl e ↦ rw e (skip-IsBytes s h.1)
  | inr e ↦ rw e h
]

pub strip-OfBytes : (s pat : Bytes) → IsBytes s → OfBytes (strip_prefix s pat)
unfolding strip_prefix
strip-OfBytes s [] h = h
strip-OfBytes [] (p ∷ pat) h = tt
strip-OfBytes (b ∷ s) (p ∷ pat) h = elim (Bool-cases (b == p)) [
  | inl e ↦ rw e (strip-OfBytes s pat h.1)
  | inr e ↦ rw e tt
]

expect-OfBytes : (c : ℕ) (s : Bytes) → IsBytes s → OfBytes (expect c s)
unfolding expect
expect-OfBytes c [] h = tt
expect-OfBytes c (b ∷ s) h = elim (Bool-cases (b == c)) [ inl e ↦ rw e h.1 | inr e ↦ rw e tt ]

bind-OfBytes :
    (o : Option Bytes) (f : Bytes → Option Bytes)
    → OfBytes o
    → ((s : Bytes) → IsBytes s → OfBytes (f s))
    → OfBytes (o >>= f)
bind-OfBytes none f h k = tt
bind-OfBytes (some s) f h k = k s h

key_here-OfBytes : (key s : Bytes) → IsBytes s → OfBytes (key_here key s)
unfolding key_here
key_here-OfBytes key s h = bind-OfBytes (expect b'"' s) _ (expect-OfBytes b'"' s h) λ a p.
    bind-OfBytes (strip_prefix a key) _ (strip-OfBytes a key p) λ c q.
      bind-OfBytes (expect b'"' c) _ (expect-OfBytes b'"' c q)
        λ d r. expect-OfBytes b':' (skip_spaces d) (skip-IsBytes d r)

or_else-OfBytes : (a b : Option Bytes) → OfBytes a → OfBytes b → OfBytes (or_else a b)
or_else-OfBytes none b p q = q
or_else-OfBytes (some a) b p q = p

find-OfBytes : (key s : Bytes) → IsBytes s → OfBytes (json_find_key key s)
unfolding json_find_key
find-OfBytes key [] h = tt
find-OfBytes key (b ∷ s) h = elim (Bool-cases (ltb (length key + 2) (length (b ∷ s)))) [
  | inl e ↦ rw e (
      or_else-OfBytes (key_here key (b ∷ s)) (json_find_key key s) (key_here-OfBytes key (b ∷ s) h)
        (find-OfBytes key s h.1))
  | inr e ↦ rw e tt
]

bind-OfOut :
    (o : Option Bytes) (f : Bytes → Option Out)
    → OfBytes o
    → ((s : Bytes) → IsBytes s → OfOut (f s))
    → OfOut (o >>= f)
bind-OfOut none f h k = tt
bind-OfOut (some s) f h k = k s h

-- The text of a member of bytes is made of bytes, code points included.
pub json_extract_string-OfOut :
    (buf key : Bytes) (o : Out)
    → IsBytes buf
    → IsBytes o.bytes
    → OfOut (json_extract_string buf key o)
unfolding json_extract_string
json_extract_string-OfOut buf key o h q =
    bind-OfOut (json_find_key key buf) _ (find-OfBytes key buf h) λ s p.
      bind-OfOut (expect b'"' (skip_spaces s)) _
        (expect-OfBytes b'"' (skip_spaces s) (skip-IsBytes s p)) λ t r. body-OfOut o t q r
