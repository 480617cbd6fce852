-- ===== src/Json/Injection.antt =====
-- No key is found inside an escaped text, whatever the text holds.
use mathlib.Core.Path.{subst}
use mini_agent_os.Ascii.{is_space, skip_spaces, strip_prefix, hex_upper}
use mini_agent_os.Base.{
  ℕ, ◌/◌, ◌%◌, ◌||◌, [], ◌∷◌, ◌++◌, ◌≡◌, ◌≢◌, refl, ap, ◌∙◌, inl, inr, arith, append_assoc, none,
  leb, ◌==◌, length-append, Bytes, All, Bool-cases,
}
use mini_agent_os.Json.{expect, json_find_key}
use mini_agent_os.Json.Escape.{escape_byte}
use mini_agent_os.Json.Escape.RoundTrip.{escaped}
use mini_agent_os.Json.Find.{IsPlain, after_quote, key_here-none, Long, find_skip, find_plain}

-- The end of a string value that has another member behind it.
abbrev pub close : Bytes → Bytes
close t = b'"' ∷ b',' ∷ t

-- An escaped byte is a plain byte, or a backslash with one or five bytes behind it, of which the
-- five are no quotes.
data Escaped : ℕ → Bytes → Type 0 where
  plain : {b : ℕ} → IsPlain b → Escaped b (b ∷ [])
  pair : {b e : ℕ} → Escaped b (b'\\' ∷ e ∷ [])
  long : {b h l : ℕ} → (h ≢ b'"') × (l ≢ b'"') → Escaped b (b'\\' ∷ b'u' ∷ b'0' ∷ b'0' ∷ h ∷ l ∷ [])

hex_upper_quote : (d : ℕ) → hex_upper d ≢ b'"'
unfolding hex_upper
hex_upper_quote d e = ground arith

escape_byte-Escaped : (b : ℕ) → Escaped b (escape_byte b)
unfolding escape_byte
escape_byte-Escaped b = elim (Bool-cases (b == b'"' || b == b'\\')) [
  | inl e ↦ subst (Escaped b) {x = b'\\' ∷ b ∷ []} (ground arith) pair
  | inr e ↦ elim (Bool-cases (b == b'\n')) [
    | inl n ↦ subst (Escaped b) {x = b'\\' ∷ b'n' ∷ []} (ground arith) pair
    | inr n ↦ elim (Bool-cases (b == b'\r')) [
      | inl r ↦ subst (Escaped b) {x = b'\\' ∷ b'r' ∷ []} (ground arith) pair
      | inr r ↦ elim (Bool-cases (b == b'\t')) [
        | inl t ↦ subst (Escaped b) {x = b'\\' ∷ b't' ∷ []} (ground arith) pair
        | inr t ↦ elim (Bool-cases (leb b 0x1f || b == 0x7f)) [
          | inl c ↦
              subst (Escaped b)
                {x = b'\\' ∷ b'u' ∷ b'0' ∷ b'0' ∷ hex_upper (b / 16) ∷ hex_upper (b % 16) ∷ []}
                (ground arith) (long (hex_upper_quote (b / 16), hex_upper_quote (b % 16)))
          | inr c ↦
              subst (Escaped b) {x = b ∷ []} (ground arith) (plain (ground arith, ground arith))
        ]
      ]
    ]
  ]
]

-- Reading a plain key over one escaped byte: either the byte is the key's first, or nothing fits.
after_quote-Escaped :
    {b : ℕ} {bs : Bytes} (key rest : Bytes)
    → Escaped b bs
    → All IsPlain key
    → ((c : ℕ) (k : Bytes) → key ≡ c ∷ k → after_quote k rest ≡ none)
    → after_quote key (bs ++ rest) ≡ none
unfolding after_quote strip_prefix expect
after_quote-Escaped [] rest (plain {b} p) h ih = ground arith
after_quote-Escaped [] rest pair h ih = refl
after_quote-Escaped [] rest (long q) h ih = refl
after_quote-Escaped (c ∷ k) rest (plain {b} p) h ih = ground (arith, ih c k refl)
after_quote-Escaped (c ∷ k) rest pair h ih = ground arith
after_quote-Escaped (c ∷ k) rest (long q) h ih = ground arith

-- A plain key read off an escaped text never ends at a quote with a colon behind it.
after_quote-close : (key t : Bytes) → All IsPlain key → after_quote key (close t) ≡ none
unfolding after_quote strip_prefix expect skip_spaces is_space
after_quote-close [] t h = refl
after_quote-close (c ∷ k) t h = ground arith

pub after_quote-escaped :
    (key s t : Bytes) → All IsPlain key → after_quote key (escaped s ++ close t) ≡ none
after_quote-escaped key [] t h = after_quote-close key t h
after_quote-escaped key (b ∷ s) t h =
    ap (after_quote key) (append_assoc (escape_byte b) (escaped s) (close t))
    ∙ after_quote-Escaped key (escaped s ++ close t) (escape_byte-Escaped b) h
        (λ c k e. after_quote-escaped k s t (subst (All IsPlain) e h).1)

module _ (key : Bytes) (h : All IsPlain key) where
  -- The search passes over one escaped byte,
  find-Escaped :
      {b : ℕ} {bs : Bytes} (rest : Bytes)
      → Escaped b bs
      → after_quote key rest ≡ none
      → Long key rest
      → json_find_key key (bs ++ rest) ≡ json_find_key key rest
  find-Escaped rest (plain {b} p) n l = find_plain key (b ∷ []) rest (p.0, tt) l
  find-Escaped rest (pair {b} {e}) n l =
      find_plain key (b'\\' ∷ []) (e ∷ rest) (ground arith, tt) (omega arith)
      ∙ find_skip key e rest (key_here-none key e rest n) l
  find-Escaped rest (long {b} {h = u} {l = v} q) n l =
      find_plain key (b'\\' ∷ b'u' ∷ b'0' ∷ b'0' ∷ u ∷ v ∷ []) rest (ground arith) l

  -- and so over all of the text.
  pub find-escaped :
      (s t : Bytes)
      → Long key (close t)
      → json_find_key key (escaped s ++ close t) ≡ json_find_key key (close t)
  find-escaped [] t l = refl
  find-escaped (b ∷ s) t l =
      ap (json_find_key key) (append_assoc (escape_byte b) (escaped s) (close t))
      ∙ find-Escaped (escaped s ++ close t) (escape_byte-Escaped b) (after_quote-escaped key s t h)
          (omega (arith, length-append (escaped s) (close t)))
      ∙ find-escaped s t l
