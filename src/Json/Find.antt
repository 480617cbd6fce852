-- ===== src/Json/Find.antt =====
-- Where `json_find_key` finds a key: it passes over all that is no quoted key with a colon, and an
-- escaped text in particular.
use mini_agent_os.Ascii.{skip_spaces, strip_prefix}
use mini_agent_os.Base.{
  ℕ, suc, ◌+◌, ◌<◌, true, false, [], ◌∷◌, ◌++◌, ◌≡◌, ◌≢◌, refl, ap, ◌∙◌, inl, inr, arith, Option,
  none, some, ltb, ◌==◌, length, length-append, Bytes, All, Bool-cases,
}
use mini_agent_os.Json.{◌>>=◌, expect, key_here, json_find_key}

-- A byte that is written as it stands.
abbrev pub IsPlain : ℕ → Type 0
IsPlain b = (b ≢ b'"') × (b ≢ b'\\')

module _ (key : Bytes) where
  -- What is read behind a quote.
  unfoldable pub after_quote : Bytes → Option Bytes
  after_quote s =
      strip_prefix s key >>= λ quote. expect b'"' quote >>= λ rest. expect b':' (skip_spaces rest)

  pub key_here-quote : (s : Bytes) → key_here key (b'"' ∷ s) ≡ after_quote s
  unfolding key_here after_quote
  key_here-quote s = refl

  key_here_other : (b : ℕ) (s : Bytes) → b ≢ b'"' → key_here key (b ∷ s) ≡ none
  unfolding key_here
  key_here_other b s h = let e : (b == b'"') ≡ false = ground arith in rw (e, expect)

  pub key_here-none : (b : ℕ) (s : Bytes) → after_quote s ≡ none → key_here key (b ∷ s) ≡ none
  key_here-none b s h = elim (Bool-cases (b == b'"')) [
    | inl e ↦
        let q : b ≡ b'"' = ground arith in
        ap (λ (c : ℕ). key_here key (c ∷ s)) q ∙ key_here-quote s ∙ h
    | inr e ↦ key_here_other b s (ground arith)
  ]

  -- The loop condition, which keeps room for the key and its quotes.
  abbrev pub Long : Bytes → Type 0
  Long s = length key + 2 < length s

  pub find_skip :
      (b : ℕ) (s : Bytes)
      → key_here key (b ∷ s) ≡ none
      → Long s
      → json_find_key key (b ∷ s) ≡ json_find_key key s
  unfolding json_find_key
  find_skip b s h l =
      let e : ltb (length key + 2) (suc (length s)) ≡ true = ground arith in rw (e, h)

  pub find_found :
      (b : ℕ) (s rest : Bytes)
      → key_here key (b ∷ s) ≡ some rest
      → length key + 2 < length (b ∷ s)
      → json_find_key key (b ∷ s) ≡ some rest
  unfolding json_find_key
  find_found b s rest h l =
      let e : ltb (length key + 2) (suc (length s)) ≡ true = ground arith in rw (e, h)

  pub find_plain :
      (pre s : Bytes)
      → All (λ b. b ≢ b'"') pre
      → Long s
      → json_find_key key (pre ++ s) ≡ json_find_key key s
  find_plain [] s h l = refl
  find_plain (b ∷ pre) s h l =
      find_skip b (pre ++ s) (key_here_other b (pre ++ s) h.0) (omega (arith, length-append pre s))
      ∙ find_plain pre s h.1 l
