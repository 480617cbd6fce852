-- ===== src/Utf8/Scalar.antt =====
-- The Unicode standard's side: scalar values and their encodings, stated without the runtime's code.
use mini_agent_os.Base.{ℕ, ◌+◌, ◌/◌, ◌%◌, ◌<◌, ◌⊎◌, [], ◌∷◌, ◌++◌, ◌≡◌, ltb, if◌then◌else◌, Bytes}

-- A code point that is not a surrogate.
abbrev pub IsScalar : ℕ → Type 0
IsScalar cp = (cp < 0xd800) ⊎ ((0xdfff < cp) × (cp < 0x11_0000))

-- The encoding of a scalar value.
abbrev pub encode : ℕ → Bytes
encode cp =
    if ltb cp 0x80
    then cp ∷ []
    else if ltb cp 0x800
    then (0xc0 + cp / 64) ∷ (0x80 + cp % 64) ∷ []
    else if ltb cp 0x1_0000
    then (0xe0 + cp / 4096) ∷ (0x80 + cp / 64 % 64) ∷ (0x80 + cp % 64) ∷ []
    else (0xf0 + cp / 262_144)
      ∷ (0x80 + cp / 4096 % 64)
      ∷ (0x80 + cp / 64 % 64)
      ∷ (0x80 + cp % 64)
      ∷ []

-- Well-formed text: the concatenation of the encodings of scalar values.
pub data IsUtf8 : Bytes → Type 0 where
  nil : IsUtf8 []
  char : {s rest : Bytes} (cp : ℕ) → IsScalar cp → s ≡ encode cp ++ rest → IsUtf8 rest → IsUtf8 s
