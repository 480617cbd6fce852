-- ===== src/Memory/Excerpt.antt =====
-- The excerpt that a compacted note keeps: words with single spaces between them.
use mini_agent_os.Ascii.{is_space}
use mini_agent_os.Base.{
  ℕ, ◌+◌, ◌≤◌, ◌<◌, Bool, true, false, ◌&&◌, [], ◌∷◌, ◌++◌, ◌≡◌, ◌⊎◌, arith, ltb, leb,
  if◌then◌else◌, length, Bytes, take,
}
use mini_agent_os.Buffer.{Out, put}
use mini_agent_os.Buffer.Laws.{length-copy_bytes}
use mini_agent_os.Memory.Text.{normalize_loop, excerpt_max, ellipsis}
use mini_agent_os.Utf8.{copy_utf8_prefix, utf8_safe_prefix_len}

-- The text without its white space.
pub solid : Bytes → Bytes
solid [] = []
solid (b ∷ s) = if is_space b then solid s else b ∷ solid s

-- White space is one blank, behind a byte that is none; `last` tells of the byte in front.
abbrev pub IsSpaced : Bool → Bytes → Type 0
IsSpaced last [] = Unit
IsSpaced last (b ∷ s) = (is_space b ≡ true → (b ≡ b' ') × (last ≡ false)) × IsSpaced (is_space b) s

-- The last byte is no white space.
abbrev pub EndsSolid : Bytes → Type 0
EndsSolid [] = Unit
EndsSolid (b ∷ []) = is_space b ≡ false
EndsSolid (b ∷ c ∷ s) = EndsSolid (c ∷ s)

-- What one round writes.
round : Bool → ℕ → Bytes
round last b = if is_space b then if last then [] else b' ' ∷ [] else b ∷ []

-- What the loop writes where there is room for its whole input.
record Normalized (o : Out) (last : Bool) (raw : Bytes) : Type 0 where
  text : Bytes
  written : normalize_loop o last raw ≡ put o text
  spaced : IsSpaced last text
  same : solid text ≡ solid raw
  short : length text ≤ length raw

pub length-copy_utf8_prefix : (n : ℕ) (src : Bytes) → length (copy_utf8_prefix n src) ≤ n
unfolding copy_utf8_prefix
length-copy_utf8_prefix n src =
    omega (arith, length-copy_bytes n (take (utf8_safe_prefix_len src n) src))

-- The excerpt of a text, in front of the mark of an omission.
pub record IsExcerpt (src excerpt : Bytes) : Type 0 where
  pub text : Bytes
  pub mark : Bytes
  pub splits : excerpt ≡ text ++ mark
  pub marked :
      (mark ≡ []) ⊎ (mark ≡ ellipsis) × (length (copy_utf8_prefix excerpt_max src) < length src)
  pub same : solid text ≡ solid (copy_utf8_prefix excerpt_max src)
  pub spaced : IsSpaced true text
  pub ends : EndsSolid text

excerpt_mark : Bytes → Bytes → Bytes
excerpt_mark src text =
    if ltb (length (copy_utf8_prefix excerpt_max src)) (length src)
      && leb (length text + 3) excerpt_max
    then ellipsis
    else []
