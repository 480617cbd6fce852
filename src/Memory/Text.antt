-- ===== src/Memory/Text.antt =====
-- The texts of runtime/src/agent/memory.rs: excerpts, searches and numbers.
use mini_agent_os.Ascii.{is_space, starts_with}
use mini_agent_os.Base.{
  ℕ, zero, suc, ◌+◌, ◌-◌, Bool, true, not, [], ◌∷◌, ltb, leb, ◌==◌, ◌&&◌, ◌||◌, ◌++◌, if◌then◌else◌,
  length, drop, Bytes,
}
use mini_agent_os.Buffer.{Out, index, fresh, has_room, put, append_copy}
use mini_agent_os.Decimal.{u64_to_dec}
use mini_agent_os.Utf8.{copy_utf8_prefix}

-- M7_COMPACTION_EXCERPT_MAX
abbrev pub excerpt_max : ℕ
excerpt_max = 192

-- `idx += copy_bytes(&mut out[idx..], src)`, and the same for a number.
infixl 60 ◌<+◌ ◌<#◌
abbrev pub ◌<+◌ : Out → Bytes → Out
o <+ src = append_copy o src

-- `append_u64_jsonless`, by `u64_to_dec_local`.
unfoldable pub ◌<#◌ : Out → ℕ → Out
o <# n = put o (u64_to_dec (o.capacity - index o) n)

-- The loop of `count_occurrences_local` from `i` on, with a round for each byte: a find is passed
-- over whole.
unfoldable pub count_from : ℕ → Bytes → Bytes → ℕ
count_from zero pat s = 0
count_from (suc fuel) pat s =
    let found = suc (count_from fuel pat (drop (length pat) s)) in
    let later = count_from fuel pat (drop 1 s) in
    if leb (length pat) (length s) then if starts_with s pat then found else later else 0

unfoldable pub count_occurrences : Bytes → Bytes → ℕ
count_occurrences buf pat =
    if length pat == 0 || ltb (length buf) (length pat) then 0 else count_from (length buf) pat buf

unfoldable pub contains_bytes : Bytes → Bytes → Bool
contains_bytes buf pat = not (count_occurrences buf pat == 0)

-- The bytes in front of `trimmed_len_local`.
unfoldable pub trim_onto : ℕ → Bytes → Bytes
trim_onto b [] = if is_space b then [] else b ∷ []
trim_onto b (c ∷ rest) = b ∷ c ∷ rest

unfoldable pub trim_end : Bytes → Bytes
unfolding trim_onto
trim_end [] = []
trim_end (b ∷ s) = trim_onto b (trim_end s)

-- The loop of `normalized_excerpt_from`, over the flag `last_space`.
unfoldable pub normalize_loop : Out → Bool → Bytes → Out
normalize_loop o last_space [] = o
normalize_loop o last_space (b ∷ raw) =
    let o' = if is_space b then if last_space then o else put o (b' ' ∷ []) else put o (b ∷ []) in
    let rest = normalize_loop o' (is_space b) raw in if has_room o then rest else o

abbrev pub ellipsis : Bytes
ellipsis = b'.' ∷ b'.' ∷ b'.' ∷ []

-- `normalized_excerpt_from`, into `size` bytes.
unfoldable pub normalized_excerpt : ℕ → Bytes → Bytes
normalized_excerpt size src =
    let raw = copy_utf8_prefix excerpt_max src in
    let text = trim_end ((normalize_loop (fresh size) true raw).bytes) in
    if ltb (length raw) (length src) && leb (length text + 3) size then text ++ ellipsis else text

unfoldable pub append_normalized_excerpt : Out → Bytes → Out
append_normalized_excerpt o src = o <+ normalized_excerpt excerpt_max src

-- The loop of `summary_from_text` that takes newlines off the end.
unfoldable pub newline_onto : ℕ → Bytes → Bytes
newline_onto b [] = if b == b'\n' then [] else b ∷ []
newline_onto b (c ∷ rest) = b ∷ c ∷ rest

unfoldable pub trim_newlines : Bytes → Bytes
unfolding newline_onto
trim_newlines [] = []
trim_newlines (b ∷ s) = newline_onto b (trim_newlines s)

-- `summary_from_text`, into `size` bytes.
unfoldable pub summary_from_text : ℕ → Bytes → Bytes
summary_from_text size text = trim_newlines (copy_utf8_prefix size text)
