-- ===== src/Goal.antt =====
-- The words of a goal: phrases, URLs and numbers in the text of the console line, of
-- runtime/src/agent/goal.rs. A slice `buf[i..len]` is the list of the bytes from `i` on.
pub mod Compile
pub mod Interpret
pub mod Line
pub mod Phrase
pub mod Urls
pub mod Intent
pub mod Plan
pub mod Retry
use mini_agent_os.Ascii.{is_space, is_ascii_digit, ascii_eq_ignore_case, starts_with, skip_spaces}
use mini_agent_os.Base.{
  ℕ, zero, suc, ◌+◌, ◌-◌, Bool, true, false, ◌&&◌, ◌||◌, not, List, [], ◌∷◌, Option, none, some,
  ltb, leb, ◌==◌, if◌then◌else◌, length, drop, Bytes, codes,
}
use mini_agent_os.Buffer.{copy_bytes}
use mini_agent_os.Decimal.{saturating_step, u64_max}
use mini_agent_os.Net.Url.{parse_agent_url, span_until}

-- The inner loop over the pattern.
unfoldable pub phrase_here : Bytes → Bytes → Bool
phrase_here buf [] = true
phrase_here [] (p ∷ pat) = false
phrase_here (b ∷ buf) (p ∷ pat) = ascii_eq_ignore_case b p && phrase_here buf pat

-- The outer loop, `while i + pat.len() <= len`.
unfoldable pub phrase_from : Bytes → Bytes → Bool
phrase_from [] pat = false
phrase_from (b ∷ buf) pat =
    leb (length pat) (length (b ∷ buf)) && (phrase_here (b ∷ buf) pat || phrase_from buf pat)

unfoldable pub contains_ascii_phrase : Bytes → Bytes → Bool
contains_ascii_phrase buf pat =
    if length pat == 0 || ltb (length buf) (length pat) then false else phrase_from buf pat

-- `tail == b'.' || tail == b',' || tail == b';' || tail == b')'`
abbrev pub is_tail : ℕ → Bool
is_tail b = b == b'.' || b == b',' || b == b';' || b == b')'

-- The loop that moves `end` down.
unfoldable pub trim_tail_onto : ℕ → Bytes → Bytes
trim_tail_onto b [] = if is_tail b then [] else b ∷ []
trim_tail_onto b (c ∷ rest) = b ∷ c ∷ rest

unfoldable pub trim_tail : Bytes → Bytes
unfolding trim_tail_onto
trim_tail [] = []
trim_tail (b ∷ s) = trim_tail_onto b (trim_tail s)

abbrev pub is_some {ℓ} : {A : Type ℓ} → Option A → Bool
is_some none = false
is_some (some a) = true

-- The word at the cursor, without the punctuation behind it.
unfoldable pub word : Bytes → Bytes
word s = trim_tail ((span_until is_space s).0)

-- The word at the cursor is a URL that is taken.
unfoldable pub url_here : Bytes → Bool
unfolding word
url_here s =
    (starts_with s (codes "http://") || starts_with s (codes "https://"))
    && not (length (word s) == 0)
    && is_some (parse_agent_url (word s))

-- The loop of `extract_urls` over what stands behind `i`, with places for `n` URLs left; each round
-- takes at least one byte.
unfoldable pub urls_from : ℕ → ℕ → Bytes → List Bytes
urls_from zero n s = []
urls_from (suc fuel) zero s = []
urls_from (suc fuel) (suc n) [] = []
urls_from (suc fuel) (suc n) (b ∷ s) =
    let taken = word (b ∷ s) ∷ urls_from fuel n (drop (length (word (b ∷ s))) (b ∷ s)) in
    let later = urls_from fuel (suc n) s in if url_here (b ∷ s) then taken else later

-- `extract_urls`, with arrays of four places, the URLs themselves for their places.
unfoldable pub extract_urls : Bytes → List Bytes
extract_urls buf = urls_from (length buf) 4 buf

-- The end of a run of digits.
abbrev pub flush : ℕ → Option ℕ → ℕ
flush out none = out
flush out (some v) = if v == 0 then out else v

-- The value of the run so far.
abbrev pub run_value : Option ℕ → ℕ
run_value none = 0
run_value (some v) = v

-- The loop over the numbers of a goal: `run` is the value of the digits in front of the cursor.
unfoldable pub last_number : ℕ → Option ℕ → Bytes → ℕ
last_number out run [] = flush out run
last_number out run (b ∷ s) =
    let more = last_number out (some (saturating_step u64_max (run_value run) (b - b'0'))) s in
    let past = last_number (flush out run) none s in if is_ascii_digit b then more else past

-- The three phrases of one number word.
abbrev pub counts : Bytes → Bytes → Bytes → Bytes → Bool
counts buf bullet point item =
    contains_ascii_phrase buf bullet
    || contains_ascii_phrase buf point
    || contains_ascii_phrase buf item

unfoldable pub number_word : ℕ → Bytes → ℕ
number_word out buf =
    if counts buf (codes "one bullet") (codes "one point") (codes "one item")
    then 1
    else if counts buf (codes "two bullet") (codes "two point") (codes "two item")
    then 2
    else if counts buf (codes "three bullet") (codes "three point") (codes "three item")
    then 3
    else if counts buf (codes "four bullet") (codes "four point") (codes "four item")
    then 4
    else if counts buf (codes "five bullet") (codes "five point") (codes "five item")
    then 5
    else if counts buf (codes "six bullet") (codes "six point") (codes "six item")
    then 6
    else out

unfoldable pub detect_goal_max_items : Bytes → ℕ
detect_goal_max_items buf =
    let out = number_word (last_number 3 none buf) buf in
    if out == 0 then 3 else if ltb 8 out then 8 else out

-- Both normalisations write into arrays of 16 bytes.
unfoldable pub normalize_output_language : Bytes → Bytes
normalize_output_language src =
    if length src == 0
    then copy_bytes 16 (codes "default")
    else if contains_ascii_phrase src (codes "zh") || contains_ascii_phrase src (codes "chinese")
    then copy_bytes 16 (codes "zh")
    else if contains_ascii_phrase src (codes "default")
        || contains_ascii_phrase src (codes "same")
        || contains_ascii_phrase src (codes "auto")
    then copy_bytes 16 (codes "default")
    else copy_bytes 16 src

unfoldable pub normalize_output_style : Bytes → Bytes
normalize_output_style src =
    if length src == 0
    then copy_bytes 16 (codes "bullet")
    else if contains_ascii_phrase src (codes "bullet")
        || contains_ascii_phrase src (codes "point")
        || contains_ascii_phrase src (codes "list")
    then copy_bytes 16 (codes "bullet")
    else if contains_ascii_phrase src (codes "paragraph")
    then copy_bytes 16 (codes "paragraph")
    else copy_bytes 16 src

-- `starts_with_fetch_goal`
unfoldable pub starts_with_fetch_goal : Bytes → Bool
starts_with_fetch_goal line = phrase_here (skip_spaces line) (codes "fetch ")
