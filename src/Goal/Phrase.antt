-- ===== src/Goal/Phrase.antt =====
-- The search for a phrase: it occurs in the text, capital or small letters alike.
use mini_agent_os.Ascii.{ascii_lower, ascii_eq_ignore_case}
use mini_agent_os.Base.{
  ℕ, suc, ◌≢◌, ◌↔◌, true, [], ◌∷◌, ◌++◌, map, ◌≡◌, refl, sym, ap, ◌∙◌, inl, inr, arith, ==_iff,
  length, length-append, Bytes, Bool-cases,
}
use mini_agent_os.Goal.{phrase_here, phrase_from, contains_ascii_phrase}

-- The text with small letters only.
abbrev pub lower : Bytes → Bytes
lower = map ascii_lower

-- The phrase stands in the text behind `before`.
pub record Occurs (pat buf : Bytes) : Type 0 where
  pub before : Bytes
  pub found : Bytes
  pub after : Bytes
  pub splits : buf ≡ before ++ (found ++ after)
  pub same : lower found ≡ lower pat

-- A phrase at the cursor.
record Starts (pat buf : Bytes) : Type 0 where
  found : Bytes
  after : Bytes
  splits : buf ≡ found ++ after
  same : lower found ≡ lower pat

same_byte : (b p : ℕ) → (ascii_eq_ignore_case b p ≡ true) ↔ (ascii_lower b ≡ ascii_lower p)
unfolding ascii_eq_ignore_case
same_byte b p = ==_iff (ascii_lower b) (ascii_lower p)

here-Starts : (buf pat : Bytes) → phrase_here buf pat ≡ true → Starts pat buf
unfolding phrase_here
here-Starts buf [] h = record { found = []; after = buf; splits = refl; same = refl }
here-Starts [] (p ∷ pat) h = cc
here-Starts (b ∷ buf) (p ∷ pat) h =
    let s = here-Starts buf pat (ground arith) in
    let e = (same_byte b p).0 (ground arith) in
    record {
      found = b ∷ s.found;
      after = s.after;
      splits = ap (◌∷◌ b) s.splits;
      same = cc (e, s.same);
    }

here_found :
    (found after pat : Bytes) → lower found ≡ lower pat → phrase_here (found ++ after) pat ≡ true
unfolding phrase_here
here_found found after [] e = refl
here_found [] after (p ∷ pat) e = cc
here_found (b ∷ found) after (p ∷ pat) e =
    let x : ascii_lower b ≡ ascii_lower p = cc in
    let y : lower found ≡ lower pat = cc in rw ((same_byte b p).1 x) (here_found found after pat y)

from-Occurs : (buf pat : Bytes) → phrase_from buf pat ≡ true → Occurs pat buf
unfolding phrase_from
from-Occurs [] pat h = cc
from-Occurs (b ∷ buf) pat h = elim (Bool-cases (phrase_here (b ∷ buf) pat)) [
  | inl e ↦
      let s = here-Starts (b ∷ buf) pat e in
      record { before = []; found = s.found; after = s.after; splits = s.splits; same = s.same }
  | inr e ↦
      let o = from-Occurs buf pat (ground arith) in
      record {
        before = b ∷ o.before;
        found = o.found;
        after = o.after;
        splits = ap (◌∷◌ b) o.splits;
        same = o.same;
      }
]

length-lower : (s : Bytes) → length (lower s) ≡ length s
length-lower [] = refl
length-lower (b ∷ s) = ap suc (length-lower s)

length-same : (s t : Bytes) → lower s ≡ lower t → length s ≡ length t
length-same s t e = sym (length-lower s) ∙ ap length e ∙ length-lower t

from_found :
    (before found after pat : Bytes)
    → pat ≢ []
    → lower found ≡ lower pat
    → phrase_from (before ++ (found ++ after)) pat ≡ true
unfolding phrase_from
from_found [] [] after [] ne e = absurd (ne refl)
from_found [] [] after (p ∷ pat) ne e = cc
from_found [] (b ∷ found) after pat ne e =
    let h = here_found (b ∷ found) after pat e in
    let l = length-same (b ∷ found) pat e in let r = length-append found after in ground arith
from_found (x ∷ before) found after pat ne e =
    let h = from_found before found after pat ne e in
    let l = length-same found pat e in
    let r = length-append found after in
    let q = length-append before (found ++ after) in ground arith

-- A phrase that is not empty is found exactly if it occurs in the text, capital or small letters
-- alike.
contains_ascii_phrase_iff :
    (buf pat : Bytes) → pat ≢ [] → (contains_ascii_phrase buf pat ≡ true) ↔ Occurs pat buf
unfolding contains_ascii_phrase
contains_ascii_phrase_iff buf pat ne = (
  (λ h. from-Occurs buf pat (ground arith)),
  (λ o.
      let f : phrase_from buf pat ≡ true =
        ap (λ s. phrase_from s pat) o.splits ∙ from_found o.before o.found o.after pat ne o.same in
      let l : length buf ≡ length (o.before ++ (o.found ++ o.after)) =
        ap (length {A = ℕ}) o.splits in
      let r = length-append o.before (o.found ++ o.after) in
      let q = length-append o.found o.after in
      let z = length-same o.found pat o.same in
      let p : length pat ≢ 0 = nonzero pat ne in ground arith),
)
  where
    nonzero : (s : Bytes) → s ≢ [] → length s ≢ 0
    nonzero [] n = λ z. n refl
    nonzero (b ∷ s) n = λ z. absurd (omega arith)
