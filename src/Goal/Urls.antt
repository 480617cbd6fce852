-- ===== src/Goal/Urls.antt =====
-- The URLs of a goal stand in its text, and the parser of the transport reads them.
use mathlib.Core.Path.{subst}
use mini_agent_os.Ascii.{is_space}
use mini_agent_os.Base.{
  ℕ, zero, suc, ◌≢◌, Bool, true, List, [], ◌∷◌, ◌++◌, ◌≡◌, refl, sym, ap, ◌∙◌, inl, inr, arith,
  append_assoc, length, take, drop, take-append-drop, Bytes, Bool-cases, All,
}
use mini_agent_os.Goal.{
  extract_urls, urls_from, url_here, word, is_some, is_tail, trim_tail, trim_tail_onto,
}
use mini_agent_os.Net.Url.{parse_agent_url, span_until}

-- A text that stands in another.
pub record IsIn (text part : Bytes) : Type 0 where
  pub before : Bytes
  pub after : Bytes
  pub splits : text ≡ before ++ (part ++ after)

-- A URL that stands in the goal and that the parser of the transport reads.
pub record IsUrl (goal url : Bytes) : Type 0 where
  pub stands : IsIn goal url
  pub filled : url ≢ []
  pub reads : is_some (parse_agent_url url) ≡ true

onto-prefix :
    (b : ℕ) (r s : Bytes) (rest : Bytes)
    → s ≡ r ++ rest
    → (q : Bytes) × (b ∷ s ≡ trim_tail_onto b r ++ q)
unfolding trim_tail_onto
onto-prefix b [] s rest e = elim (Bool-cases (is_tail b)) [
  | inl h ↦ (b ∷ s, rw h)
  | inr h ↦ (s, rw h)
]
onto-prefix b (c ∷ r) s rest e = (rest, ap (◌∷◌ b) e)

trim-prefix : (s : Bytes) → (q : Bytes) × (s ≡ trim_tail s ++ q)
unfolding trim_tail
trim-prefix [] = ([], refl)
trim-prefix (b ∷ s) = let (q, e) = trim-prefix s in onto-prefix b (trim_tail s) s q e

span-append : (stop : ℕ → Bool) (s : Bytes) → s ≡ (span_until stop s).0 ++ (span_until stop s).1
unfolding span_until
span-append stop [] = refl
span-append stop (b ∷ s) = elim (Bool-cases (stop b)) [
  | inl h ↦ rw h
  | inr h ↦ rw h (ap (◌∷◌ b) (span-append stop s))
]

word-IsIn : (s : Bytes) → IsIn s (word s)
unfolding word
word-IsIn s =
    let front = (span_until is_space s).0 in
    let behind = (span_until is_space s).1 in
    let (q, e) = trim-prefix front in
    record {
      before = [];
      after = q ++ behind;
      splits =
          span-append is_space s
          ∙ ap (λ x. x ++ behind) e
          ∙ append_assoc (trim_tail front) q behind;
    }

IsIn-append : (a s part : Bytes) → IsIn s part → IsIn (a ++ s) part
IsIn-append a s part i = record {
  before = a ++ i.before;
  after = i.after;
  splits = ap (◌++◌ a) i.splits ∙ sym (append_assoc a i.before (part ++ i.after));
}

IsUrl-append : (a s url : Bytes) → IsUrl s url → IsUrl (a ++ s) url
IsUrl-append a s url u = record {
  stands = IsIn-append a s url u.stands;
  filled = u.filled;
  reads = u.reads;
}

IsUrl-drop : (n : ℕ) (s url : Bytes) → IsUrl (drop n s) url → IsUrl s url
IsUrl-drop n s url u =
    subst (λ x. IsUrl x url) (take-append-drop n s) (IsUrl-append (take n s) (drop n s) url u)

All-map :
    (P Q : Bytes → Type 0) (urls : List Bytes) → ((u : Bytes) → P u → Q u) → All P urls → All Q urls
All-map P Q [] f h = tt
All-map P Q (u ∷ urls) f h = (f u h.0, All-map P Q urls f h.1)

here-IsUrl : (s : Bytes) → url_here s ≡ true → IsUrl s (word s)
unfolding url_here
here-IsUrl s h = record {
  stands = word-IsIn s;
  filled = λ e. let l : length (word s) ≡ 0 = ap (length {A = ℕ}) e in ground arith;
  reads = ground arith;
}

urls-IsUrl : (fuel n : ℕ) (s : Bytes) → All (IsUrl s) (urls_from fuel n s)
unfolding urls_from
urls-IsUrl zero n s = tt
urls-IsUrl (suc fuel) zero s = tt
urls-IsUrl (suc fuel) (suc n) [] = tt
urls-IsUrl (suc fuel) (suc n) (b ∷ s) =
    let k = length (word (b ∷ s)) in
    elim (Bool-cases (url_here (b ∷ s))) [
      | inl e ↦ rw e (
        here-IsUrl (b ∷ s) e,
        All-map (IsUrl (drop k (b ∷ s))) (IsUrl (b ∷ s)) _ (IsUrl-drop k (b ∷ s))
            (urls-IsUrl fuel n (drop k (b ∷ s))),
      )
      | inr e ↦ rw e (
          All-map (IsUrl s) (IsUrl (b ∷ s)) _ (IsUrl-append (b ∷ []) s) (urls-IsUrl fuel (suc n) s))
    ]

pub extract_urls-IsUrl : (buf : Bytes) → All (IsUrl buf) (extract_urls buf)
unfolding extract_urls
extract_urls-IsUrl buf = urls-IsUrl (length buf) 4 buf
