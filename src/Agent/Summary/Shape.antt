-- ===== src/Agent/Summary/Shape.antt =====
-- The shape of a local summary.
use mathlib.Core.List.{reverse, reverse-append, reverse-reverse}
use mathlib.Core.Path.{subst}
use mini_agent_os.Agent.Summary.{
  unbreak, ends_sentence, summarize_loop, drop_spaces, summarize_agent_response,
}
use mini_agent_os.Base.{
  ℕ, suc, ◌+◌, ◌-◌, ◌≤◌, ◌<◌, Bool, true, false, [], ◌∷◌, ◌++◌, ◌≡◌, ◌≢◌, refl, sym, ap, ◌∙◌, arith,
  leb, ◌==◌, if◌then◌else◌, length, length-append, All, Bytes, Bool-cases, inl, inr,
}

-- A byte that is no line break and no tab.
abbrev pub IsFlat : ℕ → Type 0
IsFlat b = (b ≢ b'\n') × (b ≢ b'\r') × (b ≢ b'\t')

-- The number of bytes that end a sentence.
abbrev pub sentence_ends : Bytes → ℕ
sentence_ends [] = 0
sentence_ends (b ∷ s) = (if ends_sentence b then 1 else 0) + sentence_ends s

abbrev Shape : ℕ → ℕ → Bytes → Type 0
Shape room left s = (length s ≤ room) × All IsFlat s × (sentence_ends s ≤ left)

unbreak-IsFlat : (b : ℕ) → IsFlat (unbreak b)
unbreak-IsFlat b = ground arith

-- A choice has the shape that both ways have.
pick :
    (room left : ℕ) (b : Bool) (x y : Bytes)
    → (b ≡ true → Shape room left x)
    → (b ≡ false → Shape room left y)
    → Shape room left (if b then x else y)
pick room left true x y f g = f refl
pick room left false x y f g = g refl

plain-Shape :
    (room left b : ℕ) (s : Bytes)
    → 0 < room
    → IsFlat b
    → ends_sentence b ≡ false
    → Shape (room - 1) left s
    → Shape room left (b ∷ s)
plain-Shape room left b s p f e h = (omega (arith, h.0), (f, h.1), rw e (omega (arith, h.2)))

end-Shape :
    (room left b : ℕ) (s : Bytes)
    → 0 < room
    → IsFlat b
    → ends_sentence b ≡ true
    → 0 < left
    → Shape (room - 1) (left - 1) s
    → Shape room left (b ∷ s)
end-Shape room left b s p f e q h = (omega (arith, h.0), (f, h.1), rw e (omega (arith, h.2)))

no_room : (room : ℕ) → (room == 0) ≡ false → 0 < room
no_room room e = ground arith

space_ends : (b : ℕ) → (b == b' ') ≡ true → ends_sentence b ≡ false
space_ends b e = ground arith

summarize_loop-Shape :
    (limit room : ℕ) (saw_space : Bool) (count : ℕ) (src : Bytes)
    → count < limit
    → Shape room (limit - count) (summarize_loop limit room saw_space count src)
unfolding summarize_loop
summarize_loop-Shape limit room saw_space count [] h = (omega arith, tt, omega arith)
summarize_loop-Shape limit room saw_space count (c ∷ src) h =
    let left = limit - count in
    let b = unbreak c in
    let flat = unbreak-IsFlat c in
    let nothing : Shape room left [] = (omega arith, tt, omega arith) in
    let space = summarize_loop-Shape limit (room - 1) true count src h in
    let letter = summarize_loop-Shape limit (room - 1) false count src h in
    pick room left (room == 0) _ _ (λ r. nothing)
      (λ r.
        let p = no_room room r in
        pick room left (b == b' ') _ _
          (λ e.
            pick room left saw_space _ _
              (λ w. summarize_loop-Shape limit room saw_space count src h)
              (λ w. plain-Shape room left b _ p flat (space_ends b e) space))
          (λ e.
            pick room left (ends_sentence b) _ _
              (λ d. end-Shape room left b _ p flat d (omega arith) (
                pick (room - 1) (left - 1) (leb limit (suc count)) _ _
                  (λ l. (omega arith, tt, omega arith))
                  (λ l.
                    let more =
                      summarize_loop-Shape limit (room - 1) false (suc count) src (ground arith) in
                    (more.0, more.1, omega (arith, more.2)))))
              (λ d. plain-Shape room left b _ p flat d letter)))

-- A text without its last spaces is a prefix of it.
drop_spaces_suffix : (s : Bytes) → (pre : Bytes) × (s ≡ pre ++ drop_spaces s)
unfolding drop_spaces
drop_spaces_suffix [] = ([], refl)
drop_spaces_suffix (b ∷ s) = elim (Bool-cases (b == b' ')) [
  | inl e ↦ let more = drop_spaces_suffix s in rw e (b ∷ more.0, ap (◌∷◌ b) more.1)
  | inr e ↦ rw e ([], refl)
]

All-left : (x y : Bytes) → All IsFlat (x ++ y) → All IsFlat x
All-left [] y h = tt
All-left (b ∷ x) y h = (h.0, All-left x y h.1)

sentence_ends-append : (x y : Bytes) → sentence_ends x ≤ sentence_ends (x ++ y)
sentence_ends-append [] y = omega arith
sentence_ends-append (b ∷ x) y = omega (arith, sentence_ends-append x y)

-- A local summary fits its array, holds no line break and no tab, and has at most as many bytes that
-- end a sentence as the limit says, where a limit of 0 counts as 1.
pub summarize_agent_response-Shape :
    (size limit : ℕ) (src : Bytes)
    → (length (summarize_agent_response size limit src) ≤ size)
      × All IsFlat (summarize_agent_response size limit src)
      × (sentence_ends (summarize_agent_response size limit src)
          ≤ (if limit == 0 then 1 else limit))
unfolding summarize_agent_response
summarize_agent_response-Shape size limit src =
    let bound = if limit == 0 then 1 else limit in
    let text = summarize_loop bound size true 0 src in
    let shape = summarize_loop-Shape bound size true 0 src (ground arith) in
    let (pre, e) = drop_spaces_suffix (reverse text) in
    let kept = reverse (drop_spaces (reverse text)) in
    let whole : text ≡ kept ++ reverse pre =
      sym (reverse-reverse text) ∙ ap reverse e ∙ reverse-append pre (drop_spaces (reverse text)) in
    (
      omega (arith, shape.0, ap (length {A = ℕ}) whole, length-append kept (reverse pre)),
      All-left kept (reverse pre) (subst (All IsFlat) whole shape.1),
      omega (arith, shape.2, ap sentence_ends whole, sentence_ends-append kept (reverse pre)),
    )
