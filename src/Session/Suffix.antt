-- ===== src/Session/Suffix.antt =====
-- The suffix of the history that a prompt takes starts at a character.
use mathlib.Core.Path.{subst}
use mini_agent_os.Base.{
  ℕ, zero, suc, ◌-◌, ◌≤◌, ◌<◌, [], ◌∷◌, ◌++◌, ◌≡◌, refl, sym, ap, ◌∙◌, arith, length, length-drop,
  drop, leb, ltb, Bytes, Bool-cases, inl, inr,
}
use mini_agent_os.Session.{skip_continuations, utf8_safe_suffix}
use mini_agent_os.Utf8.Scalar.{IsUtf8, nil, char, encode}
use mini_agent_os.Utf8.{is_utf8_continuation, top_bits}

-- The first byte of a character is no continuation byte.
skip-encode :
    (cp : ℕ) (rest : Bytes)
    → cp < 0x11_0000
    → skip_continuations (encode cp ++ rest) ≡ encode cp ++ rest
unfolding skip_continuations is_utf8_continuation top_bits
skip-encode cp rest h = ground arith

skip-IsUtf8 : (s : Bytes) → IsUtf8 s → skip_continuations s ≡ s
unfolding skip_continuations
skip-IsUtf8 s nil = refl
skip-IsUtf8 s (char {rest = rest} cp v e u) =
    subst (λ x. skip_continuations x ≡ x) (sym e) (skip-encode cp rest (ground arith))

-- Inside a character only continuation bytes are left.
skip_inside :
    (cp n : ℕ) (rest : Bytes)
    → cp < 0x11_0000
    → suc n < length (encode cp)
    → skip_continuations (drop (suc n) (encode cp ++ rest)) ≡ skip_continuations rest
unfolding skip_continuations is_utf8_continuation top_bits
skip_inside cp zero rest h l = ground arith
skip_inside cp (suc zero) rest h l = ground arith
skip_inside cp (suc (suc zero)) rest h l = ground arith
skip_inside cp (suc (suc (suc n))) rest h l = absurd (ground arith)

drop_past : (n : ℕ) (a b : Bytes) → length a ≤ n → drop n (a ++ b) ≡ drop (n - length a) b
drop_past n [] b h = ap (λ (k : ℕ). drop k b) (omega arith)
drop_past zero (x ∷ a) b h = absurd (omega arith)
drop_past (suc n) (x ∷ a) b h =
    drop_past n a b (omega arith) ∙ ap (λ (k : ℕ). drop k b) (omega arith)

drop-IsUtf8 : (n : ℕ) (s : Bytes) → IsUtf8 s → IsUtf8 (skip_continuations (drop n s))
unfolding skip_continuations
drop-IsUtf8 zero s u = subst IsUtf8 (sym (skip-IsUtf8 s u)) u
drop-IsUtf8 (suc n) s nil = nil
drop-IsUtf8 (suc n) s (char {rest = rest} cp v e u) =
    elim (Bool-cases (ltb (suc n) (length (encode cp)))) [
      | inl inside ↦
          let same =
            ap (λ x. skip_continuations (drop (suc n) x)) e
            ∙ skip_inside cp n rest (ground arith) (ground arith)
            ∙ skip-IsUtf8 rest u in
          subst IsUtf8 (sym same) u
      | inr past ↦
          let same = ap (drop (suc n)) e ∙ drop_past (suc n) (encode cp) rest (ground arith) in
          subst (λ x. IsUtf8 (skip_continuations x)) (sym same)
            (drop-IsUtf8 (suc n - length (encode cp)) rest u)
    ]

skip-le : (s : Bytes) → length (skip_continuations s) ≤ length s
unfolding skip_continuations
skip-le [] = omega arith
skip-le (b ∷ s) = ground (arith, skip-le s)

-- The suffix that a prompt takes of well-formed text is well-formed and holds at most `keep` bytes.
utf8_safe_suffix-IsUtf8 :
    (s : Bytes) (keep : ℕ)
    → IsUtf8 s
    → IsUtf8 (utf8_safe_suffix s keep) × (length (utf8_safe_suffix s keep) ≤ keep)
unfolding utf8_safe_suffix
utf8_safe_suffix-IsUtf8 s keep u = elim (Bool-cases (leb (length s) keep)) [
  | inl e ↦ rw e (u, ground arith)
  | inr e ↦ rw e (
    drop-IsUtf8 (length s - keep) s u,
    omega (
      arith,
      skip-le (drop (length s - keep) s),
      length-drop (length s - keep) s,
      (let h : keep < length s = ground arith in h),
    ),
  )
]
