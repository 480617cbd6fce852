-- ===== src/Net/Ipv4/Grammar.antt =====
-- Which texts `parse_ipv4_bytes` takes for an address, and as which.
use mathlib.Core.List.{cons≢nil}
use mathlib.Core.Path.{subst}
use mathlib.Core.Option.{some-injective, none-ne-some}
use mini_agent_os.Ascii.{is_ascii_digit}
use mini_agent_os.Base.{
  ℕ, ◌+◌, ◌-◌, ◌*◌, ◌≤◌, Bool, true, false, [], ◌∷◌, ◌++◌, ◌≡◌, ◌↔◌, ◌≢◌, refl, sym, ap, ◌∙◌, arith,
  Option, none, some, ltb, All, Bytes, Bool-cases, leb, zero, suc, length, append-nil, inl, inr,
}
use mini_agent_os.Json.{expect, ◌>>=◌}
use mini_agent_os.Decimal.{saturating_step}
use mini_agent_os.Net.Ipv4.{u16_max, octet, octet_loop, parse_ipv4_bytes, at_end, parts_loop}

-- The number that decimal digits denote behind the value `v`.
abbrev pub value_from : ℕ → Bytes → ℕ
value_from v [] = v
value_from v (b ∷ t) = value_from (v * 10 + (b - b'0')) t

abbrev pub IsDigits : Bytes → Type 0
IsDigits t = All (λ b. is_ascii_digit b ≡ true) t

-- The text `t` is one part of an address, the number `v`: leading zeros are allowed.
abbrev pub IsOctet : Bytes → ℕ → Type 0
IsOctet t v = (t ≢ []) × IsDigits t × (value_from 0 t ≡ v) × (v ≤ 255)

-- A text that goes on with no digit.
abbrev Stops : Bytes → Type 0
Stops [] = Unit
Stops (b ∷ rest) = is_ascii_digit b ≡ false

value_from_grows : (v : ℕ) (t : Bytes) → v ≤ value_from v t
value_from_grows v [] = omega arith
value_from_grows v (b ∷ t) = omega (arith, value_from_grows (v * 10 + (b - b'0')) t)

octet_loop_step :
    (v b : ℕ) (saw : Bool) (rest : Bytes)
    → is_ascii_digit b ≡ true
    → v * 10 + (b - b'0') ≤ 255
    → octet_loop v saw (b ∷ rest) ≡ octet_loop (v * 10 + (b - b'0')) true rest
unfolding octet_loop
octet_loop_step v b saw rest d m =
    let e : saturating_step u16_max v (b - b'0') ≡ v * 10 + (b - b'0') = omega arith in
    ground (arith, ap (λ (k : ℕ). octet_loop k true rest) e)

digit_bound : (b : ℕ) → is_ascii_digit b ≡ true → 0 * 10 + (b - b'0') ≤ 255
unfolding is_ascii_digit
digit_bound b d = ground arith

octet_loop-digits :
    (v : ℕ) (t rest : Bytes)
    → IsDigits t
    → value_from v t ≤ 255
    → Stops rest
    → octet_loop v true (t ++ rest) ≡ some (value_from v t, rest)
unfolding octet_loop
octet_loop-digits v [] [] d m s = refl
octet_loop-digits v [] (b ∷ rest) d m s = ground arith
octet_loop-digits v (b ∷ t) rest d m s =
    let w = v * 10 + (b - b'0') in
    octet_loop_step v b true (t ++ rest) d.0 (omega (arith, value_from_grows w t))
    ∙ octet_loop-digits w t rest d.1 m s

octet-IsOctet :
    (t rest : Bytes) (v : ℕ) → IsOctet t v → Stops rest → octet (t ++ rest) ≡ some (v, rest)
unfolding octet
octet-IsOctet [] rest v o s = absurd (o.0 refl)
octet-IsOctet (b ∷ t) rest v o s =
    let e = o.2 in
    let w = 0 * 10 + (b - b'0') in
    octet_loop_step 0 b false (t ++ rest) o.1.0 (omega (arith, value_from_grows w t, e, o.3))
    ∙ octet_loop-digits w t rest o.1.1 (omega (arith, e, o.3)) s
    ∙ ap (λ k. some (k, rest)) e

-- What a loop that ends has read: the digits `t`.
abbrev Read : ℕ → Bytes → ℕ → Bytes → Type 0
Read v buf w rest =
    (t : Bytes) × (buf ≡ t ++ rest) × IsDigits t × (value_from v t ≡ w) × (w ≤ 255) × Stops rest

-- A loop that stops at once.
stop_at_once :
    (v : ℕ) (buf : Bytes) (w : ℕ) (rest : Bytes)
    → v ≤ 255
    → Stops buf
    → ◌≡◌ {A = Option (ℕ × Bytes)} (some (v, buf)) (some (w, rest))
    → Read v buf w rest
stop_at_once v buf w rest m s e =
    let q = some-injective (v, buf) (w, rest) e in
    let q_v : v ≡ w = ap (λ p. p.0) q in
    let q_rest : buf ≡ rest = ap (λ p. p.1) q in
    ([], q_rest, tt, q_v, omega arith, subst Stops q_rest s)

octet_loop_reads :
    (v : ℕ) (buf : Bytes) (w : ℕ) (rest : Bytes)
    → v ≤ 255
    → octet_loop v true buf ≡ some (w, rest)
    → Read v buf w rest
unfolding octet_loop
octet_loop_reads v [] w rest m e = stop_at_once v [] w rest m tt e
octet_loop_reads v (b ∷ buf) w rest m e = elim (Bool-cases (is_ascii_digit b)) [
  | inl d ↦ elim (Bool-cases (leb (v * 10 + (b - b'0')) 255)) [
    | inl small ↦
        let le : v * 10 + (b - b'0') ≤ 255 = ground arith in
        let more =
          octet_loop_reads (v * 10 + (b - b'0')) buf w rest le
            (sym (octet_loop_step v b true buf d le) ∙ e) in
        (b ∷ more.0, ap (◌∷◌ b) more.1, (d, more.2), more.3, more.4, more.5)
    | inr big ↦
        let over : ltb 255 (saturating_step u16_max v (b - b'0')) ≡ true = ground arith in
        absurd (ground arith)
  ]
  | inr d ↦ stop_at_once v (b ∷ buf) w rest m d (ground arith)
]

no_digit : (b : ℕ) (buf : Bytes) → is_ascii_digit b ≡ false → octet_loop 0 false (b ∷ buf) ≡ none
unfolding octet_loop
no_digit b buf d = ground arith

-- One part is read whole.
octet_reads :
    (buf : Bytes) (v : ℕ) (rest : Bytes)
    → octet buf ≡ some (v, rest)
    → (t : Bytes) × (buf ≡ t ++ rest) × IsOctet t v × Stops rest
unfolding octet
octet_reads [] v rest e = absurd (ground arith)
octet_reads (b ∷ buf) v rest e = elim (Bool-cases (is_ascii_digit b)) [
  | inl d ↦
      let le : 0 * 10 + (b - b'0') ≤ 255 = digit_bound b d in
      let first = octet_loop_step 0 b false buf d le in
      let more = octet_loop_reads (0 * 10 + (b - b'0')) buf v rest le (sym first ∙ e) in
      (b ∷ more.0, ap (◌∷◌ b) more.1, ((λ q. cons≢nil q), (d, more.2), more.3, more.4), more.5)
  | inr d ↦ absurd (none-ne-some (v, rest) (sym (no_digit b buf d) ∙ e))
]

-- The bytes that `expect` takes.
expect_takes : (c : ℕ) (buf rest : Bytes) → expect c buf ≡ some rest → buf ≡ c ∷ rest
unfolding expect
expect_takes c [] rest e = absurd (ground arith)
expect_takes c (b ∷ buf) rest e = ground arith

expect_self : (c : ℕ) (rest : Bytes) → expect c (c ∷ rest) ≡ some rest
unfolding expect
expect_self c rest = ground arith

dot_stops : is_ascii_digit b'.' ≡ false
unfolding is_ascii_digit
dot_stops = refl

bind_some :
    {A B : Type 0} (o : Option A) (f : A → Option B) (y : B)
    → ◌≡◌ {A = Option B} (o >>= f) (some y)
    → (a : A) × (o ≡ some a) × (f a ≡ some y)
bind_some none f y e = absurd (none-ne-some y e)
bind_some (some a) f y e = (a, refl, e)

-- The texts of an address with the parts `ip`, with a dot between two of them.
abbrev pub IsAddress : Bytes → Bytes → Type 0
IsAddress buf [] = ⊥
IsAddress buf (v ∷ []) = IsOctet buf v
IsAddress buf (v ∷ w ∷ ip) =
    (t : Bytes) × (rest : Bytes) × (buf ≡ t ++ b'.' ∷ rest) × IsOctet t v × IsAddress rest (w ∷ ip)

at_end_reads :
    (t rest ip : Bytes) (v : ℕ)
    → IsOctet t v
    → at_end v rest ≡ some ip
    → (length ip ≡ 1) × IsAddress (t ++ rest) ip
at_end_reads t (b ∷ rest) ip v o e = absurd (none-ne-some ip e)
at_end_reads t [] ip v o e =
    subst (λ l. (length l ≡ 1) × IsAddress (t ++ []) l) {x = v ∷ []} (some-injective (v ∷ []) ip e)
      (refl, subst (λ b. IsOctet b v) (sym (append-nil t)) o)

IsAddress-cons :
    (t rest ip : Bytes) (v left : ℕ)
    → IsOctet t v
    → length ip ≡ suc left
    → IsAddress rest ip
    → IsAddress (t ++ b'.' ∷ rest) (v ∷ ip)
IsAddress-cons t rest [] v left o l h = absurd (omega arith)
IsAddress-cons t rest (w ∷ ip) v left o l h = (t, rest, refl, o, h)

parts_loop_reads :
    (left : ℕ) (buf ip : Bytes)
    → parts_loop left buf ≡ some ip
    → (length ip ≡ suc left) × IsAddress buf ip
unfolding parts_loop
parts_loop_reads zero buf ip e =
    let (x, x_eq, x_rest) = bind_some (octet buf) (λ x. at_end x.0 x.1) ip e in
    let (t, q, o, s) = octet_reads buf x.0 x.1 x_eq in
    let r = at_end_reads t x.1 ip x.0 o x_rest in (r.0, subst (λ b. IsAddress b ip) (sym q) r.1)
parts_loop_reads (suc left) buf ip e =
    let (x, x_eq, x_rest) =
      bind_some (octet buf)
        (λ x. expect b'.' x.1 >>= λ next. parts_loop left next >>= λ vs. some (x.0 ∷ vs)) ip e in
    let (next, next_eq, next_rest) =
      bind_some (expect b'.' x.1) (λ next. parts_loop left next >>= λ vs. some (x.0 ∷ vs)) ip
        x_rest in
    let (vs, vs_eq, last) = bind_some (parts_loop left next) (λ vs. some (x.0 ∷ vs)) ip next_rest in
    let (t, q, o, s) = octet_reads buf x.0 x.1 x_eq in
    let more = parts_loop_reads left next vs vs_eq in
    let text : buf ≡ t ++ b'.' ∷ next = q ∙ ap (λ b. t ++ b) (expect_takes b'.' x.1 next next_eq) in
    subst (λ l. (length l ≡ suc (suc left)) × IsAddress buf l) {x = x.0 ∷ vs}
      (some-injective (x.0 ∷ vs) ip last)
      (
        ap suc more.0,
        subst (λ b. IsAddress b (x.0 ∷ vs)) (sym text)
            (IsAddress-cons t next vs x.0 left o more.0 more.1),
      )

parts_loop-IsAddress :
    (left : ℕ) (buf ip : Bytes)
    → length ip ≡ suc left
    → IsAddress buf ip
    → parts_loop left buf ≡ some ip
unfolding parts_loop
parts_loop-IsAddress left buf [] l h = absurd h
parts_loop-IsAddress zero buf (v ∷ []) l h =
    let e : octet buf ≡ some (v, []) =
      ap octet (sym (append-nil buf)) ∙ octet-IsOctet buf [] v h tt in
    rw e
parts_loop-IsAddress zero buf (v ∷ w ∷ ip) l h = absurd (omega arith)
parts_loop-IsAddress (suc left) buf (v ∷ []) l h = absurd (omega arith)
parts_loop-IsAddress (suc left) buf (v ∷ w ∷ ip) l (t, rest, e, o, h) =
    let f = octet-IsOctet t (b'.' ∷ rest) v o dot_stops in
    let g : expect b'.' (b'.' ∷ rest) ≡ some rest = expect_self b'.' rest in
    let r = parts_loop-IsAddress left rest (w ∷ ip) (omega (arith, l)) h in rw (e, f, g, r)

-- The parser reads exactly the texts of an address, as the address they denote: four parts of
-- decimal digits, each at most 255, leading zeros allowed and never octal, with a dot between them
-- and nothing around them.
pub parse_ipv4_bytes_iff :
    (buf ip : Bytes) → (parse_ipv4_bytes buf ≡ some ip) ↔ ((length ip ≡ 4) × IsAddress buf ip)
unfolding parse_ipv4_bytes
parse_ipv4_bytes_iff buf ip =
    (parts_loop_reads 3 buf ip, λ h. parts_loop-IsAddress 3 buf ip h.0 h.1)
