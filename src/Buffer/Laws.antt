-- ===== src/Buffer/Laws.antt =====
-- What the appending loops leave in the buffer: exactly the part of the source that fits.
use mini_agent_os.Base.{
  ℕ, suc, ◌+◌, ◌-◌, ◌≤◌, ◌<◌, min, [], ◌∷◌, ◌++◌, ◌≡◌, sym, ap, ◌∙◌, inl, inr, arith, append-nil,
  append_assoc, Bool-cases, length, take, Bytes, length-append, length-take, take_all,
}
use mini_agent_os.Buffer.{Out, index, has_room, put, append_byte, append_bytes, copy_bytes}

-- The cursor never passes the end of the buffer.
abbrev pub IsValid : Out → Type 0
IsValid o = index o ≤ o.capacity

-- What is left behind the cursor.
abbrev pub room : Out → ℕ
room o = o.capacity - index o

pub index-put : (o : Out) (bs : Bytes) → index (put o bs) ≡ index o + length bs
index-put o bs = length-append o.bytes bs

pub put-put : (o : Out) (xs ys : Bytes) → put (put o xs) ys ≡ put o (xs ++ ys)
put-put o xs ys = ap (λ t. record o { bytes = t }) (append_assoc o.bytes xs ys)

pub put-nil : (o : Out) → put o [] ≡ o
put-nil o = ap (λ t. record o { bytes = t }) (append-nil o.bytes)

take-suc : (n m b : ℕ) (bs : Bytes) → n ≡ suc m → take n (b ∷ bs) ≡ b ∷ take m bs
take-suc n m b bs h = ap (λ (k : ℕ). take k (b ∷ bs)) h

-- `append_bytes` writes as long a prefix of the source as there is room for.
pub append_bytes_lem :
    (o : Out) (src : Bytes) → IsValid o → append_bytes o src ≡ put o (take (room o) src)
unfolding append_bytes
append_bytes_lem o [] v = sym (put-nil o) ∙ ap (put o) (sym (take_all (room o) [] (omega arith)))
append_bytes_lem o (b ∷ src) v = elim (Bool-cases (has_room o)) [
  | inl yes_room ↦
      let r = index-put o (b ∷ []) in
      let v' : IsValid (put o (b ∷ [])) = ground arith in
      let e : room o ≡ suc (room (put o (b ∷ []))) = ground arith in
      rw yes_room (
        append_bytes_lem (put o (b ∷ [])) src v'
        ∙ put-put o (b ∷ []) (take (room (put o (b ∷ []))) src)
        ∙ ap (put o) (sym (take-suc (room o) _ b src e)))
  | inr full ↦
      let e : room o ≡ 0 = ground arith in
      rw full (sym (put-nil o) ∙ ap (put o) (sym (ap (λ (k : ℕ). take k (b ∷ src)) e)))
]

pub append_bytes-IsValid : (o : Out) (src : Bytes) → IsValid o → IsValid (append_bytes o src)
append_bytes-IsValid o src v =
    rw (append_bytes_lem o src v)
      (omega (arith, index-put o (take (room o) src), length-take (room o) src))

-- With enough room the whole source is written.
pub append_bytes_all :
    (o : Out) (src : Bytes) → index o + length src ≤ o.capacity → append_bytes o src ≡ put o src
append_bytes_all o src h =
    append_bytes_lem o src (omega arith) ∙ ap (put o) (take_all (room o) src (omega arith))

pub append_byte_all : (o : Out) (b : ℕ) → index o < o.capacity → append_byte o b ≡ put o (b ∷ [])
unfolding append_byte
append_byte_all o b h = ground arith

-- `copy_bytes` copies the prefix that fits, and nothing is lost if the destination is large enough.
pub copy_bytes_lem : (n : ℕ) (src : Bytes) → copy_bytes n src ≡ take (min n (length src)) src
unfolding copy_bytes
copy_bytes_lem n src = ap (λ (k : ℕ). take k src) (ground arith)

pub copy_bytes_all : (n : ℕ) (src : Bytes) → length src ≤ n → copy_bytes n src ≡ src
copy_bytes_all n src h = copy_bytes_lem n src ∙ take_all _ src (omega arith)

pub length-copy_bytes : (n : ℕ) (src : Bytes) → length (copy_bytes n src) ≡ min n (length src)
length-copy_bytes n src =
    omega (arith, ap (length {A = ℕ}) (copy_bytes_lem n src), length-take (min n (length src)) src)

-- A writer that appends the text `t` wherever there is room for it.
abbrev pub Writes : (Out → Out) → Bytes → Type 0
Writes f t = (o : Out) → index o + length t ≤ o.capacity → f o ≡ put o t

pub Writes-then :
    (f g : Out → Out) (s t : Bytes) → Writes f s → Writes g t → Writes (λ o. g (f o)) (s ++ t)
Writes-then f g s t wf wg o h =
    let l = length-append s t in
    ap g (wf o (omega arith)) ∙ wg (put o s) (omega (arith, index-put o s)) ∙ put-put o s t

pub Writes-append_bytes : (src : Bytes) → Writes (λ o. append_bytes o src) src
Writes-append_bytes src o h = append_bytes_all o src h
