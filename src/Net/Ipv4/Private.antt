-- ===== src/Net/Ipv4/Private.antt =====
-- The private addresses that `is_private_ipv4` of runtime/src/agent/policy.rs turns away, as blocks
-- of addresses.
use mini_agent_os.Base.{
  ℕ, ◌+◌, ◌-◌, ◌*◌, ◌/◌, ◌^◌, ◌≤◌, true, ◌⊎◌, [], ◌∷◌, ◌≡◌, arith, some, length, Bytes, inl, inr,
}
use mini_agent_os.Net.Ipv4.{is_private_ipv4, is_private_octets, parse_ipv4_bytes}
use mini_agent_os.Net.Ipv4.Grammar.{IsAddress, parse_ipv4_bytes_iff}

-- The number of 32 bits that an address is.
abbrev pub number : Bytes → ℕ
number (a ∷ b ∷ c ∷ d ∷ []) = ((a * 256 + b) * 256 + c) * 256 + d
number ip = 0

-- The address `ip` agrees with `block` in its first `bits` bits.
abbrev pub IsWithin : Bytes → ℕ → Bytes → Type 0
IsWithin block bits ip = number ip / 2 ^ (32 - bits) ≡ number block / 2 ^ (32 - bits)

-- 10.0.0.0/8, 127.0.0.0/8, 0.0.0.0/8, 169.254.0.0/16, 172.16.0.0/12 and 192.168.0.0/16.
abbrev pub IsPrivate : Bytes → Type 0
IsPrivate ip =
    IsWithin (10 ∷ 0 ∷ 0 ∷ 0 ∷ []) 8 ip
    ⊎ IsWithin (127 ∷ 0 ∷ 0 ∷ 0 ∷ []) 8 ip
    ⊎ IsWithin (0 ∷ 0 ∷ 0 ∷ 0 ∷ []) 8 ip
    ⊎ IsWithin (169 ∷ 254 ∷ 0 ∷ 0 ∷ []) 16 ip
    ⊎ IsWithin (172 ∷ 16 ∷ 0 ∷ 0 ∷ []) 12 ip
    ⊎ IsWithin (192 ∷ 168 ∷ 0 ∷ 0 ∷ []) 16 ip

is_private_octets-IsPrivate :
    (a b c d : ℕ)
    → b ≤ 255
    → c ≤ 255
    → d ≤ 255
    → IsPrivate (a ∷ b ∷ c ∷ d ∷ [])
    → is_private_octets (a ∷ b ∷ c ∷ d ∷ []) ≡ true
unfolding is_private_octets
is_private_octets-IsPrivate a b c d p q r (inl h) = let e : a ≡ 10 = omega arith in ground arith
is_private_octets-IsPrivate a b c d p q r (inr (inl h)) =
    let e : a ≡ 127 = omega arith in ground arith
is_private_octets-IsPrivate a b c d p q r (inr (inr (inl h))) =
    let e : a ≡ 0 = omega arith in ground arith
is_private_octets-IsPrivate a b c d p q r (inr (inr (inr (inl h)))) =
    let e : a ≡ 169 = omega arith in let f : b ≡ 254 = omega arith in ground arith
is_private_octets-IsPrivate a b c d p q r (inr (inr (inr (inr (inl h))))) =
    let e : a ≡ 172 = omega arith in
    let f : (16 ≤ b) × (b ≤ 31) = (omega arith, omega arith) in ground arith
is_private_octets-IsPrivate a b c d p q r (inr (inr (inr (inr (inr h))))) =
    let e : a ≡ 192 = omega arith in let f : b ≡ 168 = omega arith in ground arith

octets-IsPrivate :
    (host ip : Bytes)
    → length ip ≡ 4
    → IsAddress host ip
    → IsPrivate ip
    → is_private_octets ip ≡ true
octets-IsPrivate host [] l h p = absurd h
octets-IsPrivate host (a ∷ []) l h p = absurd (omega (arith, l))
octets-IsPrivate host (a ∷ b ∷ []) l h p = absurd (omega (arith, l))
octets-IsPrivate host (a ∷ b ∷ c ∷ []) l h p = absurd (omega (arith, l))
octets-IsPrivate host (a ∷ b ∷ c ∷ d ∷ []) l (t, x, e, o, (u, y, f, q, (v, z, g, r, s))) p =
    is_private_octets-IsPrivate a b c d q.3 r.3 s.3 p
octets-IsPrivate host (a ∷ b ∷ c ∷ d ∷ e ∷ ip) l h p = absurd (omega (arith, l))

-- A host that is written as a private address is turned away.
pub is_private_ipv4-IsPrivate :
    (host ip : Bytes)
    → length ip ≡ 4
    → IsAddress host ip
    → IsPrivate ip
    → is_private_ipv4 host ≡ true
unfolding is_private_ipv4
is_private_ipv4-IsPrivate host ip l h p =
    let e : parse_ipv4_bytes host ≡ some ip = (parse_ipv4_bytes_iff host ip).1 (l, h) in
    rw (e, is_private_ipv4) (octets-IsPrivate host ip l h p)
