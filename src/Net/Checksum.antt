-- ===== src/Net/Checksum.antt =====
-- The checksums of runtime/src/net.rs. A range of memory is the list of its bytes.
pub mod Receiver
pub mod Verify
use mini_agent_os.Base.{
  ℕ, zero, suc, ◌+◌, ◌-◌, ◌*◌, ◌/◌, ◌%◌, ◌^◌, [], ◌∷◌, ◌==◌, if◌then◌else◌, length, Bytes,
}

-- `wrapping_add` of 32 bits.
unfoldable pub wrapping_add : ℕ → ℕ → ℕ
wrapping_add a b = (a + b) % 2 ^ 32

-- The loop over the words, which both functions have; a last byte alone is the high one.
unfoldable pub sum_from : ℕ → Bytes → ℕ
sum_from sum [] = sum
sum_from sum (hi ∷ []) = wrapping_add sum (hi * 256)
sum_from sum (hi ∷ lo ∷ rest) = sum_from (wrapping_add sum (hi * 256 + lo)) rest

unfoldable pub sum_be16_words : Bytes → ℕ
sum_be16_words buf = sum_from 0 buf

-- The loop that adds the carries. A number of 32 bits takes two rounds at most.
unfoldable pub fold_carry : ℕ → ℕ → ℕ
fold_carry zero sum = sum
fold_carry (suc fuel) sum =
    let folded = fold_carry fuel (sum % 65536 + sum / 65536) in
    if sum / 65536 == 0 then sum else folded

-- `!(sum as u16)` behind that loop.
unfoldable pub complement : ℕ → ℕ
complement sum = 65535 - fold_carry 2 sum % 65536

unfoldable pub checksum16_be : Bytes → ℕ
unfolding complement
checksum16_be buf = complement (sum_from 0 buf)

-- An address of four bytes adds two words.
unfoldable pub add_address : ℕ → Bytes → ℕ
add_address sum (a ∷ b ∷ c ∷ d ∷ rest) = wrapping_add (wrapping_add sum (a * 256 + b)) (c * 256 + d)
add_address sum ip = sum

-- The length is cut to 32 bits.
unfoldable pub pseudo_header : Bytes → Bytes → ℕ → ℕ
pseudo_header src_ip dst_ip tcp_len =
    wrapping_add (wrapping_add (add_address (add_address 0 src_ip) dst_ip) 6) (tcp_len % 2 ^ 32)

unfoldable pub checksum16_tcp : Bytes → Bytes → Bytes → ℕ
unfolding complement pseudo_header
checksum16_tcp src_ip dst_ip tcp =
    complement (wrapping_add (pseudo_header src_ip dst_ip (length tcp)) (sum_be16_words tcp))
