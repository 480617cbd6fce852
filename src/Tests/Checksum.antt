-- ===== src/Tests/Checksum.antt =====
-- A run of the checksum, and what a receiver makes of packets that carry it.
use mini_agent_os.Base.{◌≡◌, refl, arith, [], ◌∷◌, Bytes}
use mini_agent_os.Net.Checksum.Receiver.{IsAccepted, checksum16-IsAccepted, in_tcp}
use mini_agent_os.Net.Checksum.Verify.{with_word}
use mini_agent_os.Net.Checksum.{
  checksum16_be, checksum16_tcp, complement, fold_carry, sum_from, wrapping_add,
}

-- A header of IP, up to its checksum and behind it.
abbrev front : Bytes
front = 0x45 ∷ 0 ∷ 0 ∷ 0x3c ∷ 0x1c ∷ 0x46 ∷ 0x40 ∷ 0 ∷ 0x40 ∷ 6 ∷ []

abbrev addresses : Bytes
addresses = 0xac ∷ 0x10 ∷ 0x0a ∷ 0x63 ∷ 0xac ∷ 0x10 ∷ 0x0a ∷ 0x0c ∷ []

header_run : checksum16_be (with_word front 0 addresses) ≡ 0xb1e6
unfolding checksum16_be complement fold_carry sum_from wrapping_add
header_run = refl

abbrev src : Bytes
src = 10 ∷ 0 ∷ 2 ∷ 15 ∷ []

abbrev dst : Bytes
dst = 10 ∷ 0 ∷ 2 ∷ 2 ∷ []

-- A segment whose length is odd.
abbrev head : Bytes
head = 8 ∷ 1 ∷ []

abbrev text : Bytes
text = 7 ∷ []

checksum16-IsAccepted_example :
    IsAccepted (with_word head (checksum16_be (with_word head 0 text)) text)
    × IsAccepted
        (in_tcp src dst (with_word head (checksum16_tcp src dst (with_word head 0 text)) text))
checksum16-IsAccepted_example =
    checksum16-IsAccepted src dst head text
      (refl, (omega arith, (omega arith, (omega arith, (omega arith, tt)))))
      (refl, (omega arith, (omega arith, (omega arith, (omega arith, tt)))))
      (record {
        even = tt;
        head = (omega arith, (omega arith, tt));
        tail = (omega arith, tt);
        short = omega arith;
      })
