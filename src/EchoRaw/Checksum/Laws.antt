-- ===== src/EchoRaw/Checksum/Laws.antt =====
-- What the checksums compute.
use eltex_systems.Base.{ℕ, ◌+◌, ◌-◌, ◌^◌, ◌<◌, ◌≡◌, refl, List, arith, ◌==◌, if◌then◌else◌, length}
use eltex_systems.EchoRaw.Host.{Endian, little, big}
use eltex_systems.EchoRaw.Checksum.{u32, not16, checksum16, pseudo_header, udp_checksum}
use eltex_systems.EchoRaw.Checksum.Sum.{
  IsBytes, word_sum, ones, add_words_lem, fold_carries_lem, ones-le, ones-add,
}

-- `rawudp_checksum16` is the complement of the one's complement sum of the 16-bit words, for
-- fewer than 65536 bytes.
pub checksum16-ones :
    (bytes : List ℕ)
    → IsBytes bytes
    → length bytes < 2 ^ 16
    → checksum16 bytes ≡ 65535 - ones (word_sum bytes)
unfolding checksum16
checksum16-ones bytes h short =
    let start : 0 + word_sum bytes ≡ word_sum bytes = omega arith in
    rw (add_words_lem 0 bytes h (omega arith) short, fold_carries_lem, start)
      (omega (arith, ones-le (word_sum bytes)))

-- Adding the complement of a one's complement sum gives all ones.
pub ones_complement : (w : ℕ) → ones (w + (65535 - ones w)) ≡ 65535
ones_complement w = ground arith

pseudo-IsBytes : (host : Endian) (src dst n : ℕ) → IsBytes (pseudo_header host src dst n)
unfolding pseudo_header
pseudo-IsBytes little src dst n = ground arith
pseudo-IsBytes big src dst n = ground arith

length-pseudo : (host : Endian) (src dst n : ℕ) → length (pseudo_header host src dst n) ≡ 12
unfolding pseudo_header
length-pseudo little src dst n = refl
length-pseudo big src dst n = refl

-- What a sender puts in the checksum field of UDP, where 0 would mean that there is none.
abbrev pub nonzero_complement : ℕ → ℕ
nonzero_complement w = let res = 65535 - ones w in if res == 0 then 65535 else res

-- For fewer than 65536 bytes, `rawudp_udp_checksum` is the complement of the one's complement sum
-- of the pseudo header and the datagram, with 65535 in place of 0.
pub udp_checksum-ones :
    (host : Endian) (src dst : ℕ) (datagram : List ℕ) (n : ℕ)
    → IsBytes datagram
    → length datagram < 2 ^ 16
    → udp_checksum host src dst datagram n
      ≡ nonzero_complement (word_sum (pseudo_header host src dst n) + word_sum datagram)
udp_checksum-ones host src dst datagram n h short =
    let ps = pseudo_header host src dst n in
    let w = word_sum ps in
    let c1 =
      checksum16-ones ps (pseudo-IsBytes host src dst n)
        (omega (arith, length-pseudo host src dst n)) in
    let seed : u32 (0 + not16 (65535 - ones w)) ≡ ones w = omega (arith, ones-le w) in
    let sum = add_words_lem (ones w) datagram h (omega (arith, ones-le w)) short in
    unfold udp_checksum in
    rw (c1, seed, sum, fold_carries_lem, ones-add)
      (let cut : not16 (ones (w + word_sum datagram)) ≡ 65535 - ones (w + word_sum datagram) =
          omega (arith, ones-le (w + word_sum datagram)) in
        rw cut)
