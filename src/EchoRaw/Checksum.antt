-- ===== src/EchoRaw/Checksum.antt =====
-- `echo_raw/src/checksum.c`: the Internet checksum of a byte range and of a UDP datagram.
-- A pointer and a length are the list of the bytes that they delimit.
pub mod Sum
pub mod Laws
use eltex_systems.Base.{
  ℕ, zero, suc, ◌+◌, ◌-◌, ◌*◌, ◌/◌, ◌%◌, ◌^◌, bit_or, List, [], ◌∷◌, ◌++◌, ◌==◌, if◌then◌else◌,
}
use eltex_systems.EchoRaw.Host.{Endian, htons, bytes16, bytes32}

abbrev pub u16 : ℕ → ℕ
u16 n = n % 2 ^ 16

abbrev pub u32 : ℕ → ℕ
u32 n = n % 2 ^ 32

-- `~x`, cut to 16 bits.
abbrev pub not16 : ℕ → ℕ
not16 x = 2 ^ 16 - 1 - u16 x

-- The loop over pairs of bytes and the odd last byte, onto the 32-bit `sum`.
pub add_words : ℕ → List ℕ → ℕ
add_words sum [] = sum
add_words sum (a ∷ []) = u32 (sum + u16 (a * 2 ^ 8))
add_words sum (a ∷ b ∷ bs) = add_words (u32 (sum + u16 (bit_or (a * 2 ^ 8) b))) bs

-- `while (sum >> 16) sum = (sum & 0xFFFFu) + (sum >> 16);`
fold_loop : ℕ → ℕ → ℕ
fold_loop zero sum = sum
fold_loop (suc fuel) sum =
    let rest = fold_loop fuel (sum % 2 ^ 16 + sum / 2 ^ 16) in
    if sum / 2 ^ 16 == 0 then sum else rest

-- `sum` falls in each round, so it is fuel enough: the result is below 2 ^ 16 (`fold_carries_lem`).
unfoldable pub fold_carries : ℕ → ℕ
unfolding fold_loop
fold_carries sum = fold_loop sum sum

unfoldable pub checksum16 : List ℕ → ℕ
unfolding add_words fold_carries
checksum16 bytes = not16 (fold_carries (add_words 0 bytes))

-- The bytes of `struct pseudo`: both addresses as stored by the host, a zero byte, the protocol
-- number IPPROTO_UDP, and `htons (udp_len)`.
unfoldable pub pseudo_header : Endian → ℕ → ℕ → ℕ → List ℕ
unfolding htons bytes16 bytes32
pseudo_header host src dst udp_len =
    bytes32 host src ++ bytes32 host dst ++ 0 ∷ 17 ∷ bytes16 host (htons host (u16 udp_len))

unfoldable pub udp_checksum : Endian → ℕ → ℕ → List ℕ → ℕ → ℕ
unfolding add_words fold_carries checksum16 pseudo_header
udp_checksum host src dst datagram udp_len =
    let c1 = checksum16 (pseudo_header host src dst udp_len) in
    let res = not16 (fold_carries (add_words (u32 (0 + not16 c1)) datagram)) in
    if res == 0 then 0xFFFF else res
