-- ===== src/EchoRaw/Packet/Integrity.antt =====
-- Whether the IP checksum of a built packet verifies at a receiver, which sums the whole header.
use eltex_systems.Base.{
  ℕ, ◌+◌, ◌-◌, ◌*◌, ◌/◌, ◌%◌, ◌≤◌, ◌<◌, ◌≡◌, ◌↔◌, refl, sym, ap, drop, ◌∙◌, List, [], ◌∷◌, ◌++◌,
  some, arith, ◌==◌, if◌then◌else◌, length, take,
}
use native.Mathlib.Nat.{add-zero}
use eltex_systems.EchoRaw.Host.{Endian, little, big, bytes16, bytes32-All}
use eltex_systems.EchoRaw.Checksum.{checksum16}
use eltex_systems.EchoRaw.Checksum.Sum.{IsBytes, word_sum, ones, ones-add, ones-le}
use eltex_systems.EchoRaw.Checksum.Laws.{checksum16-ones, ones_complement}
use eltex_systems.EchoRaw.Packet.{max_payload, build_ipv4_udp}
use eltex_systems.EchoRaw.Packet.Build.{
  packet, ip_header, bytes32_quad, length-ip_header, bytes16_pair, build-packet,
}

-- Where a 16-bit number is stored as it is, its bytes stand in network order on a big-endian host,
-- and on a little-endian host only if they are equal.
abbrev pub InOrder : Endian → ℕ → Type 0
InOrder little c = c / 256 ≡ c % 256
InOrder big c = Unit

pair_injective : {a b c d : ℕ} → a ∷ b ∷ [] ≡ c ∷ d ∷ [] → (a ≡ c) × (b ≡ d)
pair_injective e = ground arith

complement_zero : (x : ℕ) → x ≤ 65535 → 65535 - x ≡ 0 → x ≡ 65535
complement_zero x h e = omega arith

swap_sum :
    (r : ℕ)
    → r ≤ 65535
    → (ones (r + ((65535 - r) % 256 * 256 + (65535 - r) / 256 % 256)) ≡ 65535)
      ↔ ((65535 - r) / 256 ≡ (65535 - r) % 256)
swap_sum r h = (ground arith, ground arith)

-- The bytes of a number below 2 ^ 16, and when they make the sum with `w` come out as all ones.
stored_verifies :
    (host : Endian) (w a b : ℕ)
    → bytes16 host (65535 - ones w) ≡ a ∷ b ∷ []
    → (a < 256) × (b < 256) × ((ones (w + (a * 256 + b)) ≡ 65535) ↔ InOrder host (65535 - ones w))
unfolding bytes16
stored_verifies little w a b e =
    let (p, q) = pair_injective e in
    rw (← p, ← q)
      (
        omega arith,
        omega arith,
        (
          (λ h. (swap_sum (ones w) (ones-le w)).0 (ones-add w _ ∙ h)),
          λ h. sym (ones-add w _) ∙ (swap_sum (ones w) (ones-le w)).1 h,
        ),
      )
stored_verifies big w a b e =
    let (p, q) = pair_injective e in
    rw (← p, ← q) (omega arith, omega arith, ((λ _. tt), λ _. big_sum))
  where
    big_sum : ones (w + ((65535 - ones w) / 256 % 256 * 256 + (65535 - ones w) % 256)) ≡ 65535
    big_sum =
        let whole : (65535 - ones w) / 256 % 256 * 256 + (65535 - ones w) % 256 ≡ 65535 - ones w =
          omega arith in
        rw whole (ones_complement w)

module _ (host : Endian) (pid src dst src_port dst_port ttl : ℕ) (payload : List ℕ)
    (hop : ttl < 256) where
  -- The header with the checksum bytes `a` and `b`.
  abbrev pub header : ℕ → ℕ → List ℕ
  header a b = ip_header host pid src dst src_port dst_port ttl payload (a ∷ b ∷ [])

  header-IsBytes : (a b : ℕ) → a < 256 → b < 256 → IsBytes (header a b)
  header-IsBytes a b ha hb =
      let (s0, s1, s2, s3, es) = bytes32_quad host src in
      let (d0, d1, d2, d3, ed) = bytes32_quad host dst in
      let bs : IsBytes (s0 ∷ s1 ∷ s2 ∷ s3 ∷ []) = rw es at (bytes32-All host src) in
      let bd : IsBytes (d0 ∷ d1 ∷ d2 ∷ d3 ∷ []) = rw ed at (bytes32-All host dst) in
      let hops : (if ttl == 0 then 64 else ttl) < 256 = ground arith in rw (es, ed) (omega arith)

  word_sum-header : (a b : ℕ) → word_sum (header a b) ≡ word_sum (header 0 0) + (a * 256 + b)
  word_sum-header a b =
      let (s0, s1, s2, s3, es) = bytes32_quad host src in
      let (d0, d1, d2, d3, ed) = bytes32_quad host dst in rw (es, ed) (omega arith)

  abbrev w : ℕ
  w = word_sum (header 0 0)

  checksum16-header :
      (a b : ℕ) → a < 256 → b < 256 → checksum16 (header a b) ≡ 65535 - ones (w + (a * 256 + b))
  checksum16-header a b ha hb =
      let twenty : length (header a b) ≡ 20 =
        length-ip_header host pid src dst src_port dst_port ttl payload (a ∷ b ∷ []) refl in
      checksum16-ones (header a b) (header-IsBytes a b ha hb) (omega (arith, twenty))
      ∙ rw (word_sum-header a b)

  front :
      (out : List ℕ) (a b : ℕ)
      → bytes16 host (checksum16 (header 0 0)) ≡ a ∷ b ∷ []
      → take 20
          (packet host pid src dst src_port dst_port ttl payload ++ drop (28 + length payload) out)
        ≡ header a b
  front out a b e =
      let (_, _, _, _, es) = bytes32_quad host src in
      let (_, _, _, _, ed) = bytes32_quad host dst in rw (e, es, ed)

  header-verifies :
      (a b : ℕ)
      → bytes16 host (checksum16 (header 0 0)) ≡ a ∷ b ∷ []
      → (checksum16 (header a b) ≡ 0) ↔ InOrder host (checksum16 (header 0 0))
  header-verifies a b e =
      let check = checksum16 (header 0 0) in
      let c : check ≡ 65535 - ones w =
        checksum16-header 0 0 (omega arith) (omega arith)
        ∙ ap (λ (t : ℕ). 65535 - ones t) (add-zero w) in
      let (ha, hb, v) = stored_verifies host w a b (ap (bytes16 host) (sym c) ∙ e) in
      let sum = w + (a * 256 + b) in
      rw (checksum16-header a b ha hb, c)
        (
          (λ h. v.0 (complement_zero (ones sum) (ones-le sum) h)),
          λ h. ap (λ (t : ℕ). 65535 - t) (v.1 h),
        )

  -- A packet with a payload of at most 1400 bytes that has room is built, and the checksum over
  -- its IP header comes out as 0, as a receiver demands, exactly when the checksum, stored
  -- without `htons`, stands in network order in memory.
  pub ip_checksum-verifies :
      (out : List ℕ) (room : ℕ)
      → length payload ≤ max_payload
      → 28 + length payload ≤ room
      → room ≤ length out
      → (buf : List ℕ) × (build_ipv4_udp host pid out room src dst src_port dst_port payload ttl
          ≡ some (28 + length payload, buf))
        × ((checksum16 (take 20 buf) ≡ 0) ↔ InOrder host (checksum16 (header 0 0)))
  ip_checksum-verifies out room small fits k =
      let (a, b, e) = bytes16_pair host (checksum16 (header 0 0)) in
      (
        _,
        build-packet host pid src dst src_port dst_port ttl payload out room fits k small,
        rw (front out a b e) (header-verifies a b e),
      )
