-- ===== src/EchoRaw/Packet/RoundTrip.antt =====
-- What `rawudp_parse_ipv4_udp` reads back from a packet, and that it reads inside the packet.
use eltex_systems.Base.{
  ℕ, ◌+◌, ◌-◌, ◌/◌, ◌%◌, ◌^◌, ◌≤◌, ◌<◌, ◌≡◌, ◌∙◌, List, ◌∷◌, ◌++◌, some, arith, le→ltb, length,
  take, drop, take-length,
}
use eltex_systems.EchoRaw.Host.{Endian, ntohs, load16, load32, ntohs-load16, load32-bytes32}
use eltex_systems.EchoRaw.Packet.{
  max_payload, build_ipv4_udp, done, Parsed, parse_ipv4_udp, parse_udp, parse_fields, read8, read16,
  read32,
}
use eltex_systems.EchoRaw.Packet.Build.{
  packet, ip_check, udp_check, bytes16_pair, bytes32_quad, build-packet,
}

-- Parsing a packet that is written out byte by byte as far as the payload.
parse-explicit :
    (host : Endian)
    (t i0 i1 n0 n1 f0 f1 ttl c0 c1 s0 s1 s2 s3 d0 d1 d2 d3 p0 p1 q0 q1 l0 l1 u0 u1 : ℕ)
    (rest : List ℕ) (n len : ℕ)
    → ntohs host (load16 host l0 l1) ≡ 8 + len
    → 28 + len ≤ n
    → parse_ipv4_udp host
        (0x45 ∷ t ∷ i0 ∷ i1 ∷ n0 ∷ n1 ∷ f0 ∷ f1 ∷ ttl ∷ 17 ∷ c0 ∷ c1 ∷ s0 ∷ s1 ∷ s2 ∷ s3 ∷ d0 ∷ d1
          ∷ d2 ∷ d3 ∷ p0 ∷ p1 ∷ q0 ∷ q1 ∷ l0 ∷ l1 ∷ u0 ∷ u1 ∷ rest)
        n
      ≡ done (record {
        src = load32 host s0 s1 s2 s3;
        dst = load32 host d0 d1 d2 d3;
        src_port = ntohs host (load16 host p0 p1);
        dst_port = ntohs host (load16 host q0 q1);
        payload = 28;
        payload_len = len;
      })
unfolding parse_ipv4_udp parse_udp parse_fields read32 read16 read8
parse-explicit host t i0 i1 n0 n1 f0 f1 ttl c0 c1 s0 s1 s2 s3 d0 d1 d2 d3 p0 p1 q0 q1 l0 l1 u0 u1
      rest n len e fits =
    let back : 8 + len - 8 ≡ len = omega arith in
    rw (
      le→ltb n 20 (omega arith),
      le→ltb n 28 (omega arith),
      e,
      le→ltb (8 + len) 8 (omega arith),
      le→ltb n (20 + (8 + len)) (omega arith),
      back,
    )

module _ (host : Endian) (pid src dst src_port dst_port ttl : ℕ) (payload : List ℕ) where
  abbrev pub sent : Parsed
  sent = record {
    src = src;
    dst = dst;
    src_port = src_port;
    dst_port = dst_port;
    payload = 28;
    payload_len = length payload;
  }

  word_back : (v : ℕ) → v < 2 ^ 16 → ntohs host (load16 host (v / 256 % 256) (v % 256)) ≡ v
  word_back v h = ntohs-load16 host _ _ (omega arith) (omega arith) ∙ omega arith

  parse-packet :
      (rest : List ℕ)
      → src < 2 ^ 32
      → dst < 2 ^ 32
      → src_port < 2 ^ 16
      → dst_port < 2 ^ 16
      → length payload ≤ max_payload
      → parse_ipv4_udp host
          (packet host pid src dst src_port dst_port ttl payload ++ rest)
          (28 + length payload)
        ≡ done sent
  parse-packet rest hs hd hp hq small =
      let (s0, s1, s2, s3, es) = bytes32_quad host src in
      let (d0, d1, d2, d3, ed) = bytes32_quad host dst in
      let (c0, c1, ec) =
        bytes16_pair host (ip_check host pid src dst src_port dst_port ttl payload) in
      let (u0, u1, eu) =
        bytes16_pair host (udp_check host pid src dst src_port dst_port ttl payload) in
      rw (ec, eu, es, ed)
        (parse-explicit host _ _ _ _ _ _ _ _ _ _ s0 s1 s2 s3 d0 d1 d2 d3 _ _ _ _ _ _ _ _
            (payload ++ rest) (28 + length payload) (length payload)
            (word_back (8 + length payload) (omega arith)) (omega arith)
          ∙ rw (
            load32-bytes32 host src s0 s1 s2 s3 hs es,
            load32-bytes32 host dst d0 d1 d2 d3 hd ed,
            word_back src_port hp,
            word_back dst_port hq,
          ))

  payload_in_place :
      (rest : List ℕ)
      → take
          (length payload)
          (drop 28 (packet host pid src dst src_port dst_port ttl payload ++ rest))
        ≡ payload
  payload_in_place rest =
      let (_, _, _, _, es) = bytes32_quad host src in
      let (_, _, _, _, ed) = bytes32_quad host dst in
      let (_, _, ec) =
        bytes16_pair host (ip_check host pid src dst src_port dst_port ttl payload) in
      let (_, _, eu) =
        bytes16_pair host (udp_check host pid src dst src_port dst_port ttl payload) in
      rw (ec, eu, es, ed) (take-length payload rest)

  -- A packet of 32-bit addresses, 16-bit ports and a payload of at most 1400 bytes that has
  -- room in the buffer is built, and the parser gives back its addresses, its ports, and its
  -- payload behind the 28 bytes of headers.
  pub parse-build :
      (out : List ℕ) (room : ℕ)
      → src < 2 ^ 32
      → dst < 2 ^ 32
      → src_port < 2 ^ 16
      → dst_port < 2 ^ 16
      → length payload ≤ max_payload
      → 28 + length payload ≤ room
      → room ≤ length out
      → (buf : List ℕ) × (build_ipv4_udp host pid out room src dst src_port dst_port payload ttl
          ≡ some (28 + length payload, buf))
        × (parse_ipv4_udp host buf (28 + length payload) ≡ done sent)
        × (take (length payload) (drop 28 buf) ≡ payload)
  parse-build out room hs hd hp hq small fits k =
      let p = packet host pid src dst src_port dst_port ttl payload in
      let rest = drop (28 + length payload) out in
      (
        p ++ rest,
        build-packet host pid src dst src_port dst_port ttl payload out room fits k small,
        parse-packet rest hs hd hp hq small,
        payload_in_place rest,
      )
