-- ===== src/EchoRaw/Packet/Safety.antt =====
-- `rawudp_parse_ipv4_udp` reads no byte outside the packet, whatever the packet holds.
use eltex_systems.Base.{
  ℕ, ◌+◌, ◌*◌, ◌/◌, ◌%◌, ◌≤◌, ◌<◌, ◌≡◌, refl, List, Bool-cases, inl, inr, arith, ltb, ◌==◌,
  if◌then◌else◌, length, get_or, get_elem?-eq-get_or, ◌||◌, not,
}
use eltex_systems.EchoRaw.Host.{Endian, ntohs, load16, load32}
use eltex_systems.EchoRaw.Packet.{
  Outcome, done, rejected, fault, Parsed, parse_ipv4_udp, parse_udp, parse_fields, read8, read16,
  read32,
}

-- No fault, and an accepted payload begins behind headers of `ip_hl` bytes, at least 20, and 8
-- bytes, is as long as a datagram of `udp_len` bytes says, and ends within `n`.
abbrev pub IsWithin : (n ip_hl udp_len : ℕ) → Outcome Parsed → Type 0
IsWithin n ip_hl udp_len (done p) =
    (20 ≤ ip_hl)
    × (p.payload ≡ ip_hl + 8)
    × (p.payload_len + 8 ≡ udp_len)
    × (p.payload + p.payload_len ≤ n)
IsWithin n ip_hl udp_len rejected = Unit
IsWithin n ip_hl udp_len fault = ⊥

-- The length of the IP header, from the first byte of a packet.
abbrev pub header_len : List ℕ → ℕ
header_len pkt = get_or pkt 0 0 % 16 * 4

-- The two bytes at `i` as a number in network order.
abbrev pub number16 : Endian → List ℕ → ℕ → ℕ
number16 host pkt i = ntohs host (load16 host (get_or pkt i 0) (get_or pkt (i + 1) 0))

-- The lengths are those that the headers of the packet give.
abbrev pub IsSafe : Endian → List ℕ → ℕ → Outcome Parsed → Type 0
IsSafe host pkt n result =
    IsWithin n (header_len pkt) (number16 host pkt (header_len pkt + 4)) result

read8-done : (pkt : List ℕ) (i : ℕ) → i < length pkt → read8 pkt i ≡ done (get_or pkt i 0)
unfolding read8
read8-done pkt i h = rw (get_elem?-eq-get_or pkt i 0 h, read8)

module _ (host : Endian) (pkt : List ℕ) where
  read16-done :
      (i : ℕ)
      → i + 1 < length pkt
      → read16 host pkt i ≡ done (load16 host (get_or pkt i 0) (get_or pkt (i + 1) 0))
  unfolding read16
  read16-done i h = rw (read8-done pkt i (omega arith), read8-done pkt (i + 1) h)

  read32-done :
      (i : ℕ)
      → i + 3 < length pkt
      → read32 host pkt i
        ≡ done (
            load32 host
              (get_or pkt i 0)
              (get_or pkt (i + 1) 0)
              (get_or pkt (i + 2) 0)
              (get_or pkt (i + 3) 0))
  unfolding read32
  read32-done i h = rw (
    read8-done pkt i (omega arith),
    read8-done pkt (i + 1) (omega arith),
    read8-done pkt (i + 2) (omega arith),
    read8-done pkt (i + 3) h,
  )

  parse_fields-IsWithin :
      (n ip_hl udp_len : ℕ)
      → n ≤ length pkt
      → 20 ≤ ip_hl
      → 8 ≤ udp_len
      → ip_hl + udp_len ≤ n
      → IsWithin n ip_hl udp_len (parse_fields host pkt ip_hl udp_len)
  unfolding parse_fields
  parse_fields-IsWithin n ip_hl udp_len k hl ul fits =
      rw
        (
          read32-done 12 (omega arith),
          read32-done 16 (omega arith),
          read16-done ip_hl (omega arith),
          read16-done (ip_hl + 2) (omega arith),
        )
        (hl, refl, omega arith, omega arith)

  parse_udp-IsWithin :
      (n ip_hl : ℕ)
      → n ≤ length pkt
      → 20 ≤ ip_hl
      → ip_hl + 8 ≤ n
      → IsWithin n ip_hl (number16 host pkt (ip_hl + 4)) (parse_udp host pkt n ip_hl)
  unfolding parse_udp
  parse_udp-IsWithin n ip_hl k hl fits =
      let len = number16 host pkt (ip_hl + 4) in
      rw (read16-done (ip_hl + 4) (omega arith)) (elim (Bool-cases (ltb len 8)) [
        | inl short ↦ rw short tt
        | inr enough ↦ elim (Bool-cases (ltb n (ip_hl + len))) [
          | inl beyond ↦ rw (enough, beyond) tt
          | inr within ↦
              rw (enough, within)
                (parse_fields-IsWithin n ip_hl len k hl (ground arith) (ground arith))
        ]
      ])

  -- For a length within the buffer, parsing never reads outside it. The payload that it accepts
  -- begins right behind the IP header of the length that the packet's first byte gives, at least
  -- 20, and the 8 bytes of the UDP header; it is as long as the UDP length says, and it ends within
  -- the length given.
  pub parse-IsSafe : (n : ℕ) → n ≤ length pkt → IsSafe host pkt n (parse_ipv4_udp host pkt n)
  unfolding parse_ipv4_udp
  parse-IsSafe n k = elim (Bool-cases (ltb n 20)) [
    | inl short ↦ rw short tt
    | inr enough ↦
        rw (enough, read8-done pkt 0 (ground arith), read8-done pkt 9 (ground arith))
          (choose (get_or pkt 0 0) (get_or pkt 9 0))
  ]
    where
      choose :
          (first protocol : ℕ)
          → IsWithin n (first % 16 * 4) (number16 host pkt (first % 16 * 4 + 4)) (
              if not (first / 16 == 4)
              then rejected
              else if ltb (first % 16 * 4) 20 || ltb n (first % 16 * 4 + 8)
              then rejected
              else if not (protocol == 17)
              then rejected
              else parse_udp host pkt n (first % 16 * 4))
      choose first protocol = ground (arith, parse_udp-IsWithin n (first % 16 * 4) k)
