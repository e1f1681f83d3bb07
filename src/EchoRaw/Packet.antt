-- ===== src/EchoRaw/Packet.antt =====
-- `rawudp_build_ipv4_udp` and `rawudp_parse_ipv4_udp` of `echo_raw/src/packet.c`. A buffer is the
-- list of its bytes, `struct iphdr` and `struct udphdr` are laid over it field by field (20 and 8
-- bytes), and a multi-byte field is stored in the byte order of the host.
pub mod Build
pub mod RoundTrip
pub mod Integrity
pub mod Safety
use eltex_systems.Base.{
  ℕ, ◌+◌, ◌-◌, ◌*◌, ◌/◌, ◌%◌, ◌^◌, ◌||◌, not, List, [], ◌∷◌, Option, none, some, ltb, ◌==◌,
  if◌then◌else◌, length, get_elem?, get_or, set, take, drop, replicate, write_at,
}
use eltex_systems.EchoRaw.Host.{Endian, htons, ntohs, bytes16, bytes32, load16, load32}
use eltex_systems.EchoRaw.Checksum.{u16, checksum16, udp_checksum}

abbrev pub max_payload : ℕ
max_payload = 1400

abbrev pub iphdr_size : ℕ
iphdr_size = 20

abbrev pub udphdr_size : ℕ
udphdr_size = 8

-- The bit fields of the first byte: `version` is its high half, `ihl` its low half.
abbrev pub set_version : List ℕ → ℕ → List ℕ
set_version buf v = set buf 0 (v % 16 * 16 + get_or buf 0 0 % 16)

abbrev pub set_ihl : List ℕ → ℕ → List ℕ
set_ihl buf v = set buf 0 (get_or buf 0 0 / 16 * 16 + v % 16)

module _ (host : Endian) where
  unfoldable pub put16 : ℕ → ℕ → List ℕ → List ℕ
  unfolding bytes16
  put16 off v buf = write_at buf off (bytes16 host v)

  unfoldable pub put32 : ℕ → ℕ → List ℕ → List ℕ
  unfolding bytes32
  put32 off v buf = write_at buf off (bytes32 host v)

  -- The IP header; `total` is the length of the packet. The checksum is stored as computed.
  unfoldable pub write_ip : ℕ → ℕ → ℕ → ℕ → ℕ → List ℕ → List ℕ
  unfolding put16 put32
  write_ip pid total ttl src dst buf =
      let b = set_ihl (set_version buf 4) (iphdr_size / 4) in
      let b = set b 1 0 in
      let b = put16 2 (htons host (u16 total)) b in
      let b = put16 4 (htons host (u16 (pid % 2 ^ 16))) b in
      let b = put16 6 0 b in
      let b = set b 8 (if ttl == 0 then 64 else ttl) in
      let b = set b 9 17 in
      let b = put32 12 src b in
      let b = put32 16 dst b in let b = put16 10 0 b in put16 10 (checksum16 (take iphdr_size b)) b

  -- The UDP header and the payload; again the checksum is stored as computed.
  unfoldable pub write_udp : ℕ → ℕ → ℕ → ℕ → List ℕ → List ℕ → List ℕ
  unfolding put16
  write_udp src dst src_port dst_port payload buf =
      let udp_len = udphdr_size + length payload in
      let b = put16 20 (htons host src_port) buf in
      let b = put16 22 (htons host dst_port) b in
      let b = put16 24 (htons host (u16 udp_len)) b in
      let b = put16 26 0 b in
      let b = write_at b (iphdr_size + udphdr_size) payload in
      put16 26 (udp_checksum host src dst (take udp_len (drop iphdr_size b)) udp_len) b

  -- `none` is -1; else the length of the packet, and the buffer with the packet at its front.
  -- `pid` is what `getpid` returns, and the length of `payload` is `payload_len`.
  unfoldable pub build_ipv4_udp : ℕ → List ℕ → ℕ → ℕ → ℕ → ℕ → ℕ → List ℕ → ℕ → Option (ℕ × List ℕ)
  build_ipv4_udp pid out_buf out_cap src dst src_port dst_port payload ttl =
      let total = iphdr_size + udphdr_size + length payload in
      if ltb out_cap total
      then none
      else if ltb max_payload (length payload)
      then none
      else let buf = write_at out_buf 0 (replicate total 0) in
        let buf = write_ip pid total ttl src dst buf in
        some (total, write_udp src dst src_port dst_port payload buf)

-- The outcome of a routine that reads memory: `fault` is a read outside the buffer.
pub data Outcome {ℓ} (A : Type ℓ) : Type ℓ where
  done : A → Outcome A
  rejected : Outcome A
  fault : Outcome A

infixl 5 ◌>>=◌
abbrev pub ◌>>=◌ {ℓ κ} : {A : Type ℓ} {B : Type κ} → Outcome A → (A → Outcome B) → Outcome B
done a >>= f = f a
rejected >>= f = rejected
fault >>= f = fault

-- What `rawudp_parse_ipv4_udp` stores through its pointers; `payload` is the offset in the packet
-- of the pointer that it stores. Both callers pass no null pointer.
pub record Parsed : Type 0 where
  pub src : ℕ
  pub dst : ℕ
  pub src_port : ℕ
  pub dst_port : ℕ
  pub payload : ℕ
  pub payload_len : ℕ

unfoldable pub read8 : List ℕ → ℕ → Outcome ℕ
read8 pkt i = elim (get_elem? pkt i) [ none ↦ fault | some b ↦ done b ]

module _ (host : Endian) where
  unfoldable pub read16 : List ℕ → ℕ → Outcome ℕ
  read16 pkt i = do a ← read8 pkt i; b ← read8 pkt (i + 1); done (load16 host a b)

  unfoldable pub read32 : List ℕ → ℕ → Outcome ℕ
  read32 pkt i = do
    a ← read8 pkt i
    b ← read8 pkt (i + 1)
    c ← read8 pkt (i + 2)
    d ← read8 pkt (i + 3)
    done (load32 host a b c d)

  -- The reads once the lengths are checked; `ip_hl` is the length of the IP header.
  unfoldable pub parse_fields : List ℕ → ℕ → ℕ → Outcome Parsed
  parse_fields pkt ip_hl udp_len = do
    src ← read32 pkt 12
    dst ← read32 pkt 16
    source ← read16 pkt ip_hl
    dest ← read16 pkt (ip_hl + 2)
    done (record {
      src = src;
      dst = dst;
      src_port = ntohs host source;
      dst_port = ntohs host dest;
      payload = ip_hl + udphdr_size;
      payload_len = udp_len - udphdr_size;
    })

  unfoldable pub parse_udp : List ℕ → ℕ → ℕ → Outcome Parsed
  parse_udp pkt pkt_len ip_hl = do
    len ← read16 pkt (ip_hl + 4)
    let udp_len = ntohs host len
    if ltb udp_len udphdr_size
        then rejected
        else if ltb pkt_len (ip_hl + udp_len)
        then rejected
        else parse_fields pkt ip_hl udp_len

  -- `rejected` is -1, `done` is 0 with what was stored.
  unfoldable pub parse_ipv4_udp : List ℕ → ℕ → Outcome Parsed
  parse_ipv4_udp pkt pkt_len = if ltb pkt_len iphdr_size then rejected else do
    first ← read8 pkt 0
    if not (first / 16 == 4)
        then rejected
        else let ip_hl = first % 16 * 4 in
          if ltb ip_hl iphdr_size || ltb pkt_len (ip_hl + udphdr_size) then rejected else do
            protocol ← read8 pkt 9
            if not (protocol == 17) then rejected else parse_udp pkt pkt_len ip_hl
