-- ===== src/EchoRaw/Packet/Build.antt =====
-- The bytes that `rawudp_build_ipv4_udp` writes.
use eltex_systems.Base.{
  ℕ, zero, suc, ◌+◌, ◌/◌, ◌%◌, ◌^◌, ◌≤◌, ◌≡◌, refl, sym, ap, ◌∙◌, List, [], ◌∷◌, ◌++◌, some, arith,
  le→ltb, ◌==◌, if◌then◌else◌, length, take, drop, replicate, write_at, take-length, overwrite,
  overwrite_lem, length-append, length-replicate, replicate-add, append_assoc,
}
use eltex_systems.EchoRaw.Host.{Endian, little, big, bytes16, bytes32, bytes16-htons}
use eltex_systems.EchoRaw.Checksum.{u16, checksum16, udp_checksum}
use eltex_systems.EchoRaw.Packet.{max_payload, write_ip, write_udp, build_ipv4_udp}

-- A 16-bit number, high byte first.
abbrev pub net16 : ℕ → List ℕ
net16 v = v / 256 % 256 ∷ v % 256 ∷ []

pub bytes32_quad :
    (host : Endian) (v : ℕ)
    → (a : ℕ) × (b : ℕ) × (c : ℕ) × (d : ℕ) × (bytes32 host v ≡ a ∷ b ∷ c ∷ d ∷ [])
unfolding bytes32
bytes32_quad little v = (_, _, _, _, refl)
bytes32_quad big v = (_, _, _, _, refl)

overwrite-bytes16 :
    (host : Endian) (v a b : ℕ) (xs : List ℕ)
    → overwrite (bytes16 host v) (a ∷ b ∷ xs) ≡ bytes16 host v ++ xs
unfolding bytes16
overwrite-bytes16 little v a b xs = refl
overwrite-bytes16 big v a b xs = refl

write_at-append :
    (n k : ℕ) (front ys xs : List ℕ)
    → length front ≡ n
    → write_at (front ++ ys) (n + k) xs ≡ front ++ write_at ys k xs
write_at-append zero k [] ys xs e = ap (λ j. write_at ys j xs) (omega arith)
write_at-append zero k (f ∷ front) ys xs e = absurd (omega arith)
write_at-append (suc n) k [] ys xs e = absurd (omega arith)
write_at-append (suc n) k (f ∷ front) ys xs e =
    let next : suc n + k ≡ suc (n + k) = omega arith in
    rw next (ap (λ r. f ∷ r) (write_at-append n k front ys xs (omega arith)))

drop-append : (n : ℕ) (front ys : List ℕ) → length front ≡ n → drop n (front ++ ys) ≡ ys
drop-append zero [] ys e = refl
drop-append zero (f ∷ front) ys e = absurd (omega arith)
drop-append (suc n) [] ys e = absurd (omega arith)
drop-append (suc n) (f ∷ front) ys e = drop-append n front ys (omega arith)

take-append : (n : ℕ) (xs ys : List ℕ) → length xs ≡ n → take n (xs ++ ys) ≡ xs
take-append n xs ys e = rw (← e) (take-length xs ys)

overwrite-replicate : (xs ys : List ℕ) → overwrite xs (replicate (length xs) 0 ++ ys) ≡ xs ++ ys
overwrite-replicate [] ys = refl
overwrite-replicate (x ∷ xs) ys = ap (λ r. x ∷ r) (overwrite-replicate xs ys)

pub bytes16_pair : (host : Endian) (v : ℕ) → (a : ℕ) × (b : ℕ) × (bytes16 host v ≡ a ∷ b ∷ [])
unfolding bytes16
bytes16_pair little v = (_, _, refl)
bytes16_pair big v = (_, _, refl)

length-bytes16 : (host : Endian) (v : ℕ) → length (bytes16 host v) ≡ 2
unfolding bytes16
length-bytes16 little v = refl
length-bytes16 big v = refl

bytes16-zero : (host : Endian) → bytes16 host 0 ≡ 0 ∷ 0 ∷ []
unfolding bytes16
bytes16-zero little = refl
bytes16-zero big = refl

module _ (host : Endian) (pid src dst src_port dst_port ttl : ℕ) (payload : List ℕ) where
  abbrev total : ℕ
  total = 28 + length payload

  -- The IP header with the bytes `check` in its checksum field.
  abbrev pub ip_header : List ℕ → List ℕ
  ip_header check =
      0x45 ∷ 0 ∷ net16 total
      ++ net16 (pid % 2 ^ 16)
      ++ 0 ∷ 0 ∷ (if ttl == 0 then 64 else ttl) ∷ 17 ∷ check
      ++ bytes32 host src
      ++ bytes32 host dst

  -- The UDP header and the payload with the bytes `check` in the checksum field.
  abbrev pub datagram : List ℕ → List ℕ
  datagram check =
      net16 src_port ++ net16 dst_port ++ net16 (8 + length payload) ++ check ++ payload

  abbrev pub ip_check : ℕ
  ip_check = checksum16 (ip_header (0 ∷ 0 ∷ []))

  abbrev pub udp_check : ℕ
  udp_check = udp_checksum host src dst (datagram (0 ∷ 0 ∷ [])) (8 + length payload)

  abbrev pub packet : List ℕ
  packet = ip_header (bytes16 host ip_check) ++ datagram (bytes16 host udp_check)

  pub length-ip_header : (check : List ℕ) → length check ≡ 2 → length (ip_header check) ≡ 20
  length-ip_header check e =
      let (_, _, _, _, es) = bytes32_quad host src in
      let (_, _, _, _, ed) = bytes32_quad host dst in
      rw (es, ed, length-append, length-append) (omega arith)

  memset-eq :
      (out : List ℕ)
      → total ≤ length out
      → overwrite (replicate total 0) out
        ≡ replicate 28 0 ++ (replicate (length payload) 0 ++ drop total out)
  memset-eq out h =
      overwrite_lem (replicate total 0) out (rw length-replicate h)
      ∙ rw (length-replicate, replicate-add {A = ℕ} 28 (length payload) 0)

  write_ip-eq :
      (rest : List ℕ)
      → length payload ≤ max_payload
      → write_ip host pid total ttl src dst (replicate 28 0 ++ rest)
        ≡ ip_header (bytes16 host ip_check) ++ (replicate 8 0 ++ rest)
  unfolding write_ip
  write_ip-eq rest small =
      let (s0, s1, s2, s3, es) = bytes32_quad host src in
      let (d0, d1, d2, d3, ed) = bytes32_quad host dst in
      let whole : u16 total ≡ total = omega arith in
      let short : u16 (pid % 2 ^ 16) ≡ pid % 2 ^ 16 = omega arith in
      simp (bytes16-htons, bytes16-zero, whole, short, es, ed, overwrite-bytes16, append_assoc)

  -- `front` is the IP header, of which only the length matters.
  write_udp-eq :
      (front rest : List ℕ)
      → length front ≡ 20
      → length payload ≤ max_payload
      → write_udp host src dst src_port dst_port payload
          (front ++ (replicate 8 0 ++ (replicate (length payload) 0 ++ rest)))
        ≡ front ++ (datagram (bytes16 host udp_check) ++ rest)
  unfolding write_udp
  write_udp-eq front rest e small =
      let at20 = λ (ys xs : List ℕ). write_at-append 20 0 front ys xs e in
      let at22 = λ (ys xs : List ℕ). write_at-append 20 2 front ys xs e in
      let at24 = λ (ys xs : List ℕ). write_at-append 20 4 front ys xs e in
      let at26 = λ (ys xs : List ℕ). write_at-append 20 6 front ys xs e in
      let at28 = λ (ys xs : List ℕ). write_at-append 20 8 front ys xs e in
      let body = λ (ys : List ℕ). drop-append 20 front ys e in
      let cut = take-append (8 + length payload) (datagram (0 ∷ 0 ∷ [])) rest (omega arith) in
      let whole : u16 (8 + length payload) ≡ 8 + length payload = omega arith in
      simp (
        bytes16-htons, bytes16-zero, whole, at20, at22, at24, at26, at28, overwrite-replicate, body,
        cut, overwrite-bytes16, append_assoc,
      )

  -- With room for it, the packet is the two headers and the payload; the rest of the buffer stays.
  pub build-packet :
      (out : List ℕ) (room : ℕ)
      → total ≤ room
      → room ≤ length out
      → length payload ≤ max_payload
      → build_ipv4_udp host pid out room src dst src_port dst_port payload ttl
        ≡ some (total, packet ++ drop total out)
  unfolding build_ipv4_udp
  build-packet out room h k small =
      let front : length (ip_header (bytes16 host ip_check)) ≡ 20 =
        length-ip_header (bytes16 host ip_check) (length-bytes16 host ip_check) in
      rw
        (
          le→ltb room (20 + 8 + length payload) h,
          le→ltb max_payload (length payload) small,
          memset-eq out (omega arith),
          write_ip-eq (replicate (length payload) 0 ++ drop total out) small,
          write_udp-eq (ip_header (bytes16 host ip_check)) (drop total out) front small,
        )
        (ap (λ r. some (total, r))
          (sym (
            append_assoc (ip_header (bytes16 host ip_check)) (datagram (bytes16 host udp_check))
              (drop total out))))
