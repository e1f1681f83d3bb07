-- ===== src/Tests/Echo.antt =====
-- The echo server on a datagram of five bytes from 127.0.0.1:40000 to port 8080.
use eltex_systems.Base.{
  ℕ, ◌+◌, ◌/◌, ◌%◌, ◌≤◌, ◌<◌, ◌≡◌, ◌≢◌, refl, ap, sym, ◌∙◌, ◌↔◌, true, false, List, [], ◌∷◌, ◌++◌,
  suc, ◌-◌, ◌^◌, Option, none, some, arith, length, length-replicate, replicate, take, drop,
}
use eltex_systems.Base.Text.{codes, c_string, same_bytes}
use eltex_systems.Base.Decimal.{decimal}
use eltex_systems.EchoRaw.Host.{little, load16, load32, ntohs, swap16}
use eltex_systems.EchoRaw.Packet.{
  Parsed, Outcome, done, rejected, fault, parse_ipv4_udp, parse_udp, parse_fields, read8, read16,
  read32, build_ipv4_udp,
}
use eltex_systems.EchoRaw.Packet.RoundTrip.{sent, parse-build}
use eltex_systems.EchoRaw.Packet.Safety.{IsSafe, parse-IsSafe}
use eltex_systems.EchoRaw.Packet.Integrity.{InOrder, header, ip_checksum-verifies}
use eltex_systems.EchoRaw.Checksum.{checksum16, udp_checksum, pseudo_header}
use eltex_systems.EchoRaw.Checksum.Sum.{word_sum}
use eltex_systems.EchoRaw.Checksum.Laws.{nonzero_complement, udp_checksum-ones}
use eltex_systems.EchoRaw.ClientTable.{Key, Table, key_eq, ct_create, next_in}
use eltex_systems.EchoRaw.ClientTable.History.{
  Call, next, reset, replay, tally, next-tally, empty_table, view-empty,
}
use eltex_systems.EchoRaw.Server.{Env, Send, response, key_of, round}
use eltex_systems.EchoRaw.Server.Runs.{history, rounds, numbered, rounds-answer}
use eltex_systems.EchoRaw.Server.Laws.{text, is_reset}

abbrev pub loopback : ℕ
loopback = 16777343

-- The headers as they stand in memory, for a payload of `n` bytes.
abbrev pub headers : ℕ → List ℕ
headers n =
    69
    ∷ 0
    ∷ 0
    ∷ 0
    ∷ 0
    ∷ 0
    ∷ 0
    ∷ 0
    ∷ 64
    ∷ 17
    ∷ 0
    ∷ 0
    ∷ 127
    ∷ 0
    ∷ 0
    ∷ 1
    ∷ 127
    ∷ 0
    ∷ 0
    ∷ 1
    ∷ 156
    ∷ 64
    ∷ 31
    ∷ 144
    ∷ ((8 + n) / 256)
    ∷ ((8 + n) % 256)
    ∷ 0
    ∷ 0
    ∷ []

abbrev hello : List ℕ
hello = headers 5 ++ codes "hello"

abbrev pub parsed_of : ℕ → Parsed
parsed_of n = record {
  src = loopback;
  dst = loopback;
  src_port = 40000;
  dst_port = 8080;
  payload = 28;
  payload_len = n;
}

abbrev pub server : Env
server = record {
  host = little;
  pid = 4242;
  listen_port = 8080;
  calloc_ok = true;
  out = replicate 65536 0;
}

parse_hello : parse_ipv4_udp little hello (length hello) ≡ done (parsed_of 5)
unfolding parse_ipv4_udp parse_udp parse_fields read8 read16 read32 load16 load32 ntohs swap16
parse_hello = refl

plain_hello : is_reset hello (parsed_of 5) ≡ false
plain_hello = refl

short_reply : length (text empty_table hello (parsed_of 5)) ≤ 1400
unfolding response c_string decimal
short_reply = rw (view-empty (key_of (parsed_of 5))) (omega arith)

-- A message of 1400 bytes, whose response does not fit a packet.
abbrev long_message : List ℕ
long_message = headers 1400 ++ replicate 1400 120

parse_long : parse_ipv4_udp little long_message 1428 ≡ done (parsed_of 1400)
unfolding parse_ipv4_udp parse_udp parse_fields read8 read16 read32 load16 load32 ntohs swap16
parse_long = refl

long_reply : 1400 < length (text empty_table long_message (parsed_of 1400))
unfolding response c_string decimal
long_reply = rw (view-empty (key_of (parsed_of 1400))) (omega arith)

abbrev goodbye : List ℕ
goodbye = headers 8 ++ codes "shutdown"

abbrev elsewhere : Env
elsewhere = record {
  host = little;
  pid = 4242;
  listen_port = 9090;
  calloc_ok = true;
  out = replicate 65536 0;
}

abbrev port_of : Outcome Parsed → ℕ
port_of (done p) = p.dst_port
port_of rejected = 0
port_of fault = 0

not_mine :
    (buf : List ℕ) (p : Parsed)
    → some hello ≡ some buf
    → parse_ipv4_udp little buf (length buf) ≡ done p
    → p.dst_port ≢ 9090
not_mine buf p e parsed h =
    let same : hello ≡ buf = ap (λ o. elim o [ none ↦ hello | some b ↦ b ]) e in
    let port : 8080 ≡ p.dst_port =
      ap port_of (sym parse_hello ∙ ap (λ b. parse_ipv4_udp little b (length b)) same ∙ parsed) in
    omega (arith, port, h)

parse-build_example :
    (buf : List ℕ) × (build_ipv4_udp little 4242
        (replicate 64 7)
        64
        loopback
        16843009
        8080
        40000
        (codes "hi 1")
        64
      ≡ some (32, buf))
    × (parse_ipv4_udp little buf 32
        ≡ done (sent little 4242 loopback 16843009 8080 40000 64 (codes "hi 1")))
    × (take 4 (drop 28 buf) ≡ codes "hi 1")
parse-build_example =
    parse-build little 4242 loopback 16843009 8080 40000 64 (codes "hi 1") (replicate 64 7) 64
      (omega arith) (omega arith) (omega arith) (omega arith) (omega arith) (omega arith)
      (omega arith)

parse-IsSafe_example : IsSafe little hello 33 (parse_ipv4_udp little hello 33)
parse-IsSafe_example = parse-IsSafe little hello 33 (omega arith)

hops : 64 < 256
hops = omega arith

ip_checksum-verifies_example :
    (buf : List ℕ) × (build_ipv4_udp little 4242
        (replicate 64 7)
        64
        loopback
        16843009
        8080
        40000
        (codes "hi 1")
        64
      ≡ some (32, buf))
    × ((checksum16 (take 20 buf) ≡ 0)
        ↔ InOrder little (
            checksum16
              (header little 4242 loopback 16843009 8080 40000 64 (codes "hi 1") hops 0 0)))
ip_checksum-verifies_example =
    ip_checksum-verifies little 4242 loopback 16843009 8080 40000 64 (codes "hi 1") hops
      (replicate 64 7) 64 (omega arith) (omega arith) (omega arith)

udp_checksum-ones_example :
    udp_checksum little loopback loopback (1 ∷ 2 ∷ 255 ∷ []) 3
    ≡ nonzero_complement
        (word_sum (pseudo_header little loopback loopback 3) + word_sum (1 ∷ 2 ∷ 255 ∷ []))
udp_checksum-ones_example =
    udp_checksum-ones little loopback loopback (1 ∷ 2 ∷ 255 ∷ []) 3 (ground arith) (omega arith)

abbrev alice : Key
alice = record { ip = loopback; port = 40000 }

abbrev bob : Key
bob = record { ip = loopback; port = 40001 }

abbrev calls : List Call
calls = next alice ∷ reset alice ∷ next bob ∷ next alice ∷ []

next-tally_example :
    (t : Table) × (ct_create true true ≡ some t)
    × (t' : Table) × (next_in true (replay calls t) alice ≡ some (t', 2))
unfolding tally key_eq
next-tally_example = next-tally calls alice

-- Two messages, a reset and a message before.
abbrev received : List (Option (List ℕ))
received = some hello ∷ some goodbye ∷ none ∷ some hello ∷ some hello ∷ []

numbered_two : tally (key_of (parsed_of 5)) (history server received) ≡ 1
unfolding tally history parse_ipv4_udp parse_udp parse_fields read8 read16 read32 load16 load32
    ntohs swap16 same_bytes key_eq
numbered_two = refl

small_reply :
    length (
      numbered hello
        (parsed_of 5)
        (suc (tally (key_of (parsed_of 5)) (history server received)) % 2 ^ 32))
    ≤ 1400
unfolding response c_string decimal
small_reply = rw numbered_two (omega arith)

rounds-answer_example :
    (s : Send) × (t' : Table) × (round server
        (rounds server received (some empty_table))
        (some hello)
      ≡ (some t', some s))
    × (s.dst ≡ loopback)
    × (take (s.len - 28) (drop 28 s.buf)
        ≡ numbered hello
            (parsed_of 5)
            (suc (tally (key_of (parsed_of 5)) (history server received)) % 2 ^ 32))
rounds-answer_example =
    rounds-answer server received hello (parsed_of 5) refl (omega arith) parse_hello refl
      plain_hello small_reply (length-replicate {A = ℕ} 65536 0) (omega arith) (omega arith)
      (omega arith) (omega arith)
