-- ===== src/EchoRaw/Server.antt =====
-- `echo_raw/server/echo_server.c`: what the server does with one received datagram.
pub mod Laws
pub mod Runs
use eltex_systems.Base.{
  ℕ, ◌+◌, ◌-◌, ◌*◌, ◌%◌, ◌^◌, min, Bool, true, false, not, ◌&&◌, List, [], ◌∷◌, ◌++◌, Option, none,
  some, ltb, ◌==◌, if◌then◌else◌, length, take, drop,
}
use eltex_systems.Base.Text.{codes, c_string, same_bytes}
use eltex_systems.Base.Decimal.{decimal}
use eltex_systems.EchoRaw.Host.{Endian}
use eltex_systems.EchoRaw.Packet.{
  max_payload, Parsed, Outcome, done, rejected, fault, parse_ipv4_udp, build_ipv4_udp,
}
use eltex_systems.EchoRaw.ClientTable.{Key, Table, ct_next, ct_reset}

-- The arguments of `rawudp_send_packet`: the buffer, the length of the packet at its front, and
-- the destination.
pub record Send : Type 0 where
  pub buf : List ℕ
  pub len : ℕ
  pub dst : ℕ

-- What a round of the loop leaves: the table, and the packet that it sends, if any.
abbrev pub Round : Type 0
Round = Option Table × Option Send

-- `snprintf (resp, sizeof (resp), "%s %u", msg, cnt)`: at most 1400 + 1 + 10 bytes, which fit
-- `resp` (`length-response`), so none is cut off.
unfoldable pub response : List ℕ → ℕ → List ℕ
response msg cnt = c_string msg ++ (32 ∷ decimal cnt)

-- The environment of a round: the host, `getpid ()`, the port, whether `calloc` succeeds, and the
-- contents of the 65536 bytes of `out`.
pub record Env : Type 0 where
  pub host : Endian
  pub pid : ℕ
  pub listen_port : ℕ
  pub calloc_ok : Bool
  pub out : List ℕ

abbrev pub key_of : Parsed → Key
key_of p = record { ip = p.src; port = p.src_port }

abbrev pub body : List ℕ → Parsed → List ℕ
body buf p = take p.payload_len (drop p.payload buf)

-- From `rawudp_ct_next` on: count the message, answer it.
unfoldable pub answer : Env → Option Table → List ℕ → Parsed → Round
answer env ct buf p = elim (ct_next env.calloc_ok ct (key_of p) true) [
  | none ↦ (ct, none)
  | some (ct', cnt) ↦
      let copy = if ltb max_payload p.payload_len then max_payload else p.payload_len in
      let resp = response (take copy (drop p.payload buf)) cnt in
      let built =
        build_ipv4_udp env.host env.pid env.out 65536 p.dst p.src env.listen_port p.src_port resp
          64 in
      (
        some ct',
        elim built [
          | none ↦ none
          | some (pkt_len, out) ↦ some (record { buf = out; len = pkt_len; dst = p.src })
        ],
      )
]

-- A datagram that was parsed.
unfoldable pub dispatch : Env → Option Table → List ℕ → Parsed → Round
dispatch env ct buf p =
    if not (p.dst_port == env.listen_port)
    then (ct, none)
    else if p.payload_len == 8 && same_bytes (body buf p) (codes "shutdown")
    then (ct_reset ct (key_of p), none)
    else answer env ct buf p

-- One round: `received` is the bytes that `recv` stored, or `none` where it failed.
unfoldable pub round : Env → Option Table → Option (List ℕ) → Round
round env ct none = (ct, none)
round env ct (some buf) =
    if length buf == 0 then (ct, none) else elim (parse_ipv4_udp env.host buf (length buf)) [
      | done p ↦ dispatch env ct buf p
      | rejected ↦ (ct, none)
      | fault ↦ (ct, none)
    ]
