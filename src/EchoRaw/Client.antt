-- ===== src/EchoRaw/Client.antt =====
-- `echo_raw/client/echo_client.c`: what the client does with a line, and how it waits for the
-- response. `recv` fills the front of `inbuf`: a datagram is the buffer and the number of bytes.
pub mod Laws
use eltex_systems.Base.{
  ℕ, zero, suc, ◌+◌, ◌||◌, ◌&&◌, Bool, true, false, List, [], ◌∷◌, ◌++◌, Option, none, some, ◌==◌,
  if◌then◌else◌, length, get_or, take, drop,
}
use eltex_systems.Base.Text.{codes, same_bytes}
use eltex_systems.EchoRaw.Host.{Endian}
use eltex_systems.EchoRaw.Packet.{
  Parsed, Outcome, done, rejected, fault, parse_ipv4_udp, build_ipv4_udp,
}
use eltex_systems.EchoRaw.Server.{Send}

-- The settings of the client, and the host, `getpid ()` and the 65536 bytes of `out`.
pub record Client : Type 0 where
  pub host : Endian
  pub pid : ℕ
  pub server_ip : ℕ
  pub server_port : ℕ
  pub local_port : ℕ
  pub out : List ℕ

-- The loop that cuts line ends, from a length down.
unfoldable pub strip : ℕ → List ℕ → ℕ
strip zero line = zero
strip (suc l) line =
    let shorter = strip l line in
    if get_or line l 0 == b'\n' || get_or line l 0 == b'\r' then shorter else suc l

-- What is sent for the text of a line, up to its NUL.
unfoldable pub message : List ℕ → List ℕ
message line = take (strip (length line) line) line

-- A line ends in the next one (its packet is not built, or not sent), in the end of the program,
-- or in waiting for the response.
pub data Turn : Type 0 where
  not_built : Turn
  send_failed : Send → Turn
  leaving : Send → Turn
  waiting : Send → Turn

-- `send_ok` is whether `rawudp_send_packet` succeeds.
unfoldable pub turn : Client → Bool → List ℕ → Turn
turn c send_ok line =
    elim (build_ipv4_udp c.host c.pid c.out 65536 0 c.server_ip c.local_port c.server_port
      (message line) 64) [
        | none ↦ not_built
        | some (pkt_len, out) ↦
            let s : Send = record { buf = out; len = pkt_len; dst = c.server_ip } in
            if send_ok
            then (if same_bytes (message line) (codes "shutdown") then leaving s else waiting s)
            else send_failed s
      ]

-- The payload of a datagram that is from the server and for the client.
unfoldable pub accept : Client → List ℕ → ℕ → Option (List ℕ)
accept c inbuf n = elim (parse_ipv4_udp c.host inbuf n) [
  | done p ↦
      if p.src == c.server_ip && p.src_port == c.server_port && p.dst_port == c.local_port
      then some (take p.payload_len (drop p.payload inbuf))
      else none
  | rejected ↦ none
  | fault ↦ none
]

-- The inner loop, on what `recv` returns in turn (`none` is an error): the payload that is
-- printed with a line end behind it, or `none` where the client waits on.
unfoldable pub await : Client → List (Option (List ℕ × ℕ)) → Option (List ℕ)
await c [] = none
await c (none ∷ rs) = await c rs
await c (some (inbuf, n) ∷ rs) =
    let later = await c rs in
    if n == 0 then later else elim (accept c inbuf n) [ none ↦ later | some text ↦ some text ]
