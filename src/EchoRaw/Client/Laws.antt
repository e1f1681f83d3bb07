-- ===== src/EchoRaw/Client/Laws.antt =====
-- What the client sends for a line, and that it prints the response of the server.
use eltex_systems.Base.{
  ℕ, ◌+◌, ◌^◌, ◌≤◌, ◌<◌, ◌≡◌, refl, ap, ◌∙◌, true, false, ◌&&◌, List, [], ◌∷◌, ◌++◌, Option, none,
  some, arith, ◌==◌, if◌then◌else◌, length, length-take, take, drop, All, Bool-cases, inl, inr,
}
use eltex_systems.Base.Text.{codes, same_bytes}
use eltex_systems.EchoRaw.Packet.{done, parse_ipv4_udp, build_ipv4_udp}
use eltex_systems.EchoRaw.Packet.RoundTrip.{sent, parse-build}
use eltex_systems.EchoRaw.Server.{Send}
use eltex_systems.EchoRaw.Client.{Client, strip, message, leaving, waiting, turn, accept, await}

-- What `main` checks and the types bound.
pub record IsConfigured (c : Client) : Type 0 where
  pub ip : c.server_ip < 2 ^ 32
  pub remote : c.server_port < 2 ^ 16
  pub near : c.local_port < 2 ^ 16
  pub room : length c.out ≡ 65536

pub length-message-le : (line : List ℕ) → length (message line) ≤ length line
unfolding message
length-message-le line = omega (arith, length-take (strip (length line) line) line)

-- Each line that `fgets` can store, of at most 1399 bytes, becomes one packet, when sending
-- succeeds: it goes to the server, and parses back to the line without its line ends, from the
-- local port to the port of the server. The client leaves exactly at `shutdown`.
pub turn-sends :
    (c : Client) (line : List ℕ)
    → IsConfigured c
    → length line < 1400
    → (s : Send) × (turn c true line
        ≡ (if same_bytes (message line) (codes "shutdown") then leaving s else waiting s))
      × (s.dst ≡ c.server_ip)
      × (parse_ipv4_udp c.host s.buf s.len
          ≡ done (sent c.host c.pid 0 c.server_ip c.local_port c.server_port 64 (message line)))
      × (take (length (message line)) (drop 28 s.buf) ≡ message line)
unfolding turn
turn-sends c line set short =
    let small : length (message line) ≤ 1400 = omega (arith, length-message-le line) in
    let (packet, built, parsed, payload) =
      parse-build c.host c.pid 0 c.server_ip c.local_port c.server_port 64 (message line) c.out
        65536 (omega arith) set.ip set.near set.remote small (omega arith)
        (omega (arith, set.room)) in
    (
      record { buf = packet; len = 28 + length (message line); dst = c.server_ip },
      rw (turn, built) refl,
      refl,
      parsed,
      payload,
    )

-- What the client passes over while it waits.
abbrev pub IsPassed : Client → Option (List ℕ × ℕ) → Type 0
IsPassed c none = Unit
IsPassed c (some (inbuf, n)) = accept c inbuf n ≡ none

pub await-skip :
    (c : Client) (skipped rest : List (Option (List ℕ × ℕ)))
    → All (IsPassed c) skipped
    → await c (skipped ++ rest) ≡ await c rest
unfolding await
await-skip c [] rest h = refl
await-skip c (none ∷ rs) rest h = await-skip c rs rest h.1
await-skip c (some (inbuf, n) ∷ rs) rest h = elim (Bool-cases (n == 0)) [
  | inl empty ↦ rw (await, empty) (await-skip c rs rest h.1)
  | inr bytes ↦ rw (await, bytes, h.0) (await-skip c rs rest h.1)
]

-- The client prints the response of the server: after any datagrams that are not from the server
-- and for the client, the packet that a server at the address and port of the client's server
-- builds, with the client's port as its target and a payload of at most 1400 bytes, is accepted,
-- and exactly its payload is printed.
await-response :
    (c : Client) (pid client_ip : ℕ) (out text : List ℕ) (skipped rest : List (Option (List ℕ × ℕ)))
    → IsConfigured c
    → client_ip < 2 ^ 32
    → length out ≡ 65536
    → length text ≤ 1400
    → All (IsPassed c) skipped
    → (packet : List ℕ) × (build_ipv4_udp c.host pid out 65536 c.server_ip client_ip c.server_port
          c.local_port text 64
        ≡ some (28 + length text, packet))
      × (await c (skipped ++ (some (packet, 28 + length text) ∷ rest)) ≡ some text)
unfolding await accept
await-response c pid client_ip out text skipped rest set ip room small passed =
    let (packet, built, parsed, payload) =
      parse-build c.host pid c.server_ip client_ip c.server_port c.local_port 64 text out 65536
        set.ip ip set.remote set.near small (omega arith) (omega (arith, room)) in
    let bytes : (28 + length text == 0) ≡ false = ground arith in
    let mine : (c.server_ip == c.server_ip
          && c.server_port == c.server_port
          && c.local_port == c.local_port)
        ≡ true =
      ground arith in
    let taken : accept c packet (28 + length text) ≡ some text =
      rw (accept, parsed, mine) (ap (λ t. some t) payload) in
    (
      packet,
      built,
      await-skip c skipped (some (packet, 28 + length text) ∷ rest) passed
          ∙ rw (await, bytes, taken) refl,
    )
