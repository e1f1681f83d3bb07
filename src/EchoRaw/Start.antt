-- ===== src/EchoRaw/Start.antt =====
-- The start of `echo_raw/server/echo_server.c` and of `echo_raw/client/echo_client.c`: arguments,
-- ports and sockets, with `rawudp_open_send_socket` of `echo_raw/src/packet.c`; and the loop of the
-- client over the lines.

pub mod Ports
use eltex_systems.Base.{
  ℕ, ◌+◌, ◌%◌, ◌^◌, Bool, true, false, not, List, [], ◌∷◌, Option, none, some, ◌==◌, if◌then◌else◌,
}
use eltex_systems.Base.Int.{ℤ, to_word}
use eltex_systems.Base.Strtol.{atoi}
use eltex_systems.EchoRaw.Host.{Endian}
use eltex_systems.EchoRaw.ClientTable.{Table, ct_create}
use eltex_systems.EchoRaw.Client.{
  Client, Turn, not_built, send_failed, leaving, waiting, turn, await,
}
use eltex_systems.EchoRaw.Server.{Send}

-- `rawudp_open_send_socket`: no socket, one that is closed again as `IP_HDRINCL` cannot be set, or
-- one.
pub data Opened : Type 0 where
  no_socket closed_again opened : Opened

abbrev pub open_send_socket : Bool → Bool → Opened
open_send_socket false option_ok = no_socket
open_send_socket true false = closed_again
open_send_socket true true = opened

-- The cast to `uint16_t`.
abbrev pub u16 : ℤ → ℕ
u16 x = to_word x % 2 ^ 16

-- Which calls of the start succeed.
pub record Calls : Type 0 where
  pub recv_socket : Bool
  pub socket : Bool
  pub header_option : Bool
  pub table : Bool
  pub buckets : Bool

abbrev pub sockets_open : Calls → Bool
sockets_open k = elim k.recv_socket [
  | false ↦ false
  | true ↦ elim (open_send_socket k.socket k.header_option) [
    | no_socket ↦ false
    | closed_again ↦ false
    | opened ↦ true
  ]
]

-- How the server starts: it ends with a message, or serves a port from a new table.
pub data ServerStart : Type 0 where
  usage bad_port died : ServerStart
  serving : ℕ → Table → ServerStart

-- `main` of the server up to its loop, with the arguments behind the name of the program.
unfoldable pub server_start : Calls → List (List ℕ) → ServerStart
server_start k [] = usage
server_start k (arg ∷ []) =
    let listen_port = u16 (atoi arg) in
    if listen_port == 0
    then bad_port
    else if not (sockets_open k)
    then died
    else elim (ct_create k.table k.buckets) [ none ↦ died | some ct ↦ serving listen_port ct ]
server_start k (arg ∷ (b ∷ args)) = usage

-- `pick_port`, with what `rand` returns.
unfoldable pub pick_port : ℕ → ℕ
pick_port rand = (20000 + rand % 40000) % 2 ^ 16

pub data ClientStart : Type 0 where
  usage bad_server_ip bad_server_port bad_local_port died : ClientStart
  started : Client → ClientStart

-- What the client has of its host: the byte order, `getpid ()`, the contents of `out`, what
-- `inet_aton` makes of a text, and what `rand` returns.
pub record Machine : Type 0 where
  pub host : Endian
  pub pid : ℕ
  pub out : List ℕ
  pub inet_aton : List ℕ → Option ℕ
  pub rand : ℕ

-- Behind the checks of the address and the port of the server.
abbrev pub with_local_port : Calls → Machine → ℕ → ℕ → ℕ → ClientStart
with_local_port k m ip server_port local_port =
    if local_port == 0
    then bad_local_port
    else if not (sockets_open k)
    then died
    else started (record {
      host = m.host;
      pid = m.pid;
      server_ip = ip;
      server_port = server_port;
      local_port = local_port;
      out = m.out;
    })

-- Behind `inet_aton`.
abbrev pub with_address : Calls → Machine → List ℕ → ℕ → Option ℕ → ClientStart
with_address k m port local_port none = bad_server_ip
with_address k m port local_port (some ip) =
    if u16 (atoi port) == 0
    then bad_server_port
    else with_local_port k m ip (u16 (atoi port)) local_port

abbrev pub with_server : Calls → Machine → List ℕ → List ℕ → ℕ → ClientStart
with_server k m address port local_port = with_address k m port local_port (m.inet_aton address)

-- `main` of the client up to its loop.
unfoldable pub client_start : Calls → Machine → List (List ℕ) → ClientStart
client_start k m (address ∷ (port ∷ [])) = with_server k m address port (pick_port m.rand)
client_start k m (address ∷ (port ∷ (near ∷ []))) = with_server k m address port (u16 (atoi near))
client_start k m [] = usage
client_start k m (a ∷ []) = usage
client_start k m (a ∷ (b ∷ (c ∷ (d ∷ args)))) = usage

-- A line that is typed, whether its packet is sent, and what `recv` returns behind that in turn.
pub record Typed : Type 0 where
  pub text : List ℕ
  pub send_ok : Bool
  pub received : List (Option (List ℕ × ℕ))

pub data Event : Type 0 where
  sends : Send → Event
  prints : List ℕ → Event

-- What follows a turn, with what the further lines lead to.
abbrev pub after_turn : Client → Typed → Turn → List Event × Bool → List Event × Bool
after_turn c l not_built rest = rest
after_turn c l (send_failed s) rest = rest
after_turn c l (leaving s) rest = (sends s ∷ [], true)
after_turn c l (waiting s) rest = elim (await c l.received) [
  | none ↦ (sends s ∷ [], false)
  | some text ↦ (sends s ∷ (prints text ∷ rest.0), rest.1)
]

-- The loop of the client over the lines, to the end of the input: what it sends and prints, and
-- whether it returns or still waits for a response.
unfoldable pub client_loop : Client → List Typed → List Event × Bool
client_loop c [] = ([], true)
client_loop c (l ∷ ls) = after_turn c l (turn c l.send_ok l.text) (client_loop c ls)
