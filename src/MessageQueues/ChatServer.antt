-- ===== src/MessageQueues/ChatServer.antt =====
-- `message_queues/chat_server.c`: the server of a chat over POSIX message queues. The fields of a
-- message are the texts before their NUL, and the table and the history are the lists of their
-- used entries. What `perror` reports is left out.
pub mod Deliveries
pub mod Reachable
use eltex_systems.Base.{
  ℕ, ◌+◌, Bool, true, false, List, [], ◌∷◌, ◌++◌, Option, none, some, ltb, ◌==◌, if◌then◌else◌,
  length, take,
}
use eltex_systems.Base.Text.{codes}

abbrev pub max_text : ℕ
max_text = 256

abbrev pub max_clients : ℕ
max_clients = 10

abbrev pub max_history : ℕ
max_history = 100

-- `struct chat_msg`; `type` is `J` for a join, `M` for a message, `S` for the system.
pub record ChatMsg : Type 0 where
  pub type : ℕ
  pub name : List ℕ
  pub qname : List ℕ
  pub text : List ℕ

-- `struct client_info`; a queue of -1 is `none`.
pub record ClientInfo : Type 0 where
  pub name : List ℕ
  pub qname : List ℕ
  pub q : Option ℕ

pub record Server : Type 0 where
  pub clients : List ClientInfo
  pub history : List ChatMsg
  pub server_q : Option ℕ

pub data Effect : Type 0 where
  opened : ℕ → Effect
  send : ℕ → ChatMsg → Effect
  close : ℕ → Effect
  unlink : Effect

-- A message of the server; `snprintf` cuts the text to 255 bytes.
abbrev pub system_msg : List ℕ → ChatMsg
system_msg text = record { type = b'S'; name = codes "Server"; qname = []; text = take 255 text }

unfoldable pub send_to_all : ChatMsg → List ClientInfo → List Effect
send_to_all msg [] = []
send_to_all msg (c ∷ cs) = elim c.q [
  | none ↦ send_to_all msg cs
  | some q ↦ send q msg ∷ send_to_all msg cs
]

-- The loop that sends the history to a new client.
unfoldable pub replay : ℕ → List ChatMsg → List Effect
replay q [] = []
replay q (m ∷ ms) = send q m ∷ replay q ms

unfoldable pub remember : ChatMsg → List ChatMsg → List ChatMsg
remember msg history = if ltb (length history) max_history then history ++ (msg ∷ []) else history

abbrev pub rejection : ChatMsg → ChatMsg
rejection msg = system_msg (codes "Too many clients, " ++ (msg.name ++ codes " rejected"))

abbrev pub joined : ChatMsg → ChatMsg
joined msg = system_msg (msg.name ++ codes " joined chat")

-- `client_queue` is what `mq_open (msg->qname, O_WRONLY)` returns.
unfoldable pub handle_join : Option ℕ → ChatMsg → Server → Server × List Effect
handle_join client_queue msg s =
    if ltb (length s.clients) max_clients
    then elim client_queue [
      | none ↦ (s, [])
      | some q ↦
          let cl : ClientInfo = record { name = msg.name; qname = msg.qname; q = some q } in
          let clients = s.clients ++ (cl ∷ []) in
          (
            record s { clients = clients; history = remember (joined msg) s.history },
            opened q ∷ (replay q s.history ++ send_to_all (joined msg) clients),
          )
    ]
    else elim client_queue [
      | none ↦ (s, [])
      | some tmp ↦ (s, opened tmp ∷ send tmp (rejection msg) ∷ close tmp ∷ [])
    ]

unfoldable pub handle_message : ChatMsg → Server → Server × List Effect
handle_message msg s = (record s { history = remember msg s.history }, send_to_all msg s.clients)

-- A round of the loop of `main`; `none` is a failed `mq_receive`.
unfoldable pub receive : Option ℕ → Option ChatMsg → Server → Server × List Effect
receive client_queue none s = (s, [])
receive client_queue (some msg) s =
    if msg.type == b'J'
    then handle_join client_queue msg s
    else if msg.type == b'M'
    then handle_message msg s
    else (s, [])

unfoldable pub close_clients : List ClientInfo → List Effect
close_clients [] = []
close_clients (c ∷ cs) = elim c.q [ none ↦ close_clients cs | some q ↦ close q ∷ close_clients cs ]

-- The handler of SIGINT and SIGTERM, before it ends the process.
unfoldable pub cleanup : Server → List Effect
cleanup s =
    (elim s.server_q [ none ↦ [] | some q ↦ close q ∷ unlink ∷ [] ]) ++ close_clients s.clients

-- The server before its first round.
abbrev pub started : ℕ → Server
started q = record { clients = []; history = []; server_q = some q }
