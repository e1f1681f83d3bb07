-- ===== src/MessageQueues/ChatClient.antt =====
-- `message_queues/chat_client.c`: the client of the chat, its start with the error exits, its loop
-- over the typed lines, and the thread that shows what arrives. A message is as in the server;
-- what the system calls return is given, and what `perror` reports is left out.
pub mod Talk
pub mod Release
pub mod Screen
use eltex_systems.Base.{
  ℕ, Bool, true, false, List, [], ◌∷◌, ◌++◌, Option, none, some, ◌==◌, if◌then◌else◌, take,
}
use eltex_systems.Base.Text.{codes, same_bytes, first_line}
use eltex_systems.Base.Decimal.{decimal}
use eltex_systems.MessageQueues.ChatServer.{ChatMsg, max_text}

abbrev pub max_name : ℕ
max_name = 32

-- The name of the queue of the client with this process id.
abbrev pub queue_name : ℕ → List ℕ
queue_name pid = take 63 (codes "/chat_" ++ decimal pid)

unfoldable pub join_msg : (nickname qname : List ℕ) → ChatMsg
join_msg nickname qname = record {
  type = b'J';
  name = take 31 nickname;
  qname = take 63 qname;
  text = [];
}

unfoldable pub text_msg : (nickname line : List ℕ) → ChatMsg
text_msg nickname line = record {
  type = b'M';
  name = take 31 nickname;
  qname = [];
  text = take 255 line;
}

-- What the program does, in order; a message is sent with success, or not.
pub data Did : Type 0 where
  created opened : Did
  sent : Bool → ChatMsg → Did
  screen_on screen_off thread_on thread_cancelled : Did
  closed_own unlinked closed_server : Did

-- A line that `wgetnstr` stored, and whether `mq_send` of its message succeeds.
pub record Typed : Type 0 where
  pub line : List ℕ
  pub send_ok : Bool

-- The loop of `main`, and whether it was left.
unfoldable pub chat : (nickname : List ℕ) → List Typed → Bool × List Did
chat nickname [] = (false, [])
chat nickname (t ∷ ts) =
    let rest = chat nickname ts in
    if same_bytes t.line (codes "/quit")
    then (true, [])
    else (rest.0, sent t.send_ok (text_msg nickname t.line) ∷ rest.1)

-- The line with the name (none at the end of the input), the process id, whether each
-- call of `mq_open`, the `mq_send` of the join and `pthread_create` succeed, and the typed lines.
pub record Given : Type 0 where
  pub name : Option (List ℕ)
  pub pid : ℕ
  pub own_queue : Bool
  pub server_queue : Bool
  pub join_sent : Bool
  pub thread : Bool
  pub typed : List Typed

abbrev pub finish : List Did
finish = screen_off ∷ closed_own ∷ unlinked ∷ closed_server ∷ thread_cancelled ∷ []

-- From the start of the screen on.
unfoldable pub run_screen : Given → (nickname : List ℕ) → Option ℕ × List Did
run_screen g nickname =
    if g.thread
    then (
      if (chat nickname g.typed).0 then some 0 else none,
      screen_on
          ∷ thread_on
          ∷ ((chat nickname g.typed).1 ++ (if (chat nickname g.typed).0 then finish else [])),
    )
    else (some 1, screen_on ∷ screen_off ∷ closed_own ∷ unlinked ∷ closed_server ∷ [])

-- From the join on.
unfoldable pub run_joined : Given → (nickname : List ℕ) → Option ℕ × List Did
run_joined g nickname =
    let msg = join_msg nickname (queue_name g.pid) in
    if g.join_sent
    then ((run_screen g nickname).0, sent true msg ∷ (run_screen g nickname).1)
    else (some 1, sent false msg ∷ closed_own ∷ unlinked ∷ closed_server ∷ [])

-- `main`: the exit code, none while it waits for the next line, and what it did.
unfoldable pub main : Given → Option ℕ × List Did
main g = elim g.name [
  | none ↦ (some 1, [])
  | some line ↦
      if g.own_queue
      then (if g.server_queue
          then (
            (run_joined g (first_line line)).0,
            created ∷ opened ∷ (run_joined g (first_line line)).1,
          )
          else (some 1, created ∷ closed_own ∷ unlinked ∷ []))
      else (some 1, [])
]

-- A round of `receiver_thread`: what it prints for a message.
unfoldable pub shown : ChatMsg → List ℕ
shown msg =
    if msg.type == b'S'
    then codes "[" ++ (msg.text ++ codes "]\n")
    else msg.name ++ (codes ": " ++ (msg.text ++ codes "\n"))

-- Its loop, over what `mq_receive` returns; it ends at the first failure.
unfoldable pub receiver_thread : List (Option ChatMsg) → List (List ℕ)
receiver_thread [] = []
receiver_thread (none ∷ ms) = []
receiver_thread (some msg ∷ ms) = shown msg ∷ receiver_thread ms
