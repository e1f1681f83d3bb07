-- ===== src/SharedMemory/Chat.antt =====
-- `shared_memory/chat.h`, `chat_client.c` and `chat_server.c`: a chat in a shared memory segment.
-- What a client does between `lock_sem` and `unlock_sem` is one function of the segment; an array
-- and its count are the list of the used entries, and a text is its bytes before the NUL.
pub mod Views
pub mod Runs
use eltex_systems.Base.{
  ℕ, zero, suc, ◌+◌, Bool, true, false, List, [], ◌∷◌, ◌++◌, ◌&&◌, Option, none, some, ltb, leb,
  ◌==◌, if◌then◌else◌, length, get_elem?, take,
}
use eltex_systems.Base.Text.{codes, same_bytes}

abbrev pub max_clients : ℕ
max_clients = 10

abbrev pub max_messages : ℕ
max_messages = 100

abbrev pub name_len : ℕ
name_len = 32

abbrev pub text_len : ℕ
text_len = 256

pub record ChatMessage : Type 0 where
  pub sender : List ℕ
  pub text : List ℕ

-- `chat_t`.
pub record Chat : Type 0 where
  pub server_running : Bool
  pub client_names : List (List ℕ)
  pub messages : List ChatMessage

-- The server: the segment that it sets up, and its end, at a `q` in its input or at the end of
-- the input.
abbrev pub server_start : Chat
server_start = record { server_running = true; client_names = []; messages = [] }

abbrev pub server_stop : Chat → Chat
server_stop c = record c { server_running = false }

-- Whether the loop of the server reads a `q`, with what is left of the input.
unfoldable pub read_until_q : List ℕ → Bool × List ℕ
read_until_q [] = (false, [])
read_until_q (c ∷ cs) = if c == b'q' then (true, cs) else read_until_q cs

-- `strncpy (to, text, n)` and the NUL at its last byte.
abbrev pub cut : ℕ → List ℕ → List ℕ
cut n text = take n text

-- A message at the end of the array, when there is room.
unfoldable pub append_message : List ℕ → List ℕ → Chat → Chat
append_message sender text c =
    if ltb (length c.messages) max_messages
    then record c {
      messages = c.messages ++ (record { sender = cut 31 sender; text = cut 255 text } ∷ []);
    }
    else c

-- The part of the client's `main` under the lock.
unfoldable pub join : List ℕ → Chat → Chat
join name c =
    if ltb (length c.client_names) max_clients
    then append_message (codes "server") (name ++ codes " joined")
        (record c { client_names = c.client_names ++ (cut 31 name ∷ []) })
    else c

-- A round of `sender_thread` with the line that was typed: whether the client goes on, and the
-- segment.
unfoldable pub sender_round : List ℕ → List ℕ → Chat → Bool × Chat
sender_round name buf c =
    if same_bytes buf (codes "/quit")
    then (false, c)
    else if length buf == 0
    then (true, c)
    else (true, append_message name buf c)

-- What the receiver draws.
pub data Drawn : Type 0 where
  cleared : Drawn
  line : (row : ℕ) → ChatMessage → Drawn
  user : (row : ℕ) → List ℕ → Drawn

-- The state of `receiver_thread`: `last_seen`, `g_msg_row` and what it drew so far.
pub record Viewer : Type 0 where
  pub last_seen : ℕ
  pub msg_row : ℕ
  pub drawn : List Drawn

abbrev pub new_viewer : Viewer
new_viewer = record { last_seen = 0; msg_row = 1; drawn = [] }

-- `add_message_line`, on a screen of `rows` rows, and the next message.
unfoldable pub add_message_line : (rows : ℕ) → ChatMessage → Viewer → Viewer
add_message_line rows m v =
    if leb rows (v.msg_row + 2)
    then record {
      last_seen = v.last_seen + 1;
      msg_row = 2;
      drawn = v.drawn ++ (cleared ∷ line 1 m ∷ []);
    }
    else record {
      last_seen = v.last_seen + 1;
      msg_row = v.msg_row + 1;
      drawn = v.drawn ++ (line v.msg_row m ∷ []);
    }

-- The inner loop of `receiver_thread`, on fuel; `none` is an access outside the messages, or the
-- end of the fuel.
unfoldable pub show_from : (fuel rows : ℕ) → List ChatMessage → Viewer → Option Viewer
show_from zero rows messages v = none
show_from (suc f) rows messages v =
    let rest = λ (m : ChatMessage). show_from f rows messages (add_message_line rows m v) in
    if ltb v.last_seen (length messages) && ltb v.last_seen max_messages
    then elim (get_elem? messages v.last_seen) [ none ↦ none | some m ↦ rest m ]
    else some v

-- `draw_names`.
unfoldable pub draw_names : ℕ → List (List ℕ) → List Drawn
draw_names i [] = []
draw_names i (name ∷ names) =
    if ltb i max_clients then user (i + 1) name ∷ draw_names (i + 1) names else []

-- A round of `receiver_thread` under the lock.
unfoldable pub receiver_round : (rows : ℕ) → Chat → Viewer → Option Viewer
receiver_round rows c v = elim (show_from (suc (length c.messages)) rows c.messages v) [
  | none ↦ none
  | some v' ↦ some (record v' { drawn = v'.drawn ++ draw_names 0 c.client_names })
]
