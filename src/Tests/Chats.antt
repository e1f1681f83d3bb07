-- ===== src/Tests/Chats.antt =====
-- A chat over message queues with one client, and a chat in shared memory with one message.
use eltex_systems.Base.{ℕ, ◌≤◌, ◌≡◌, refl, List, [], ◌++◌, none, some, arith, length}
use eltex_systems.Base.Text.{codes}
use eltex_systems.MessageQueues.ChatServer.{
  ChatMsg, Server, Effect, started, receive, handle_join, handle_message, send_to_all, replay,
  remember,
}
use eltex_systems.MessageQueues.ChatServer.Deliveries.{deliver, held, Reach, here, next, HasAll}
use eltex_systems.MessageQueues.ChatServer.Reachable.{Reach-served}
use eltex_systems.SharedMemory.Chat.{
  Chat, Viewer, server_start, new_viewer, join, append_message, receiver_round,
}
use eltex_systems.SharedMemory.Chat.Views.{shown, IsAt}
use eltex_systems.SharedMemory.Chat.Runs.{Step, sends, receiver_round-shows}
use eltex_systems.SharedMemory.Chat.Runs

abbrev ann_joins : ChatMsg
ann_joins = record { type = 74; name = codes "ann"; qname = codes "/ann"; text = [] }

abbrev ann_says : ChatMsg
ann_says = record { type = 77; name = codes "ann"; qname = codes "/ann"; text = codes "hi" }

abbrev joined_server : Server
joined_server = (receive (some 4) (some ann_joins) (started 3)).0

abbrev last_server : Server
last_server = (receive none (some ann_says) joined_server).0

abbrev effects : List Effect
effects =
    []
    ++ (receive (some 4) (some ann_joins) (started 3)).1
    ++ (receive none (some ann_says) joined_server).1

last_server-Reach : Reach last_server effects
last_server-Reach = next none (some ann_says) (next (some 4) (some ann_joins) (here 3) refl) tt

Reach-served_example :
    (length last_server.clients ≤ 10)
    × (length last_server.history ≤ 100)
    × ((q : ℕ) → held q last_server.clients ≤ 1)
    × ((q : ℕ) → held q last_server.clients ≡ 1 → HasAll last_server.history (deliver q [] effects))
Reach-served_example = Reach-served last_server-Reach

-- The client is there, and was sent both messages.
ann_has_both :
    (held 4 last_server.clients ≡ 1)
    × (deliver 4 [] effects ≡ last_server.history)
    × (length last_server.history ≡ 2)
unfolding receive handle_join handle_message send_to_all replay remember deliver
ann_has_both = (refl, refl, refl)

abbrev chat : Chat
chat = join (codes "bob") server_start

one_message : length chat.messages ≡ 1
unfolding join append_message
one_message = refl

new_viewer-IsAt : IsAt chat.messages new_viewer
unfolding shown
new_viewer-IsAt = record { bound = omega arith; texts = refl }

receiver_round-shows_example :
    (v' : Viewer) × (receiver_round 24 chat new_viewer ≡ some v')
    × IsAt chat.messages v'
    × (shown v'.drawn ≡ chat.messages)
receiver_round-shows_example =
    receiver_round-shows 24 chat new_viewer (omega (arith, one_message)) new_viewer-IsAt
