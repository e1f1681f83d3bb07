-- ===== src/Tests/ChatClient.antt =====
-- Runs of the client of the chat over message queues.
use eltex_systems.Base.{ℕ, ◌≡◌, refl, true, false, List, [], ◌∷◌, some, arith, map, if◌then◌else◌}
use eltex_systems.Base.Text.{codes, same_bytes}
use eltex_systems.MessageQueues.ChatServer.{ChatMsg, Server}
use eltex_systems.MessageQueues.ChatServer.Deliveries.{deliver}
use eltex_systems.MessageQueues.ChatClient.{
  Typed, Given, chat, main, receiver_thread, shown, text_msg,
}
use eltex_systems.MessageQueues.ChatClient.Release.{held_after, nothing, all_ok, main-releases}
use eltex_systems.MessageQueues.ChatClient.Talk.{
  arriving, serve, lines_sent, said_by, Shuffle, end, left, right, IsText, chat-shown,
}
use eltex_systems.MessageQueues.ChatClient.Screen.{
  Threads, reading, waiting, pending, of_main, lock_main, received, start, later, stay, still,
  Waits-silent,
}

abbrev typed : List Typed
typed =
    record { line = codes "hello"; send_ok = true }
    ∷ record { line = codes "lost"; send_ok = false }
    ∷ record { line = codes "bye"; send_ok = true }
    ∷ record { line = codes "/quit"; send_ok = true }
    ∷ record { line = codes "late"; send_ok = true }
    ∷ []

abbrev two_clients : Server
two_clients = record {
  clients =
      record { name = codes "bob"; qname = codes "/chat_7"; q = some 4 }
      ∷ record { name = codes "ann"; qname = codes "/chat_9"; q = some 5 }
      ∷ [];
  history = [];
  server_q = some 3;
}

abbrev of_bob : ChatMsg
of_bob = text_msg (codes "bob") (codes "hi")

of_bob-IsText : IsText of_bob
unfolding text_msg
of_bob-IsText = refl

-- The text of bob arrives between the two of ann.
abbrev mixed : List ChatMsg
mixed = text_msg (codes "ann") (codes "hello") ∷ of_bob ∷ text_msg (codes "ann") (codes "bye") ∷ []

typed-mixed : Shuffle (arriving (chat (codes "ann") typed).1) (of_bob ∷ []) mixed
unfolding chat same_bytes
typed-mixed =
    left (text_msg (codes "ann") (codes "hello"))
      (right of_bob (left (text_msg (codes "ann") (codes "bye")) end))

chat-shown_example :
    Shuffle
      (map (said_by (codes "ann")) (lines_sent typed))
      (map shown (of_bob ∷ []))
      (receiver_thread (map some (deliver 4 [] (serve mixed two_clients).1)))
chat-shown_example =
    chat-shown 4 (codes "ann") typed (of_bob ∷ []) mixed two_clients refl (omega arith)
      (ground arith) (of_bob-IsText, tt) typed-mixed

abbrev no_server : Given
no_server = record {
  name = some (codes "ann");
  pid = 9;
  own_queue = true;
  server_queue = false;
  join_sent = true;
  thread = true;
  typed = [];
}

main_no_server : (main no_server).0 ≡ some 1
unfolding main
main_no_server = refl

main-releases_example :
    (held_after (main no_server).1 nothing ≡ nothing)
    × ◌≡◌ {A = ℕ} 1 (if all_ok no_server then 0 else 1)
main-releases_example = main-releases no_server 1 main_no_server

abbrev hello : ChatMsg
hello = record { type = b'M'; name = codes "bob"; qname = []; text = codes "hello" }

abbrev at_prompt : Threads
at_prompt = record { main = reading; receiver = waiting; lock = of_main; printed = [] }

abbrev message_there : Threads
message_there = record { main = reading; receiver = pending hello; lock = of_main; printed = [] }

Waits-silent_example : (message_there.printed ≡ at_prompt.printed) × (message_there.lock ≡ of_main)
Waits-silent_example =
    Waits-silent (later start (lock_main waiting [])) refl
      (still (stay at_prompt) (received reading of_main [] hello) refl)
