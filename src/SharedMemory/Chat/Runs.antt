-- ===== src/SharedMemory/Chat/Runs.antt =====
-- The runs of the chat: any number of clients in any interleaving, seen by one of them.
use eltex_systems.Base.{
  ℕ, suc, ◌≤◌, ◌≡◌, refl, ap, ◌∙◌, List, ◌++◌, some, arith, length, append-nil, take_all,
}
use eltex_systems.SharedMemory.Chat.{
  max_clients, max_messages, ChatMessage, Chat, server_start, server_stop, join, sender_round,
  Viewer, new_viewer, draw_names, receiver_round,
}
use eltex_systems.SharedMemory.Chat.Views.{
  shown, shown-append, shown-draw_names, IsAt, show_from-IsAt,
}

-- A step of any client, of the server, or of the viewer's receiver.
pub data Step : Chat → Viewer → Chat → Viewer → Type 0 where
  joins : (c : Chat) (v : Viewer) (name : List ℕ) → Step c v (join name c) v
  sends : (c : Chat) (v : Viewer) (name buf : List ℕ) → Step c v (sender_round name buf c).1 v
  stops : (c : Chat) (v : Viewer) → Step c v (server_stop c) v
  receives :
      (c : Chat) (v v' : Viewer) (rows : ℕ) → receiver_round rows c v ≡ some v' → Step c v c v'

pub data Reach : Chat → Viewer → Type 0 where
  here : Reach server_start new_viewer
  next : {c d : Chat} {v w : Viewer} → Reach c v → Step c v d w → Reach d w

pub record IsGood (c : Chat) (v : Viewer) : Type 0 where
  pub few_messages : length c.messages ≤ max_messages
  pub few_clients : length c.client_names ≤ max_clients
  pub at : IsAt c.messages v

-- One segment comes after another: messages are only added behind those that are there.
pub record Grows (c d : Chat) : Type 0 where
  pub added : List ChatMessage
  pub messages : d.messages ≡ c.messages ++ added
  pub few : length c.messages ≤ max_messages → length d.messages ≤ max_messages
  pub clients : length c.client_names ≤ max_clients → length d.client_names ≤ max_clients

-- From a viewer that has shown the first `last_seen` of at most 100 messages, a round of the
-- receiver ends, reads inside the array of messages, and leaves every message shown once, in the
-- order in which they were sent.
pub receiver_round-shows :
    (rows : ℕ) (c : Chat) (v : Viewer)
    → length c.messages ≤ max_messages
    → IsAt c.messages v
    → (v' : Viewer) × (receiver_round rows c v ≡ some v')
      × IsAt c.messages v'
      × (shown v'.drawn ≡ c.messages)
unfolding receiver_round
receiver_round-shows rows c v few at =
    let (v', run, at', all_seen) =
      show_from-IsAt (suc (length c.messages)) rows c.messages v few at (omega arith) in
    let same : shown (v'.drawn ++ draw_names 0 c.client_names) ≡ shown v'.drawn =
      shown-append v'.drawn (draw_names 0 c.client_names)
      ∙ ap (λ r. shown v'.drawn ++ r) (shown-draw_names 0 c.client_names)
      ∙ append-nil (shown v'.drawn) in
    (
      record v' { drawn = v'.drawn ++ draw_names 0 c.client_names },
      rw (receiver_round, run) refl,
      record { bound = at'.bound; texts = same ∙ at'.texts },
      same ∙ at'.texts ∙ take_all v'.last_seen c.messages (omega (arith, all_seen)),
    )
