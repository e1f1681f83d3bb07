-- ===== src/MessageQueues/Posix.antt =====
-- The pair `message_queues/server_posix.c` and `message_queues/client_posix.c`: one queue without
-- types, through which both texts go. Each process is a function from call to call; any
-- interleaving of both, from no queue behind the name. A queue that an earlier run left there is not
-- modelled.

pub mod Phases
pub mod Race
pub mod Outcome
use eltex_systems.Base.{
  ℕ, ◌<◌, ◌≡◌, ◌&&◌, Bool, true, false, List, [], ◌∷◌, ◌++◌, Option, none, some, if◌then◌else◌,
  length,
}
use eltex_systems.Base.Text.{codes, c_string}

-- The queues of the kernel, with `mq_send` and `mq_receive` on one; `mq_receive` gives `none` where
-- it has to wait. `waiting` is what a queue holds.
pub record Queues : Type 1 where
  pub Queue : Type 0
  pub created : Queue
  pub mq_send : List ℕ → Queue → Queue
  pub mq_receive : Queue → Option (List ℕ × Queue)
  pub waiting : Queue → List (List ℕ)

-- What their manual says, for messages of one priority and `mq_maxmsg` 10.
pub record IsQueues (o : Queues) : Type 0 where
  pub empty : o.waiting o.created ≡ []
  pub send_last :
      (x : List ℕ) (q : o.Queue)
      → length (o.waiting q) < 10
      → o.waiting (o.mq_send x q) ≡ o.waiting q ++ (x ∷ [])
  pub take_first :
      (x : List ℕ) (xs : List (List ℕ)) (q : o.Queue)
      → o.waiting q ≡ x ∷ xs
      → (q' : o.Queue) × (o.mq_receive q ≡ some (x, q')) × (o.waiting q' ≡ xs)
  pub must_wait : (q : o.Queue) → o.waiting q ≡ [] → o.mq_receive q ≡ none

-- Where each process is: in front of which call, or behind its `return`.
pub data Server : Type 0 where
  opening sending receiving closing : Server
  returned : ℕ → Server

pub data Client : Type 0 where
  opening receiving sending : Client
  returned : ℕ → Client

pub data Line : Type 0 where
  sent received : List ℕ → Line
  reply_sent : Line  -- without the text

-- The queue that the server makes (nobody uses it before), whether the name leads to it, and both
-- processes with what they have printed.
pub record World (o : Queues) : Type 0 where
  pub queue : o.Queue
  pub named : Bool
  pub server : Server
  pub client : Client
  pub server_lines : List Line
  pub client_lines : List Line

-- `buf` up to its NUL, which is sent too.
abbrev pub hi : List ℕ
hi = codes "Hi!" ++ (0 ∷ [])

abbrev pub hello : List ℕ
hello = codes "Hello!" ++ (0 ∷ [])

module _ (o : Queues) where
  -- A step of the server: its next call, and whether the kernel lets it succeed; `none` is where the
  -- call waits. The name is unlinked in front of `mq_open` and in front of every later `return`.
  unfoldable pub server_step : Bool → World o → Option (World o)
  server_step call w = elim w.server [
    | opening ↦ some (
        if call
        then record w { queue = o.created; named = true; server = sending }
        else record w { named = false; server = returned 1 })
    | sending ↦ some (
        if call
        then record w {
          queue = o.mq_send hi w.queue;
          server = receiving;
          server_lines = w.server_lines ++ (sent (c_string hi) ∷ []);
        }
        else record w { named = false; server = returned 1 })
    | receiving ↦
        if call
        then (elim (o.mq_receive w.queue) [
          | none ↦ none
          | some (text, q) ↦ some (record w {
            queue = q;
            server = closing;
            server_lines = w.server_lines ++ (received (c_string text) ∷ []);
          })
        ])
        else some (record w { named = false; server = returned 1 })
    | closing ↦ some (record w { named = false; server = returned 0 })
    | returned code ↦ none
  ]

  -- A step of the client; a queue that it has opened stays after its name is unlinked.
  unfoldable pub client_step : Bool → World o → Option (World o)
  client_step call w = elim w.client [
    | opening ↦ some (
        if w.named && call
        then record w { client = receiving }
        else record w { client = returned 1 })
    | receiving ↦
        if call
        then (elim (o.mq_receive w.queue) [
          | none ↦ none
          | some (text, q) ↦ some (record w {
            queue = q;
            client = sending;
            client_lines = w.client_lines ++ (received (c_string text) ∷ []);
          })
        ])
        else some (record w { client = returned 1 })
    | sending ↦ some (
        if call
        then record w {
          queue = o.mq_send hello w.queue;
          client = returned 0;
          client_lines = w.client_lines ++ (reply_sent ∷ []);
        }
        else record w { client = returned 1 })
    | returned code ↦ none
  ]

  abbrev pub begun : World o
  begun = record {
    queue = o.created;
    named = false;
    server = opening;
    client = opening;
    server_lines = [];
    client_lines = [];
  }

  -- What both come to, in any interleaving, with any failures of their calls.
  pub data Reach : World o → Type 0 where
    start : Reach begun
    server_moves :
        (call : Bool) {w w' : World o} → Reach w → server_step call w ≡ some w' → Reach w'
    client_moves :
        (call : Bool) {w w' : World o} → Reach w → client_step call w ≡ some w' → Reach w'
