-- ===== src/MessageQueues/Sysv.antt =====
-- The pair `message_queues/server_sysv.c` and `message_queues/client_sysv.c`, which exchange two
-- texts through one queue of System V: each process as a function from call to call, and any
-- interleaving of both, from no queue behind the key. A queue that an earlier run left there is not
-- modelled.

pub mod Phases
pub mod Steps
pub mod Exchange
use eltex_systems.Base.{
  ℕ, ◌≡◌, ◌≢◌, Bool, true, false, List, [], ◌∷◌, ◌++◌, Option, none, some, if◌then◌else◌,
}
use eltex_systems.Base.Text.{codes, c_string}

-- The queues of the kernel: a new one, and the effect of `msgsnd` and `msgrcv` (with a type above 0)
-- on one; `msgrcv` gives `none` where it has to wait. `waiting` is what a queue holds of a type.
pub record Queues : Type 1 where
  pub Queue : Type 0
  pub created : Queue
  pub msgsnd : ℕ → List ℕ → Queue → Queue
  pub msgrcv : ℕ → Queue → Option (List ℕ × Queue)
  pub waiting : ℕ → Queue → List (List ℕ)

-- What their manual says: a new queue is empty, a message is put behind those of its type, and the
-- first message of the type that is asked for is taken out; other types are left alone.
pub record IsQueues (o : Queues) : Type 0 where
  pub empty : (t : ℕ) → o.waiting t o.created ≡ []
  pub send_own :
      (t : ℕ) (x : List ℕ) (q : o.Queue) → o.waiting t (o.msgsnd t x q) ≡ o.waiting t q ++ (x ∷ [])
  pub send_other :
      (t u : ℕ) (x : List ℕ) (q : o.Queue) → t ≢ u → o.waiting u (o.msgsnd t x q) ≡ o.waiting u q
  pub take_first :
      (t : ℕ) (x : List ℕ) (xs : List (List ℕ)) (q : o.Queue)
      → o.waiting t q ≡ x ∷ xs
      → (q' : o.Queue) × (o.msgrcv t q ≡ some (x, q'))
        × (o.waiting t q' ≡ xs)
        × ((u : ℕ) → t ≢ u → o.waiting u q' ≡ o.waiting u q)
  pub must_wait : (t : ℕ) (q : o.Queue) → o.waiting t q ≡ [] → o.msgrcv t q ≡ none

-- Where each process is: in front of which call, or behind its `return`.
pub data Server : Type 0 where
  opening sending receiving removing : Server
  returned : ℕ → Server

pub data Client : Type 0 where
  opening receiving sending : Client
  returned : ℕ → Client

-- What is printed, without the words around the texts.
pub data Line : Type 0 where
  sent received : List ℕ → Line
  reply_sent : Line  -- without the text

-- The queue behind the key, if there is one, and both processes with what they have printed.
pub record World (o : Queues) : Type 0 where
  pub queue : Option o.Queue
  pub server : Server
  pub client : Client
  pub server_lines : List Line
  pub client_lines : List Line

-- `msg.mtext` behind `strcpy`, up to its NUL, which is sent too.
abbrev pub hi : List ℕ
hi = codes "Hi!" ++ (0 ∷ [])

abbrev pub hello : List ℕ
hello = codes "Hello!" ++ (0 ∷ [])

module _ (o : Queues) where
  -- `msgctl (msgid, IPC_RMID, NULL)`, where it works and where it fails.
  abbrev pub removed : Bool → Option o.Queue → Option o.Queue
  removed true q = none
  removed false q = q

  -- `IPC_CREAT` without `IPC_EXCL`.
  abbrev pub created_or_opened : Option o.Queue → o.Queue
  created_or_opened none = o.created
  created_or_opened (some q) = q

  -- A step of the server: its next call, whether the kernel lets it succeed, and whether a removal
  -- would; `none` is where the call waits.
  unfoldable pub server_step : Bool → Bool → World o → Option (World o)
  server_step call removal w = elim w.server [
    | opening ↦ some (
        if call
        then record w { queue = some (created_or_opened w.queue); server = sending }
        else record w { server = returned 1 })
    | sending ↦ elim w.queue [
      | none ↦ some (record w { server = returned 1 })
      | some q ↦ some (
          if call
          then record w {
            queue = some (o.msgsnd 1 hi q);
            server = receiving;
            server_lines = w.server_lines ++ (sent (c_string hi) ∷ []);
          }
          else record w { queue = removed removal w.queue; server = returned 1 })
    ]
    | receiving ↦ elim w.queue [
      | none ↦ some (record w { server = returned 1 })
      | some q ↦
          if call
          then (elim (o.msgrcv 2 q) [
            | none ↦ none
            | some (text, q') ↦ some (record w {
              queue = some q';
              server = removing;
              server_lines = w.server_lines ++ (received (c_string text) ∷ []);
            })
          ])
          else some (record w { queue = removed removal w.queue; server = returned 1 })
    ]
    | removing ↦
        some (record w {
          queue = removed removal w.queue;
          server = returned (if removal then 0 else 1);
        })
    | returned code ↦ none
  ]

  -- A step of the client.
  unfoldable pub client_step : Bool → World o → Option (World o)
  client_step call w = elim w.client [
    | opening ↦ elim w.queue [
      | none ↦ some (record w { client = returned 1 })
      | some q ↦
          some (if call then record w { client = receiving } else record w { client = returned 1 })
    ]
    | receiving ↦ elim w.queue [
      | none ↦ some (record w { client = returned 1 })
      | some q ↦
          if call
          then (elim (o.msgrcv 1 q) [
            | none ↦ none
            | some (text, q') ↦ some (record w {
              queue = some q';
              client = sending;
              client_lines = w.client_lines ++ (received (c_string text) ∷ []);
            })
          ])
          else some (record w { client = returned 1 })
    ]
    | sending ↦ elim w.queue [
      | none ↦ some (record w { client = returned 1 })
      | some q ↦ some (
          if call
          then record w {
            queue = some (o.msgsnd 2 hello q);
            client = returned 0;
            client_lines = w.client_lines ++ (reply_sent ∷ []);
          }
          else record w { client = returned 1 })
    ]
    | returned code ↦ none
  ]

  -- Both before their first call, with no queue behind the key.
  abbrev pub begun : World o
  begun = record {
    queue = none;
    server = opening;
    client = opening;
    server_lines = [];
    client_lines = [];
  }

  -- What both come to, in any interleaving, with any failures of their calls.
  pub data Reach : World o → Type 0 where
    start : Reach begun
    server_moves :
        (call removal : Bool) {w w' : World o}
        → Reach w
        → server_step call removal w ≡ some w'
        → Reach w'
    client_moves :
        (call : Bool) {w w' : World o} → Reach w → client_step call w ≡ some w' → Reach w'
