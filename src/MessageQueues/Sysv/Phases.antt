-- ===== src/MessageQueues/Sysv/Phases.antt =====
-- How far the exchange of `server_sysv.c` and `client_sysv.c` is, in every interleaving.
use eltex_systems.Base.{ℕ, ◌≡◌, List, [], ◌∷◌, Option, none, some}
use eltex_systems.Base.Text.{codes}
use eltex_systems.MessageQueues.Sysv.{
  Queues, Client, opening, sending, receiving, removing, returned, Line, sent, received, reply_sent,
  World, hi, hello,
}

-- A client that has not taken its message.
pub data IsEarly : Client → Type 0 where
  first : IsEarly opening
  second : IsEarly receiving
  third : IsEarly (returned 1)

module _ (o : Queues) where
  -- The queue holds these texts for the client, and these for the server.
  pub record Holds (q : o.Queue) (for_client for_server : List (List ℕ)) : Type 0 where
    pub for_client_eq : o.waiting 1 q ≡ for_client
    pub for_server_eq : o.waiting 2 q ≡ for_server

  -- How far the exchange is, for each place of the server; nothing is said once it has failed.
  pub data Phase : World o → Type 0 where
    apart :
        (c : Client)
        → IsEarly c
        → Phase (record {
          queue = none;
          server = opening;
          client = c;
          server_lines = [];
          client_lines = [];
        })
    made :
        (c : Client) (q : o.Queue)
        → IsEarly c
        → Holds q [] []
        → Phase (record {
          queue = some q;
          server = sending;
          client = c;
          server_lines = [];
          client_lines = [];
        })
    offered :
        (c : Client) (q : o.Queue)
        → IsEarly c
        → Holds q (hi ∷ []) []
        → Phase (record {
          queue = some q;
          server = receiving;
          client = c;
          server_lines = sent (codes "Hi!") ∷ [];
          client_lines = [];
        })
    taken :
        (q : o.Queue)
        → Holds q [] []
        → Phase (record {
          queue = some q;
          server = receiving;
          client = sending;
          server_lines = sent (codes "Hi!") ∷ [];
          client_lines = received (codes "Hi!") ∷ [];
        })
    unanswered :
        (q : o.Queue)
        → Holds q [] []
        → Phase (record {
          queue = some q;
          server = receiving;
          client = returned 1;
          server_lines = sent (codes "Hi!") ∷ [];
          client_lines = received (codes "Hi!") ∷ [];
        })
    answered :
        (q : o.Queue)
        → Holds q [] (hello ∷ [])
        → Phase (record {
          queue = some q;
          server = receiving;
          client = returned 0;
          server_lines = sent (codes "Hi!") ∷ [];
          client_lines = received (codes "Hi!") ∷ reply_sent ∷ [];
        })
    done :
        (q : o.Queue)
        → Phase (record {
          queue = some q;
          server = removing;
          client = returned 0;
          server_lines = sent (codes "Hi!") ∷ received (codes "Hello!") ∷ [];
          client_lines = received (codes "Hi!") ∷ reply_sent ∷ [];
        })
    over : Phase (record {
      queue = none;
      server = returned 0;
      client = returned 0;
      server_lines = sent (codes "Hi!") ∷ received (codes "Hello!") ∷ [];
      client_lines = received (codes "Hi!") ∷ reply_sent ∷ [];
    })
    failed :
        (q : Option o.Queue) (c : Client) (s k : List Line)
        → Phase (record {
          queue = q;
          server = returned 1;
          client = c;
          server_lines = s;
          client_lines = k;
        })

  abbrev pub After : Option (World o) → Type 0
  After none = Unit
  After (some w) = Phase w
