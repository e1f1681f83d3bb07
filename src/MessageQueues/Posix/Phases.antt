-- ===== src/MessageQueues/Posix/Phases.antt =====
-- How far the exchange of `server_posix.c` and `client_posix.c` is, in every interleaving.
use eltex_systems.Base.{◌≡◌, Bool, true, false, List, [], ◌∷◌, Option, none, some}
use eltex_systems.Base.Text.{codes}
use eltex_systems.MessageQueues.Posix.{
  Queues, Server, Client, opening, sending, receiving, closing, returned, Line, sent, received,
  reply_sent, World, hi, hello,
}

-- A client that has not taken a message.
pub data IsEarly : Client → Type 0 where
  first : IsEarly opening
  second : IsEarly receiving
  third : IsEarly (returned 1)

-- A client that has not opened the queue.
pub data IsAway : Client → Type 0 where
  not_begun : IsAway opening
  sent_away : IsAway (returned 1)

-- A server behind its second call of the queue.
pub data IsLate : Server → Type 0 where
  before_end : IsLate closing
  at_end : IsLate (returned 0)

module _ (o : Queues) where
  -- How far the exchange is: nothing is said once the server has failed.
  pub data Phase : World o → Type 0 where
    before :
        (c : Client) (q : o.Queue)
        → IsAway c
        → Phase (record {
          queue = q;
          named = false;
          server = opening;
          client = c;
          server_lines = [];
          client_lines = [];
        })
    made :
        (c : Client) (q : o.Queue)
        → IsEarly c
        → o.waiting q ≡ []
        → Phase (record {
          queue = q;
          named = true;
          server = sending;
          client = c;
          server_lines = [];
          client_lines = [];
        })
    offered :
        (c : Client) (q : o.Queue)
        → IsEarly c
        → o.waiting q ≡ hi ∷ []
        → Phase (record {
          queue = q;
          named = true;
          server = receiving;
          client = c;
          server_lines = sent (codes "Hi!") ∷ [];
          client_lines = [];
        })
    taken_back :
        (s : Server) (c : Client) (q : o.Queue) (named : Bool)
        → IsLate s
        → IsEarly c
        → o.waiting q ≡ []
        → Phase (record {
          queue = q;
          named = named;
          server = s;
          client = c;
          server_lines = sent (codes "Hi!") ∷ received (codes "Hi!") ∷ [];
          client_lines = [];
        })
    taken :
        (q : o.Queue)
        → o.waiting q ≡ []
        → Phase (record {
          queue = q;
          named = true;
          server = receiving;
          client = sending;
          server_lines = sent (codes "Hi!") ∷ [];
          client_lines = received (codes "Hi!") ∷ [];
        })
    unanswered :
        (q : o.Queue)
        → o.waiting q ≡ []
        → Phase (record {
          queue = q;
          named = true;
          server = receiving;
          client = returned 1;
          server_lines = sent (codes "Hi!") ∷ [];
          client_lines = received (codes "Hi!") ∷ [];
        })
    answered :
        (q : o.Queue)
        → o.waiting q ≡ hello ∷ []
        → Phase (record {
          queue = q;
          named = true;
          server = receiving;
          client = returned 0;
          server_lines = sent (codes "Hi!") ∷ [];
          client_lines = received (codes "Hi!") ∷ reply_sent ∷ [];
        })
    exchanged :
        (s : Server) (q : o.Queue) (named : Bool)
        → IsLate s
        → Phase (record {
          queue = q;
          named = named;
          server = s;
          client = returned 0;
          server_lines = sent (codes "Hi!") ∷ received (codes "Hello!") ∷ [];
          client_lines = received (codes "Hi!") ∷ reply_sent ∷ [];
        })
    failed :
        (q : o.Queue) (named : Bool) (c : Client) (s k : List Line)
        → Phase (record {
          queue = q;
          named = named;
          server = returned 1;
          client = c;
          server_lines = s;
          client_lines = k;
        })

  abbrev pub After : Option (World o) → Type 0
  After none = Unit
  After (some w) = Phase w
