-- ===== src/Tests/Queues.antt =====
-- The demonstrations of message queues over a queue that is kept as lists of texts.
use eltex_systems.Base.{
  ℕ, ◌≡◌, refl, ap, true, false, List, [], ◌∷◌, ◌++◌, Option, none, some, arith, ◌==◌,
  if◌then◌else◌,
}
use eltex_systems.Base.Text.{codes, c_string}
use eltex_systems.MessageQueues.Sysv
use eltex_systems.MessageQueues.Sysv.Exchange.{answered_in_two}
use eltex_systems.MessageQueues.Posix
use eltex_systems.MessageQueues.Posix.Outcome.{takes_own}

abbrev take_front : List (List ℕ) → Option (List ℕ × List (List ℕ))
take_front [] = none
take_front (x ∷ xs) = some (x, xs)

-- One list for each type.
abbrev Typed : Type 0
Typed = ℕ → List (List ℕ)

abbrev put : ℕ → List ℕ → Typed → Typed
put t x q u = if t == u then q u ++ (x ∷ []) else q u

abbrev left_by : ℕ → Typed → List (List ℕ) → Typed
left_by t q xs u = if t == u then xs else q u

abbrev taking : ℕ → Typed → List (List ℕ) → Option (List ℕ × Typed)
taking t q [] = none
taking t q (x ∷ xs) = some (x, left_by t q xs)

abbrev typed : Sysv.Queues
typed = record {
  Queue = Typed;
  created = λ _. [];
  msgsnd = put;
  msgrcv = λ t q. taking t q (q t);
  waiting = λ t q. q t;
}

typed-IsQueues : Sysv.IsQueues typed
typed-IsQueues = record {
  empty = λ t. refl;
  send_own = λ t x q. ground arith;
  send_other = λ t u x q h. ground arith;
  take_first =
      λ t x xs q h. (left_by t q xs, ap (taking t q) h, ground arith, λ u ne. ground arith);
  must_wait = λ t q h. ap (taking t q) h;
}

abbrev plain : Posix.Queues
plain = record {
  Queue = List (List ℕ);
  created = [];
  mq_send = λ x q. q ++ (x ∷ []);
  mq_receive = take_front;
  waiting = λ q. q;
}

plain-IsQueues : Posix.IsQueues plain
plain-IsQueues = record {
  empty = refl;
  send_last = λ x q h. refl;
  take_first = λ x xs q h. (xs, simp h, refl);
  must_wait = λ q h. simp h;
}

abbrev waiting_server : Sysv.World typed
waiting_server = record {
  queue = some (put 2 Sysv.hello (left_by 1 (put 1 Sysv.hi (λ _. [])) []));
  server = Sysv.receiving;
  client = Sysv.returned 0;
  server_lines = Sysv.sent (codes "Hi!") ∷ [];
  client_lines = Sysv.received (codes "Hi!") ∷ Sysv.reply_sent ∷ [];
}

abbrev exchanged : Sysv.World typed
exchanged = record {
  queue = none;
  server = Sysv.returned 0;
  client = Sysv.returned 0;
  server_lines = Sysv.sent (codes "Hi!") ∷ Sysv.received (codes "Hello!") ∷ [];
  client_lines = Sysv.received (codes "Hi!") ∷ Sysv.reply_sent ∷ [];
}

-- The server opens the queue, the client does; the server sends; the client receives and sends.
waiting_server-Reach : Sysv.Reach typed waiting_server
unfolding Sysv.server_step Sysv.client_step c_string
waiting_server-Reach =
    let made = Sysv.server_moves true true Sysv.start refl in
    let opened = Sysv.client_moves true made refl in
    let offered = Sysv.server_moves true true opened refl in
    let taken = Sysv.client_moves true offered refl in Sysv.client_moves true taken refl

answered_in_two_example :
    (u : Sysv.World typed) × (v : Sysv.World typed) × (Sysv.server_step typed true true
        waiting_server
      ≡ some u)
    × (Sysv.server_step typed true true u ≡ some v)
    × (v.server ≡ Sysv.returned 0)
    × (v.server_lines ≡ Sysv.sent (codes "Hi!") ∷ Sysv.received (codes "Hello!") ∷ [])
    × (v.queue ≡ none)
answered_in_two_example = answered_in_two typed typed-IsQueues waiting_server-Reach refl refl

abbrev alone : Posix.World plain
alone = record {
  queue = Posix.hi ∷ [];
  named = true;
  server = Posix.receiving;
  client = Posix.opening;
  server_lines = Posix.sent (codes "Hi!") ∷ [];
  client_lines = [];
}

alone-Reach : Posix.Reach plain alone
unfolding Posix.server_step c_string
alone-Reach =
    let made = Posix.server_moves true Posix.start refl in Posix.server_moves true made refl

takes_own_example :
    (w' : Posix.World plain) × (Posix.server_step plain true alone ≡ some w')
    × (w'.server_lines ≡ Posix.sent (codes "Hi!") ∷ Posix.received (codes "Hi!") ∷ [])
takes_own_example = takes_own plain plain-IsQueues alone-Reach refl refl

abbrev ended_alone : Posix.World plain
ended_alone = record {
  queue = [];
  named = false;
  server = Posix.returned 0;
  client = Posix.opening;
  server_lines = Posix.sent (codes "Hi!") ∷ Posix.received (codes "Hi!") ∷ [];
  client_lines = [];
}
