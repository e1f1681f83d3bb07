-- ===== src/MessageQueues/ChatServer/Reachable.antt =====
-- The chat over all its runs: the bounds of its tables, and what its clients have received.
use eltex_systems.Base.{
  ℕ, ◌≤◌, ◌≡◌, refl, false, List, [], ◌∷◌, Option, none, some, arith, ltb, ◌==◌, length,
  length-append, Bool-cases, inl, inr,
}
use eltex_systems.MessageQueues.ChatServer.{
  max_clients, max_history, ChatMsg, Server, Effect, opened, send, close, joined, rejection,
  handle_join, receive,
}
use eltex_systems.MessageQueues.ChatServer.Deliveries.{
  deliver, held, IsFresh, Reach, here, next, HasAll, IsServed, deliver-append, length-remember,
  handle_message-IsServed, newcomer, join-HasAll, join-once,
}

deliver_nothing :
    (s : Server) (box : ℕ → List ChatMsg) → IsServed s box → IsServed s (λ q. deliver q (box q) [])
unfolding deliver
deliver_nothing s box served = record {
  clients_bound = served.clients_bound;
  history_bound = served.history_bound;
  once = served.once;
  has_all = served.has_all;
}

deliver_rejection :
    (q tmp : ℕ) (acc : List ChatMsg) (m : ChatMsg) (s : Server)
    → held tmp s.clients ≡ 0
    → held q s.clients ≡ 1
    → deliver q acc (opened tmp ∷ send tmp m ∷ close tmp ∷ []) ≡ acc
unfolding deliver
deliver_rejection q tmp acc m s fresh h =
    let differs : (tmp == q) ≡ false = elim (Bool-cases (tmp == q)) [
      | inr off ↦ off
      | inl hit ↦
          let same : q ≡ tmp = ground arith in
          absurd (let e : held q s.clients ≡ 0 = rw same fresh in omega (arith, e, h))
    ] in
    rw (deliver, differs) refl

handle_join-IsServed :
    (s : Server) (box : ℕ → List ChatMsg) (queue : Option ℕ) (msg : ChatMsg)
    → IsServed s box
    → IsFresh queue s
    → IsServed (handle_join queue msg s).0 (λ q. deliver q (box q) (handle_join queue msg s).1)
unfolding handle_join
handle_join-IsServed s box none msg served fresh =
    elim (Bool-cases (ltb (length s.clients) max_clients)) [
      | inl room ↦ simp room (deliver_nothing s box served)
      | inr full ↦ simp full (deliver_nothing s box served)
    ]
handle_join-IsServed s box (some q) msg served fresh =
    elim (Bool-cases (ltb (length s.clients) max_clients)) [
      | inl room ↦ simp room (record {
        clients_bound =
            ground (arith, length-append s.clients (newcomer s box served msg q fresh ∷ []));
        history_bound = length-remember (joined msg) s.history served.history_bound;
        once = join-once s box served msg q fresh;
        has_all = join-HasAll s box served msg q fresh;
      })
      | inr full ↦ simp full (record {
        clients_bound = served.clients_bound;
        history_bound = served.history_bound;
        once = served.once;
        has_all = λ e h.
            rw (deliver_rejection e q (box e) (rejection msg) s fresh h) (served.has_all e h);
      })
    ]

receive-IsServed :
    (s : Server) (box : ℕ → List ChatMsg) (queue : Option ℕ) (msg : Option ChatMsg)
    → IsServed s box
    → IsFresh queue s
    → IsServed (receive queue msg s).0 (λ q. deliver q (box q) (receive queue msg s).1)
unfolding receive
receive-IsServed s box queue none served fresh = deliver_nothing s box served
receive-IsServed s box queue (some msg) served fresh = elim (Bool-cases (msg.type == b'J')) [
  | inl join ↦ simp join (handle_join-IsServed s box queue msg served fresh)
  | inr not_join ↦ elim (Bool-cases (msg.type == b'M')) [
    | inl text ↦ simp (not_join, text) (handle_message-IsServed s box served msg)
    | inr neither ↦ simp (not_join, neither) (deliver_nothing s box served)
  ]
]

Reach-IsServed : {s : Server} {es : List Effect} → Reach s es → IsServed s (λ q. deliver q [] es)
unfolding deliver
Reach-IsServed (here q) = record {
  clients_bound = omega arith;
  history_bound = omega arith;
  once = λ e. omega arith;
  has_all = λ e h. absurd (omega arith);
}
Reach-IsServed (next {s = s} {es = es} queue msg r fresh) =
    let step = receive-IsServed s (λ q. deliver q [] es) queue msg (Reach-IsServed r) fresh in
    record {
      clients_bound = step.clients_bound;
      history_bound = step.history_bound;
      once = step.once;
      has_all = λ q h. rw (deliver-append q [] es (receive queue msg s).1) (step.has_all q h);
    }

-- In every state of the server that any messages lead to, when `mq_open` returns only descriptors
-- that no client has: there are at most 10 clients and 100 messages of history, no two clients
-- share a descriptor, and a client that joined was sent, in order, the whole history and then
-- only other messages, none while the history has room.
pub Reach-served :
    {s : Server} {es : List Effect}
    → Reach s es
    → (length s.clients ≤ max_clients)
      × (length s.history ≤ max_history)
      × ((q : ℕ) → held q s.clients ≤ 1)
      × ((q : ℕ) → held q s.clients ≡ 1 → HasAll s.history (deliver q [] es))
Reach-served r =
    let served = Reach-IsServed r in
    (served.clients_bound, served.history_bound, served.once, served.has_all)
