-- ===== src/MessageQueues/ChatServer/Deliveries.antt =====
-- What the clients of the chat receive.
use eltex_systems.Base.{
  ℕ, ◌+◌, ◌≤◌, ◌<◌, ◌≡◌, ◌≢◌, refl, ap, sym, ◌∙◌, true, false, List, [], ◌∷◌, ◌++◌, Option, none,
  some, arith, ltb, ◌==◌, if◌then◌else◌, length, length-append, append_assoc, append-nil,
  Bool-cases, inl, inr,
}
use eltex_systems.MessageQueues.ChatServer.{
  max_clients, max_history, ChatMsg, ClientInfo, Server, Effect, opened, send, close, unlink,
  send_to_all, replay, remember, joined, handle_message, receive, started,
}

-- The messages sent to a descriptor since it was last opened, after those in `acc`.
unfoldable pub deliver : ℕ → List ChatMsg → List Effect → List ChatMsg
deliver q acc [] = acc
deliver q acc (opened e ∷ es) = deliver q (if e == q then [] else acc) es
deliver q acc (send e m ∷ es) = deliver q (if e == q then acc ++ (m ∷ []) else acc) es
deliver q acc (close e ∷ es) = deliver q acc es
deliver q acc (unlink ∷ es) = deliver q acc es

abbrev pub q_is : ℕ → Option ℕ → ℕ
q_is q none = 0
q_is q (some e) = if e == q then 1 else 0

-- How many clients have the queue.
abbrev pub held : ℕ → List ClientInfo → ℕ
held q [] = 0
held q (c ∷ cs) = q_is q c.q + held q cs

-- `mq_open` returns a descriptor that is not open: no client has it.
abbrev pub IsFresh : Option ℕ → Server → Type 0
IsFresh none s = Unit
IsFresh (some q) s = held q s.clients ≡ 0

-- The states of the server, with all that it did, under any messages.
pub data Reach : Server → List Effect → Type 0 where
  here : (q : ℕ) → Reach (started q) []
  next :
      {s : Server} {es : List Effect} (queue : Option ℕ) (msg : Option ChatMsg)
      → Reach s es
      → IsFresh queue s
      → Reach (receive queue msg s).0 (es ++ (receive queue msg s).1)

-- A client has the history and perhaps more; no more while the history is not full.
pub record HasAll (history box : List ChatMsg) : Type 0 where
  pub more : List ChatMsg
  pub split : box ≡ history ++ more
  pub exact : length history < max_history → more ≡ []

pub record IsServed (s : Server) (box : ℕ → List ChatMsg) : Type 0 where
  pub clients_bound : length s.clients ≤ max_clients
  pub history_bound : length s.history ≤ max_history
  pub once : (q : ℕ) → held q s.clients ≤ 1
  pub has_all : (q : ℕ) → held q s.clients ≡ 1 → HasAll s.history (box q)

pub deliver-append :
    (q : ℕ) (acc : List ChatMsg) (a b : List Effect)
    → deliver q acc (a ++ b) ≡ deliver q (deliver q acc a) b
unfolding deliver
deliver-append q acc [] b = refl
deliver-append q acc (opened e ∷ a) b = deliver-append q (if e == q then [] else acc) a b
deliver-append q acc (send e m ∷ a) b =
    deliver-append q (if e == q then acc ++ (m ∷ []) else acc) a b
deliver-append q acc (close e ∷ a) b = deliver-append q acc a b
deliver-append q acc (unlink ∷ a) b = deliver-append q acc a b

held-append : (q : ℕ) (a b : List ClientInfo) → held q (a ++ b) ≡ held q a + held q b
held-append q [] b = omega arith
held-append q (c ∷ a) b = omega (arith, held-append q a b)

to_nobody :
    (q : ℕ) (acc : List ChatMsg) (m : ChatMsg) (cs : List ClientInfo)
    → held q cs ≡ 0
    → deliver q acc (send_to_all m cs) ≡ acc
unfolding deliver send_to_all
to_nobody q acc m [] h = refl
to_nobody q acc m (c ∷ cs) h = ground (arith, to_nobody q acc m cs)

pub to_one :
    (q : ℕ) (acc : List ChatMsg) (m : ChatMsg) (cs : List ClientInfo)
    → held q cs ≡ 1
    → deliver q acc (send_to_all m cs) ≡ acc ++ (m ∷ [])
unfolding deliver send_to_all
to_one q acc m [] h = absurd (omega arith)
to_one q acc m (c ∷ cs) h = ground (arith, to_one q acc m cs, to_nobody q (acc ++ (m ∷ [])) m cs)

replay_own : (q : ℕ) (acc ms : List ChatMsg) → deliver q acc (replay q ms) ≡ acc ++ ms
unfolding deliver replay
replay_own q acc [] = sym (append-nil acc)
replay_own q acc (m ∷ ms) =
    let own : (q == q) ≡ true = ground arith in
    rw (deliver, own) (replay_own q (acc ++ (m ∷ [])) ms ∙ append_assoc acc (m ∷ []) ms)

replay_other :
    (q e : ℕ) (acc ms : List ChatMsg) → (e == q) ≡ false → deliver q acc (replay e ms) ≡ acc
unfolding deliver replay
replay_other q e acc [] h = refl
replay_other q e acc (m ∷ ms) h = rw (deliver, h) (replay_other q e acc ms h)

remember-HasAll :
    (m : ChatMsg) (history box : List ChatMsg)
    → length history ≤ max_history
    → HasAll history box
    → HasAll (remember m history) (box ++ (m ∷ []))
unfolding remember
remember-HasAll m history box bound h = elim (Bool-cases (ltb (length history) max_history)) [
  | inl room ↦ simp room (record {
    more = [];
    split =
        ap (λ b. b ++ (m ∷ []))
          (h.split ∙ ap (λ r. history ++ r) (h.exact (ground arith)) ∙ append-nil history)
        ∙ sym (append-nil (history ++ (m ∷ [])));
    exact = λ _. refl;
  })
  | inr full ↦ simp full (record {
    more = h.more ++ (m ∷ []);
    split = ap (λ b. b ++ (m ∷ [])) h.split ∙ append_assoc history h.more (m ∷ []);
    exact = λ less. absurd (ground arith);
  })
]

pub length-remember :
    (m : ChatMsg) (history : List ChatMsg)
    → length history ≤ max_history
    → length (remember m history) ≤ max_history
unfolding remember
length-remember m history h = ground (arith, length-append history (m ∷ []))

module _ (s : Server) (box : ℕ → List ChatMsg) (served : IsServed s box) (msg : ChatMsg) where
  pub handle_message-IsServed :
      IsServed (handle_message msg s).0 (λ q. deliver q (box q) (handle_message msg s).1)
  unfolding handle_message
  handle_message-IsServed = record {
    clients_bound = served.clients_bound;
    history_bound = length-remember msg s.history served.history_bound;
    once = served.once;
    has_all = λ q h.
        rw (to_one q (box q) msg s.clients h)
          (remember-HasAll msg s.history (box q) served.history_bound (served.has_all q h));
  }

  module _ (q : ℕ) (fresh : held q s.clients ≡ 0) where
    abbrev pub newcomer : ClientInfo
    newcomer = record { name = msg.name; qname = msg.qname; q = some q }

    abbrev pub everyone : List ClientInfo
    everyone = s.clients ++ (newcomer ∷ [])

    abbrev pub join_effects : List Effect
    join_effects = opened q ∷ (replay q s.history ++ send_to_all (joined msg) everyone)

    held_new : held q everyone ≡ 1
    held_new = ground (arith, held-append q s.clients (newcomer ∷ []), fresh)

    held_old : (e : ℕ) → e ≢ q → held e everyone ≡ held e s.clients
    held_old e other = ground (arith, held-append e s.clients (newcomer ∷ []))

    box_new : (acc : List ChatMsg) → deliver q acc join_effects ≡ s.history ++ (joined msg ∷ [])
    unfolding deliver
    box_new acc =
        let own : (q == q) ≡ true = ground arith in
        rw (deliver, own)
          (deliver-append q [] (replay q s.history) (send_to_all (joined msg) everyone)
            ∙ ap (λ a. deliver q a (send_to_all (joined msg) everyone)) (replay_own q [] s.history)
            ∙ to_one q s.history (joined msg) everyone held_new)

    box_old :
        (e : ℕ) (acc : List ChatMsg)
        → e ≢ q
        → held e s.clients ≡ 1
        → deliver e acc join_effects ≡ acc ++ (joined msg ∷ [])
    unfolding deliver
    box_old e acc other h =
        let differs : (q == e) ≡ false = ground arith in
        rw (deliver, differs)
          (deliver-append e acc (replay q s.history) (send_to_all (joined msg) everyone)
            ∙ ap (λ a. deliver e a (send_to_all (joined msg) everyone))
                (replay_other e q acc s.history differs)
            ∙ to_one e acc (joined msg) everyone (held_old e other ∙ h))

    whole_history : HasAll s.history s.history
    whole_history = record { more = []; split = sym (append-nil s.history); exact = λ _. refl }

    pub join-HasAll :
        (e : ℕ)
        → held e everyone ≡ 1
        → HasAll (remember (joined msg) s.history) (deliver e (box e) join_effects)
    join-HasAll e h = elim (Bool-cases (e == q)) [
      | inl same ↦
          let is : e ≡ q = ground arith in
          rw (is, box_new (box q))
            (remember-HasAll (joined msg) s.history s.history served.history_bound whole_history)
      | inr differs ↦
          let other : e ≢ q = ground arith in
          let before : held e s.clients ≡ 1 = sym (held_old e other) ∙ h in
          rw (box_old e (box e) other before) (
            remember-HasAll (joined msg) s.history (box e) served.history_bound
              (served.has_all e before))
    ]

    pub join-once : (e : ℕ) → held e everyone ≤ 1
    join-once e = elim (Bool-cases (e == q)) [
      | inl same ↦ let is : e ≡ q = ground arith in rw is (omega (arith, held_new))
      | inr differs ↦ omega (arith, held_old e (ground arith), served.once e)
    ]
