-- ===== src/MessageQueues/Sysv/Exchange.antt =====
-- What the two processes of `server_sysv.c` and `client_sysv.c` can come to.
use eltex_systems.Base.{◌≡◌, refl, true, [], ◌∷◌, none, some, arith}
use eltex_systems.Base.Text.{codes, c_string}
use eltex_systems.MessageQueues.Sysv.{
  Queues, IsQueues, receiving, removing, returned, sent, received, reply_sent, World, hello,
  server_step, Reach,
}
use eltex_systems.MessageQueues.Sysv.Phases.{
  first, second, third, Phase, apart, made, offered, taken, unanswered, answered, done, over,
  failed,
}
use eltex_systems.MessageQueues.Sysv.Steps.{Reach-Phase}

module _ (o : Queues) (law : IsQueues o) where
  last_steps :
      {w : World o}
      → Phase o w
      → w.client ≡ returned 0
      → w.server ≡ receiving
      → (u : World o) × (v : World o) × (server_step o true true w ≡ some u)
        × (server_step o true true u ≡ some v)
        × (v.server ≡ returned 0)
        × (v.server_lines ≡ sent (codes "Hi!") ∷ received (codes "Hello!") ∷ [])
        × (v.queue ≡ none)
  unfolding server_step c_string
  last_steps (apart c early) k e = absurd cc
  last_steps (made c q early h) k e = absurd cc
  last_steps (offered c q first h) k e = absurd cc
  last_steps (offered c q second h) k e = absurd cc
  last_steps (offered c q third h) k e = absurd (ground arith)
  last_steps (taken q h) k e = absurd cc
  last_steps (unanswered q h) k e = absurd (ground arith)
  last_steps (answered q h) k e =
      let (q', took, _, _) = law.take_first 2 hello [] q h.for_server_eq in
      let u : World o = record {
        queue = some q';
        server = removing;
        client = returned 0;
        server_lines = sent (codes "Hi!") ∷ received (codes "Hello!") ∷ [];
        client_lines = received (codes "Hi!") ∷ reply_sent ∷ [];
      } in
      let v : World o = record u { queue = none; server = returned 0 } in
      (u, v, simp took, refl, refl, refl, refl)
  last_steps (done q) k e = absurd cc
  last_steps over k e = absurd cc
  last_steps (failed q c s l) k e = absurd cc

  -- From no queue behind the key: once the client has returned 0, a server that waits for the
  -- answer gets it: when its calls
  -- work it returns 0 two calls later, with both texts printed and the queue removed.
  pub answered_in_two :
      {w : World o}
      → Reach o w
      → w.client ≡ returned 0
      → w.server ≡ receiving
      → (u : World o) × (v : World o) × (server_step o true true w ≡ some u)
        × (server_step o true true u ≡ some v)
        × (v.server ≡ returned 0)
        × (v.server_lines ≡ sent (codes "Hi!") ∷ received (codes "Hello!") ∷ [])
        × (v.queue ≡ none)
  answered_in_two reach ended waits = last_steps (Reach-Phase o law reach) ended waits
