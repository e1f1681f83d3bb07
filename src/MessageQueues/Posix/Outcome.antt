-- ===== src/MessageQueues/Posix/Outcome.antt =====
-- What the two processes of `server_posix.c` and `client_posix.c` can come to.
use eltex_systems.Base.{◌≡◌, refl, true, [], ◌∷◌, some}
use eltex_systems.Base.Text.{codes, c_string}
use eltex_systems.MessageQueues.Posix.{
  Queues, IsQueues, receiving, closing, sent, received, World, hi, server_step, Reach,
}
use eltex_systems.MessageQueues.Posix.Phases.{
  before_end, at_end, Phase, before, made, offered, taken_back, taken, unanswered, answered,
  exchanged, failed,
}
use eltex_systems.MessageQueues.Posix.Race.{Reach-Phase}

module _ (o : Queues) (law : IsQueues o) where
  own_message :
      {w : World o}
      → Phase o w
      → w.server ≡ receiving
      → w.client_lines ≡ []
      → (w' : World o) × (server_step o true w ≡ some w')
        × (w'.server_lines ≡ sent (codes "Hi!") ∷ received (codes "Hi!") ∷ [])
  unfolding server_step c_string
  own_message (before c q away) e k = absurd cc
  own_message (made c q early h) e k = absurd cc
  own_message (offered c q early h) e k =
      let (q', took, rest) = law.take_first hi [] q h in
      let w' : World o = record {
        queue = q';
        named = true;
        server = closing;
        client = c;
        server_lines = sent (codes "Hi!") ∷ received (codes "Hi!") ∷ [];
        client_lines = [];
      } in
      (w', simp took, refl)
  own_message (taken_back s c q named before_end early h) e k = absurd cc
  own_message (taken_back s c q named at_end early h) e k = absurd cc
  own_message (taken q h) e k = absurd cc
  own_message (unanswered q h) e k = absurd cc
  own_message (answered q h) e k = absurd cc
  own_message (exchanged s q named before_end) e k = absurd cc
  own_message (exchanged s q named at_end) e k = absurd cc
  own_message (failed q named c s k) e l = absurd cc

  -- From no queue behind the name: as long as the client has not taken a message, a server that has sent its own takes it back
  -- when it moves: it prints the text that it sent as the one that it received.
  pub takes_own :
      {w : World o}
      → Reach o w
      → w.server ≡ receiving
      → w.client_lines ≡ []
      → (w' : World o) × (server_step o true w ≡ some w')
        × (w'.server_lines ≡ sent (codes "Hi!") ∷ received (codes "Hi!") ∷ [])
  takes_own reach e k = own_message (Reach-Phase o law reach) e k
