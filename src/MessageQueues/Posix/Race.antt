-- ===== src/MessageQueues/Posix/Race.antt =====
-- Every step of `server_posix.c` or `client_posix.c` leads from a phase of the exchange to a phase.
use eltex_systems.Base.{
  ℕ, ◌≡◌, refl, Bool, true, false, List, [], ◌∷◌, ◌++◌, Option, none, some, arith,
}
use eltex_systems.Base.Text.{c_string}
use eltex_systems.MessageQueues.Posix.{
  Queues, IsQueues, Client, opening, sending, receiving, closing, returned, Line, received, World,
  hi, hello, server_step, client_step, Reach, start, server_moves, client_moves,
}
use eltex_systems.MessageQueues.Posix.Phases.{
  Phase, After, before, made, offered, taken_back, taken, unanswered, answered, exchanged, failed,
  first, second, third, not_begun, sent_away, before_end, at_end,
}

module _ (o : Queues) (law : IsQueues o) where
  put_alone : (x : List ℕ) (q : o.Queue) → o.waiting q ≡ [] → o.waiting (o.mq_send x q) ≡ x ∷ []
  put_alone x q h = rw (law.send_last x q (rw h (omega arith)), h) refl

  -- From each phase, a step of the server leads to a phase.
  server_step-After : (call : Bool) {w : World o} → Phase o w → After o (server_step o call w)
  unfolding server_step c_string
  server_step-After true (before c q not_begun) = made c o.created first law.empty
  server_step-After true (before c q sent_away) = made c o.created third law.empty
  server_step-After false (before c q away) = failed _ _ _ _ _
  server_step-After true (made c q early h) = offered c (o.mq_send hi q) early (put_alone hi q h)
  server_step-After false (made c q early h) = failed _ _ _ _ _
  server_step-After true (offered c q early h) =
      let (q', took, rest) = law.take_first hi [] q h in
      simp took (taken_back closing c q' true before_end early rest)
  server_step-After false (offered c q early h) = failed _ _ _ _ _
  server_step-After call (taken_back s c q named before_end early h) =
      taken_back (returned 0) c q false at_end early h
  server_step-After call (taken_back s c q named at_end early h) = tt
  server_step-After true (taken q h) = simp (law.must_wait q h) tt
  server_step-After false (taken q h) = failed _ _ _ _ _
  server_step-After true (unanswered q h) = simp (law.must_wait q h) tt
  server_step-After false (unanswered q h) = failed _ _ _ _ _
  server_step-After true (answered q h) =
      let (q', took, rest) = law.take_first hello [] q h in
      simp took (exchanged closing q' true before_end)
  server_step-After false (answered q h) = failed _ _ _ _ _
  server_step-After call (exchanged s q named before_end) = exchanged (returned 0) q false at_end
  server_step-After call (exchanged s q named at_end) = tt
  server_step-After call (failed q named c s k) = tt

  received-failed :
      (m : Option (List ℕ × o.Queue)) (named : Bool) (s k : List Line)
      → After o (elim m [
        | none ↦ none
        | some (text, q) ↦ some (record {
          queue = q;
          named = named;
          server = returned 1;
          client = sending;
          server_lines = s;
          client_lines = k ++ (received (c_string text) ∷ []);
        })
      ])
  received-failed none named s k = tt
  received-failed (some (text, q)) named s k = failed _ _ _ _ _

  client_step-failed :
      (call : Bool) (q : o.Queue) (named : Bool) (c : Client) (s k : List Line)
      → After o (
          client_step o call (record {
            queue = q;
            named = named;
            server = returned 1;
            client = c;
            server_lines = s;
            client_lines = k;
          }))
  unfolding client_step
  client_step-failed true q true opening s k = failed _ _ _ _ _
  client_step-failed false q true opening s k = failed _ _ _ _ _
  client_step-failed call q false opening s k = failed _ _ _ _ _
  client_step-failed true q named receiving s k = received-failed (o.mq_receive q) named s k
  client_step-failed false q named receiving s k = failed _ _ _ _ _
  client_step-failed true q named sending s k = failed _ _ _ _ _
  client_step-failed false q named sending s k = failed _ _ _ _ _
  client_step-failed call q named (returned n) s k = tt

  -- And a step of the client.
  client_step-After : (call : Bool) {w : World o} → Phase o w → After o (client_step o call w)
  unfolding client_step c_string
  client_step-After call (before c q not_begun) = before (returned 1) q sent_away
  client_step-After call (before c q sent_away) = tt
  client_step-After true (made c q first h) = made receiving q second h
  client_step-After false (made c q first h) = made (returned 1) q third h
  client_step-After true (made c q second h) = simp (law.must_wait q h) tt
  client_step-After false (made c q second h) = made (returned 1) q third h
  client_step-After call (made c q third h) = tt
  client_step-After true (offered c q first h) = offered receiving q second h
  client_step-After false (offered c q first h) = offered (returned 1) q third h
  client_step-After true (offered c q second h) =
      let (q', took, rest) = law.take_first hi [] q h in simp took (taken q' rest)
  client_step-After false (offered c q second h) = offered (returned 1) q third h
  client_step-After call (offered c q third h) = tt
  client_step-After true (taken_back s c q true late first h) =
      taken_back s receiving q true late second h
  client_step-After false (taken_back s c q true late first h) =
      taken_back s (returned 1) q true late third h
  client_step-After call (taken_back s c q false late first h) =
      taken_back s (returned 1) q false late third h
  client_step-After true (taken_back s c q named late second h) = simp (law.must_wait q h) tt
  client_step-After false (taken_back s c q named late second h) =
      taken_back s (returned 1) q named late third h
  client_step-After call (taken_back s c q named late third h) = tt
  client_step-After true (taken q h) = answered (o.mq_send hello q) (put_alone hello q h)
  client_step-After false (taken q h) = unanswered q h
  client_step-After call (unanswered q h) = tt
  client_step-After call (answered q h) = tt
  client_step-After call (exchanged s q named late) = tt
  client_step-After call (failed q named c s k) = client_step-failed call q named c s k

  pub Reach-Phase : {w : World o} → Reach o w → Phase o w
  Reach-Phase start = before opening o.created not_begun
  Reach-Phase (server_moves call reach step) =
      rw step at (server_step-After call (Reach-Phase reach))
  Reach-Phase (client_moves call reach step) =
      rw step at (client_step-After call (Reach-Phase reach))
