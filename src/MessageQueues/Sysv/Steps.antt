-- ===== src/MessageQueues/Sysv/Steps.antt =====
-- Every step of `server_sysv.c` or `client_sysv.c` leads from a phase of the exchange to a phase.
use eltex_systems.Base.{
  ℕ, refl, ◌∙◌, Bool, true, false, List, [], ◌∷◌, ◌++◌, Option, none, some, arith,
}
use eltex_systems.Base.Text.{c_string}
use eltex_systems.MessageQueues.Sysv.{
  Queues, IsQueues, Client, opening, sending, receiving, returned, Line, received, World, hi, hello,
  server_step, client_step, Reach, start, server_moves, client_moves,
}
use eltex_systems.MessageQueues.Sysv.Phases.{
  Phase, After, Holds, apart, made, offered, taken, unanswered, answered, done, over, failed, first,
  second, third,
}

module _ (o : Queues) (law : IsQueues o) where
  fresh-Holds : Holds o o.created [] []
  fresh-Holds = record { for_client_eq = law.empty 1; for_server_eq = law.empty 2 }

  hi-Holds : (q : o.Queue) → Holds o q [] [] → Holds o (o.msgsnd 1 hi q) (hi ∷ []) []
  hi-Holds q h = record {
    for_client_eq = rw (law.send_own 1 hi q, h.for_client_eq) refl;
    for_server_eq = rw (law.send_other 1 2 hi q (omega arith)) h.for_server_eq;
  }

  hello-Holds : (q : o.Queue) → Holds o q [] [] → Holds o (o.msgsnd 2 hello q) [] (hello ∷ [])
  hello-Holds q h = record {
    for_client_eq = rw (law.send_other 2 1 hello q (omega arith)) h.for_client_eq;
    for_server_eq = rw (law.send_own 2 hello q, h.for_server_eq) refl;
  }

  -- From each phase, a step of the server leads to a phase.
  server_step-After :
      (call removal : Bool) {w : World o} → Phase o w → After o (server_step o call removal w)
  unfolding server_step c_string
  server_step-After true removal (apart c early) = made c o.created early fresh-Holds
  server_step-After false removal (apart c early) = failed none c [] []
  server_step-After true removal (made c q early h) =
      offered c (o.msgsnd 1 hi q) early (hi-Holds q h)
  server_step-After false removal (made c q early h) = failed _ c [] []
  server_step-After true removal (offered c q early h) = simp (law.must_wait 2 q h.for_server_eq) tt
  server_step-After false removal (offered c q early h) = failed _ c _ []
  server_step-After true removal (taken q h) = simp (law.must_wait 2 q h.for_server_eq) tt
  server_step-After false removal (taken q h) = failed _ _ _ _
  server_step-After true removal (unanswered q h) = simp (law.must_wait 2 q h.for_server_eq) tt
  server_step-After false removal (unanswered q h) = failed _ _ _ _
  server_step-After true removal (answered q h) =
      let (q', took, _, _) = law.take_first 2 hello [] q h.for_server_eq in simp took (done q')
  server_step-After false removal (answered q h) = failed _ _ _ _
  server_step-After call true (done q) = over
  server_step-After call false (done q) = failed _ _ _ _
  server_step-After call removal over = tt
  server_step-After call removal (failed q c s k) = tt

  received-failed :
      (m : Option (List ℕ × o.Queue)) (s k : List Line)
      → After o (elim m [
        | none ↦ none
        | some (text, q') ↦ some (record {
          queue = some q';
          server = returned 1;
          client = sending;
          server_lines = s;
          client_lines = k ++ (received (c_string text) ∷ []);
        })
      ])
  received-failed none s k = tt
  received-failed (some (text, q')) s k = failed _ _ _ _

  client_step-failed :
      (call : Bool) (q : Option o.Queue) (c : Client) (s k : List Line)
      → After o (
          client_step o call (record {
            queue = q;
            server = returned 1;
            client = c;
            server_lines = s;
            client_lines = k;
          }))
  unfolding client_step
  client_step-failed call none opening s k = failed _ _ _ _
  client_step-failed true (some q) opening s k = failed _ _ _ _
  client_step-failed false (some q) opening s k = failed _ _ _ _
  client_step-failed call none receiving s k = failed _ _ _ _
  client_step-failed true (some q) receiving s k = received-failed (o.msgrcv 1 q) s k
  client_step-failed false (some q) receiving s k = failed _ _ _ _
  client_step-failed call none sending s k = failed _ _ _ _
  client_step-failed true (some q) sending s k = failed _ _ _ _
  client_step-failed false (some q) sending s k = failed _ _ _ _
  client_step-failed call q (returned n) s k = tt

  -- And a step of the client.
  client_step-After : (call : Bool) {w : World o} → Phase o w → After o (client_step o call w)
  unfolding client_step c_string
  client_step-After call (apart c first) = apart (returned 1) third
  client_step-After call (apart c second) = apart (returned 1) third
  client_step-After call (apart c third) = tt
  client_step-After true (made c q first h) = made receiving q second h
  client_step-After false (made c q first h) = made (returned 1) q third h
  client_step-After true (made c q second h) = simp (law.must_wait 1 q h.for_client_eq) tt
  client_step-After false (made c q second h) = made (returned 1) q third h
  client_step-After call (made c q third h) = tt
  client_step-After true (offered c q first h) = offered receiving q second h
  client_step-After false (offered c q first h) = offered (returned 1) q third h
  client_step-After true (offered c q second h) =
      let (q', took, rest, kept) = law.take_first 1 hi [] q h.for_client_eq in
      let left : Holds o q' [] [] = record {
        for_client_eq = rest;
        for_server_eq = kept 2 (omega arith) ∙ h.for_server_eq;
      } in
      simp took (taken q' left)
  client_step-After false (offered c q second h) = offered (returned 1) q third h
  client_step-After call (offered c q third h) = tt
  client_step-After true (taken q h) = answered (o.msgsnd 2 hello q) (hello-Holds q h)
  client_step-After false (taken q h) = unanswered q h
  client_step-After call (unanswered q h) = tt
  client_step-After call (answered q h) = tt
  client_step-After call (done q) = tt
  client_step-After call over = tt
  client_step-After call (failed q c s k) = client_step-failed call q c s k

  pub Reach-Phase : {w : World o} → Reach o w → Phase o w
  Reach-Phase start = apart opening first
  Reach-Phase (server_moves call removal reach step) =
      rw step at (server_step-After call removal (Reach-Phase reach))
  Reach-Phase (client_moves call reach step) =
      rw step at (client_step-After call (Reach-Phase reach))
