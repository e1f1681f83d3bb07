-- ===== src/TaxiControl/Cli/Round.antt =====
-- A whole round of the loop of `main` of `taxi_control/main.c`: reaping, polling, the command that
-- was typed, and the service of the drivers.
use eltex_systems.Base.{
  ℕ, ◌≡◌, refl, Bool, true, false, List, [], ◌∷◌, ◌++◌, none, some, arith, length, if◌then◌else◌,
  append-nil,
}
use eltex_systems.Base.Text.{codes, same_bytes, skip_spaces, is_space}
use eltex_systems.TaxiControl.Cli.{
  Entry, Table, Effect, Sent, Received, reap_children, drivers_push, print, socketpair, created,
}
use eltex_systems.TaxiControl.Cli.Commands.{
  Fork, Run, going, leaving, died, run_line, run_command, next_tok, word, cmd_create_driver,
}
use eltex_systems.TaxiControl.Cli.Poll.{
  Events, polled, poll_pass, serve_all, alive_count, poll_pass_own_events, create_driver_overruns,
}
use eltex_systems.TaxiControl.Cli.Descriptors.{Balanced, then-Balanced}
use eltex_systems.TaxiControl.Cli.Balance.{reap_children-Balanced, serve_all-Balanced}

-- What is read from the standard input: nothing (it is not readable), its end, or a line.
pub data Input : Type 0 where
  nothing end_of_input : Input
  line : List ℕ → Input

-- What `poll` returns: EINTR, another error, or the events of the drivers' descriptors.
pub data Polled : Type 0 where
  interrupted poll_failed : Polled
  ready : Input → (Entry → Events) → Polled

-- What the kernel does in a round: the processes that ended, whether `calloc` succeeds, what
-- `poll` returns, and what `fork`, `send` and `recv` would return. `behind` is what a read behind
-- the end of `pfds` finds there, as far as it can be read.
pub record Kernel : Type 0 where
  pub ended_pids : List ℕ
  pub calloc_ok : Bool
  pub poll : Polled
  pub fork : Fork
  pub net : ℕ → Sent
  pub inbox : Entry → List Received
  pub behind : List Events

-- After a round: the loop goes on, it is left, the program ends by `die`, or a read behind the end
-- of `pfds` found nothing that can be read.
pub data Round : Type 0 where
  again : Table → List Effect → Round
  left : Table → List Effect → Round
  ended overrun : Round

-- The service of the drivers, behind what was done before.
unfoldable pub serve_drivers : Kernel → List Events → Table → List Effect → Round
serve_drivers k pfds t effects = elim (poll_pass k.inbox (pfds ++ k.behind) 1 t.entries) [
  | none ↦ overrun
  | some (ds, effects') ↦ again (record t { entries = ds }) (effects ++ effects')
]

abbrev pub after_command : Kernel → List Events → Table → List Effect → Run → Round
after_command k pfds t effects (going t' effects') = serve_drivers k pfds t' (effects ++ effects')
after_command k pfds t effects leaving = left t effects
after_command k pfds t effects died = ended

abbrev pub stdin_events : Events
stdin_events = record { hangup = false; readable = true }

-- From `pfds` on, with the table and the effects of `reap_children`.
unfoldable pub poll_round : Kernel → Polled → Table → List Effect → Round
poll_round k interrupted t effects = again t effects
poll_round k poll_failed t effects = ended
poll_round k (ready nothing events) t effects =
    serve_drivers k (stdin_events ∷ polled events t.entries) t effects
poll_round k (ready end_of_input events) t effects = left t effects
poll_round k (ready (line text) events) t effects =
    after_command k (stdin_events ∷ polled events t.entries) t effects
      (run_line k.fork k.net t text)

unfoldable pub main_round : Kernel → Table → Round
main_round k t =
    let (ds, effects) = reap_children k.ended_pids t.entries in
    if k.calloc_ok then poll_round k k.poll (record t { entries = ds }) effects else ended

length-polled :
    (events : Entry → Events) (ds : List Entry) → length (polled events ds) ≡ alive_count ds
unfolding polled alive_count
length-polled events [] = refl
length-polled events (d ∷ ds) = ground (arith, length-polled events ds)

-- A round in which nothing is typed goes on, whatever lies behind `pfds`: the entries stay alive
-- exactly while they have a descriptor, and each descriptor that was held or opened is held
-- afterwards or closed, as often.
main_round-quiet :
    (k : Kernel) (t : Table) (events : Entry → Events)
    → k.calloc_ok ≡ true
    → k.poll ≡ ready nothing events
    → (t' : Table) × (effects : List Effect) × (main_round k t ≡ again t' effects)
      × Balanced t.entries (t'.entries, effects)
unfolding main_round poll_round serve_drivers
main_round-quiet k t events memory quiet =
    let reaped = reap_children k.ended_pids t.entries in
    let served = serve_all k.inbox events reaped.0 in
    let first = reap_children-Balanced k.ended_pids t.entries in
    let second = serve_all-Balanced k.inbox events reaped.0 in
    let own = poll_pass_own_events k.inbox events stdin_events k.behind reaped.0 in
    (
      record t { entries = served.0 },
      reaped.1 ++ served.1,
      simp (main_round, memory, quiet, poll_round, serve_drivers, own),
      then-Balanced t.entries reaped served first second,
    )

run_line-create_driver :
    (f : Fork) (net : ℕ → Sent) (t t' : Table) (pid fd : ℕ)
    → f.child ≡ some (pid, fd)
    → drivers_push f.realloc_ok t pid fd ≡ some t'
    → run_line f net t (codes "create_driver" ++ (10 ∷ []))
      ≡ going t' (socketpair fd ∷ print (created pid) ∷ [])
unfolding run_line run_command next_tok word skip_spaces is_space same_bytes cmd_create_driver
run_line-create_driver f net t t' pid fd forked pushed = rw (cmd_create_driver, forked, pushed) refl

-- A round in which `create_driver` is typed and succeeds reads `pfds` behind its end, whatever the
-- table, the processes that ended and the events: it cannot go on where nothing can be read there.
pub main_round-create_driver :
    (k : Kernel) (t t' : Table) (events : Entry → Events) (pid fd : ℕ)
    → k.calloc_ok ≡ true
    → k.poll ≡ ready (line (codes "create_driver" ++ (10 ∷ []))) events
    → k.fork.child ≡ some (pid, fd)
    → drivers_push k.fork.realloc_ok
        (record t { entries = (reap_children k.ended_pids t.entries).0 })
        pid
        fd
      ≡ some t'
    → k.behind ≡ []
    → main_round k t ≡ overrun
unfolding main_round poll_round serve_drivers
main_round-create_driver k t t' events pid fd memory typed forked pushed no_more =
    let reaped : Table = record t { entries = (reap_children k.ended_pids t.entries).0 } in
    let full = length-polled events reaped.entries in
    let over =
      create_driver_overruns k.inbox (stdin_events ∷ polled events reaped.entries) reaped t'
        k.fork.realloc_ok pid fd (omega (arith, full)) pushed in
    let at_end = append-nil (stdin_events ∷ polled events reaped.entries) in
    let ran = run_line-create_driver k.fork k.net reaped t' pid fd forked pushed in
    simp (main_round, memory, typed, poll_round, ran, serve_drivers, no_more, at_end, over)
