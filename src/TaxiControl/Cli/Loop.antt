-- ===== src/TaxiControl/Cli/Loop.antt =====
-- The whole of `main` of `taxi_control/main.c`: its loop, round after round, and the end by
-- `shutdown_all`, with the sockets of all drivers that were created on the way.
use eltex_systems.Base.{branches, ℕ, ◌+◌, ◌≡◌, refl, List, [], ◌∷◌, ◌++◌, Option, none, some, arith}
use eltex_systems.TaxiControl.Cli.{Entry, Table, Effect, shutdown_all, reap_children}
use eltex_systems.TaxiControl.Cli.Commands.{Run, going, leaving, died, run_line}
use eltex_systems.TaxiControl.Cli.Poll.{Events, poll_pass}
use eltex_systems.TaxiControl.Cli.Descriptors.{
  Balanced, held, closed, opened, keep-Balanced, then-Balanced, closed-append, opened-append,
}
use eltex_systems.TaxiControl.Cli.Balance.{
  opened-shutdown_all, shutdown_all-closes, reap_children-Balanced,
}
use eltex_systems.TaxiControl.Cli.Walked.{Walked, poll_pass-Walked}
use eltex_systems.TaxiControl.Cli.Ran.{Ran, run_line-Ran}
use eltex_systems.TaxiControl.Cli.Round.{
  Kernel, Round, again, left, ended, overrun, Polled, interrupted, poll_failed, ready, nothing,
  end_of_input, line, main_round, poll_round, serve_drivers, after_command,
}

-- What became of the program after some rounds: it still runs, it returned from `main`, it ended
-- by `die`, or a read behind the end of `pfds` found nothing that can be read.
pub data Outcome : Type 0 where
  running : Table → List Effect → Outcome
  returned : List Effect → Outcome
  killed crashed : Outcome

abbrev behind_effects : List Effect → Outcome → Outcome
behind_effects effects (running t more) = running t (effects ++ more)
behind_effects effects (returned more) = returned (effects ++ more)
behind_effects effects killed = killed
behind_effects effects crashed = crashed

abbrev pub empty : Table
empty = record { entries = []; cap = 0 }

-- `continue` is how the loop goes on; behind the loop stands `shutdown_all`.
abbrev pub after_round : (Table → Outcome) → Round → Outcome
after_round continue (again t effects) = behind_effects effects (continue t)
after_round continue (left t effects) = returned (effects ++ (shutdown_all t.entries).1)
after_round continue ended = killed
after_round continue overrun = crashed

-- The loop of `main` over the rounds `ks`.
unfoldable pub main_loop : List Kernel → Table → Outcome
main_loop [] t = running t []
main_loop (k ∷ ks) t = after_round (main_loop ks) (main_round k t)

-- `main`, from the empty table.
unfoldable pub main : List Kernel → Outcome
main ks = main_loop ks empty

-- A round and a whole run leave the sockets balanced where they go on.
abbrev Rounded : Table → Round → Type 0
Rounded t (again t' effects) = Balanced t.entries (t'.entries, effects)
Rounded t (left t' effects) = Balanced t.entries (t'.entries, effects)
Rounded t ended = Unit
Rounded t overrun = Unit

abbrev Came : Table → Outcome → Type 0
Came t (running t' effects) = Balanced t.entries (t'.entries, effects)
Came t (returned effects) = (fd : ℕ) → closed fd effects ≡ opened fd effects + held fd t.entries
Came t killed = Unit
Came t crashed = Unit

served-Rounded :
    (t t' : Table) (effects : List Effect) (o : Option (List Entry × List Effect))
    → Balanced t.entries (t'.entries, effects)
    → Walked t'.entries o
    → Rounded t (elim o [
      | none ↦ overrun
      | some (ds, effects') ↦ again (record t' { entries = ds }) (effects ++ effects')
    ])
served-Rounded t t' effects none h w = tt
served-Rounded t t' effects (some r) h w = then-Balanced t.entries (t'.entries, effects) r h w

serve_drivers-Rounded :
    (k : Kernel) (pfds : List Events) (t t' : Table) (effects : List Effect)
    → Balanced t.entries (t'.entries, effects)
    → Rounded t (serve_drivers k pfds t' effects)
unfolding serve_drivers
serve_drivers-Rounded k pfds t t' effects h =
    served-Rounded t t' effects (poll_pass k.inbox (pfds ++ k.behind) 1 t'.entries) h
      (poll_pass-Walked k.inbox (pfds ++ k.behind) 1 t'.entries)

after_command-Rounded :
    (k : Kernel) (pfds : List Events) (t t' : Table) (effects : List Effect) (r : Run)
    → Balanced t.entries (t'.entries, effects)
    → Ran t' r
    → Rounded t (after_command k pfds t' effects r)
after_command-Rounded k pfds t t' effects (going u more) h j =
    serve_drivers-Rounded k pfds t u (effects ++ more)
      (then-Balanced t.entries (t'.entries, effects) (u.entries, more) h j)
after_command-Rounded k pfds t t' effects leaving h j = h
after_command-Rounded k pfds t t' effects died h j = tt

poll_round-Rounded :
    (k : Kernel) (p : Polled) (t t' : Table) (effects : List Effect)
    → Balanced t.entries (t'.entries, effects)
    → Rounded t (poll_round k p t' effects)
unfolding poll_round
poll_round-Rounded k interrupted t t' effects h = h
poll_round-Rounded k poll_failed t t' effects h = tt
poll_round-Rounded k (ready nothing events) t t' effects h =
    serve_drivers-Rounded k _ t t' effects h
poll_round-Rounded k (ready end_of_input events) t t' effects h = h
poll_round-Rounded k (ready (line text) events) t t' effects h =
    after_command-Rounded k _ t t' effects (run_line k.fork k.net t' text) h
      (run_line-Ran k.fork k.net t' text)

main_round-Rounded : (k : Kernel) (t : Table) → Rounded t (main_round k t)
unfolding main_round
main_round-Rounded k t =
    let (ds, effects) = reap_children k.ended_pids t.entries in
    branches (Rounded t) k.calloc_ok
      (poll_round-Rounded k k.poll t (record t { entries = ds }) effects
        (reap_children-Balanced k.ended_pids t.entries))
      tt

behind-Came :
    (t t' : Table) (effects : List Effect) (o : Outcome)
    → Balanced t.entries (t'.entries, effects)
    → Came t' o
    → Came t (behind_effects effects o)
behind-Came t t' effects (running u more) h j =
    then-Balanced t.entries (t'.entries, effects) (u.entries, more) h j
behind-Came t t' effects (returned more) h j = λ fd.
    omega (arith, closed-append fd effects more, opened-append fd effects more, h.balance fd, j fd)
behind-Came t t' effects killed h j = tt
behind-Came t t' effects crashed h j = tt

shutdown-Came :
    (t t' : Table) (effects : List Effect)
    → Balanced t.entries (t'.entries, effects)
    → Came t (returned (effects ++ (shutdown_all t'.entries).1))
shutdown-Came t t' effects h = λ fd.
    let all = shutdown_all-closes fd t'.entries in
    let silent = opened-shutdown_all fd t'.entries in
    let bye = (shutdown_all t'.entries).1 in
    omega (
      arith,
      closed-append fd effects bye,
      opened-append fd effects bye,
      h.balance fd,
      all.1,
      silent,
    )

next-Came :
    (t : Table) (continue : Table → Outcome) (r : Round)
    → Rounded t r
    → ((t' : Table) → Came t' (continue t'))
    → Came t (after_round continue r)
next-Came t continue (again t' effects) h rest = behind-Came t t' effects (continue t') h (rest t')
next-Came t continue (left t' effects) h rest = shutdown-Came t t' effects h
next-Came t continue ended h rest = tt
next-Came t continue overrun h rest = tt

main_loop-Came : (ks : List Kernel) (t : Table) → Came t (main_loop ks t)
unfolding main_loop
main_loop-Came [] t = keep-Balanced t.entries
main_loop-Came (k ∷ ks) t =
    next-Came t (main_loop ks) (main_round k t) (main_round-Rounded k t) (main_loop-Came ks)

-- When `main` returns, after whatever rounds, whatever a read behind the end of `pfds` finds, the
-- program has closed each descriptor exactly as often as `cmd_create_driver` opened it as the
-- socket to a driver.
pub main-closes :
    (ks : List Kernel) (effects : List Effect) (fd : ℕ)
    → main ks ≡ returned effects
    → closed fd effects ≡ opened fd effects
unfolding main
main-closes ks effects fd over =
    let run : Came empty (main ks) = main_loop-Came ks empty in
    let came : Came empty (returned effects) = rw over at run in
    let unheld : held fd [] ≡ 0 = unfold held in refl in omega (arith, came fd, unheld)
