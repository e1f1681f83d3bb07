-- ===== src/Tests/Taxi.antt =====
-- A driver that gets a task of 60 seconds, and a table of two drivers, one of them dead.
use eltex_systems.Base.{
  ℕ, ◌≤◌, ◌≡◌, refl, ◌||◌, true, false, List, [], ◌∷◌, ◌++◌, none, some, arith, ◌==◌,
}
use eltex_systems.Base.Text.{codes, skip_spaces, is_space, same_bytes}
use eltex_systems.TaxiControl.Driver.{
  Driver, Kernel, running, message, ready, handle_socket, timer_set_secs, timer_remaining_secs,
  driver_round,
}
use eltex_systems.TaxiControl.Driver.Replies.{task_text, handle_message-task}
use eltex_systems.TaxiControl.Driver.Clock.{
  is_armed, start, round, Reach, here, next, Reach-busy_iff,
}
use eltex_systems.TaxiControl.Cli.{
  Entry, Table, Effect, Sent, sent, print, socketpair, send, close, created, drivers_push, reap,
  reap_children, quit_all, close_all, shutdown_all,
}
use eltex_systems.TaxiControl.Cli.{Received}
use eltex_systems.TaxiControl.Cli.Poll.{
  Events, poll_pass, polled, serve, alive_count, create_driver_overruns,
}
use eltex_systems.TaxiControl.Cli.Descriptors.{closed, opened}
use eltex_systems.TaxiControl.Cli.Loop.{main, main_loop, returned, main-closes}
use eltex_systems.TaxiControl.Cli.Round
use eltex_systems.TaxiControl.Cli.Commands.{
  Fork, run_line, next_tok, word, run_command, cmd_create_driver,
}

abbrev fine : Kernel
fine = record { gettime_ok = true; settime_ok = true; timer_read_ok = true }

abbrev working : Driver
working = record { busy = true; timer = record { sec = 60; nsec = 0; expired = false } }

got_task :
    driver_round fine start (ready false false true (message (task_text 60)))
    ≡ running working (codes "OK" ∷ [])
unfolding driver_round handle_socket timer_set_secs
got_task = handle_message-task fine start 60 (omega arith) refl

working-Reach : Reach working
working-Reach = next here (
    round fine start (ready false false true (message (task_text 60))) working (codes "OK" ∷ [])
      refl got_task)

Reach-busy_iff_example :
    (true ≡ (is_armed working.timer || false)) × (timer_remaining_secs true working.timer ≤ 86400)
Reach-busy_iff_example = Reach-busy_iff fine working-Reach

abbrev commands : List (List ℕ)
commands = codes "STATUS" ∷ codes "TASK 5" ∷ []

abbrev live : Entry
live = record { pid = 100; fd = some 5; alive = true }

abbrev ended_driver : Entry
ended_driver = record { pid = 99; fd = none; alive = false }

abbrev table : Table
table = record { entries = ended_driver ∷ live ∷ []; cap = 8 }

abbrev grown : Table
grown = record {
  entries = ended_driver ∷ live ∷ record { pid = 101; fd = some 7; alive = true } ∷ [];
  cap = 8;
}

abbrev quiet : Events
quiet = record { hangup = false; readable = false }

abbrev inbox : Entry → List Received
inbox d = []

abbrev events : Entry → Events
events d = record { hangup = d.pid == 100; readable = false }

abbrev net : ℕ → Sent
net fd = sent

create_driver_overruns_example : poll_pass inbox (quiet ∷ quiet ∷ []) 1 grown.entries ≡ none
create_driver_overruns_example =
    create_driver_overruns inbox (quiet ∷ quiet ∷ []) table grown true 101 7
      (unfold alive_count in refl) (unfold drivers_push in refl)

abbrev no_fork : Fork
no_fork = record { child = none; realloc_ok = true }

abbrev quiet_kernel : Round.Kernel
quiet_kernel = record {
  ended_pids = 99 ∷ [];
  calloc_ok = true;
  poll = Round.ready Round.nothing events;
  fork = no_fork;
  net = net;
  inbox = inbox;
  behind = [];
}

abbrev creating : Round.Kernel
creating = record {
  ended_pids = [];
  calloc_ok = true;
  poll = Round.ready (Round.line (codes "create_driver" ++ (10 ∷ []))) events;
  fork = record { child = some (101, 7); realloc_ok = true };
  net = net;
  inbox = inbox;
  behind = [];
}

main_round-create_driver_example : Round.main_round creating table ≡ Round.overrun
main_round-create_driver_example =
    Round.main_round-create_driver creating table grown events 101 7 refl refl refl
      (unfold drivers_push reap_children in refl) refl

-- A read behind the end of `pfds` that finds a quiet entry.
abbrev spare : Round.Kernel
spare = record creating { behind = quiet ∷ [] }

abbrev typing_exit : Round.Kernel
typing_exit = record quiet_kernel {
  poll = Round.ready (Round.line (codes "exit" ++ (10 ∷ []))) events;
}

abbrev one_session : List Effect
one_session = socketpair 7 ∷ print (created 101) ∷ send 7 (codes "QUIT") ∷ close 7 ∷ []

session : main (spare ∷ typing_exit ∷ []) ≡ returned one_session
unfolding main main_loop Round.main_round Round.poll_round run_line next_tok skip_spaces is_space
    run_command same_bytes word cmd_create_driver drivers_push reap_children Round.serve_drivers
    poll_pass polled serve shutdown_all quit_all close_all reap
session = refl

main-closes_example : closed 7 one_session ≡ opened 7 one_session
main-closes_example = main-closes (spare ∷ typing_exit ∷ []) one_session 7 session
