-- ===== src/TaxiControl/Cli/Balance.antt =====
-- No function of the command line closes a socket twice or loses one.
use eltex_systems.Base.{ℕ, ◌≡◌, refl, ◌&&◌, List, [], ◌∷◌, arith, ◌==◌, Bool-cases, inl, inr}
use eltex_systems.Base.Text.{codes}
use eltex_systems.TaxiControl.Cli.{
  Entry, Effect, print, Line, Sent, Received, again, ended, message, dead, close_fd, at_pid, reap,
  reap_children, send_cmd, handle_driver_readable, cmd_send_task, cmd_get_status, cmd_get_drivers,
  quit_all, close_all, shutdown_all,
}
use eltex_systems.TaxiControl.Cli.Poll.{Events, serve, serve_all}
use eltex_systems.TaxiControl.Cli.Descriptors.{
  Balanced, EntryBalanced, held, closed, opened, dead-EntryBalanced, keep-Balanced, cons-Balanced,
  skip-Balanced, change-Balanced, then-Balanced, opened-append, opened-close_fd,
}

send_cmd-EntryBalanced :
    (net : ℕ → Sent) (cmd : List ℕ) (d : Entry) → EntryBalanced d (send_cmd net cmd d)
unfolding send_cmd closed opened
send_cmd-EntryBalanced net cmd d = record {
  consistent = ground arith;
  balance = λ fd. ground arith;
}

handle_driver_readable-EntryBalanced :
    (rs : List Received) (d : Entry) → EntryBalanced d (handle_driver_readable rs d)
unfolding handle_driver_readable closed opened
handle_driver_readable-EntryBalanced [] d = record {
  consistent = λ h. h;
  balance = λ fd. omega arith;
}
handle_driver_readable-EntryBalanced (again ∷ rs) d = record {
  consistent = λ h. h;
  balance = λ fd. omega arith;
}
handle_driver_readable-EntryBalanced (ended ∷ rs) d = dead-EntryBalanced d
handle_driver_readable-EntryBalanced (message m ∷ rs) d =
    let ih = handle_driver_readable-EntryBalanced rs d in
    record { consistent = ih.consistent; balance = ih.balance }

at_pid-Balanced :
    (pid : ℕ) (l : Line) (f : Entry → Entry × List Effect) (ds : List Entry)
    → ((d : Entry) → EntryBalanced d (f d))
    → Balanced ds (at_pid pid (print l ∷ []) f ds)
unfolding at_pid
at_pid-Balanced pid l f [] one = record {
  consistent = λ h. h;
  balance = λ fd. unfold closed opened held in refl;
}
at_pid-Balanced pid l f (d ∷ ds) one = elim (Bool-cases (d.pid == pid)) [
  | inl hit ↦ simp hit (change-Balanced d ds (f d) (one d))
  | inr miss ↦
      simp miss
        (skip-Balanced d ds (at_pid pid (print l ∷ []) f ds) (at_pid-Balanced pid l f ds one))
]

-- Sending a task keeps the table consistent (an entry is alive exactly while it has a
-- descriptor), and closes each descriptor exactly as often as entries give it up.
pub cmd_send_task-Balanced :
    (net : ℕ → Sent) (pid sec : ℕ) (ds : List Entry) → Balanced ds (cmd_send_task net pid sec ds)
unfolding cmd_send_task
cmd_send_task-Balanced net pid sec ds =
    at_pid-Balanced pid _ _ ds (λ d. send_cmd-EntryBalanced net _ d)

pub cmd_get_status-Balanced :
    (net : ℕ → Sent) (pid : ℕ) (ds : List Entry) → Balanced ds (cmd_get_status net pid ds)
unfolding cmd_get_status
cmd_get_status-Balanced net pid ds =
    at_pid-Balanced pid _ _ ds (λ d. send_cmd-EntryBalanced net _ d)

reap-Balanced : (pid : ℕ) (ds : List Entry) → Balanced ds (reap pid ds)
unfolding reap
reap-Balanced pid [] = keep-Balanced []
reap-Balanced pid (d ∷ ds) = elim (Bool-cases (d.alive && d.pid == pid)) [
  | inl hit ↦ simp hit (change-Balanced d ds (dead d, close_fd d.fd) (dead-EntryBalanced d))
  | inr miss ↦ simp miss (skip-Balanced d ds (reap pid ds) (reap-Balanced pid ds))
]

-- Reaping any number of ended processes keeps the table consistent, and closes each descriptor
-- exactly as often as entries give it up.
pub reap_children-Balanced : (pids : List ℕ) (ds : List Entry) → Balanced ds (reap_children pids ds)
unfolding reap_children
reap_children-Balanced [] ds = keep-Balanced ds
reap_children-Balanced (pid ∷ pids) ds =
    then-Balanced ds (reap pid ds) (reap_children pids (reap pid ds).0) (reap-Balanced pid ds)
      (reap_children-Balanced pids (reap pid ds).0)

pub cmd_get_drivers-Balanced :
    (net : ℕ → Sent) (ds : List Entry) → Balanced ds (cmd_get_drivers net ds)
unfolding cmd_get_drivers
cmd_get_drivers-Balanced net [] = keep-Balanced []
cmd_get_drivers-Balanced net (d ∷ ds) =
    let rest = cmd_get_drivers-Balanced net ds in
    elim (Bool-cases d.alive) [
      | inl living ↦ simp living (
          cons-Balanced d ds (send_cmd net (codes "STATUS") d) (cmd_get_drivers net ds)
            (send_cmd-EntryBalanced net _ d) rest)
      | inr off ↦ simp off (skip-Balanced d ds (cmd_get_drivers net ds) rest)
    ]

pub serve-EntryBalanced :
    (inbox : List Received) (ev : Events) (d : Entry) → EntryBalanced d (serve inbox ev d)
unfolding serve
serve-EntryBalanced inbox ev d = elim (Bool-cases ev.hangup) [
  | inl up ↦ simp up (dead-EntryBalanced d)
  | inr on ↦ elim (Bool-cases ev.readable) [
    | inl ready ↦ simp (on, ready) (handle_driver_readable-EntryBalanced inbox d)
    | inr idle ↦
        simp (on, idle)
          (record { consistent = λ h. h; balance = λ fd. unfold closed opened in omega arith })
  ]
]

-- Serving the polled drivers keeps the table consistent, and closes each descriptor exactly as
-- often as entries give it up.
pub serve_all-Balanced :
    (inbox : Entry → List Received) (events : Entry → Events) (ds : List Entry)
    → Balanced ds (serve_all inbox events ds)
unfolding serve_all
serve_all-Balanced inbox events [] = keep-Balanced []
serve_all-Balanced inbox events (d ∷ ds) =
    let rest = serve_all-Balanced inbox events ds in
    elim (Bool-cases d.alive) [
      | inl living ↦ simp living (
          cons-Balanced d ds (serve (inbox d) (events d) d) (serve_all inbox events ds)
            (serve-EntryBalanced (inbox d) (events d) d) rest)
      | inr off ↦ simp off (skip-Balanced d ds (serve_all inbox events ds) rest)
    ]

close_all-Balanced : (ds : List Entry) → Balanced ds (close_all ds)
unfolding close_all
close_all-Balanced [] = keep-Balanced []
close_all-Balanced (d ∷ ds) =
    cons-Balanced d ds (dead d, close_fd d.fd) (close_all ds) (dead-EntryBalanced d)
      (close_all-Balanced ds)

held-close_all : (fd : ℕ) (ds : List Entry) → held fd (close_all ds).0 ≡ 0
unfolding close_all held
held-close_all fd [] = refl
held-close_all fd (d ∷ ds) = omega (arith, held-close_all fd ds)

closed-quit_all : (fd : ℕ) (ds : List Entry) → closed fd (quit_all ds) ≡ 0
unfolding quit_all closed
closed-quit_all fd [] = refl
closed-quit_all fd (d ∷ ds) = ground (arith, closed-quit_all fd ds)

opened-quit_all : (fd : ℕ) (ds : List Entry) → opened fd (quit_all ds) ≡ 0
unfolding quit_all opened
opened-quit_all fd [] = refl
opened-quit_all fd (d ∷ ds) = ground (arith, opened-quit_all fd ds)

opened-close_all : (fd : ℕ) (ds : List Entry) → opened fd (close_all ds).1 ≡ 0
unfolding close_all opened
opened-close_all fd [] = refl
opened-close_all fd (d ∷ ds) = omega (
  arith,
  opened-append fd (close_fd d.fd) (close_all ds).1,
  opened-close_fd fd d.fd,
  opened-close_all fd ds,
)

-- The end opens no descriptor.
pub opened-shutdown_all : (fd : ℕ) (ds : List Entry) → opened fd (shutdown_all ds).1 ≡ 0
unfolding shutdown_all
opened-shutdown_all fd ds = omega (
  arith,
  opened-append fd (quit_all ds) (close_all ds).1,
  opened-quit_all fd ds,
  opened-close_all fd ds,
)

quit_all-Balanced : (ds : List Entry) → Balanced ds (ds, quit_all ds)
quit_all-Balanced ds = record {
  consistent = λ h. h;
  balance = λ fd. omega (arith, closed-quit_all fd ds, opened-quit_all fd ds);
}

shutdown_all-Balanced : (ds : List Entry) → Balanced ds (shutdown_all ds)
unfolding shutdown_all
shutdown_all-Balanced ds =
    then-Balanced ds (ds, quit_all ds) (close_all ds) (quit_all-Balanced ds) (close_all-Balanced ds)

-- At the end every descriptor of the table is closed, once for each entry that held it, and no
-- entry holds one.
pub shutdown_all-closes :
    (fd : ℕ) (ds : List Entry)
    → (held fd (shutdown_all ds).0 ≡ 0) × (closed fd (shutdown_all ds).1 ≡ held fd ds)
unfolding shutdown_all
shutdown_all-closes fd ds =
    let none_held = held-close_all fd ds in
    let silent = opened-shutdown_all fd ds in
    (none_held, omega (arith, none_held, silent, (shutdown_all-Balanced ds).balance fd))
