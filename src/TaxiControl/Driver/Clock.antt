-- ===== src/TaxiControl/Driver/Clock.antt =====
-- A driver and the clock: it is busy exactly while a task runs.
use eltex_systems.Base.{
  ℕ, ◌+◌, ◌*◌, ◌≤◌, ◌<◌, ◌≡◌, ◌||◌, ◌&&◌, not, Bool, true, false, List, [], ◌∷◌, Option, none, some,
  arith, ltb, ◌==◌, if◌then◌else◌, Bool-cases, inl, inr, drop,
}
use eltex_systems.Base.Int.{ℤ, pos, negsuc}
use eltex_systems.Base.Text.{codes, skip_spaces}
use eltex_systems.Base.Strtol.{strtol}
use eltex_systems.TaxiControl.Driver.{
  Timer, Driver, Kernel, Outcome, running, exited, Received, again, failed, closed, message, Poll,
  interrupted, poll_failed, ready, start_task, handle_task, handle_message, handle_socket, expire,
  timer_set_secs, timer_remaining_secs, driver_round,
}

abbrev pub is_armed : Timer → Bool
is_armed t = not (t.sec == 0 && t.nsec == 0)

-- The events that `poll` reports of the timer are those of the timer.
abbrev pub IsHonest : Driver → Poll → Type 0
IsHonest d interrupted = Unit
IsHonest d poll_failed = Unit
IsHonest d (ready timer hangup readable r) = timer ≡ d.timer.expired

-- The clock runs, the timer expires, or the process makes a round.
pub data Step : Driver → Driver → Type 0 where
  tick :
      (d : Driver) (sec nsec : ℕ)
      → nsec < 1000000000
      → 0 < sec + nsec
      → sec * 1000000000 + nsec < d.timer.sec * 1000000000 + d.timer.nsec
      → Step d (record d { timer = record { sec = sec; nsec = nsec; expired = d.timer.expired } })
  fire :
      (d : Driver)
      → is_armed d.timer ≡ true
      → Step d (record d { timer = record { sec = 0; nsec = 0; expired = true } })
  round :
      (k : Kernel) (d : Driver) (p : Poll) (d' : Driver) (replies : List (List ℕ))
      → IsHonest d p
      → driver_round k d p ≡ running d' replies
      → Step d d'

-- `driver_loop` starts free, with a timer that was just created.
abbrev pub start : Driver
start = record { busy = false; timer = record { sec = 0; nsec = 0; expired = false } }

pub data Reach : Driver → Type 0 where
  here : Reach start
  next : {d e : Driver} → Reach d → Step d e → Reach e

pub record IsClocked (d : Driver) : Type 0 where
  pub clocked : d.busy ≡ (is_armed d.timer || d.timer.expired)
  pub limit : d.timer.sec * 1000000000 + d.timer.nsec ≤ 86400 * 1000000000

abbrev Keeps : Outcome → Type 0
Keeps (running d replies) = IsClocked d
Keeps (exited code replies) = Unit

start_task-Keeps :
    (k : Kernel) (d : Driver) (n : ℕ) → 0 < n → n ≤ 86400 → IsClocked d → Keeps (start_task k d n)
unfolding start_task timer_set_secs
start_task-Keeps k d n p q c = ground arith

handle_task-Keeps :
    (k : Kernel) (d : Driver) (msg : List ℕ) → IsClocked d → Keeps (handle_task k d msg)
unfolding handle_task
handle_task-Keeps k d msg c = by_value (strtol (skip_spaces (drop 4 msg)))
  where
    by_value :
        (v : Option ℤ)
        → Keeps (elim v [
          | none ↦ running d (codes "Error BadTimer" ∷ [])
          | some (negsuc n) ↦ running d (codes "Error BadTimer" ∷ [])
          | some (pos sec) ↦
              if sec == 0 || ltb 86400 sec
              then running d (codes "Error BadTimer" ∷ [])
              else start_task k d sec
        ])
    by_value none = c
    by_value (some (negsuc n)) = c
    by_value (some (pos sec)) = ground (arith, start_task-Keeps k d sec)

handle_message-Keeps :
    (k : Kernel) (d : Driver) (msg : List ℕ) → IsClocked d → Keeps (handle_message k d msg)
unfolding handle_message
handle_message-Keeps k d msg c = ground (arith, handle_task-Keeps k d msg c)

handle_socket-Keeps :
    (k : Kernel) (d : Driver) (hangup readable : Bool) (r : Received)
    → IsClocked d
    → Keeps (handle_socket k d hangup readable r)
unfolding handle_socket
handle_socket-Keeps k d true readable r c = tt
handle_socket-Keeps k d false false r c = c
handle_socket-Keeps k d false true again c = c
handle_socket-Keeps k d false true failed c = tt
handle_socket-Keeps k d false true closed c = tt
handle_socket-Keeps k d false true (message msg) c = handle_message-Keeps k d msg c

expire-IsClocked : (d : Driver) → IsClocked (expire d)
unfolding expire timer_set_secs
expire-IsClocked d = ground arith

driver_round-Keeps : (k : Kernel) (d : Driver) (p : Poll) → IsClocked d → Keeps (driver_round k d p)
unfolding driver_round
driver_round-Keeps k d interrupted c = c
driver_round-Keeps k d poll_failed c = tt
driver_round-Keeps k d (ready false hangup readable r) c =
    handle_socket-Keeps k d hangup readable r c
driver_round-Keeps k d (ready true hangup readable r) c =
    let after_expiry = handle_socket-Keeps k (expire d) hangup readable r (expire-IsClocked d) in
    elim (Bool-cases k.timer_read_ok) [
      | inl fine ↦ simp fine after_expiry
      | inr broken ↦ simp broken tt
    ]

Step-IsClocked : {d e : Driver} → Step d e → IsClocked d → IsClocked e
Step-IsClocked (tick d sec nsec small more less) c = ground arith
Step-IsClocked (fire d armed) c = ground arith
Step-IsClocked (round k d p d' replies honest run) c = rw run at (driver_round-Keeps k d p c)

Reach-IsClocked : {d : Driver} → Reach d → IsClocked d
Reach-IsClocked here = ground arith
Reach-IsClocked (next r s) = Step-IsClocked s (Reach-IsClocked r)

-- In every state that a driver reaches, under any commands and any course of the clock, it is busy
-- exactly while its timer is armed or an expiry waits to be read, and the time that it reports is
-- at most 86400 seconds.
pub Reach-busy_iff :
    {d : Driver} (k : Kernel)
    → Reach d
    → (d.busy ≡ (is_armed d.timer || d.timer.expired))
      × (timer_remaining_secs k.gettime_ok d.timer ≤ 86400)
unfolding timer_remaining_secs
Reach-busy_iff k r = let c = Reach-IsClocked r in (c.clocked, ground (arith, c.limit))
