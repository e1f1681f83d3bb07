-- ===== src/TaxiControl/Driver.antt =====
-- `driver_loop` of `taxi_control/main.c` and the timer functions that it calls: the process of one
-- driver, as a function of what `poll`, `recv` and the timer say in one round of its loop.
pub mod Replies
pub mod Task
pub mod Clock
use eltex_systems.Base.{
  ℕ, ◌+◌, ◌||◌, Bool, true, false, List, [], ◌∷◌, ◌++◌, Option, none, some, ltb, ◌==◌,
  if◌then◌else◌, drop,
}
use eltex_systems.Base.Int.{ℤ, pos, negsuc, nonpositive}
use eltex_systems.Base.Text.{codes, starts_with, skip_spaces}
use eltex_systems.Base.Decimal.{decimal}
use eltex_systems.Base.Strtol.{strtol}

-- The timer of the process, as `timerfd_gettime` reports it (0 and 0 when it is not armed), and
-- whether it has expired since it was last read or set, which is what makes it readable.
pub record Timer : Type 0 where
  pub sec : ℕ
  pub nsec : ℕ
  pub expired : Bool

pub record Driver : Type 0 where
  pub busy : Bool
  pub timer : Timer

-- `timer_set_secs`: a positive time arms the timer, any other disarms it.
unfoldable pub timer_set_secs : ℕ → Timer
timer_set_secs seconds = record { sec = seconds; nsec = 0; expired = false }

-- `timer_remaining_secs`; `gettime_ok` says whether `timerfd_gettime` succeeds.
unfoldable pub timer_remaining_secs : Bool → Timer → ℕ
timer_remaining_secs gettime_ok t =
    if gettime_ok then (if t.nsec == 0 then t.sec else t.sec + 1) else 0

-- The result of handling a message: the process goes on, or calls `_exit`; and the replies sent.
pub data Outcome : Type 0 where
  running : Driver → List (List ℕ) → Outcome
  exited : ℕ → List (List ℕ) → Outcome

abbrev pub busy_reply : ℕ → List ℕ
busy_reply rem = codes "Busy " ++ decimal rem

-- What the kernel answers during a round: whether the calls of the timer succeed.
pub record Kernel : Type 0 where
  pub gettime_ok : Bool
  pub settime_ok : Bool
  pub timer_read_ok : Bool

-- `TASK` with a time in seconds that was accepted.
unfoldable pub start_task : Kernel → Driver → ℕ → Outcome
start_task k d seconds =
    if d.busy
    then running d (busy_reply (timer_remaining_secs k.gettime_ok d.timer) ∷ [])
    else if k.settime_ok
    then running (record { busy = true; timer = timer_set_secs seconds }) (codes "OK" ∷ [])
    else exited 1 []

unfoldable pub handle_task : Kernel → Driver → List ℕ → Outcome
handle_task k d msg = elim (strtol (skip_spaces (drop 4 msg))) [
  | none ↦ running d (codes "Error BadTimer" ∷ [])
  | some (negsuc n) ↦ running d (codes "Error BadTimer" ∷ [])
  | some (pos sec) ↦
      if sec == 0 || ltb 86400 sec
      then running d (codes "Error BadTimer" ∷ [])
      else start_task k d sec
]

-- `msg` is the bytes received, at most 255 of them; a NUL follows them in the buffer.
unfoldable pub handle_message : Kernel → Driver → List ℕ → Outcome
handle_message k d msg =
    if starts_with (codes "QUIT") msg
    then exited 0 (codes "Bye" ∷ [])
    else if starts_with (codes "STATUS") msg
    then running d (
        (if d.busy
          then busy_reply (timer_remaining_secs k.gettime_ok d.timer)
          else codes "Available")
        ∷ [])
    else if starts_with (codes "TASK") msg
    then handle_task k d msg
    else running d (codes "Error UnknownCommand" ∷ [])

-- What `recv` returns.
pub data Received : Type 0 where
  again : Received  -- EAGAIN or EWOULDBLOCK
  failed : Received  -- another error
  closed : Received  -- 0: the other end is closed
  message : List ℕ → Received

-- What `poll` returns, with the events of the timer and of the socket.
pub data Poll : Type 0 where
  interrupted : Poll
  poll_failed : Poll
  ready : (timer hangup readable : Bool) → Received → Poll

unfoldable pub handle_socket : Kernel → Driver → Bool → Bool → Received → Outcome
handle_socket k d true readable r = exited 0 []
handle_socket k d false false r = running d []
handle_socket k d false true again = running d []
handle_socket k d false true failed = exited 1 []
handle_socket k d false true closed = exited 0 []
handle_socket k d false true (message msg) = handle_message k d msg

-- A readable timer: the driver becomes free, and the timer is disarmed. The result of that
-- `timer_set_secs` is not looked at. A failed read is an error other than EAGAIN.
unfoldable pub expire : Driver → Driver
expire d = record { busy = false; timer = timer_set_secs 0 }

unfoldable pub driver_round : Kernel → Driver → Poll → Outcome
driver_round k d interrupted = running d []
driver_round k d poll_failed = exited 1 []
driver_round k d (ready timer hangup readable r) =
    if timer
    then (if k.timer_read_ok then handle_socket k (expire d) hangup readable r else exited 1 [])
    else handle_socket k d hangup readable r
