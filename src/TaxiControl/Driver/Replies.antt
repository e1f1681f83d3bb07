-- ===== src/TaxiControl/Driver/Replies.antt =====
-- The replies of a driver to its commands.
use eltex_systems.Base.{
  ℕ, ◌^◌, ◌<◌, ◌≡◌, refl, ◌||◌, true, List, [], ◌∷◌, ◌++◌, some, arith, ltb, ◌==◌, if◌then◌else◌,
  All, append-nil,
}
use eltex_systems.Base.Int.{pos}
use eltex_systems.Base.Text.{codes, starts_with, skip_spaces, is_space}
use eltex_systems.Base.Decimal.{decimal, decimal-All, IsDigit}
use eltex_systems.Base.Strtol.{strtol, strtol-decimal}
use eltex_systems.TaxiControl.Driver.{
  Kernel, Driver, running, start_task, handle_task, handle_message, timer_set_secs, busy_reply,
  timer_remaining_secs,
}

-- What the command line sends, `snprintf (msg, sizeof (msg), "TASK %d", sec)`.
abbrev pub task_text : ℕ → List ℕ
task_text sec = codes "TASK " ++ decimal sec

skip_spaces-digits : (ds : List ℕ) → All IsDigit ds → skip_spaces ds ≡ ds
unfolding skip_spaces is_space
skip_spaces-digits [] h = refl
skip_spaces-digits (d ∷ ds) h = ground arith

read_task : (n : ℕ) → n < 2 ^ 63 → strtol (skip_spaces (32 ∷ decimal n)) ≡ some (pos n)
read_task n small =
    let front : skip_spaces (32 ∷ decimal n) ≡ decimal n =
      unfold skip_spaces is_space in skip_spaces-digits (decimal n) (decimal-All n) in
    rw (front, ← append-nil (decimal n)) (strtol-decimal n [] small tt)

-- The driver understands the text that the command line sends for any time below 2 ^ 31, while
-- the timer can be set: 0 or more than 86400 seconds is refused and changes nothing; a busy
-- driver reports the remaining time and is unchanged; else the driver becomes busy, its timer is
-- set to that time, and it replies `OK`.
pub handle_message-task :
    (k : Kernel) (d : Driver) (n : ℕ)
    → n < 2 ^ 31
    → k.settime_ok ≡ true
    → handle_message k d (task_text n) ≡ (
        if n == 0 || ltb 86400 n
        then running d (codes "Error BadTimer" ∷ [])
        else if d.busy
        then running d (busy_reply (timer_remaining_secs k.gettime_ok d.timer) ∷ [])
        else running (record { busy = true; timer = timer_set_secs n }) (codes "OK" ∷ []))
unfolding handle_message handle_task start_task starts_with
handle_message-task k d n small ok = rw (read_task n (omega arith), handle_task, ok)
