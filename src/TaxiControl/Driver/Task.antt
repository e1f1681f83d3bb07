-- ===== src/TaxiControl/Driver/Task.antt =====
-- The loop of a driver over some rounds, and the course of a task.
use eltex_systems.Base.{ℕ, ◌≡◌, true, false, List, [], ◌∷◌, ◌++◌}
use eltex_systems.Base.Text.{codes, same_bytes}
use eltex_systems.TaxiControl.Driver.{
  Driver, Kernel, Outcome, running, exited, message, Poll, ready, driver_round,
}

-- What comes of rounds that follow replies.
abbrev pub behind : List (List ℕ) → Outcome → Outcome
behind said (running d replies) = running d (said ++ replies)
behind said (exited code replies) = exited code (said ++ replies)

-- `driver_loop`, for what `poll` returns in its rounds.
unfoldable pub driver_loop : Kernel → List Poll → Driver → Outcome
driver_loop k [] d = running d []
driver_loop k (p ∷ ps) d = elim (driver_round k d p) [
  | exited code said ↦ exited code said
  | running e said ↦ behind said (driver_loop k ps e)
]

-- A round in which only a message has come.
abbrev pub asked : List ℕ → Poll
asked msg = ready false false true (message msg)

abbrev pub IsRefusal : List ℕ → Type 0
IsRefusal reply = same_bytes reply (codes "OK") ≡ false

-- A message that leaves a driver as it is, with one reply, which does not accept a task.
abbrev Leaves : Driver → Outcome → Type 0
Leaves d result = (reply : List ℕ) × (result ≡ running d (reply ∷ [])) × IsRefusal reply
