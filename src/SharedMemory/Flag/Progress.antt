-- ===== src/SharedMemory/Flag/Progress.antt =====
-- The exchange through the shared text ends when both processes are given steps.
use eltex_systems.Base.{
  ℕ, zero, suc, ◌+◌, ◌-◌, ◌≤◌, ◌<◌, ◌≡◌, refl, arith, ◌==◌, if◌then◌else◌, inl, inr, ◌⊎◌,
}
use eltex_systems.SharedMemory.Flag.{
  text_size, Server, Client, resetting, copying, ending, raising, reporting, spinning, reading,
  left, World, server_step, client_step, Reach, server_moves, client_moves,
}
use eltex_systems.SharedMemory.Flag.Phases.{
  at_reset, at_byte, at_end, at_flag, in_loop, behind_loop, in_copy, behind_copy, with_answer,
  not_printed, in_wait, still, behind_wait, all_printed, to_print, at_last, Phase, writing,
  answering, answered,
}
use eltex_systems.SharedMemory.Flag.Exchange.{Reach-Phase}

-- How many steps each has to do, its waiting aside.
unfoldable pub server_rest : Server → ℕ
server_rest resetting = 71
server_rest (copying i) = 6 + (text_size - i)
server_rest ending = 5
server_rest raising = 4
server_rest reporting = 3
server_rest spinning = 2
server_rest reading = 1
server_rest left = 0

unfoldable pub client_rest : Client → ℕ
client_rest spinning = 70
client_rest reading = 69
client_rest (copying i) = 3 + (text_size - i)
client_rest ending = 3
client_rest raising = 2
client_rest reporting = 1
client_rest left = 0

abbrev pub rest : World → ℕ
rest w = server_rest w.server + client_rest w.client

server_copies :
    (i : ℕ)
    → i < text_size
    → server_rest (if i + 1 == text_size then ending else copying (i + 1)) < server_rest (copying i)
unfolding server_rest
server_copies i lt = ground arith

client_copies :
    (i : ℕ)
    → i < text_size
    → client_rest (if i + 1 == text_size then ending else copying (i + 1)) < client_rest (copying i)
unfolding client_rest
client_copies i lt = ground arith

moves :
    {w : World}
    → Phase w
    → ((rest w ≡ 0) × (server_step w ≡ w))
      ⊎ (rest (server_step w) < rest w)
      ⊎ ((server_step w ≡ w) × (rest (client_step w) < rest w))
unfolding server_step client_step server_rest client_rest
moves (writing at_reset) = inr (inl (omega arith))
moves (writing (at_byte i lt h)) = inr (inl (omega (arith, server_copies i lt)))
moves (writing (at_end h)) = inr (inl (omega arith))
moves (writing (at_flag h)) = inr (inl (omega arith))
moves (answering not_printed h) = inr (inl (omega arith))
moves (answering (in_wait x) (in_loop h)) = inr (inr (refl, omega arith))
moves (answering (in_wait x) (behind_loop h)) = inr (inr (refl, omega arith))
moves (answering (in_wait x) (in_copy i lt h)) = inr (inr (refl, omega (arith, client_copies i lt)))
moves (answering (in_wait x) (behind_copy h)) = inr (inr (refl, omega arith))
moves (answering (in_wait x) (with_answer h)) = inr (inr (refl, omega arith))
moves (answered t (still not_printed) h) = inr (inl (omega arith))
moves (answered t (still (in_wait x)) h) = inr (inl (omega arith))
moves (answered t (behind_wait x) h) = inr (inl (omega arith))
moves (answered t (all_printed x) to_print) = inr (inr (refl, omega arith))
moves (answered t (all_printed x) at_last) = inl (refl, refl)

falls : {w : World} → Phase w → rest (client_step w) ≤ rest w
unfolding client_step client_rest
falls (writing h) = omega arith
falls (answering w (in_loop h)) = omega arith
falls (answering w (behind_loop h)) = omega arith
falls (answering w (in_copy i lt h)) = omega (arith, client_copies i lt)
falls (answering w (behind_copy h)) = omega arith
falls (answering w (with_answer h)) = omega arith
falls (answered t l to_print) = omega arith
falls (answered t l at_last) = omega arith

-- A step of the server, then one of the client, `n` times.
unfoldable pub rounds : ℕ → World → World
rounds zero w = w
rounds (suc n) w = rounds n (client_step (server_step w))

pub rounds-Reach : (n : ℕ) {w : World} → Reach w → Reach (rounds n w)
unfolding rounds
rounds-Reach zero reach = reach
rounds-Reach (suc n) reach = rounds-Reach n (client_moves (server_moves reach))

round_falls :
    {w : World} (n : ℕ) → Reach w → rest w ≤ suc n → rest (client_step (server_step w)) ≤ n
round_falls {w} n reach h = elim (moves (Reach-Phase reach)) [
  | inl (done, same) ↦ rw same (omega (arith, done, falls (Reach-Phase reach)))
  | inr (inl less) ↦ omega (arith, less, falls (Reach-Phase (server_moves reach)))
  | inr (inr (same, less)) ↦ rw same (omega (arith, less))
]

rests : (n : ℕ) {w : World} → Reach w → rest w ≤ n → rest (rounds n w) ≡ 0
unfolding rounds
rests zero reach h = omega (arith, h)
rests (suc n) reach h = rests n (client_moves (server_moves reach)) (round_falls n reach h)

idle_server : (s : Server) → server_rest s ≡ 0 → s ≡ left
unfolding server_rest
idle_server resetting h = absurd (omega arith)
idle_server (copying i) h = absurd (omega arith)
idle_server ending h = absurd (omega arith)
idle_server raising h = absurd (omega arith)
idle_server reporting h = absurd (omega arith)
idle_server spinning h = absurd (omega arith)
idle_server reading h = absurd (omega arith)
idle_server left h = refl

idle_client : (c : Client) → client_rest c ≡ 0 → c ≡ left
unfolding client_rest
idle_client spinning h = absurd (omega arith)
idle_client reading h = absurd (omega arith)
idle_client (copying i) h = absurd (omega arith)
idle_client ending h = absurd (omega arith)
idle_client raising h = absurd (omega arith)
idle_client reporting h = absurd (omega arith)
idle_client left h = refl

server_rest_bound : (s : Server) → server_rest s ≤ 71
unfolding server_rest
server_rest_bound resetting = omega arith
server_rest_bound (copying i) = omega arith
server_rest_bound ending = omega arith
server_rest_bound raising = omega arith
server_rest_bound reporting = omega arith
server_rest_bound spinning = omega arith
server_rest_bound reading = omega arith
server_rest_bound left = omega arith

client_rest_bound : (c : Client) → client_rest c ≤ 70
unfolding client_rest
client_rest_bound spinning = omega arith
client_rest_bound reading = omega arith
client_rest_bound (copying i) = omega arith
client_rest_bound ending = omega arith
client_rest_bound raising = omega arith
client_rest_bound reporting = omega arith
client_rest_bound left = omega arith

-- From whatever both have come to in any interleaving, when they are given steps in turn, both are
-- through after at most 141 rounds: neither waits for ever.
pub rounds-end :
    {w : World} → Reach w → ((rounds 141 w).server ≡ left) × ((rounds 141 w).client ≡ left)
rounds-end {w} reach =
    let none_left =
      rests 141 reach (omega (arith, server_rest_bound w.server, client_rest_bound w.client)) in
    (idle_server _ (omega (arith, none_left)), idle_client _ (omega (arith, none_left)))
