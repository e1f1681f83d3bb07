-- ===== src/Tests/Segments.antt =====
-- The demonstrations of shared memory, and the ends of their programs.
use eltex_systems.Base.{ℕ, zero, suc, ◌≡◌, refl, true, false, List, [], ◌∷◌, ◌⊎◌}
use eltex_systems.SharedMemory.Flag.{
  World, left, sent, received, hi, hello, begun, start, Reach, server_moves, client_moves,
  server_step, client_step, printed, bytes_from,
}
use eltex_systems.Base.Text.{c_string}
use eltex_systems.SharedMemory.Flag.Exchange
use eltex_systems.SharedMemory.Flag.Progress.{rounds, rounds-Reach, rounds-end}
use eltex_systems.SharedMemory.Ends.{
  segment, semaphore, descriptor, ChatAnswers, PosixAnswers, chat_server, server_posix,
}
use eltex_systems.SharedMemory.Ends.Kept.{kept, chat_server-kept, server_posix-kept}

abbrev through : World
through = rounds 141 begun

left_exchanged_example :
    (x : List ℕ) × (through.server_lines ≡ sent x ∷ received hello ∷ [])
    × ((through.client_lines ≡ received hi ∷ [])
        ⊎ (through.client_lines ≡ received hi ∷ sent hello ∷ []))
left_exchanged_example = Exchange.left_exchanged (rounds-Reach 141 start) (rounds-end start).0

rounds-end_example :
    ((rounds 141 (rounds 5 begun)).server ≡ left) × ((rounds 141 (rounds 5 begun)).client ≡ left)
rounds-end_example = rounds-end (rounds-Reach 5 start)

abbrev no_semaphore : ChatAnswers
no_semaphore = record {
  shmget = true;
  shmat = true;
  semget = false;
  setval = true;
  shmdt = true;
  shm_rmid = true;
  sem_rmid = true;
}

chat_server-kept_example :
    ((chat_server no_semaphore).1 ≡ 1)
    × (kept segment false (chat_server no_semaphore).0 ≡ true)
    × (kept semaphore false (chat_server no_semaphore).0 ≡ false)
chat_server-kept_example = chat_server-kept no_semaphore

abbrev no_size : PosixAnswers
no_size = record {
  shm_open = true;
  ftruncate = false;
  mmap = true;
  munmap = true;
  shm_unlink = true;
}

server_posix-kept_example :
    ((server_posix no_size).1 ≡ 1)
    × (kept segment false (server_posix no_size).0 ≡ true)
    × (kept descriptor false (server_posix no_size).0 ≡ true)
server_posix-kept_example = server_posix-kept no_size

unfoldable servers : ℕ → World → World
servers zero w = w
servers (suc n) w = servers n (server_step w)

unfoldable clients : ℕ → World → World
clients zero w = w
clients (suc n) w = clients n (client_step w)

servers-Reach : (n : ℕ) {w : World} → Reach w → Reach (servers n w)
unfolding servers
servers-Reach zero h = h
servers-Reach (suc n) h = servers-Reach n (server_moves h)

clients-Reach : (n : ℕ) {w : World} → Reach w → Reach (clients n w)
unfolding clients
clients-Reach zero h = h
clients-Reach (suc n) h = clients-Reach n (client_moves h)

-- The server sets the flag, the client answers, and only then the server prints what it sent.
abbrev overtaken : World
overtaken = servers 3 (clients 70 (servers 67 begun))

overtaken-Reach : Reach overtaken
overtaken-Reach = servers-Reach 3 (clients-Reach 70 (servers-Reach 67 start))

overtaken_lines : overtaken.server_lines ≡ sent hello ∷ received hello ∷ []
unfolding servers clients server_step client_step printed bytes_from c_string
overtaken_lines = refl
