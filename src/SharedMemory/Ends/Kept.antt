-- ===== src/SharedMemory/Ends/Kept.antt =====
-- What the programs of `shared_memory` leave behind, on every exit.
use eltex_systems.Base.{◌≡◌, refl, Bool, true, false, List, [], ◌∷◌, if◌then◌else◌, ◌&&◌, not}
use eltex_systems.SharedMemory.Ends.{
  Object, segment, semaphore, mapping, descriptor, Effect, creates, releases, sizes, initialises,
  exchange, running, joins, SysvAnswers, PosixAnswers, ChatAnswers, server_sysv, server_posix,
  chat_server,
}

abbrev same_object : Object → Object → Bool
same_object segment segment = true
same_object semaphore semaphore = true
same_object mapping mapping = true
same_object descriptor descriptor = true
same_object a b = false

-- Whether the object is there after the effects, when it was there before them or not.
unfoldable pub kept : Object → Bool → List Effect → Bool
kept o b [] = b
kept o b (creates p ∷ es) = kept o (if same_object o p then true else b) es
kept o b (releases p ∷ es) = kept o (if same_object o p then false else b) es
kept o b (sizes ∷ es) = kept o b es
kept o b (initialises ∷ es) = kept o b es
kept o b (exchange ∷ es) = kept o b es
kept o b (running r ∷ es) = kept o b es
kept o b (joins n ∷ es) = kept o b es

chat_server_cases :
    (shmget shmat semget setval shmdt shm_rmid sem_rmid : Bool)
    → (let a : ChatAnswers = record {
      shmget = shmget;
      shmat = shmat;
      semget = semget;
      setval = setval;
      shmdt = shmdt;
      shm_rmid = shm_rmid;
      sem_rmid = sem_rmid;
    } in
        (((chat_server a).1 ≡ (if a.shmget && a.shmat && a.semget && a.setval then 0 else 1))
          × (kept segment false (chat_server a).0
              ≡ (a.shmget && not (a.shmat && a.semget && a.setval && a.shm_rmid)))
          × (kept semaphore false (chat_server a).0
              ≡ (a.shmget && a.shmat && a.semget && not (a.setval && a.sem_rmid)))))
unfolding chat_server kept
chat_server_cases false shmat semget setval shmdt shm_rmid sem_rmid = (refl, refl, refl)
chat_server_cases true false semget setval shmdt shm_rmid sem_rmid = (refl, refl, refl)
chat_server_cases true true false setval shmdt shm_rmid sem_rmid = (refl, refl, refl)
chat_server_cases true true true false shmdt shm_rmid sem_rmid = (refl, refl, refl)
chat_server_cases true true true true true true true = (refl, refl, refl)
chat_server_cases true true true true true true false = (refl, refl, refl)
chat_server_cases true true true true true false true = (refl, refl, refl)
chat_server_cases true true true true true false false = (refl, refl, refl)
chat_server_cases true true true true false true true = (refl, refl, refl)
chat_server_cases true true true true false true false = (refl, refl, refl)
chat_server_cases true true true true false false true = (refl, refl, refl)
chat_server_cases true true true true false false false = (refl, refl, refl)

-- The server of the chat, on every exit: it returns 0 exactly when the four calls of its start
-- succeed; behind `shmget` the segment stays unless the whole start and its removal succeed, and
-- behind `semget` the semaphore stays unless `SETVAL` and its removal succeed.
pub chat_server-kept :
    (a : ChatAnswers)
    → ((chat_server a).1 ≡ (if a.shmget && a.shmat && a.semget && a.setval then 0 else 1))
      × (kept segment false (chat_server a).0
          ≡ (a.shmget && not (a.shmat && a.semget && a.setval && a.shm_rmid)))
      × (kept semaphore false (chat_server a).0
          ≡ (a.shmget && a.shmat && a.semget && not (a.setval && a.sem_rmid)))
chat_server-kept a =
    chat_server_cases a.shmget a.shmat a.semget a.setval a.shmdt a.shm_rmid a.sem_rmid

server_posix_cases :
    (shm_open ftruncate mmap munmap shm_unlink : Bool)
    → (let a : PosixAnswers = record {
      shm_open = shm_open;
      ftruncate = ftruncate;
      mmap = mmap;
      munmap = munmap;
      shm_unlink = shm_unlink;
    } in
        (((server_posix a).1 ≡ (if a.shm_open && a.ftruncate && a.mmap then 0 else 1))
          × (kept segment false (server_posix a).0
              ≡ (a.shm_open && not (a.ftruncate && a.mmap && a.shm_unlink)))
          × (kept descriptor false (server_posix a).0
              ≡ (a.shm_open && not (a.ftruncate && a.mmap)))))
unfolding server_posix kept
server_posix_cases false ftruncate mmap munmap shm_unlink = (refl, refl, refl)
server_posix_cases true false mmap munmap shm_unlink = (refl, refl, refl)
server_posix_cases true true false munmap shm_unlink = (refl, refl, refl)
server_posix_cases true true true true true = (refl, refl, refl)
server_posix_cases true true true true false = (refl, refl, refl)
server_posix_cases true true true false true = (refl, refl, refl)
server_posix_cases true true true false false = (refl, refl, refl)

-- The POSIX server of the demonstration, on every exit: it returns 0 exactly when the three calls of
-- its start succeed; behind `shm_open` the name stays unless these and `shm_unlink` succeed, and the
-- descriptor stays open exactly when `ftruncate` or `mmap` fails.
pub server_posix-kept :
    (a : PosixAnswers)
    → ((server_posix a).1 ≡ (if a.shm_open && a.ftruncate && a.mmap then 0 else 1))
      × (kept segment false (server_posix a).0
          ≡ (a.shm_open && not (a.ftruncate && a.mmap && a.shm_unlink)))
      × (kept descriptor false (server_posix a).0 ≡ (a.shm_open && not (a.ftruncate && a.mmap)))
server_posix-kept a = server_posix_cases a.shm_open a.ftruncate a.mmap a.munmap a.shm_unlink

server_sysv_cases :
    (shmget shmat shmdt rmid : Bool)
    → (let a : SysvAnswers = record {
      shmget = shmget;
      shmat = shmat;
      shmdt = shmdt;
      rmid = rmid;
    } in
        (((server_sysv a).1 ≡ (if a.shmget && a.shmat then 0 else 1))
          × (kept segment false (server_sysv a).0 ≡ (a.shmget && not (a.shmat && a.rmid)))
          × (kept mapping false (server_sysv a).0 ≡ (a.shmget && a.shmat && not a.shmdt))))
unfolding server_sysv kept
server_sysv_cases false shmat shmdt rmid = (refl, refl, refl)
server_sysv_cases true false shmdt rmid = (refl, refl, refl)
server_sysv_cases true true true true = (refl, refl, refl)
server_sysv_cases true true true false = (refl, refl, refl)
server_sysv_cases true true false true = (refl, refl, refl)
server_sysv_cases true true false false = (refl, refl, refl)

-- The System V server of the demonstration, on every exit.
server_sysv-kept :
    (a : SysvAnswers)
    → ((server_sysv a).1 ≡ (if a.shmget && a.shmat then 0 else 1))
      × (kept segment false (server_sysv a).0 ≡ (a.shmget && not (a.shmat && a.rmid)))
      × (kept mapping false (server_sysv a).0 ≡ (a.shmget && a.shmat && not a.shmdt))
server_sysv-kept a = server_sysv_cases a.shmget a.shmat a.shmdt a.rmid
