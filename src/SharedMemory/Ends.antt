-- ===== src/SharedMemory/Ends.antt =====
-- The `main` functions of `shared_memory`: what each creates, in which order it gives it back, and
-- with what it returns. A call that fails creates or gives back nothing.

pub mod Kept
use eltex_systems.Base.{
  ℕ, Bool, true, false, List, [], ◌∷◌, ◌++◌, Option, none, some, if◌then◌else◌, ◌==◌,
}
use eltex_systems.Base.Text.{c_string}

-- A shared memory segment (or its name), a semaphore, a mapping of the segment, a descriptor.
pub data Object : Type 0 where
  segment semaphore mapping descriptor : Object

-- What is done in order; `running` writes `server_running`, `exchange` is what the process does with
-- its mapping in between, and `joins` is the part of the client under the lock.
pub data Effect : Type 0 where
  creates releases : Object → Effect
  sizes initialises exchange : Effect
  running : Bool → Effect
  joins : List ℕ → Effect

abbrev pub effect_if : Bool → Effect → List Effect
effect_if true e = e ∷ []
effect_if false e = []

-- Which calls of `server_sysv.c` and `client_sysv.c` succeed.
pub record SysvAnswers : Type 0 where
  pub shmget : Bool
  pub shmat : Bool
  pub shmdt : Bool
  pub rmid : Bool

-- `main` of `server_sysv.c`.
unfoldable pub server_sysv : SysvAnswers → List Effect × ℕ
server_sysv a = elim a.shmget [
  | false ↦ ([], 1)
  | true ↦ elim a.shmat [
    | false ↦ (creates segment ∷ [], 1)
    | true ↦ (
      creates segment
          ∷ creates mapping
          ∷ exchange
          ∷ (effect_if a.shmdt (releases mapping) ++ effect_if a.rmid (releases segment)),
      0,
    )
  ]
]

-- `main` of `client_sysv.c`, which creates no segment.
unfoldable pub client_sysv : SysvAnswers → List Effect × ℕ
client_sysv a = elim a.shmget [
  | false ↦ ([], 1)
  | true ↦ elim a.shmat [
    | false ↦ ([], 1)
    | true ↦ (creates mapping ∷ exchange ∷ effect_if a.shmdt (releases mapping), 0)
  ]
]

pub record PosixAnswers : Type 0 where
  pub shm_open : Bool
  pub ftruncate : Bool
  pub mmap : Bool
  pub munmap : Bool
  pub shm_unlink : Bool

-- `main` of `server_posix.c`.
unfoldable pub server_posix : PosixAnswers → List Effect × ℕ
server_posix a = elim a.shm_open [
  | false ↦ ([], 1)
  | true ↦ elim a.ftruncate [
    | false ↦ (creates segment ∷ creates descriptor ∷ [], 1)
    | true ↦ elim a.mmap [
      | false ↦ (creates segment ∷ creates descriptor ∷ sizes ∷ [], 1)
      | true ↦ (
        creates segment
            ∷ creates descriptor
            ∷ sizes
            ∷ creates mapping
            ∷ releases descriptor
            ∷ exchange
            ∷ (effect_if a.munmap (releases mapping) ++ effect_if a.shm_unlink (releases segment)),
        0,
      )
    ]
  ]
]

-- `main` of `client_posix.c`.
unfoldable pub client_posix : PosixAnswers → List Effect × ℕ
client_posix a = elim a.shm_open [
  | false ↦ ([], 1)
  | true ↦ elim a.mmap [
    | false ↦ (creates descriptor ∷ [], 1)
    | true ↦ (
      creates descriptor
          ∷ creates mapping
          ∷ releases descriptor
          ∷ exchange
          ∷ effect_if a.munmap (releases mapping),
      0,
    )
  ]
]

-- Which calls of the chat succeed: those of the start, and those of the end.
pub record ChatAnswers : Type 0 where
  pub shmget : Bool
  pub shmat : Bool
  pub semget : Bool
  pub setval : Bool
  pub shmdt : Bool
  pub shm_rmid : Bool
  pub sem_rmid : Bool

-- `main` of `chat_server.c`; it waits for a `q` or the end of the input in between.
unfoldable pub chat_server : ChatAnswers → List Effect × ℕ
chat_server a = elim a.shmget [
  | false ↦ ([], 1)
  | true ↦ elim a.shmat [
    | false ↦ (creates segment ∷ [], 1)
    | true ↦
        let begun = creates segment ∷ creates mapping ∷ running true ∷ [] in
        elim a.semget [
          | false ↦ (begun, 1)
          | true ↦ elim a.setval [
            | false ↦ (begun ++ (creates semaphore ∷ []), 1)
            | true ↦ (
              begun
                  ++ (creates semaphore
                      ∷ initialises
                      ∷ running false
                      ∷ (effect_if a.shmdt (releases mapping)
                          ++ (effect_if a.shm_rmid (releases segment)
                              ++ effect_if a.sem_rmid (releases semaphore)))),
              0,
            )
          ]
        ]
  ]
]

-- `g_name` without the newline that `fgets` leaves at its end.
unfoldable pub without_newline : List ℕ → List ℕ
without_newline [] = []
without_newline (b ∷ []) = if b == 10 then [] else b ∷ []
without_newline (b ∷ (c ∷ cs)) = b ∷ without_newline (c ∷ cs)

-- `main` of `chat_client.c`, with what `fgets` read.
unfoldable pub chat_client : Option (List ℕ) → ChatAnswers → List Effect × ℕ
chat_client none a = ([], 1)
chat_client (some line) a = elim a.shmget [
  | false ↦ ([], 1)
  | true ↦ elim a.shmat [
    | false ↦ ([], 1)
    | true ↦ elim a.semget [
      | false ↦ (creates mapping ∷ [], 1)
      | true ↦ (
        creates mapping
            ∷ joins (without_newline (c_string line))
            ∷ exchange
            ∷ effect_if a.shmdt (releases mapping),
        0,
      )
    ]
  ]
]
