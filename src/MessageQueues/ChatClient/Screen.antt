-- ===== src/MessageQueues/ChatClient/Screen.antt =====
-- The two threads of the client of the chat and the lock of the screen, which the main thread
-- holds while it waits for a line.
use eltex_systems.Base.{ℕ, ◌≡◌, refl, ◌∙◌, List, [], ◌∷◌, ◌++◌}
use eltex_systems.MessageQueues.ChatServer.{ChatMsg}
use eltex_systems.MessageQueues.ChatClient.{shown}

-- Where the main thread is: in front of the lock, or inside it at `wgetnstr`.
pub data Typist : Type 0 where
  outside reading : Typist

-- Where the receiver is: in `mq_receive`, in front of the lock with a message, inside it, or
-- inside it with the message printed.
pub data Receiver : Type 0 where
  waiting : Receiver
  pending drawing : ChatMsg → Receiver
  drawn : Receiver

pub data Lock : Type 0 where
  unlocked of_main of_receiver : Lock

pub record Threads : Type 0 where
  pub main : Typist
  pub receiver : Receiver
  pub lock : Lock
  pub printed : List (List ℕ)

abbrev pub begun : Threads
begun = record { main = outside; receiver = waiting; lock = unlocked; printed = [] }

-- A step of a thread, in the order of its code; the lock is taken only when it is unlocked.
pub data Step : Threads → Threads → Type 0 where
  lock_main :
      (r : Receiver) (p : List (List ℕ))
      → Step
          (record { main = outside; receiver = r; lock = unlocked; printed = p })
          (record { main = reading; receiver = r; lock = of_main; printed = p })
  line_typed :
      (r : Receiver) (l : Lock) (p : List (List ℕ))
      → Step
          (record { main = reading; receiver = r; lock = l; printed = p })
          (record { main = outside; receiver = r; lock = unlocked; printed = p })
  received :
      (t : Typist) (l : Lock) (p : List (List ℕ)) (m : ChatMsg)
      → Step
          (record { main = t; receiver = waiting; lock = l; printed = p })
          (record { main = t; receiver = pending m; lock = l; printed = p })
  lock_receiver :
      (t : Typist) (p : List (List ℕ)) (m : ChatMsg)
      → Step
          (record { main = t; receiver = pending m; lock = unlocked; printed = p })
          (record { main = t; receiver = drawing m; lock = of_receiver; printed = p })
  print :
      (t : Typist) (l : Lock) (p : List (List ℕ)) (m : ChatMsg)
      → Step
          (record { main = t; receiver = drawing m; lock = l; printed = p })
          (record { main = t; receiver = drawn; lock = l; printed = p ++ (shown m ∷ []) })
  unlock_receiver :
      (t : Typist) (l : Lock) (p : List (List ℕ))
      → Step
          (record { main = t; receiver = drawn; lock = l; printed = p })
          (record { main = t; receiver = waiting; lock = unlocked; printed = p })

-- The states that the threads come to from the start.
pub data Reach : Threads → Type 0 where
  start : Reach begun
  later : {t u : Threads} → Reach t → Step t u → Reach u

-- Any steps of both threads before the line is typed.
pub data Waits : Threads → Threads → Type 0 where
  stay : (s : Threads) → Waits s s
  still : {s t u : Threads} → Waits s t → Step t u → u.main ≡ reading → Waits s u

-- The lock belongs to the thread that is inside, and only one is.
abbrev IsLocked : Typist → Receiver → Lock → Type 0
IsLocked outside waiting l = l ≡ unlocked
IsLocked outside (pending m) l = l ≡ unlocked
IsLocked outside (drawing m) l = l ≡ of_receiver
IsLocked outside drawn l = l ≡ of_receiver
IsLocked reading waiting l = l ≡ of_main
IsLocked reading (pending m) l = l ≡ of_main
IsLocked reading (drawing m) l = ⊥
IsLocked reading drawn l = ⊥

Step-IsLocked :
    {t u : Threads}
    → Step t u
    → IsLocked t.main t.receiver t.lock
    → IsLocked u.main u.receiver u.lock
Step-IsLocked (lock_main waiting p) h = refl
Step-IsLocked (lock_main (pending m) p) h = refl
Step-IsLocked (lock_main (drawing m) p) h = absurd (cc)
Step-IsLocked (lock_main drawn p) h = absurd (cc)
Step-IsLocked (line_typed waiting l p) h = refl
Step-IsLocked (line_typed (pending m) l p) h = refl
Step-IsLocked (line_typed (drawing m) l p) h = elim h [ ]
Step-IsLocked (line_typed drawn l p) h = elim h [ ]
Step-IsLocked (received outside l p m) h = h
Step-IsLocked (received reading l p m) h = h
Step-IsLocked (lock_receiver outside p m) h = refl
Step-IsLocked (lock_receiver reading p m) h = absurd (cc)
Step-IsLocked (print outside l p m) h = h
Step-IsLocked (print reading l p m) h = elim h [ ]
Step-IsLocked (unlock_receiver outside l p) h = refl
Step-IsLocked (unlock_receiver reading l p) h = elim h [ ]

Reach-IsLocked : {t : Threads} → Reach t → IsLocked t.main t.receiver t.lock
Reach-IsLocked start = refl
Reach-IsLocked (later r s) = Step-IsLocked s (Reach-IsLocked r)

step_quiet :
    {t u : Threads}
    → Step t u
    → t.main ≡ reading
    → IsLocked t.main t.receiver t.lock
    → u.printed ≡ t.printed
step_quiet (lock_main r p) e h = refl
step_quiet (line_typed r l p) e h = refl
step_quiet (received t l p m) e h = refl
step_quiet (lock_receiver t p m) e h = refl
step_quiet (print outside l p m) e h = absurd (cc)
step_quiet (print reading l p m) e h = elim h [ ]
step_quiet (unlock_receiver t l p) e h = refl

Waits-keeps :
    {s t : Threads}
    → Waits s t
    → s.main ≡ reading
    → IsLocked s.main s.receiver s.lock
    → (t.main ≡ reading) × IsLocked t.main t.receiver t.lock × (t.printed ≡ s.printed)
Waits-keeps (stay s) e h = (e, h, refl)
Waits-keeps (still w step at) e h =
    let (before, locked, same) = Waits-keeps w e h in
    (at, Step-IsLocked step locked, step_quiet step before locked ∙ same)

-- From any state that the threads of the client come to, with the main thread at `wgetnstr`: as
-- long as the line is not typed, whatever arrives and whatever steps the threads take, nothing is
-- printed, and the main thread has the lock.
pub Waits-silent :
    {s t : Threads}
    → Reach s
    → s.main ≡ reading
    → Waits s t
    → (t.printed ≡ s.printed) × (t.lock ≡ of_main)
Waits-silent {s = s} {t = t} r e w =
    let (at, locked, same) = Waits-keeps w e (Reach-IsLocked r) in
    (same, owner t.main t.receiver t.lock at locked)
  where
    owner : (m : Typist) (r : Receiver) (l : Lock) → m ≡ reading → IsLocked m r l → l ≡ of_main
    owner outside r l e h = absurd (cc)
    owner reading waiting l e h = h
    owner reading (pending m) l e h = h
    owner reading (drawing m) l e h = elim h [ ]
    owner reading drawn l e h = elim h [ ]
