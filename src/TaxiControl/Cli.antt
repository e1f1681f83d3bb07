-- ===== src/TaxiControl/Cli.antt =====
-- The command line of `taxi_control/main.c`: the table of drivers and the functions that change it.
-- A function that the source gives the global table returns the new one, with its effects in order.

pub mod Poll
pub mod Commands
pub mod Descriptors
pub mod Balance
pub mod Walked
pub mod Ran
pub mod Round
pub mod Loop
use eltex_systems.Base.{
  ℕ, ◌+◌, ◌*◌, ◌&&◌, Bool, true, false, List, [], ◌∷◌, ◌++◌, Option, none, some, ltb, ◌==◌,
  if◌then◌else◌, length,
}
use eltex_systems.Base.Text.{codes}
use eltex_systems.Base.Decimal.{decimal}

-- `driver_t`; an `fd` of -1 is `none`.
pub record Entry : Type 0 where
  pub pid : ℕ
  pub fd : Option ℕ
  pub alive : Bool

-- `drivers`, its `drivers_n` entries, and `drivers_cap`.
pub record Table : Type 0 where
  pub entries : List Entry
  pub cap : ℕ

-- What the command line prints.
pub data Line : Type 0 where
  created : ℕ → Line
  no_such_driver driver_dead send_failed bad_args unknown_command : Line
  usage_send_task usage_get_status : Line
  says : ℕ → List ℕ → Line

pub data Effect : Type 0 where
  print : Line → Effect
  socketpair : ℕ → Effect  -- the parent's end, once the child runs
  send : ℕ → List ℕ → Effect
  close : ℕ → Effect

-- What `send` to a descriptor returns: fine, EPIPE or ECONNRESET, another error.
pub data Sent : Type 0 where
  sent gone failed : Sent

-- `drivers_push`: the table grows by doubling, from 8; `none` is the end of the program, where
-- `realloc` fails.
unfoldable pub drivers_push : Bool → Table → ℕ → ℕ → Option Table
drivers_push realloc_ok t pid fd =
    let entry : Entry = record { pid = pid; fd = some fd; alive = true } in
    if length t.entries == t.cap
    then (if realloc_ok
        then some (record {
          entries = t.entries ++ (entry ∷ []);
          cap = if t.cap == 0 then 8 else t.cap * 2;
        })
        else none)
    else some (record t { entries = t.entries ++ (entry ∷ []) })

-- `close (d->fd)` where the code closes without a test; a descriptor of -1 changes nothing.
abbrev pub close_fd : Option ℕ → List Effect
close_fd none = []
close_fd (some fd) = close fd ∷ []

abbrev pub dead : Entry → Entry
dead d = record d { alive = false; fd = none }

-- A function of one entry, applied to the first entry with the pid (`find_driver`), with what is
-- returned where there is none.
unfoldable pub at_pid :
    ℕ → List Effect → (Entry → Entry × List Effect) → List Entry → List Entry × List Effect
at_pid pid missing f [] = ([], missing)
at_pid pid missing f (d ∷ ds) =
    let (ds', effects) = at_pid pid missing f ds in
    let (d', effects') = f d in if d.pid == pid then (d' ∷ ds, effects') else (d ∷ ds', effects)

-- The loop of `reap_children` over the table, for one process that ended.
unfoldable pub reap : ℕ → List Entry → List Entry × List Effect
reap pid [] = ([], [])
reap pid (d ∷ ds) =
    let (ds', effects) = reap pid ds in
    if d.alive && d.pid == pid then (dead d ∷ ds, close_fd d.fd) else (d ∷ ds', effects)

-- `reap_children`, for the processes that `waitpid` returns in turn.
unfoldable pub reap_children : List ℕ → List Entry → List Entry × List Effect
reap_children [] ds = (ds, [])
reap_children (pid ∷ pids) ds =
    let (ds', effects) = reap pid ds in
    let (ds'', effects') = reap_children pids ds' in (ds'', effects ++ effects')

-- `send_cmd` to an entry. `net` is what `send` returns on each descriptor.
unfoldable pub send_cmd : (ℕ → Sent) → List ℕ → Entry → Entry × List Effect
send_cmd net cmd d = elim d.alive [
  | false ↦ (d, print no_such_driver ∷ [])
  | true ↦ elim d.fd [
    | none ↦ (d, print send_failed ∷ [])
    | some fd ↦ elim (net fd) [
      | sent ↦ (d, send fd cmd ∷ [])
      | gone ↦ (dead d, send fd cmd ∷ print driver_dead ∷ close fd ∷ [])
      | failed ↦ (d, send fd cmd ∷ print send_failed ∷ [])
    ]
  ]
]

-- What `recv` returns in `handle_driver_readable`, in turn; the list ends where it would block.
pub data Received : Type 0 where
  again : Received
  ended : Received  -- 0, or an error
  message : List ℕ → Received

unfoldable pub handle_driver_readable : List Received → Entry → Entry × List Effect
handle_driver_readable [] d = (d, [])
handle_driver_readable (again ∷ rs) d = (d, [])
handle_driver_readable (ended ∷ rs) d = (dead d, close_fd d.fd)
handle_driver_readable (message m ∷ rs) d =
    let (d', effects) = handle_driver_readable rs d in (d', print (says d.pid m) ∷ effects)

unfoldable pub cmd_send_task : (ℕ → Sent) → ℕ → ℕ → List Entry → List Entry × List Effect
cmd_send_task net pid sec =
    at_pid pid (print no_such_driver ∷ []) (send_cmd net (codes "TASK " ++ decimal sec))

unfoldable pub cmd_get_status : (ℕ → Sent) → ℕ → List Entry → List Entry × List Effect
cmd_get_status net pid = at_pid pid (print no_such_driver ∷ []) (send_cmd net (codes "STATUS"))

unfoldable pub cmd_get_drivers : (ℕ → Sent) → List Entry → List Entry × List Effect
cmd_get_drivers net [] = ([], [])
cmd_get_drivers net (d ∷ ds) =
    let (ds', effects') = cmd_get_drivers net ds in
    elim d.alive [
      | false ↦ (d ∷ ds', effects')
      | true ↦
          let (d', effects) = send_cmd net (codes "STATUS") d in (d' ∷ ds', effects ++ effects')
    ]

-- The first loop of `shutdown_all`: the farewells.
unfoldable pub quit_all : List Entry → List Effect
quit_all [] = []
quit_all (d ∷ ds) = elim d.alive [
  | false ↦ quit_all ds
  | true ↦ elim d.fd [ none ↦ quit_all ds | some fd ↦ send fd (codes "QUIT") ∷ quit_all ds ]
]

-- Its second loop.
unfoldable pub close_all : List Entry → List Entry × List Effect
close_all [] = ([], [])
close_all (d ∷ ds) = let (ds', effects) = close_all ds in (dead d ∷ ds', close_fd d.fd ++ effects)

unfoldable pub shutdown_all : List Entry → List Entry × List Effect
shutdown_all ds = let (ds', effects) = close_all ds in (ds', quit_all ds ++ effects)
