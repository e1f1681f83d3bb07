-- ===== src/TaxiControl/Cli/Ran.antt =====
-- The commands leave the sockets of the drivers balanced: what was held or opened is held afterwards
-- or closed.
use eltex_systems.Base.{
  branches, ℕ, ◌+◌, ◌≡◌, refl, ◌||◌, Bool, true, List, [], ◌∷◌, ◌++◌, Option, none, some, arith,
  if◌then◌else◌,
}
use eltex_systems.Base.Int.{ℤ, pos, negsuc, nonpositive}
use eltex_systems.Base.Text.{codes, same_bytes}
use eltex_systems.TaxiControl.Cli.{
  Entry, Table, Line, print, socketpair, created, bad_args, usage_get_status, Sent, drivers_push,
  cmd_get_status,
}
use eltex_systems.TaxiControl.Cli.Commands.{
  Fork, Run, going, leaving, died, run_line, run_command, next_tok, number, cmd_create_driver,
  with_entries, send_args, send_checked, run_send_task, run_get_status,
}
use eltex_systems.TaxiControl.Cli.Poll.{pushed_entries}
use eltex_systems.TaxiControl.Cli.Descriptors.{
  Balanced, IsConsistent, is_open, fd_is, held, closed, opened, keep-Balanced,
}
use eltex_systems.TaxiControl.Cli.Balance.{
  cmd_send_task-Balanced, cmd_get_status-Balanced, cmd_get_drivers-Balanced,
}

-- A command leaves the sockets balanced where the program goes on.
abbrev pub Ran : Table → Run → Type 0
Ran t (going t' effects) = Balanced t.entries (t'.entries, effects)
Ran t leaving = Unit
Ran t died = Unit

say-Balanced : (ds : List Entry) (l : Line) → Balanced ds (ds, print l ∷ [])
say-Balanced ds l = record {
  consistent = λ h. h;
  balance = λ fd. unfold closed opened in omega arith;
}

held-append : (fd : ℕ) (ds es : List Entry) → held fd (ds ++ es) ≡ held fd ds + held fd es
unfolding held
held-append fd [] es = omega arith
held-append fd (d ∷ ds) es = omega (arith, held-append fd ds es)

snoc-IsConsistent :
    (ds : List Entry) (d : Entry)
    → IsConsistent ds
    → d.alive ≡ is_open d.fd
    → IsConsistent (ds ++ (d ∷ []))
snoc-IsConsistent [] d h one = (one, tt)
snoc-IsConsistent (e ∷ ds) d h one = (h.0, snoc-IsConsistent ds d h.1 one)

create-Ran :
    (t t' : Table) (realloc_ok : Bool) (pid fd : ℕ)
    → drivers_push realloc_ok t pid fd ≡ some t'
    → Balanced t.entries (t'.entries, socketpair fd ∷ print (created pid) ∷ [])
create-Ran t t' realloc_ok pid fd pushed =
    let entry : Entry = record { pid = pid; fd = some fd; alive = true } in
    let grown = pushed_entries t realloc_ok pid fd pushed in
    record {
      consistent = λ h. rw grown (snoc-IsConsistent t.entries entry h refl);
      balance = λ e.
          unfold closed opened in
          rw grown (
            let one : held e (entry ∷ []) ≡ fd_is e (some fd) = unfold held in omega arith in
            omega (arith, held-append e t.entries (entry ∷ []), one));
    }

pushed-Ran :
    (t : Table) (pid fd : ℕ) (o : Option Table)
    → ((t' : Table)
        → o ≡ some t'
        → Balanced t.entries (t'.entries, socketpair fd ∷ print (created pid) ∷ []))
    → Ran t (elim o [ none ↦ died | some t' ↦ going t' (socketpair fd ∷ print (created pid) ∷ []) ])
pushed-Ran t pid fd none h = tt
pushed-Ran t pid fd (some t') h = h t' refl

forked-Ran :
    (t : Table) (realloc_ok : Bool) (o : Option (ℕ × ℕ))
    → Ran t (elim o [
      | none ↦ died
      | some (pid, fd) ↦ elim (drivers_push realloc_ok t pid fd) [
        | none ↦ died
        | some t' ↦ going t' (socketpair fd ∷ print (created pid) ∷ [])
      ]
    ])
forked-Ran t realloc_ok none = tt
forked-Ran t realloc_ok (some (pid, fd)) =
    pushed-Ran t pid fd (drivers_push realloc_ok t pid fd)
      (λ t' e. create-Ran t t' realloc_ok pid fd e)

cmd_create_driver-Ran : (f : Fork) (t : Table) → Ran t (cmd_create_driver f t)
unfolding cmd_create_driver
cmd_create_driver-Ran f t = forked-Ran t f.realloc_ok f.child

send_checked-Ran : (net : ℕ → Sent) (t : Table) (pid sec : ℤ) → Ran t (send_checked net t pid sec)
unfolding send_checked
send_checked-Ran net t (pos pid) (pos sec) =
    branches (Ran t) (nonpositive (pos pid) || nonpositive (pos sec)) (say-Balanced _ _)
      (cmd_send_task-Balanced net pid sec t.entries)
send_checked-Ran net t (pos pid) (negsuc sec) = say-Balanced _ _
send_checked-Ran net t (negsuc pid) sec = say-Balanced _ _

send_args-Ran :
    (net : ℕ → Sent) (t : Table) (spid st : Option (List ℕ)) → Ran t (send_args net t spid st)
send_args-Ran net t none st = say-Balanced _ _
send_args-Ran net t (some spid) none = say-Balanced _ _
send_args-Ran net t (some spid) (some st) = send_checked-Ran net t (number spid) (number st)

status_checked-Ran :
    (net : ℕ → Sent) (t : Table) (x : ℤ)
    → Ran t (elim x [
      | negsuc n ↦ going t (print bad_args ∷ [])
      | pos pid ↦
          if nonpositive (pos pid)
          then going t (print bad_args ∷ [])
          else with_entries t (cmd_get_status net pid t.entries)
    ])
status_checked-Ran net t (negsuc n) = say-Balanced _ _
status_checked-Ran net t (pos pid) =
    branches (Ran t) (nonpositive (pos pid)) (say-Balanced _ _)
      (cmd_get_status-Balanced net pid t.entries)

status_args-Ran :
    (net : ℕ → Sent) (t : Table) (o : Option (List ℕ))
    → Ran t (elim o [
      | none ↦ going t (print usage_get_status ∷ [])
      | some spid ↦ elim (number spid) [
        | negsuc n ↦ going t (print bad_args ∷ [])
        | pos pid ↦
            if nonpositive (pos pid)
            then going t (print bad_args ∷ [])
            else with_entries t (cmd_get_status net pid t.entries)
      ]
    ])
status_args-Ran net t none = say-Balanced _ _
status_args-Ran net t (some spid) = status_checked-Ran net t (number spid)

run_get_status-Ran :
    (net : ℕ → Sent) (t : Table) (text : List ℕ) → Ran t (run_get_status net t text)
unfolding run_get_status
run_get_status-Ran net t text = status_args-Ran net t (next_tok text).0

run_command-Ran :
    (f : Fork) (net : ℕ → Sent) (t : Table) (text c : List ℕ) → Ran t (run_command f net t text c)
unfolding run_command run_send_task
run_command-Ran f net t text c =
    branches (Ran t) (same_bytes c (codes "create_driver")) (cmd_create_driver-Ran f t) (
      branches (Ran t) (same_bytes c (codes "send_task"))
        (send_args-Ran net t (next_tok text).0 (next_tok (next_tok text).1).0)
        (branches (Ran t) (same_bytes c (codes "get_status")) (run_get_status-Ran net t text) (
          branches (Ran t) (same_bytes c (codes "get_drivers"))
            (cmd_get_drivers-Balanced net t.entries)
            (branches (Ran t) (same_bytes c (codes "exit") || same_bytes c (codes "quit")) tt
              (say-Balanced _ _)))))

chosen-Ran :
    (f : Fork) (net : ℕ → Sent) (t : Table) (text : List ℕ) (cmd : Option (List ℕ))
    → Ran t (elim cmd [ none ↦ going t [] | some c ↦ run_command f net t text c ])
chosen-Ran f net t text none = keep-Balanced t.entries
chosen-Ran f net t text (some c) = run_command-Ran f net t text c

pub run_line-Ran :
    (f : Fork) (net : ℕ → Sent) (t : Table) (text : List ℕ) → Ran t (run_line f net t text)
unfolding run_line
run_line-Ran f net t text = chosen-Ran f net t (next_tok text).1 (next_tok text).0
