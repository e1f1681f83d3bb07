-- ===== src/TaxiControl/Cli/Commands.antt =====
-- The commands of the command line: the part of `main` of `taxi_control/main.c` between `fgets`
-- and the service of the drivers, with `next_tok` and `cmd_create_driver`.
use eltex_systems.Base.{
  ℕ, ◌^◌, ◌≤◌, ◌<◌, ◌≡◌, refl, ap, ◌∙◌, ◌||◌, Bool, true, false, List, [], ◌∷◌, ◌++◌, Option, none,
  some, arith, if◌then◌else◌, length, All,
}
use eltex_systems.Base.Int.{ℤ, pos, negsuc, nonpositive}
use eltex_systems.Base.Text.{codes, same_bytes, is_space, skip_spaces}
use eltex_systems.Base.Decimal.{decimal, decimal-All, length-decimal, IsDigit}
use eltex_systems.Base.Strtol.{atoi, atoi-decimal}
use eltex_systems.TaxiControl.Cli.{
  Entry, Table, Effect, print, socketpair, created, bad_args, unknown_command, usage_send_task,
  usage_get_status, Sent, cmd_send_task, cmd_get_status, cmd_get_drivers, drivers_push,
}

-- The bytes up to white space, which is cut out, and what follows it.
unfoldable pub word : List ℕ → List ℕ × List ℕ
word [] = ([], [])
word (b ∷ bs) = let (w, rest) = word bs in if is_space b then ([], bs) else (b ∷ w, rest)

abbrev pub token : List ℕ → Option (List ℕ) × List ℕ
token [] = (none, [])
token (b ∷ bs) = let (w, rest) = word (b ∷ bs) in (some w, rest)

-- `next_tok`: the next token, and where the next call goes on.
unfoldable pub next_tok : List ℕ → Option (List ℕ) × List ℕ
next_tok text = token (skip_spaces text)

-- `(int)strtol (text, NULL, 10)`, also the cast to `pid_t`.
unfoldable pub number : List ℕ → ℤ
number text = atoi text

-- What `socketpair`, the two `set_nonblock` and `fork` lead to (`none` is the end of the program),
-- and whether `realloc` succeeds.
pub record Fork : Type 0 where
  pub child : Option (ℕ × ℕ)
  pub realloc_ok : Bool

-- After a command: `main` goes on with the table, leaves its loop, or ends by `die`.
pub data Run : Type 0 where
  going : Table → List Effect → Run
  leaving : Run
  died : Run

unfoldable pub cmd_create_driver : Fork → Table → Run
cmd_create_driver f t = elim f.child [
  | none ↦ died
  | some (pid, fd) ↦ elim (drivers_push f.realloc_ok t pid fd) [
    | none ↦ died
    | some t' ↦ going t' (socketpair fd ∷ print (created pid) ∷ [])
  ]
]

abbrev pub with_entries : Table → List Entry × List Effect → Run
with_entries t (ds, effects) = going (record t { entries = ds }) effects

unfoldable pub send_checked : (ℕ → Sent) → Table → ℤ → ℤ → Run
send_checked net t (pos pid) (pos sec) =
    if nonpositive (pos pid) || nonpositive (pos sec)
    then going t (print bad_args ∷ [])
    else with_entries t (cmd_send_task net pid sec t.entries)
send_checked net t (pos pid) (negsuc sec) = going t (print bad_args ∷ [])
send_checked net t (negsuc pid) sec = going t (print bad_args ∷ [])

-- `send_task`, on its two tokens.
abbrev pub send_args : (ℕ → Sent) → Table → Option (List ℕ) → Option (List ℕ) → Run
send_args net t none st = going t (print usage_send_task ∷ [])
send_args net t (some spid) none = going t (print usage_send_task ∷ [])
send_args net t (some spid) (some st) = send_checked net t (number spid) (number st)

unfoldable pub run_send_task : (ℕ → Sent) → Table → List ℕ → Run
run_send_task net t text = send_args net t (next_tok text).0 (next_tok (next_tok text).1).0

unfoldable pub run_get_status : (ℕ → Sent) → Table → List ℕ → Run
run_get_status net t text = elim (next_tok text).0 [
  | none ↦ going t (print usage_get_status ∷ [])
  | some spid ↦ elim (number spid) [
    | negsuc n ↦ going t (print bad_args ∷ [])
    | pos pid ↦
        if nonpositive (pos pid)
        then going t (print bad_args ∷ [])
        else with_entries t (cmd_get_status net pid t.entries)
  ]
]

-- The command `c`, with the rest of its line.
unfoldable pub run_command : Fork → (ℕ → Sent) → Table → List ℕ → List ℕ → Run
run_command f net t text c =
    if same_bytes c (codes "create_driver")
    then cmd_create_driver f t
    else if same_bytes c (codes "send_task")
    then run_send_task net t text
    else if same_bytes c (codes "get_status")
    then run_get_status net t text
    else if same_bytes c (codes "get_drivers")
    then with_entries t (cmd_get_drivers net t.entries)
    else if same_bytes c (codes "exit") || same_bytes c (codes "quit")
    then leaving
    else going t (print unknown_command ∷ [])

-- A line of input, up to its NUL.
unfoldable pub run_line : Fork → (ℕ → Sent) → Table → List ℕ → Run
run_line f net t line =
    let (cmd, text) = next_tok line in
    elim cmd [ none ↦ going t [] | some c ↦ run_command f net t text c ]

word-digits :
    (ds rest : List ℕ) (b : ℕ)
    → All IsDigit ds
    → is_space b ≡ true
    → word (ds ++ (b ∷ rest)) ≡ (ds, rest)
unfolding word is_space
word-digits [] rest b h white = simp white
word-digits (d ∷ ds) rest b h white =
    let front : is_space d ≡ false = ground arith in simp (front, word-digits ds rest b h.1 white)

token-digits :
    (ds rest : List ℕ) (b : ℕ)
    → All IsDigit ds
    → 1 ≤ length ds
    → is_space b ≡ true
    → next_tok (ds ++ (b ∷ rest)) ≡ (some ds, rest)
unfolding next_tok
token-digits [] rest b h l white = absurd (omega arith)
token-digits (d ∷ ds) rest b h l white =
    let front : is_space d ≡ false = unfold is_space in ground arith in
    let kept : skip_spaces (d ∷ (ds ++ (b ∷ rest))) ≡ d ∷ (ds ++ (b ∷ rest)) =
      unfold skip_spaces in simp front in
    let whole = word-digits (d ∷ ds) rest b h white in
    ap token kept ∙ ap (λ r. (some r.0, r.1)) whole

number-decimal : (n : ℕ) → n < 2 ^ 31 → number (decimal n) ≡ pos n
unfolding number
number-decimal n small = atoi-decimal n small

module _ (f : Fork) (net : ℕ → Sent) (t : Table) (pid sec : ℕ) (some_pid : 0 < pid)
    (pid_int : pid < 2 ^ 31) (some_sec : 0 < sec) (sec_int : sec < 2 ^ 31) where
  send_task_tokens :
      run_send_task net t (decimal pid ++ (32 ∷ (decimal sec ++ (10 ∷ []))))
      ≡ with_entries t (cmd_send_task net pid sec t.entries)
  unfolding run_send_task cmd_send_task
  send_task_tokens =
      let white : is_space 32 ≡ true = unfold is_space in refl in
      let newline : is_space 10 ≡ true = unfold is_space in refl in
      let first =
        token-digits (decimal pid) (decimal sec ++ (10 ∷ [])) 32 (decimal-All pid)
          (length-decimal 9 pid (omega arith)).0 white in
      let second =
        token-digits (decimal sec) [] 10 (decimal-All sec) (length-decimal 9 sec (omega arith)).0
          newline in
      rw (run_send_task, first, second, number-decimal pid pid_int, number-decimal sec sec_int)
        (unfold send_checked in ground arith)

  -- The line `send_task <pid> <seconds>`, with positive numbers that fit an `int`, runs
  -- `cmd_send_task` on those numbers.
  pub run_line-send_task :
      run_line f net t (codes "send_task " ++ (decimal pid ++ (32 ∷ (decimal sec ++ (10 ∷ [])))))
      ≡ with_entries t (cmd_send_task net pid sec t.entries)
  unfolding run_line run_command next_tok skip_spaces word is_space same_bytes
  run_line-send_task = send_task_tokens
