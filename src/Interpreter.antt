-- ===== src/Interpreter.antt =====
-- `channels/interpreter.c`: the command line interpreter. A string is its bytes before the NUL;
-- what a command does is left to the programs that are run.
pub mod Words
pub mod Lines
pub mod Ends
use eltex_systems.Base.{
  ℕ, zero, suc, ◌-◌, Bool, true, false, ◌||◌, List, [], ◌∷◌, ◌++◌, Option, none, some, ◌==◌,
  if◌then◌else◌,
}
use eltex_systems.Base.Text.{codes, same_bytes, first_line}

abbrev pub max_line : ℕ
max_line = 256

abbrev pub max_args : ℕ
max_args = 64

-- `strtok` with one delimiter: the delimiters at the front, the bytes up to the next one, and what
-- is behind it.
unfoldable pub skip : ℕ → List ℕ → List ℕ
skip d [] = []
skip d (b ∷ bs) = if b == d then skip d bs else b ∷ bs

unfoldable pub until : ℕ → List ℕ → List ℕ
until d [] = []
until d (b ∷ bs) = if b == d then [] else b ∷ until d bs

unfoldable pub behind : ℕ → List ℕ → List ℕ
behind d [] = []
behind d (b ∷ bs) = if b == d then bs else behind d bs

abbrev pub token_of : ℕ → List ℕ → Option (List ℕ × List ℕ)
token_of d [] = none
token_of d (b ∷ bs) = some (until d (b ∷ bs), behind d (b ∷ bs))

unfoldable pub strtok : ℕ → List ℕ → Option (List ℕ × List ℕ)
strtok d s = token_of d (skip d s)

-- The loop of `parse_cmd`, with room for some more arguments.
unfoldable pub parse_from : (room : ℕ) → List ℕ → List (List ℕ)
parse_from zero s = []
parse_from (suc n) s = elim (strtok b' ' s) [ none ↦ [] | some (t, rest) ↦ t ∷ parse_from n rest ]

abbrev pub parse_cmd : List ℕ → List (List ℕ)
parse_cmd s = parse_from (max_args - 1) s

-- What is done with a line: the end of the program, nothing, one command, or two with a pipe.
pub data Action : Type 0 where
  leave nothing : Action
  command : List (List ℕ) → Action
  piped : (args1 args2 : List (List ℕ)) → Action

-- What `strtok` leaves of the line: a NUL stands behind its first token.
unfoldable pub cut_line : List ℕ → List ℕ
cut_line [] = []
cut_line (b ∷ bs) = if b == b'|' then b ∷ cut_line bs else until b'|' (b ∷ bs)

abbrev pub one_command : List (List ℕ) → Action
one_command [] = nothing
one_command (a ∷ as') = command (a ∷ as')

-- A line, its end cut off.
unfoldable pub run_line : List ℕ → Action
run_line line = if same_bytes line (codes "exit") then leave else elim (strtok b'|' line) [
  | none ↦ one_command (parse_cmd (cut_line line))
  | some (cmd1, rest) ↦ elim (strtok b'|' rest) [
    | none ↦ one_command (parse_cmd (cut_line line))
    | some (cmd2, more) ↦ piped (parse_cmd cmd1) (parse_cmd cmd2)
  ]
]

-- `fgets` with room for some more bytes: what it reads and what stays.
unfoldable pub fgets : (room : ℕ) → List ℕ → List ℕ × List ℕ
fgets zero input = ([], input)
fgets (suc n) [] = ([], [])
fgets (suc n) (b ∷ bs) =
    let rest = fgets n bs in if b == b'\n' then (b ∷ [], bs) else (b ∷ rest.0, rest.1)

abbrev pub stops : Action → Bool
stops leave = true
stops _ = false

abbrev pub followed : Action → Option (List Action) → Option (List Action)
followed a none = none
followed a (some as') = some (a ∷ as')

-- The loop of `main` over the bytes of its input.
unfoldable pub shell : (fuel : ℕ) → List ℕ → Option (List Action)
shell f [] = some []
shell zero (b ∷ bs) = none
shell (suc f) (b ∷ bs) =
    let line = fgets (max_line - 1) (b ∷ bs) in
    let rest = shell f line.1 in
    if stops (run_line (first_line line.0))
    then some []
    else followed (run_line (first_line line.0)) rest

-- The open files of a process, by descriptor.
pub data File : Type 0 where
  closed other read_end write_end : File

abbrev pub Files : Type 0
Files = ℕ → File

unfoldable pub put : ℕ → File → Files → Files
put n f t m = if n == m then f else t m

-- `pipe (fd)` with the two descriptors that it returns, and `dup2` and `close`.
unfoldable pub pipe : (r w : ℕ) → Files → Files
pipe r w t = put w write_end (put r read_end t)

unfoldable pub dup2 : (from to : ℕ) → Files → Files
dup2 from to t = put to (t from) t

unfoldable pub close : ℕ → Files → Files
close n t = put n closed t

-- The files of the two processes when they run their programs, and of the interpreter when it waits
-- for them.
unfoldable pub first_child : (r w : ℕ) → Files → Files
first_child r w t = close w (close r (dup2 w 1 (pipe r w t)))

unfoldable pub second_child : (r w : ℕ) → Files → Files
second_child r w t = close w (close r (dup2 r 0 (pipe r w t)))

unfoldable pub interpreter : (r w : ℕ) → Files → Files
interpreter r w t = close w (close r (pipe r w t))
