-- ===== src/Interpreter/Lines.antt =====
-- What is done with the lines of the input.
use eltex_systems.Base.{
  ℕ, zero, suc, ◌≤◌, ◌<◌, ◌≡◌, refl, ap, sym, subst, ◌∙◌, false, List, [], ◌∷◌, ◌++◌, Option, none,
  some, arith, ◌==◌, ◌||◌, if◌then◌else◌, length, map, All, length-append, Bool-cases, inl, inr,
  append-nil,
}
use eltex_systems.Base.Text.{codes, same_bytes, same_bytes-eq, first_line}
use eltex_systems.Interpreter.{
  skip, until, strtok, parse_cmd, Action, piped, cut_line, one_command, run_line, fgets, stops,
  followed, shell,
}
use eltex_systems.Interpreter.Words.{IsWord, closing, strtok-closing, until-closing}

bar_inside : (a r : List ℕ) → All (λ b. (b == b'|') ≡ false) (a ++ (b'|' ∷ r)) → ⊥
bar_inside [] r h = absurd (ground (arith, h.0))
bar_inside (x ∷ a) r h = bar_inside a r h.1

bar-no_exit : (a r : List ℕ) → same_bytes (a ++ (b'|' ∷ r)) (codes "exit") ≡ false
bar-no_exit a r = elim (Bool-cases (same_bytes (a ++ (b'|' ∷ r)) (codes "exit"))) [
  | inr other ↦ other
  | inl same ↦
      let text = same_bytes-eq (a ++ (b'|' ∷ r)) (codes "exit") same in
      absurd (bar_inside a r (subst (All (λ b. (b == b'|') ≡ false)) (sym text) (ground arith)))
]

-- A line with a `|` between two texts that are not empty runs the two commands of these texts; what
-- stands behind another `|` is never looked at.
run_line-piped :
    (cmd1 cmd2 : List ℕ) (more : Option (List ℕ))
    → IsWord b'|' cmd1
    → IsWord b'|' cmd2
    → run_line (cmd1 ++ (b'|' ∷ (cmd2 ++ closing b'|' more)))
      ≡ piped (parse_cmd cmd1) (parse_cmd cmd2)
unfolding run_line
run_line-piped cmd1 cmd2 more h1 h2 =
    let rest = cmd2 ++ closing b'|' more in
    rw
      (
        run_line,
        bar-no_exit cmd1 rest,
        strtok-closing b'|' cmd1 (some rest) h1,
        strtok-closing b'|' cmd2 more h2,
      )
      refl

strtok_end : strtok b'|' [] ≡ none
unfolding strtok skip
strtok_end = refl

-- A line without a `|` that is not `exit` runs one command, or nothing when it has no word.
run_line-alone :
    (line : List ℕ)
    → IsWord b'|' line
    → same_bytes line (codes "exit") ≡ false
    → run_line line ≡ one_command (parse_cmd line)
unfolding run_line
run_line-alone [] h other = absurd (omega (arith, h.0))
run_line-alone (b ∷ bs) h other =
    let line : List ℕ = b ∷ bs in
    let bare = append-nil line in
    let token : strtok b'|' line ≡ some (line, []) =
      ap (strtok b'|') (sym bare) ∙ strtok-closing b'|' line none h in
    let whole : until b'|' line ≡ line =
      ap (until b'|') (sym bare) ∙ (until-closing b'|' line none h.1).0 in
    let kept : cut_line line ≡ line = unfold cut_line in rw h.1.0 whole in
    rw (run_line, other, token, strtok_end, kept) refl

-- A line of the input: its bytes are neither NUL nor a line end, and with its line end and a NUL it
-- fits the 256 bytes.
abbrev pub IsLine : List ℕ → Type 0
IsLine l = (length l < 255) × All (λ b. (b == 0 || b == 10) ≡ false) l

abbrev pub text_of : List (List ℕ) → List ℕ
text_of [] = []
text_of (l ∷ ls) = l ++ (b'\n' ∷ text_of ls)

-- The actions in front of the first `exit`.
abbrev pub up_to_exit : List Action → List Action
up_to_exit [] = []
up_to_exit (a ∷ as') = if stops a then [] else a ∷ up_to_exit as'

fgets-line :
    (n : ℕ) (l r : List ℕ)
    → length l < n
    → All (λ b. (b == 0 || b == 10) ≡ false) l
    → fgets n (l ++ (b'\n' ∷ r)) ≡ (l ++ (b'\n' ∷ []), r)
unfolding fgets
fgets-line zero l r fits h = absurd (omega arith)
fgets-line (suc n) [] r fits h = refl
fgets-line (suc n) (b ∷ l) r fits h =
    let off : (b == 10) ≡ false = ground (arith, h.0) in
    rw (fgets, fgets-line n l r (omega arith) h.1, off) refl

first_line-line :
    (l r : List ℕ) → All (λ b. (b == 0 || b == 10) ≡ false) l → first_line (l ++ (b'\n' ∷ r)) ≡ l
unfolding first_line
first_line-line [] r h = refl
first_line-line (b ∷ l) r h = rw h.0 (ap (λ bs. b ∷ bs) (first_line-line l r h.1))

shell-fgets :
    (f : ℕ) (input line rest : List ℕ)
    → 0 < length input
    → fgets 255 input ≡ (line, rest)
    → shell (suc f) input ≡ (
        if stops (run_line (first_line line))
        then some []
        else followed (run_line (first_line line)) (shell f rest))
unfolding shell
shell-fgets f [] line rest there e = absurd (omega arith)
shell-fgets f (b ∷ bs) line rest there e = rw (shell, e) refl

-- On an input of lines, each of fewer than 255 bytes without a NUL and with a line end behind it,
-- and with fuel for each line, the interpreter does what they say line by line, up to the first
-- line that is `exit`.
pub shell-lines :
    (fuel : ℕ) (ls : List (List ℕ))
    → length ls ≤ fuel
    → All IsLine ls
    → shell fuel (text_of ls) ≡ some (up_to_exit (map run_line ls))
unfolding shell
shell-lines zero [] enough h = refl
shell-lines (suc f) [] enough h = refl
shell-lines zero (l ∷ ls) enough h = absurd (omega arith)
shell-lines (suc f) (l ∷ ls) enough h =
    let there : 0 < length (text_of (l ∷ ls)) =
      omega (arith, length-append l (b'\n' ∷ text_of ls)) in
    let read = fgets-line 255 l (text_of ls) h.0.0 h.0.1 in
    let first = first_line-line l [] h.0.1 in
    shell-fgets f (text_of (l ∷ ls)) (l ++ (b'\n' ∷ [])) (text_of ls) there read
    ∙ rw (first, shell-lines f ls (omega arith) h.1)
        (elim (Bool-cases (stops (run_line l))) [ inl stop ↦ rw stop refl | inr on ↦ rw on refl ])

length-fgets : (n : ℕ) (input : List ℕ) → length (fgets n input).1 ≤ length input
unfolding fgets
length-fgets zero input = omega arith
length-fgets (suc n) [] = omega arith
length-fgets (suc n) (b ∷ bs) = ground (arith, length-fgets n bs)

fgets_shorter : (n b : ℕ) (bs : List ℕ) → length (fgets (suc n) (b ∷ bs)).1 ≤ length bs
unfolding fgets
fgets_shorter n b bs = elim (Bool-cases (b == b'\n')) [
  | inl end ↦ rw end (omega arith)
  | inr on ↦ rw on (length-fgets n bs)
]

-- On any input, whatever its bytes and the length of its lines, the interpreter comes to an end.
shell-ends :
    (fuel : ℕ) (input : List ℕ)
    → length input ≤ fuel
    → (as' : List Action) × (shell fuel input ≡ some as')
unfolding shell
shell-ends zero [] enough = ([], refl)
shell-ends (suc f) [] enough = ([], refl)
shell-ends zero (b ∷ bs) enough = absurd (omega arith)
shell-ends (suc f) (b ∷ bs) enough =
    let line = fgets 255 (b ∷ bs) in
    let shorter = fgets_shorter 254 b bs in
    let a = run_line (first_line line.0) in
    let (as', run) = shell-ends f line.1 (omega arith) in
    let step = shell-fgets f (b ∷ bs) line.0 line.1 (omega arith) refl in
    elim (Bool-cases (stops a)) [
      | inl stop ↦ ([], step ∙ rw stop refl)
      | inr on ↦ (a ∷ as', step ∙ rw (on, run) refl)
    ]
