-- ===== src/Pointers.antt =====
-- `pointers/pointers_task4.c`: the search of a line in another. A buffer is the list of its 100 bytes,
-- and an index that moves through it is the rest of the list.
pub mod Search
use eltex_systems.Base.{
  ℕ, ◌-◌, Bool, true, false, List, [], ◌∷◌, ◌++◌, Option, none, some, ◌==◌, if◌then◌else◌, length,
  replicate,
}

abbrev pub string_size : ℕ
string_size = 100

-- The bytes of a line in its buffer, all zero behind it.
abbrev pub buffer : List ℕ → List ℕ
buffer line = line ++ replicate (string_size - length line) 0

abbrev pub at_line_end : List ℕ → Option Bool
at_line_end [] = none
at_line_end (b ∷ bs) = some (b == b'\n')

-- The loop over `j`: whether the substring ends in a match; none is a byte that is read behind the
-- buffer of the substring.
unfoldable pub match_from : (input substring : List ℕ) → Option Bool
match_from [] ys = some false
match_from (x ∷ xs) [] = none
match_from (x ∷ xs) (y ∷ ys) =
    let rest = match_from xs ys in
    if x == y
    then (elim (at_line_end ys) [ none ↦ none | some ends ↦ if ends then some true else rest ])
    else some false

abbrev pub starts : ℕ → List ℕ → Bool
starts x [] = false
starts x (y ∷ ys) = x == y

-- The loop over `i`.
unfoldable pub check_string : (input substring : List ℕ) → Option Bool
check_string [] ys = some false
check_string (x ∷ xs) ys =
    let rest = check_string xs ys in
    if starts x ys
    then (elim (match_from (x ∷ xs) ys) [
      | none ↦ none
      | some found ↦ if found then some true else rest
    ])
    else rest
