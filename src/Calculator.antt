-- ===== src/Calculator.antt =====
-- `static_libraries` and `dynamic_libraries`: the same calculator, once with each kind of library.
-- `add`, `sub`, `mul` and `divide` on `int`, and the loop of `main` over what `scanf` reads.

pub mod Division
pub mod Runs
use eltex_systems.Base.{
  ℕ, ◌+◌, ◌-◌, ◌*◌, ◌/◌, ◌^◌, suc, Bool, false, List, [], ◌∷◌, ltb, ◌==◌, if◌then◌else◌,
}
use eltex_systems.Base.Int.{ℤ, pos, negsuc}

-- Minus `n`.
abbrev pub minus : ℕ → ℤ
minus n = if n == 0 then pos 0 else negsuc (n - 1)

abbrev pub opposite : ℤ → ℤ
opposite (pos n) = minus n
opposite (negsuc n) = pos (suc n)

-- The operations on numbers without bounds; the division cuts towards 0.
abbrev pub plus : ℤ → ℤ → ℤ
plus (pos m) (pos n) = pos (m + n)
plus (pos m) (negsuc n) = if ltb n m then pos (m - suc n) else minus (suc n - m)
plus (negsuc m) (pos n) = if ltb m n then pos (n - suc m) else minus (suc m - n)
plus (negsuc m) (negsuc n) = minus (suc m + suc n)

abbrev pub times : ℤ → ℤ → ℤ
times (pos m) (pos n) = pos (m * n)
times (pos m) (negsuc n) = minus (m * suc n)
times (negsuc m) (pos n) = minus (suc m * n)
times (negsuc m) (negsuc n) = pos (suc m * suc n)

abbrev pub quotient : ℤ → ℤ → ℤ
quotient (pos m) (pos n) = pos (m / n)
quotient (pos m) (negsuc n) = minus (m / suc n)
quotient (negsuc m) (pos n) = minus (suc m / n)
quotient (negsuc m) (negsuc n) = pos (suc m / suc n)

-- Whether a number is an `int` of 32 bits.
abbrev pub is_int : ℤ → Bool
is_int (pos n) = ltb n (2 ^ 31)
is_int (negsuc n) = ltb n (2 ^ 31)

-- What a choice leads to. An operation whose value is no `int` is undefined.
pub data Answer : Type 0 where
  value : ℤ → Answer
  zero_division wrong_choice undefined : Answer

abbrev pub checked : ℤ → Answer
checked x = if is_int x then value x else undefined

unfoldable pub add : ℤ → ℤ → Answer
add a b = checked (plus a b)

unfoldable pub sub : ℤ → ℤ → Answer
sub a b = checked (plus a (opposite b))

unfoldable pub mul : ℤ → ℤ → Answer
mul a b = checked (times a b)

-- `divide`, for a divisor that is not 0.
unfoldable pub divide : ℤ → ℤ → Answer
divide a b = checked (quotient a b)

abbrev pub is : ℕ → ℤ → Bool
is n (pos m) = m == n
is n (negsuc m) = false

-- The `switch` of `main`.
unfoldable pub choose : ℤ → ℤ → ℤ → Answer
choose choice a b =
    if is 1 choice
    then add a b
    else if is 2 choice
    then sub a b
    else if is 3 choice
    then mul a b
    else if is 4 choice
    then (if is 0 b then zero_division else divide a b)
    else wrong_choice

-- How a run ends: by the choice 5, in an operation that is undefined, or never, as `scanf` at the
-- end of the input leaves the choice as it is.
pub data Ending : Type 0 where
  left undefined_operation endless : Ending

abbrev pub after_answer : Answer → List Answer × Ending → List Answer × Ending
after_answer (value x) (answers, end) = (value x ∷ answers, end)
after_answer zero_division (answers, end) = (zero_division ∷ answers, end)
after_answer wrong_choice (answers, end) = (wrong_choice ∷ answers, end)
after_answer undefined (answers, end) = ([], undefined_operation)

-- The loop of `main`, on the numbers that can be read, with what it answers to them.
unfoldable pub run : List ℤ → List Answer × Ending
run [] = ([], endless)
run (choice ∷ []) = if is 5 choice then ([], left) else ([], endless)
run (choice ∷ (a ∷ [])) = if is 5 choice then ([], left) else ([], endless)
run (choice ∷ (a ∷ (b ∷ numbers))) =
    let rest = run numbers in
    if is 5 choice then ([], left) else after_answer (choose choice a b) rest
