-- ===== src/Calculator/Runs.antt =====
-- The loop of the calculator over a list of operations.
use eltex_systems.Base.{◌≡◌, refl, Bool, true, false, List, [], ◌∷◌, ◌++◌, map, All}
use eltex_systems.Base.Int.{ℤ, pos}
use eltex_systems.Calculator.{
  Answer, value, zero_division, wrong_choice, undefined, is, choose, Ending, left, after_answer,
  run,
}

-- A choice with its two numbers.
pub record Operation : Type 0 where
  pub choice : ℤ
  pub first : ℤ
  pub second : ℤ

-- What is typed for some operations.
unfoldable pub typed : List Operation → List ℤ
typed [] = []
typed (o ∷ os) = o.choice ∷ (o.first ∷ (o.second ∷ typed os))

abbrev pub answer_to : Operation → Answer
answer_to o = choose o.choice o.first o.second

abbrev pub is_defined : Answer → Bool
is_defined (value x) = true
is_defined zero_division = true
is_defined wrong_choice = true
is_defined undefined = false

-- An operation that is not the exit and is not undefined.
abbrev pub IsRun : Operation → Type 0
IsRun o = (is 5 o.choice ≡ false) × (is_defined (answer_to o) ≡ true)

goes_on :
    (x : Answer) (rest : List Answer × Ending)
    → is_defined x ≡ true
    → after_answer x rest ≡ (x ∷ rest.0, rest.1)
goes_on (value x) rest h = refl
goes_on zero_division rest h = refl
goes_on wrong_choice rest h = refl
goes_on undefined rest h = absurd cc

-- Any operations, none of them the exit or undefined, and then the choice 5: each is answered, in
-- order, and the program ends, whatever is typed behind that.
run-typed :
    (os : List Operation) (more : List ℤ)
    → All IsRun os
    → run (typed os ++ (pos 5 ∷ more)) ≡ (map answer_to os, left)
unfolding run typed
run-typed [] [] h = refl
run-typed [] (a ∷ []) h = refl
run-typed [] (a ∷ (b ∷ more)) h = refl
run-typed (o ∷ os) more h =
    let rest = run-typed os more h.1 in
    rw (run, h.0.0, rest) (goes_on (answer_to o) (map answer_to os, left) h.0.1)
