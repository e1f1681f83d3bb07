-- ===== src/Base/Decimal.antt =====
-- Decimal text: what `%u` prints, what the digits of `strtol` read, and the round trip.
use Prim.Native.Nat.{ℕ, zero, suc, ◌+◌, ◌-◌, ◌*◌, ◌/◌, ◌%◌, ◌^◌, ◌≤◌, ◌<◌}
use mathlib.Core.Path.{◌≡◌, refl, ◌∙◌}
use mathlib.Core.Logic.{inl, inr}
use mathlib.Core.Bool.{false}
use mathlib.Core.List.{List, [], ◌∷◌, ◌++◌}
use native.Mathlib.Nat.{pow-suc}
use native.Mathlib.Omega.{arith}
use eltex_systems.Base.Tests.{ltb, if◌then◌else◌, Bool-cases}
use eltex_systems.Base.Lists.{length, length-append, All}
use eltex_systems.Base.Text.{is_digit, c_string}

decimal_fuel : ℕ → ℕ → List ℕ
decimal_fuel zero n = []
decimal_fuel (suc f) n =
    let front = decimal_fuel f (n / 10) in
    if ltb n 10 then (48 + n) ∷ [] else front ++ (48 + n % 10) ∷ []

-- The digits that `%u` (and `%d`, at a number that is not negative) prints. The fuel is enough
-- since the number falls with each digit: `read_digits-decimal` reads the whole number back.
unfoldable pub decimal : ℕ → List ℕ
unfolding decimal_fuel
decimal n = decimal_fuel (suc n) n

-- The digits at the front of a text, read onto `acc`.
unfoldable pub read_digits : ℕ → List ℕ → ℕ
unfolding is_digit
read_digits acc [] = acc
read_digits acc (b ∷ bs) = if is_digit b then read_digits (acc * 10 + (b - 48)) bs else acc

abbrev pub IsDigit : ℕ → Type 0
IsDigit b = (48 ≤ b) × (b ≤ 57)

All-append : (xs ys : List ℕ) → All IsDigit xs → All IsDigit ys → All IsDigit (xs ++ ys)
All-append [] ys p q = q
All-append (x ∷ xs) ys p q = (p.0, All-append xs ys p.1 q)

decimal_fuel-All : (f n : ℕ) → All IsDigit (decimal_fuel f n)
unfolding decimal_fuel
decimal_fuel-All zero n = tt
decimal_fuel-All (suc f) n = elim (Bool-cases (ltb n 10)) [
  | inl small ↦ rw small (ground arith, tt)
  | inr large ↦ rw large (All-append _ _ (decimal_fuel-All f (n / 10)) (omega arith, tt))
]

pub decimal-All : (n : ℕ) → All IsDigit (decimal n)
unfolding decimal
decimal-All n = decimal_fuel-All (suc n) n

read_digits-snoc :
    (acc : ℕ) (xs rest : List ℕ)
    → All IsDigit xs
    → read_digits acc (xs ++ rest) ≡ read_digits (read_digits acc xs) rest
unfolding read_digits
read_digits-snoc acc [] rest h = refl
read_digits-snoc acc (x ∷ xs) rest h =
    ground (arith, read_digits-snoc (acc * 10 + (x - 48)) xs rest h.1)

read_digits-decimal_fuel : (f n : ℕ) → n < f → read_digits 0 (decimal_fuel f n) ≡ n
unfolding decimal_fuel
read_digits-decimal_fuel zero n h = elim h [ ]
read_digits-decimal_fuel (suc f) n h = elim (Bool-cases (ltb n 10)) [
  | inl small ↦ rw small (unfold read_digits in ground arith)
  | inr large ↦
      rw
        (
          large,
          read_digits-snoc 0 (decimal_fuel f (n / 10)) ((48 + n % 10) ∷ [])
              (decimal_fuel-All f (n / 10)),
          read_digits-decimal_fuel f (n / 10) (ground arith),
        )
        (unfold read_digits in ground arith)
]

-- Reading stops at the first byte that is no digit.
abbrev pub NoDigitFirst : List ℕ → Type 0
NoDigitFirst [] = Unit
NoDigitFirst (b ∷ bs) = is_digit b ≡ false

read_digits_stop : (acc : ℕ) (rest : List ℕ) → NoDigitFirst rest → read_digits acc rest ≡ acc
unfolding read_digits
read_digits_stop acc [] h = refl
read_digits_stop acc (b ∷ bs) h = rw h

pub read_digits-decimal :
    (n : ℕ) (rest : List ℕ) → NoDigitFirst rest → read_digits 0 (decimal n ++ rest) ≡ n
read_digits-decimal n rest h =
    read_digits-snoc 0 (decimal n) rest (decimal-All n)
    ∙ read_digits_stop _ rest h
    ∙ (unfold decimal in read_digits-decimal_fuel (suc n) n (omega arith))

decimal_fuel_bounds :
    (k f n : ℕ)
    → n < f
    → n < 10 ^ suc k
    → (1 ≤ length (decimal_fuel f n)) × (length (decimal_fuel f n) ≤ suc k)
unfolding decimal_fuel
decimal_fuel_bounds k zero n h small = elim h [ ]
decimal_fuel_bounds zero (suc f) n h small = ground (arith, pow-suc 10 0)
decimal_fuel_bounds (suc k) (suc f) n h small = elim (Bool-cases (ltb n 10)) [
  | inl low ↦ rw low (omega arith, omega arith)
  | inr high ↦
      let ih =
        decimal_fuel_bounds k f (n / 10) (ground arith) (omega (arith, pow-suc 10 (suc k))) in
      rw (high, length-append) (omega arith, omega arith)
]

-- A number below `10 ^ (k + 1)` prints between one and `k + 1` digits.
pub length-decimal :
    (k n : ℕ) → n < 10 ^ suc k → (1 ≤ length (decimal n)) × (length (decimal n) ≤ suc k)
unfolding decimal
length-decimal k n h = decimal_fuel_bounds k (suc n) n (omega arith) h

c_string-digits : (ds : List ℕ) → All IsDigit ds → c_string ds ≡ ds
unfolding c_string
c_string-digits [] h = refl
c_string-digits (d ∷ ds) h = ground (arith, c_string-digits ds h.1)

pub c_string-decimal : (n : ℕ) → c_string (decimal n) ≡ decimal n
c_string-decimal n = c_string-digits (decimal n) (decimal-All n)

decimal_runs : decimal 86400 ≡ 56 ∷ 54 ∷ 52 ∷ 48 ∷ 48 ∷ []
unfolding decimal
decimal_runs = refl
