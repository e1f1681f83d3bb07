-- ===== src/BitsOperations/Digits.antt =====
-- What the loops over the bits of a number print, and when they end.
use eltex_systems.Base.{
  ℕ, zero, suc, ◌+◌, ◌*◌, ◌/◌, ◌%◌, ◌^◌, ◌≤◌, ◌<◌, ◌≡◌, refl, ap, ◌∙◌, List, [], ◌∷◌, none, some,
  arith, ltb, ◌==◌, true, false, All,
}
use eltex_systems.Base.Bits.{bit_and-one}
use native.Mathlib.Nat.{pow-suc}
use eltex_systems.BitsOperations.{low_bits, count_from, number, count_positive_bits}

-- The number with these binary digits, lowest first, and how many ones they have.
abbrev pub value : List ℕ → ℕ
value [] = 0
value (d ∷ ds) = d + 2 * value ds

abbrev pub total : List ℕ → ℕ
total [] = 0
total (d ∷ ds) = d + total ds

add_assoc : (a b c : ℕ) → a + b + c ≡ a + (b + c)
add_assoc a b c = omega arith

abbrev IsPrinted : (fuel x : ℕ) → Type 0
IsPrinted f x =
    (ds : List ℕ) × (low_bits f x ≡ some ds)
    × (value ds ≡ x)
    × All (λ d. d < 2) ds
    × ((counter : ℕ) → count_from f counter x ≡ some (counter + total ds))

zero-IsPrinted : (f : ℕ) → IsPrinted f 0
unfolding low_bits count_from
zero-IsPrinted zero = ([], refl, refl, tt, λ counter. ap (λ n. some n) (omega arith))
zero-IsPrinted (suc f) = ([], refl, refl, tt, λ counter. ap (λ n. some n) (omega arith))

digit-IsPrinted : (f x : ℕ) → suc x < 2 ^ 31 → IsPrinted f (suc x / 2) → IsPrinted (suc f) (suc x)
unfolding low_bits count_from
digit-IsPrinted f x small (ds, run, v, binary, count) =
    let low : ltb (suc x) (2 ^ 31) ≡ true = ground arith in
    let low_digit = bit_and-one (suc x) in
    let nonzero : (suc x == 0) ≡ false = ground arith in
    let sum = λ (c : ℕ). add_assoc c (suc x % 2) (total ds) in
    (
      (suc x % 2) ∷ ds,
      rw (low_bits, low, run, nonzero, low_digit) refl,
      omega (arith, v),
      (omega arith, binary),
      λ counter.
          rw (count_from, low, nonzero, low_digit)
            (count (counter + suc x % 2) ∙ ap (λ n. some n) (sum counter)),
    )

digits-IsPrinted : (f x : ℕ) → x < 2 ^ f → x < 2 ^ 31 → IsPrinted f x
digits-IsPrinted f zero fits small = zero-IsPrinted f
digits-IsPrinted zero (suc x) fits small = absurd (omega arith)
digits-IsPrinted (suc f) (suc x) fits small =
    digit-IsPrinted f x small
      (digits-IsPrinted f (suc x / 2) (omega (arith, pow-suc 2 f)) (omega arith))

-- For a positive number `positive_to_bits` ends its first loop and prints its binary digits,
-- lowest first, and `count_positive_bits` prints how many of them are 1.
count_positive_bits-total :
    (x : ℕ)
    → 0 < x
    → x < 2 ^ 31
    → (ds : List ℕ) × (low_bits 31 x ≡ some ds)
      × (value ds ≡ x)
      × All (λ d. d < 2) ds
      × (count_positive_bits x ≡ number (total ds))
unfolding count_positive_bits
count_positive_bits-total x positive small =
    let (ds, run, v, binary, count) = digits-IsPrinted 31 x small small in
    let nonzero : (x == 0) ≡ false = ground arith in
    let low : ltb x (2 ^ 31) ≡ true = ground arith in
    (ds, run, v, binary, rw (count_positive_bits, nonzero, low, count 0) (ap number (omega arith)))

-- For a negative number the first loop of `positive_to_bits` never ends.
low_bits_negative : (fuel x : ℕ) → 2 ^ 31 ≤ x → x < 2 ^ 32 → low_bits fuel x ≡ none
unfolding low_bits
low_bits_negative zero x negative word =
    let nonzero : (x == 0) ≡ false = ground arith in rw nonzero refl
low_bits_negative (suc f) x negative word =
    let nonzero : (x == 0) ≡ false = ground arith in
    let high : ltb x (2 ^ 31) ≡ false = ground arith in
    rw (low_bits, high, nonzero, low_bits_negative f (x / 2 + 2 ^ 31) (omega arith) (omega arith))
      refl
