-- ===== src/Calculator/Division.antt =====
-- Division: which operands are undefined, and what the others give.
use native.Mathlib.Nat.{div-le_self, div-lt_self, div-one, div-add-mod, mod-lt}
use eltex_systems.Base.{
  ℕ, zero, ◌+◌, ◌-◌, ◌*◌, ◌/◌, ◌%◌, ◌^◌, suc, ◌<◌, ◌≤◌, ◌≡◌, ◌↔◌, refl, true, false, arith,
  Bool-cases, inl, inr, ◌⊎◌, ap, ==_iff,
}
use eltex_systems.Base.Int.{ℤ, pos, negsuc}
use eltex_systems.Calculator.{
  minus, quotient, is_int, value, zero_division, undefined, is, divide, choose,
}

abbrev pub magnitude : ℤ → ℕ
magnitude (pos n) = n
magnitude (negsuc n) = suc n

minus-is_int : (k : ℕ) → k ≤ 2 ^ 31 → is_int (minus k) ≡ true
minus-is_int k h = ground arith

-- A quotient of `int`s is an `int`, but for one pair.
quotient-is_int :
    (a b : ℤ)
    → is_int a ≡ true
    → is_int b ≡ true
    → (is_int (quotient a b) ≡ false) ↔ ((a ≡ negsuc (2 ^ 31 - 1)) × (b ≡ negsuc 0))
quotient-is_int (pos m) (pos n) ha hb =
    (λ h. absurd (ground (arith, div-le_self m n, ha, h)), λ e. let e' = e.0 in absurd cc)
quotient-is_int (pos m) (negsuc n) ha hb =
    let fits = minus-is_int (m / suc n) (ground (arith, div-le_self m (suc n), ha)) in
    (λ h. absurd cc, λ e. let e' = e.0 in absurd cc)
quotient-is_int (negsuc m) (pos n) ha hb =
    let fits = minus-is_int (suc m / n) (ground (arith, div-le_self (suc m) n, ha)) in
    (λ h. absurd cc, λ e. let e' = e.1 in absurd cc)
quotient-is_int (negsuc m) (negsuc zero) ha hb =
    let same : suc m / 1 ≡ suc m = div-one (suc m) in
    (λ h. (ground (arith, same, ha, h), refl), λ e. ground (arith, same, e.0))
quotient-is_int (negsuc m) (negsuc (suc n)) ha hb =
    let less : suc m / suc (suc n) < suc m = div-lt_self (omega arith) (omega arith) in
    (λ h. absurd (ground (arith, less, ha, h)), λ e. let e' = e.1 in absurd (ground arith))

magnitude-minus : (k : ℕ) → magnitude (minus k) ≡ k
magnitude-minus k = ground arith

magnitude-quotient : (a b : ℤ) → magnitude (quotient a b) ≡ magnitude a / magnitude b
magnitude-quotient (pos m) (pos n) = refl
magnitude-quotient (pos m) (negsuc n) = magnitude-minus (m / suc n)
magnitude-quotient (negsuc m) (pos n) = magnitude-minus (suc m / n)
magnitude-quotient (negsuc m) (negsuc n) = refl

divides :
    (a b : ℤ)
    → 0 < magnitude b
    → (magnitude b * magnitude (quotient a b) + magnitude a % magnitude b ≡ magnitude a)
      × (magnitude a % magnitude b < magnitude b)
divides a b some_b = (
  rw (magnitude-quotient a b) (div-add-mod (magnitude a) (magnitude b)),
  mod-lt (magnitude a) some_b,
)

not_zero : (b : ℤ) → is 0 b ≡ false → 0 < magnitude b
not_zero (pos n) h = ground arith
not_zero (negsuc n) h = omega arith

is_zero : (b : ℤ) → is 0 b ≡ true → b ≡ pos 0
is_zero (pos n) h = ap pos ((==_iff n 0).0 h)
is_zero (negsuc n) h = absurd cc

-- The choice of the division, on any two `int`s: a divisor 0 is refused, the least `int` by -1 is
-- undefined, and on all others the quotient is printed: in absolute values, it times the divisor,
-- with a remainder smaller than the divisor, is the dividend.
pub choose_division :
    (a b : ℤ)
    → is_int a ≡ true
    → is_int b ≡ true
    → ((b ≡ pos 0) × (choose (pos 4) a b ≡ zero_division))
      ⊎ ((a ≡ negsuc (2 ^ 31 - 1)) × (b ≡ negsuc 0) × (choose (pos 4) a b ≡ undefined))
      ⊎ ((q : ℤ) × (choose (pos 4) a b ≡ value q)
          × (magnitude b * magnitude q + magnitude a % magnitude b ≡ magnitude a)
          × (magnitude a % magnitude b < magnitude b))
unfolding choose divide
choose_division a b ha hb = elim (Bool-cases (is 0 b)) [
  | inl refused ↦ inl (is_zero b refused, rw refused refl)
  | inr divisor ↦ elim (Bool-cases (is_int (quotient a b))) [
    | inl fits ↦
        let (exact, less) = divides a b (not_zero b divisor) in
        inr (inr (quotient a b, rw (divisor, fits) refl, exact, less))
    | inr beyond ↦
        let (least, minus_one) = (quotient-is_int a b ha hb).0 beyond in
        inr (inl (least, minus_one, rw (divisor, beyond) refl))
  ]
]
