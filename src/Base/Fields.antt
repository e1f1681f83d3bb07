-- ===== src/Base/Fields.antt =====
-- The bit operations on numbers made of a high and a low field: they work on each field.
use Prim.Native.Nat.{
  ℕ, zero, suc, ◌+◌, ◌-◌, ◌*◌, ◌/◌, ◌%◌, ◌^◌, ◌≤◌, ◌<◌, min, max, digits, bit_and, bit_or,
  bit_and-bitwise, bit_or-bitwise,
}
use mathlib.Core.Path.{◌≡◌, refl, ap, ◌∙◌}
use native.Mathlib.Nat.{pow-suc}
use native.Mathlib.Omega.{arith}

-- More fuel than the number does not matter.
digits_fuel :
    (z : ℕ → ℕ) (f : ℕ → ℕ → ℕ) (n m a b : ℕ) → a ≤ n → a ≤ m → digits z f n a b ≡ digits z f m a b
digits_fuel z f zero zero a b h i = refl
digits_fuel z f zero (suc m) zero b h i = refl
digits_fuel z f zero (suc m) (suc a) b h i = absurd (omega arith)
digits_fuel z f (suc n) zero zero b h i = refl
digits_fuel z f (suc n) zero (suc a) b h i = absurd (omega arith)
digits_fuel z f (suc n) (suc m) zero b h i = refl
digits_fuel z f (suc n) (suc m) (suc a) b h i =
    ap (λ d. d * 2 + f (suc a % 2) (b % 2))
      (digits_fuel z f n m (suc a / 2) (b / 2) (omega arith) (omega arith))

pub and_step : (a b : ℕ) → bit_and a b ≡ bit_and (a / 2) (b / 2) * 2 + min (a % 2) (b % 2)
and_step zero b = simp bit_and-bitwise (omega arith)
and_step (suc a) b = simp bit_and-bitwise (
    omega (
      arith,
      digits_fuel (λ d. 0) min a (suc a / 2) (suc a / 2) (b / 2) (omega arith) (omega arith),
    ))

pub or_step : (a b : ℕ) → bit_or a b ≡ bit_or (a / 2) (b / 2) * 2 + max (a % 2) (b % 2)
or_step zero b = simp bit_or-bitwise (omega arith)
or_step (suc a) b = simp bit_or-bitwise (
    omega (
      arith,
      digits_fuel (λ d. d) max a (suc a / 2) (suc a / 2) (b / 2) (omega arith) (omega arith),
    ))

pub doubled : (q k : ℕ) → q * 2 ^ suc k ≡ q * 2 ^ k * 2
doubled q k = omega (arith, ap (λ (p : ℕ). q * p) (pow-suc 2 k))

module _ (op f : ℕ → ℕ → ℕ) (step : (a b : ℕ) → op a b ≡ op (a / 2) (b / 2) * 2 + f (a % 2) (b % 2))
    (op_zero : op 0 0 ≡ 0) where
  split :
      (k a c r s : ℕ)
      → r < 2 ^ k
      → s < 2 ^ k
      → op (a * 2 ^ k + r) (c * 2 ^ k + s) ≡ op a c * 2 ^ k + op r s
  split zero a c r s low low' =
      let ra : a * 1 + r ≡ a = omega arith in
      let sc : c * 1 + s ≡ c = omega arith in
      let r0 : r ≡ 0 = omega arith in
      let s0 : s ≡ 0 = omega arith in rw (ra, sc, r0, s0) (omega (arith, op_zero))
  split (suc k) a c r s low low' =
      let double = λ (q : ℕ). doubled q k in
      let half_r : (a * 2 ^ suc k + r) / 2 ≡ a * 2 ^ k + r / 2 = omega (arith, double a) in
      let half_s : (c * 2 ^ suc k + s) / 2 ≡ c * 2 ^ k + s / 2 = omega (arith, double c) in
      let odd_r : (a * 2 ^ suc k + r) % 2 ≡ r % 2 = omega (arith, double a) in
      let odd_s : (c * 2 ^ suc k + s) % 2 ≡ s % 2 = omega (arith, double c) in
      let high =
        split k a c (r / 2) (s / 2) (omega (arith, pow-suc 2 k)) (omega (arith, pow-suc 2 k)) in
      step (a * 2 ^ suc k + r) (c * 2 ^ suc k + s)
      ∙ rw (half_r, half_s, odd_r, odd_s) (omega (arith, high, step r s, double (op a c)))

-- `(a << k | r) & (c << k | s)`, and with `|` in the middle, for low fields of `k` bits.
pub and_fields :
    (k a c r s : ℕ)
    → r < 2 ^ k
    → s < 2 ^ k
    → bit_and (a * 2 ^ k + r) (c * 2 ^ k + s) ≡ bit_and a c * 2 ^ k + bit_and r s
and_fields = split bit_and min and_step refl

pub or_fields :
    (k a c r s : ℕ)
    → r < 2 ^ k
    → s < 2 ^ k
    → bit_or (a * 2 ^ k + r) (c * 2 ^ k + s) ≡ bit_or a c * 2 ^ k + bit_or r s
or_fields = split bit_or max or_step refl

pub and_zero : (k r : ℕ) → r < 2 ^ k → bit_and r 0 ≡ 0
and_zero zero r low = let e : r ≡ 0 = omega arith in rw e refl
and_zero (suc k) r low =
    omega (arith, and_step r 0, and_zero k (r / 2) (omega (arith, pow-suc 2 k)))

pub or_zero : (k r : ℕ) → r < 2 ^ k → bit_or r 0 ≡ r
or_zero zero r low = let e : r ≡ 0 = omega arith in rw e refl
or_zero (suc k) r low = omega (arith, or_step r 0, or_zero k (r / 2) (omega (arith, pow-suc 2 k)))

-- `r & ((1 << k) - 1)`.
pub and_ones : (k r : ℕ) → r < 2 ^ k → bit_and r (2 ^ k - 1) ≡ r
and_ones zero r low = let e : r ≡ 0 = omega arith in rw e refl
and_ones (suc k) r low =
    let half : (2 ^ suc k - 1) / 2 ≡ 2 ^ k - 1 = omega (arith, pow-suc 2 k) in
    let odd : (2 ^ suc k - 1) % 2 ≡ 1 = omega (arith, pow-suc 2 k) in
    and_step r (2 ^ suc k - 1)
    ∙ rw (half, odd) (omega (arith, and_ones k (r / 2) (omega (arith, pow-suc 2 k))))

pub zero_or : (b : ℕ) → bit_or 0 b ≡ b
zero_or b = simp bit_or-bitwise refl
