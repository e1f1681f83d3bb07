-- ===== src/Base/Bits.antt =====
-- `(a << k) | b` on the native numbers.
use Prim.Native.Nat.{
  ℕ, zero, suc, ◌+◌, ◌*◌, ◌/◌, ◌%◌, ◌^◌, ◌≤◌, ◌<◌, min, max, digits, bit_and, bit_or,
  bit_and-bitwise, bit_or-bitwise,
}
use mathlib.Core.Path.{◌≡◌, refl, ap}
use native.Mathlib.Nat.{le_refl, pow-suc}
use native.Mathlib.Omega.{arith}

shift_doubles : (q k : ℕ) → q * 2 ^ suc k ≡ (q * 2 ^ k) + (q * 2 ^ k)
shift_doubles q k = omega (arith, ap (λ (p : ℕ). q * p) (pow-suc 2 k))

-- The recursion behind `bit_or` adds, when the lowest `k` digits of the first number are 0 and the
-- second has no others, whatever the fuel from that number on.
merge :
    (fuel k x q r : ℕ) → x ≤ fuel → x ≡ q * 2 ^ k → r < 2 ^ k → digits (λ d. d) max fuel x r ≡ x + r
merge zero k x q r enough shifted low = omega arith
merge (suc fuel) k zero q r enough shifted low = omega arith
merge (suc fuel) zero (suc x) q r enough shifted low =
    let half = suc x / 2 in
    ground (arith, merge fuel zero half half (r / 2) (omega arith) (omega arith) (omega arith))
merge (suc fuel) (suc k) (suc x) q r enough shifted low =
    let doubled = shift_doubles q k in
    let halved =
      merge fuel k (suc x / 2) q (r / 2) (omega arith) (omega arith) (omega (arith, pow-suc 2 k)) in
    ground (arith, halved, doubled)

-- `(q << k) | r` is a sum when `r` fits in `k` bits.
pub bit_or_fields : (k q r : ℕ) → r < 2 ^ k → bit_or (q * 2 ^ k) r ≡ q * 2 ^ k + r
bit_or_fields k q r fits =
    let x = q * 2 ^ k in simp bit_or-bitwise (merge x k x q r (le_refl x) (λ _. x) fits)

no_digits : (fuel a : ℕ) → digits (λ d. 0) min fuel a 0 ≡ 0
no_digits zero a = refl
no_digits (suc fuel) zero = refl
no_digits (suc fuel) (suc a) = omega (arith, no_digits fuel (suc a / 2))

-- The lowest digit.
pub bit_and-one : (a : ℕ) → bit_and a 1 ≡ a % 2
bit_and-one zero = simp bit_and-bitwise (omega arith)
bit_and-one (suc a) = simp bit_and-bitwise (omega (arith, no_digits a (suc a / 2)))
