-- ===== src/BitsOperations/Direct.antt =====
-- The conversion of a negative number to its direct code.
use eltex_systems.Base.{
  ℕ, zero, suc, ◌+◌, ◌-◌, ◌*◌, ◌/◌, ◌%◌, ◌^◌, ◌≤◌, ◌<◌, ◌≡◌, refl, ap, sym, subst, ◌∙◌, bit_and,
  bit_or, true, false, some, arith, ltb, ◌==◌, Bool-cases, inl, inr,
}
use eltex_systems.Base.Fields.{and_fields, or_fields, and_ones, or_zero, or_step, and_step, doubled}
use native.Mathlib.Nat.{pow-suc, one-le-pow, add-mul, mul-le-mul_left, mul-le-mul_right}
use eltex_systems.BitsOperations.{complement, bit_at, bits_from, to_direct, negative_to_bits}
use eltex_systems.BitsOperations.Masks.{twice, bit_at-digit}

pow_add : (n m : ℕ) → 2 ^ (n + m) ≡ 2 ^ n * 2 ^ m
pow_add zero m = let none_more : 0 + m ≡ m = omega arith in rw none_more (omega arith)
pow_add (suc n) m =
    let more : suc n + m ≡ suc (n + m) = omega arith in
    let factor : 2 ^ suc n * 2 ^ m ≡ 2 ^ n * 2 * 2 ^ m = ap (λ (c : ℕ). c * 2 ^ m) (pow-suc 2 n) in
    rw more (omega (arith, pow-suc 2 (n + m), pow_add n m, factor, twice (2 ^ n) (2 ^ m)))

-- Above the digits that were 0 and are 1 now: a 0 becomes 1, and the loop goes on.
or_bit :
    (s q r : ℕ)
    → q < 2 ^ 32
    → r < 2 ^ s
    → q % 2 ≡ 0
    → bit_or (q * 2 ^ s + r) (2 ^ s) ≡ (q + 1) * 2 ^ s + r
or_bit s q r small low even =
    let one : 2 ^ s ≡ 1 * 2 ^ s + 0 = omega arith in
    let high : bit_or q 1 ≡ q + 1 = omega (arith, or_step q 1, or_zero 32 (q / 2) (omega arith)) in
    ap (λ (m : ℕ). bit_or (q * 2 ^ s + r) m) one
    ∙ or_fields s q 1 r 0 low (one-le-pow s 2 (omega arith))
    ∙ rw high (omega (arith, or_zero s r low))

-- A 1 becomes 0.
and_bit :
    (n s q : ℕ)
    → n + 1 + s ≡ 32
    → q < 2 ^ (n + 1)
    → q % 2 ≡ 1
    → bit_and (q * 2 ^ s + (2 ^ s - 1)) (complement (2 ^ s)) ≡ (q - 1) * 2 ^ s + (2 ^ s - 1)
and_bit n s q all small odd =
    let some_low = one-le-pow s 2 (omega arith) in
    let double : 2 ^ (n + 1) ≡ 2 ^ n * 2 =
      let e : n + 1 ≡ suc n = omega arith in rw e (pow-suc 2 n) in
    let some_high = one-le-pow n 2 (omega arith) in
    let word : 2 ^ (n + 1) * 2 ^ s ≡ 2 ^ 32 = sym (pow_add (n + 1) s) ∙ ap (λ (k : ℕ). 2 ^ k) all in
    let rest : 2 ^ (n + 1) - 2 + 2 ≡ 2 ^ (n + 1) = omega arith in
    let sum : (2 ^ (n + 1) - 2) * 2 ^ s + 2 * 2 ^ s ≡ 2 ^ 32 =
      sym (add-mul (2 ^ (n + 1) - 2) 2 (2 ^ s)) ∙ ap (λ (k : ℕ). k * 2 ^ s) rest ∙ word in
    let mask : complement (2 ^ s) ≡ (2 ^ (n + 1) - 2) * 2 ^ s + (2 ^ s - 1) = omega (arith, sum) in
    let high : bit_and q (2 ^ (n + 1) - 2) ≡ q - 1 =
      let half : (2 ^ (n + 1) - 2) / 2 ≡ 2 ^ n - 1 = omega (arith, double) in
      let bit : (2 ^ (n + 1) - 2) % 2 ≡ 0 = omega (arith, double) in
      and_step q (2 ^ (n + 1) - 2)
      ∙ rw (half, bit) (omega (arith, and_ones n (q / 2) (omega (arith, double)))) in
    ap (λ (m : ℕ). bit_and (q * 2 ^ s + (2 ^ s - 1)) m) mask
    ∙ and_fields s q (2 ^ (n + 1) - 2) (2 ^ s - 1) (2 ^ s - 1) (omega arith) (omega arith)
    ∙ rw (high, and_ones s (2 ^ s - 1) (omega arith)) refl

bounded : (q p k : ℕ) → p * k ≡ 2 ^ 32 → q * k < 2 ^ 32 → q < p
bounded q p k power word = elim (Bool-cases (ltb q p)) [
  | inl below ↦ ground arith
  | inr above ↦
      let le : p ≤ q = ground arith in absurd (omega (arith, mul-le-mul_right {m = p} {n = q} k le))
]

-- Where the loop stands: below `shift` all digits were 0, and are 1 now.
direct_from :
    (n s q : ℕ)
    → n + s ≡ 31
    → 2 ^ 31 < q * 2 ^ s
    → q * 2 ^ s < 2 ^ 32
    → to_direct n s (q * 2 ^ s + (2 ^ s - 1)) ≡ 2 ^ 32 - q * 2 ^ s
unfolding to_direct
direct_from zero s q rounds above word =
    let last : s ≡ 31 = omega (arith, rounds) in
    let above' : 2 ^ 31 < q * 2 ^ 31 = subst (λ (k : ℕ). 2 ^ 31 < q * 2 ^ k) last above in
    let word' : q * 2 ^ 31 < 2 ^ 32 = subst (λ (k : ℕ). q * 2 ^ k < 2 ^ 32) last word in
    absurd (omega (arith, above', word'))
direct_from (suc n) s q rounds above word =
    let low : 2 ^ s - 1 < 2 ^ s = omega (arith, one-le-pow s 2 (omega arith)) in
    let bit = bit_at-digit s q (2 ^ s - 1) (omega (arith, rounds)) low in
    elim (Bool-cases (q % 2 == 0)) [
      | inl even ↦
          let h = q / 2 in
          let half : q ≡ h * 2 = ground arith in
          let shifted : q * 2 ^ s ≡ h * 2 ^ suc s =
            ap (λ (c : ℕ). c * 2 ^ s) half ∙ twice h (2 ^ s) ∙ sym (doubled h s) in
          let small = mul-le-mul_left {m = 1} {n = 2 ^ s} q (one-le-pow s 2 (omega arith)) in
          let set_bit : bit_or (q * 2 ^ s + (2 ^ s - 1)) (2 ^ s) ≡ h * 2 ^ suc s + (2 ^ suc s - 1) =
            or_bit s q (2 ^ s - 1) (omega (arith, small)) low (ground arith)
            ∙ omega (arith, add-mul q 1 (2 ^ s), shifted, pow-suc 2 s, low) in
          let zero_bit : (bit_at (q * 2 ^ s + (2 ^ s - 1)) s == 0) ≡ true = rw bit even in
          rw (zero_bit, set_bit)
            (direct_from n (suc s) h (omega (arith, rounds)) (omega (arith, shifted))
                (omega (arith, shifted))
              ∙ omega (arith, shifted))
      | inr odd ↦
          let one_bit : (bit_at (q * 2 ^ s + (2 ^ s - 1)) s == 0) ≡ false = rw bit odd in
          let all : suc n + 1 + s ≡ 32 = omega (arith, rounds) in
          let power : 2 ^ (suc n + 1) * 2 ^ s ≡ 2 ^ 32 =
            sym (pow_add (suc n + 1) s) ∙ ap (λ (k : ℕ). 2 ^ k) all in
          let small : q < 2 ^ (suc n + 1) = bounded q (2 ^ (suc n + 1)) (2 ^ s) power word in
          let cleared = and_bit (suc n) s q all small (ground arith) in
          let q_is : q - 1 + 1 ≡ q = ground arith in
          let whole : (q - 1) * 2 ^ s + 1 * 2 ^ s ≡ q * 2 ^ s =
            sym (add-mul (q - 1) 1 (2 ^ s)) ∙ ap (λ (c : ℕ). c * 2 ^ s) q_is in
          rw (one_bit, cleared) (omega (arith, whole, low, word))
    ]

-- For a negative number above INT_MIN the loop of `negative_to_bits` comes to its magnitude, so that
-- what is printed as its direct code is what is printed for the positive number.
pub to_direct-magnitude :
    (w : ℕ)
    → 2 ^ 31 < w
    → w < 2 ^ 32
    → (to_direct 31 0 w ≡ 2 ^ 32 - w) × ((negative_to_bits w).1 ≡ some (bits_from 32 (2 ^ 32 - w)))
unfolding negative_to_bits
to_direct-magnitude w negative word =
    let start : w ≡ w * 2 ^ 0 + (2 ^ 0 - 1) = omega arith in
    let run : to_direct 31 0 w ≡ 2 ^ 32 - w =
      ap (to_direct 31 0) start
      ∙ direct_from 31 0 w (omega arith) (omega arith) (omega arith)
      ∙ omega arith in
    let high : ltb w (2 ^ 31) ≡ false = ground arith in (run, rw (negative_to_bits, high, run) refl)
