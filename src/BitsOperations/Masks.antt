-- ===== src/BitsOperations/Masks.antt =====
-- What the loops that print by masks print.
use eltex_systems.Base.{
  ℕ, zero, suc, ◌+◌, ◌-◌, ◌*◌, ◌/◌, ◌%◌, ◌^◌, ◌≤◌, ◌<◌, ◌≡◌, refl, ap, sym, subst, ◌∙◌, bit_and,
  true, List, [], ◌∷◌, arith, ltb, if◌then◌else◌, length, All, Bool-cases, inl, inr,
}
use eltex_systems.Base.Int.{ℤ, pos, negsuc, of_word}
use eltex_systems.Base.Bits.{bit_and-one}
use eltex_systems.Base.Fields.{and_fields, and_zero, doubled}
use native.Mathlib.Nat.{add-mul, pow-suc, one-le-pow, div_self, zero-div, pow-le-pow_right}
use eltex_systems.BitsOperations.{shift_right_by, bit_at, bits_from}

-- A printed digit, and the number that digits are read as, the highest first.
abbrev pub IsBinary : ℤ → Type 0
IsBinary (pos d) = d < 2
IsBinary (negsuc d) = ⊥

abbrev pub digit : ℤ → ℕ
digit (pos d) = d
digit (negsuc d) = 0

abbrev pub reads : ℕ → List ℤ → ℕ
reads acc [] = acc
reads acc (d ∷ ds) = reads (acc * 2 + digit d) ds

masked_bit : (n q r : ℕ) → r < 2 ^ n → bit_and (q * 2 ^ n + r) (2 ^ n) ≡ q % 2 * 2 ^ n
masked_bit n q r low =
    let one : 2 ^ n ≡ 1 * 2 ^ n + 0 = omega arith in
    ap (λ (m : ℕ). bit_and (q * 2 ^ n + r) m) one
    ∙ and_fields n q 1 r 0 low (one-le-pow n 2 (omega arith))
    ∙ rw (bit_and-one q) (omega (arith, and_zero n r low))

shifted_bit : (n d : ℕ) → n ≤ 30 → d < 2 → shift_right_by n (d * 2 ^ n) ≡ d
shifted_bit n zero small bit =
    let none_left : 0 * 2 ^ n ≡ 0 = omega arith in rw none_left (zero-div (2 ^ n))
shifted_bit n (suc d) small bit =
    let one : suc d * 2 ^ n ≡ 2 ^ n = let e : suc d ≡ 1 = omega arith in rw e (omega arith) in
    let high = pow-le-pow_right {n = 2} (omega arith) {i = n} {j = 30} small in
    let below : ltb (2 ^ n) (2 ^ 31) ≡ true = ground arith in
    let whole = div_self {n = 2 ^ n} (one-le-pow n 2 (omega arith)) in
    rw (one, below, whole) (omega arith)

-- Below the sign bit: the digit of the number.
pub bit_at-digit : (n q r : ℕ) → n ≤ 30 → r < 2 ^ n → bit_at (q * 2 ^ n + r) n ≡ q % 2
unfolding bit_at
bit_at-digit n q r small low =
    rw (bit_at, masked_bit n q r low) (shifted_bit n (q % 2) small (omega arith))

-- The digits of a number, the highest first, each of them 0 or 1.
abbrev pub Prints : (bits x r : ℕ) → Type 0
Prints n x r =
    All IsBinary (bits_from n x)
    × (length (bits_from n x) ≡ n)
    × ((acc : ℕ) → reads acc (bits_from n x) ≡ acc * 2 ^ n + r)

pub twice : (a b : ℕ) → a * 2 * b ≡ a * b * 2
twice a b =
    let sum : a * 2 ≡ a + a = omega arith in ap (λ (c : ℕ). c * b) sum ∙ add-mul a a b ∙ omega arith

top : (n q d r : ℕ) → (q * 2 + d) * 2 ^ n + r ≡ q * 2 ^ suc n + (d * 2 ^ n + r)
top n q d r = omega (arith, doubled q n, add-mul (q * 2) d (2 ^ n), twice q (2 ^ n))

digit-Prints :
    (n x d r : ℕ) → bit_at x n ≡ d → d < 2 → Prints n x r → Prints (suc n) x (d * 2 ^ n + r)
unfolding bits_from
digit-Prints n x d r bit binary (all, len, value) =
    let printed : of_word (bit_at x n) ≡ pos d =
      let small : ltb d (2 ^ 31) ≡ true = ground arith in rw (bit, small) refl in
    (
      rw printed (binary, all),
      omega (arith, len),
      λ acc. rw printed (value (acc * 2 + d) ∙ top n acc d r),
    )

-- The lowest bits of a number, as many as are printed, whatever is above them.
bits_from-Prints : (n q r : ℕ) → n ≤ 31 → r < 2 ^ n → Prints n (q * 2 ^ n + r) r
unfolding bits_from
bits_from-Prints zero q r small low = (tt, refl, λ acc. omega arith)
bits_from-Prints (suc n) q r small low = elim (Bool-cases (ltb r (2 ^ n))) [
  | inl zero_bit ↦
      whole 0 r (omega arith) (ground arith) (omega arith)
        (bits_from-Prints n (q * 2 + 0) r (omega (arith, small)) (ground arith))
  | inr one_bit ↦
      let low' : r - 2 ^ n < 2 ^ n = ground (arith, pow-suc 2 n) in
      whole 1 (r - 2 ^ n) (omega arith) low' (ground arith)
        (bits_from-Prints n (q * 2 + 1) (r - 2 ^ n) (omega (arith, small)) low')
]
  where
    whole :
        (d r' : ℕ)
        → d < 2
        → r' < 2 ^ n
        → d * 2 ^ n + r' ≡ r
        → Prints n ((q * 2 + d) * 2 ^ n + r') r'
        → Prints (suc n) (q * 2 ^ suc n + r) r
    whole d r' binary low' e ih =
        let x = (q * 2 + d) * 2 ^ n + r' in
        let bit : bit_at x n ≡ d =
          bit_at-digit n (q * 2 + d) r' (omega (arith, small)) low' ∙ omega arith in
        let p : Prints (suc n) x (d * 2 ^ n + r') = digit-Prints n x d r' bit binary ih in
        subst (λ (k : ℕ). Prints (suc n) (q * 2 ^ suc n + k) k) e
          (subst (λ (y : ℕ). Prints (suc n) y (d * 2 ^ n + r')) (top n q d r') p)

bit_at_word :
    (x m : ℕ) → bit_and x (2 ^ 31) ≡ m → of_word (bit_at x 31) ≡ of_word (shift_right_by 31 m)
unfolding bit_at
bit_at_word x m e = rw (bit_at, e) refl

-- What the loop by masks prints of a word: 31 digits 0 or 1 that read as its lowest 31 bits, and in
-- front of them 0 for a number that is not negative, but -1 for a negative one, as the sign bit is
-- shifted down with its sign.
pub bits_from-sign :
    (x : ℕ)
    → x < 2 ^ 32
    → (ds : List ℤ) × (bits_from 32 x ≡ (if ltb x (2 ^ 31) then pos 0 else negsuc 0) ∷ ds)
      × (length ds ≡ 31)
      × All IsBinary ds
      × (reads 0 ds ≡ x % 2 ^ 31)
unfolding bits_from
bits_from-sign x word =
    let q = x / 2 ^ 31 in
    let r = x % 2 ^ 31 in
    let parts : q * 2 ^ 31 + r ≡ x = omega arith in
    let (all, len, value) =
      subst (λ (y : ℕ). Prints 31 y r) parts
        (bits_from-Prints 31 q r (omega arith) (omega arith)) in
    let masked : bit_and x (2 ^ 31) ≡ q % 2 * 2 ^ 31 =
      ap (λ (y : ℕ). bit_and y (2 ^ 31)) (sym parts) ∙ masked_bit 31 q r (omega arith) in
    let sign : of_word (bit_at x 31) ≡ (if ltb x (2 ^ 31) then pos 0 else negsuc 0) =
      elim (Bool-cases (ltb x (2 ^ 31))) [
        | inl low ↦
            let none_left : bit_and x (2 ^ 31) ≡ 0 = ground (arith, masked) in
            rw low (bit_at_word x 0 none_left)
        | inr high ↦
            let only : bit_and x (2 ^ 31) ≡ 2 ^ 31 = ground (arith, masked) in
            rw high (bit_at_word x (2 ^ 31) only)
      ] in
    (bits_from 31 x, ap (λ s. s ∷ bits_from 31 x) sign, len, all, value 0 ∙ omega arith)
