-- ===== src/BitsOperations/Bytes.antt =====
-- The change of the third byte, by masks and in memory.
use eltex_systems.Base.{ℕ, ◌+◌, ◌-◌, ◌*◌, ◌/◌, ◌%◌, ◌^◌, ◌<◌, ◌≡◌, ap, ◌∙◌, bit_and, bit_or, arith}
use eltex_systems.Base.Fields.{and_fields, or_fields, and_zero, or_zero, and_ones}
use eltex_systems.Base.Bits.{bit_or_fields}
use eltex_systems.BitsOperations.{complement, change_third_byte, poke_third_byte}

masked :
    (h o l : ℕ)
    → h < 2 ^ 8
    → o < 2 ^ 8
    → l < 2 ^ 16
    → bit_and ((h * 2 ^ 8 + o) * 2 ^ 16 + l) (complement (255 * 2 ^ 16)) ≡ h * 2 ^ 8 * 2 ^ 16 + l
masked h o l sh so sl =
    and_fields 16 (h * 2 ^ 8 + o) (255 * 2 ^ 8) l (2 ^ 16 - 1) sl (omega arith)
    ∙ omega (
      arith,
      and_fields 8 h 255 o 0 so (omega arith),
      and_ones 8 h sh,
      and_zero 8 o so,
      and_ones 16 l sl,
    )

filled :
    (h b l : ℕ)
    → b < 2 ^ 8
    → h < 2 ^ 8
    → l < 2 ^ 16
    → bit_or (h * 2 ^ 8 * 2 ^ 16 + l) (b * 2 ^ 16) ≡ (h * 2 ^ 8 + b) * 2 ^ 16 + l
filled h b l sb sh sl =
    let whole : b * 2 ^ 16 ≡ b * 2 ^ 16 + 0 = omega arith in
    let high : bit_or (h * 2 ^ 8) b ≡ h * 2 ^ 8 + b = bit_or_fields 8 h b sb in
    rw whole
      (or_fields 16 (h * 2 ^ 8) b l 0 sl (omega arith) ∙ omega (arith, high, or_zero 16 l sl))

-- For a byte, `change_third_byte` of `bits.c` prints the number that `pointers_task1.c` makes in memory
-- with the same input: the other three bytes stay.
change-poke :
    (input b : ℕ) → input < 2 ^ 32 → b < 256 → change_third_byte input b ≡ poke_third_byte input b
unfolding change_third_byte poke_third_byte
change-poke input b word byte =
    let h = input / 16777216 in
    let o = (input / 65536) % 256 in
    let l = input % 65536 in
    let parts : input ≡ (h * 2 ^ 8 + o) * 2 ^ 16 + l = omega arith in
    let shifted : b * 2 ^ 16 % 2 ^ 32 ≡ b * 2 ^ 16 = omega arith in
    let m = masked h o l (omega arith) (omega arith) (omega arith) in
    let f = filled h b l byte (omega arith) (omega arith) in
    let masks : bit_and input (complement (255 * 2 ^ 16)) ≡ h * 2 ^ 8 * 2 ^ 16 + l =
      ap (λ (x : ℕ). bit_and x (complement (255 * 2 ^ 16))) parts ∙ m in
    ap (λ (x : ℕ). bit_or x (b * 2 ^ 16 % 2 ^ 32)) masks
    ∙ ap (λ (x : ℕ). bit_or (h * 2 ^ 8 * 2 ^ 16 + l) x) shifted
    ∙ f
    ∙ omega arith
