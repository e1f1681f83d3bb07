-- ===== src/BitsOperations.antt =====
-- `bits_operations/bits.c`: the digits of a number, lowest first and by masks, the count of its ones,
-- and the change of a byte; with `pointers/pointers_task1.c`, which changes the byte in memory. An
-- `int` is its 32-bit word, and `>>` on a negative number shifts in ones, as gcc does.
pub mod Digits
pub mod Masks
pub mod Direct
pub mod Bytes
use eltex_systems.Base.{
  ℕ, zero, suc, ◌+◌, ◌-◌, ◌*◌, ◌/◌, ◌%◌, ◌^◌, bit_and, bit_or, List, [], ◌∷◌, Option, none, some,
  ltb, ◌==◌, if◌then◌else◌, set,
}
use eltex_systems.Base.Int.{ℤ, of_word}

-- `x >> 1`.
abbrev pub shift_right : ℕ → ℕ
shift_right x = if ltb x (2 ^ 31) then x / 2 else x / 2 + 2 ^ 31

-- The first loop of `positive_to_bits`: the digits that it prints; `none` is the end of the fuel.
unfoldable pub low_bits : (fuel podopitniy : ℕ) → Option (List ℕ)
low_bits zero x = if x == 0 then some [] else none
low_bits (suc f) x =
    let rest = low_bits f (shift_right x) in
    if x == 0 then some [] else elim rest [ none ↦ none | some ds ↦ some (bit_and x 1 ∷ ds) ]

-- The loop of `count_positive_bits`.
unfoldable pub count_from : (fuel counter input : ℕ) → Option ℕ
count_from zero counter x = if x == 0 then some counter else none
count_from (suc f) counter x =
    let rest = count_from f (counter + bit_and x 1) (shift_right x) in
    if x == 0 then some counter else rest

-- What `count_positive_bits` prints: a number, or that the input must be above 0.
pub data Printed : Type 0 where
  number : ℕ → Printed
  wrong_input no_end : Printed

unfoldable pub count_positive_bits : ℕ → Printed
count_positive_bits input =
    if input == 0
    then wrong_input
    else if ltb input (2 ^ 31)
    then (elim (count_from 31 0 input) [ none ↦ no_end | some n ↦ number n ])
    else wrong_input

-- `~x`, and `x >> n`.
abbrev pub complement : ℕ → ℕ
complement x = 2 ^ 32 - 1 - x

abbrev pub shift_right_by : (n x : ℕ) → ℕ
shift_right_by n x = if ltb x (2 ^ 31) then x / 2 ^ n else x / 2 ^ n + (2 ^ 32 - 2 ^ (32 - n))

-- `(x & (1 << n)) >> n`.
unfoldable pub bit_at : (x n : ℕ) → ℕ
bit_at x n = shift_right_by n (bit_and x (2 ^ n))

-- The loop that prints by masks, with one more than `bit_counter`.
unfoldable pub bits_from : (bits x : ℕ) → List ℤ
bits_from zero x = []
bits_from (suc n) x = of_word (bit_at x n) ∷ bits_from n x

-- The two lines of `positive_to_bits`.
unfoldable pub positive_to_bits : (fuel input : ℕ) → Option (List ℕ × List ℤ)
positive_to_bits fuel input = elim (low_bits fuel input) [
  | none ↦ none
  | some ds ↦ some (ds, bits_from 32 input)
]

-- The `for` loop of `negative_to_bits`, for the rounds that are left.
unfoldable pub to_direct : (rounds shift podopitniy : ℕ) → ℕ
to_direct zero shift x = x
to_direct (suc n) shift x =
    let further = to_direct n (suc shift) (bit_or x (2 ^ shift)) in
    if bit_at x shift == 0 then further else complement (bit_and x (complement (2 ^ shift)))

-- The digits that it prints, and those of the direct code of a negative number.
unfoldable pub negative_to_bits : ℕ → List ℤ × Option (List ℤ)
negative_to_bits input = (
  bits_from 32 input,
  if ltb input (2 ^ 31) then none else some (bits_from 32 (to_direct 31 0 input)),
)

-- The word that `change_third_byte` prints.
unfoldable pub change_third_byte : (input input_byte : ℕ) → ℕ
change_third_byte input input_byte =
    bit_or (bit_and input (complement (255 * 2 ^ 16))) (input_byte * 2 ^ 16 % 2 ^ 32)

-- The bytes of an `int` in memory, lowest first, and the `int` of four bytes.
abbrev pub bytes_of : ℕ → List ℕ
bytes_of x = x % 256 ∷ (x / 256) % 256 ∷ (x / 65536) % 256 ∷ x / 16777216 ∷ []

abbrev pub int_of : List ℕ → ℕ
int_of [] = 0
int_of (b ∷ bs) = b + 256 * int_of bs

-- `ap[2] = input` of `pointers_task1.c`, on the `int` behind the pointer.
unfoldable pub poke_third_byte : (a input : ℕ) → ℕ
poke_third_byte a input = int_of (set (bytes_of a) 2 (input % 256))
