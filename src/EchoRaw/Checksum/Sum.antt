-- ===== src/EchoRaw/Checksum/Sum.antt =====
-- The loops of `checksum.c` against one's complement sums of unbounded numbers.
use eltex_systems.Base.{
  ℕ, zero, suc, ◌+◌, ◌-◌, ◌*◌, ◌/◌, ◌%◌, ◌^◌, ◌≤◌, ◌<◌, ◌≡◌, ◌≢◌, inl, inr, List, [], ◌∷◌, arith,
  ◌==◌, if◌then◌else◌, Bool-cases, length, All,
}
use eltex_systems.Base.Bits.{bit_or_fields}
use eltex_systems.EchoRaw.Checksum.{u16, u32, add_words, fold_loop, fold_carries}

abbrev pub IsBytes : List ℕ → Type 0
IsBytes = All (λ b. b < 256)

-- The sum of the big-endian 16-bit words of the bytes, an odd last byte being a high byte.
abbrev pub word_sum : List ℕ → ℕ
word_sum [] = 0
word_sum (a ∷ []) = a * 256
word_sum (a ∷ b ∷ bs) = a * 256 + b + word_sum bs

-- The one's complement sum: 0 for 0, else the representative from 1 to 65535 modulo 65535.
abbrev pub ones : ℕ → ℕ
ones s = if s == 0 then 0 else (s - 1) % 65535 + 1

word_sum-le : (bs : List ℕ) → IsBytes bs → word_sum bs ≤ 32768 * (length bs + 1)
word_sum-le [] h = omega arith
word_sum-le (a ∷ []) h = omega arith
word_sum-le (a ∷ b ∷ bs) h = omega (arith, word_sum-le bs h.1.1)

add_words-eq_add :
    (sum : ℕ) (bs : List ℕ)
    → IsBytes bs
    → sum + word_sum bs < 2 ^ 32
    → add_words sum bs ≡ sum + word_sum bs
unfolding add_words
add_words-eq_add sum [] h fits = omega arith
add_words-eq_add sum (a ∷ []) h fits = omega arith
add_words-eq_add sum (a ∷ b ∷ bs) h fits = rw (bit_or_fields 8 a b (omega arith)) (
    let word : u32 (sum + u16 (a * 2 ^ 8 + b)) ≡ sum + (a * 256 + b) = omega arith in
    rw (word, add_words-eq_add (sum + (a * 256 + b)) bs h.1.1 (omega arith)) (omega arith))

-- The loop over the bytes computes the word sum, as long as that fits `uint32_t`.
pub add_words_lem :
    (sum : ℕ) (bs : List ℕ)
    → IsBytes bs
    → sum < 2 ^ 16
    → length bs < 2 ^ 16
    → add_words sum bs ≡ sum + word_sum bs
add_words_lem sum bs h small short = add_words-eq_add sum bs h (omega (arith, word_sum-le bs h))

ones_fold : (s : ℕ) → s / 2 ^ 16 ≢ 0 → ones (s % 2 ^ 16 + s / 2 ^ 16) ≡ ones s
ones_fold s h = ground arith

fold_loop-ones : (fuel s : ℕ) → s ≤ fuel → fold_loop fuel s ≡ ones s
unfolding fold_loop
fold_loop-ones zero s h = ground arith
fold_loop-ones (suc fuel) s h = elim (Bool-cases (s / 2 ^ 16 == 0)) [
  | inl done ↦ rw done (ground arith)
  | inr more ↦
      rw (more, fold_loop-ones fuel (s % 2 ^ 16 + s / 2 ^ 16) (ground arith))
        (ones_fold s (ground arith))
]

-- The carry loop ends with the one's complement sum.
pub fold_carries_lem : (s : ℕ) → fold_carries s ≡ ones s
unfolding fold_carries
fold_carries_lem s = fold_loop-ones s s (omega arith)

pub ones-le : (s : ℕ) → ones s ≤ 65535
ones-le s = ground arith

pub ones-add : (a b : ℕ) → ones (ones a + b) ≡ ones (a + b)
ones-add a b = ground arith
