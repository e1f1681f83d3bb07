-- ===== src/Massives/Reverse.antt =====
-- The array printed in reverse.
use eltex_systems.Base.{
  ℕ, zero, suc, ◌+◌, ◌-◌, ◌<◌, ◌≡◌, refl, ap, ◌∙◌, Bool, ◌||◌, List, ◌∷◌, arith, ltb, if◌then◌else◌,
  length, get_or, set, length-set, get_or-set_self, get_or-set_ne, Bool-cases, inl, inr, true, some,
}
use eltex_systems.Base.Int.{pos}
use eltex_systems.Massives.{reverse_from, reverse_output}

-- Index `j` of the array, when the loop stands at `i`: mirrored if it was swapped.
abbrev pub mirrored : (n i j : ℕ) → Bool
mirrored n i j = ltb j i || ltb (n - j - 1) i

pub IsHalfway : (n i : ℕ) → (orig array : List ℕ) → Type 0
IsHalfway n i orig array =
    (length array ≡ n)
    × ((j : ℕ)
        → j < n
        → get_or array j 0
          ≡ (if mirrored n i j then get_or orig (n - j - 1) 0 else get_or orig j 0))

abbrev pub swapped : ℕ → List ℕ → List ℕ
swapped i array =
    let n = length array in
    if ltb i (n - i - 1)
    then set (set array (n - i - 1) (get_or array i 0)) i (get_or array (n - i - 1) 0)
    else array

swapped-IsHalfway :
    (n i : ℕ) (orig array : List ℕ)
    → i < n
    → IsHalfway n i orig array
    → IsHalfway n (suc i) orig (swapped i array)
unfolding IsHalfway
swapped-IsHalfway n i orig array h (len, cells) = elim (Bool-cases (ltb i (n - i - 1))) [
  | inl front ↦
      let far = n - i - 1 in
      let x = get_or array i 0 in
      let y = get_or array far 0 in
      let x_is = cells i h in
      let y_is = cells far (ground arith) in
      (
        rw (len, front) (length-set (set array far x) i y ∙ length-set array far x ∙ len),
        λ j hj.
            rw (len, front)
              (ground (
                arith,
                cells j hj,
                x_is,
                y_is,
                length-set array far x,
                get_or-set_self (set array far x) i y 0,
                get_or-set_ne (set array far x) i j y 0,
                get_or-set_self array far x 0,
                get_or-set_ne array far j x 0,
              )),
      )
  | inr back ↦ (rw (len, back) len, λ j hj. rw (len, back) (cells j hj ∙ ground arith))
]

-- The loop from `i`: each number printed is the mirrored one, and at the end all are mirrored.
pub record Reverses (n i r : ℕ) (orig : List ℕ) (result : List ℕ × List ℕ) : Type 0 where
  pub count : length result.0 ≡ r
  pub printed : (k : ℕ) → k < r → get_or result.0 k 0 ≡ get_or orig (n - (i + k) - 1) 0
  pub final : IsHalfway n n orig result.1

front_cell :
    (n i : ℕ) (orig array : List ℕ)
    → i < n
    → IsHalfway n (suc i) orig array
    → get_or array i 0 ≡ get_or orig (n - i - 1) 0
unfolding IsHalfway
front_cell n i orig array h (len, cells) = cells i h ∙ ground arith

reverse_from-Reverses :
    (n r i : ℕ) (orig array : List ℕ)
    → i + r ≡ n
    → IsHalfway n i orig array
    → Reverses n i r orig (reverse_from r i array)
unfolding reverse_from
reverse_from-Reverses n zero i orig array whole half = record {
  count = refl;
  printed = λ k h. absurd (omega arith);
  final = let all : i ≡ n = omega arith in rw all at half;
}
reverse_from-Reverses n (suc r) i orig array whole half =
    let half' = swapped-IsHalfway n i orig array (omega arith) half in
    let ih = reverse_from-Reverses n r (suc i) orig (swapped i array) (omega arith) half' in
    let here : get_or (swapped i array) i 0 ≡ get_or orig (n - i - 1) 0 =
      front_cell n i orig (swapped i array) (omega arith) half' in
    record { count = ap suc ih.count; printed = λ k h. cases k h here ih.printed; final = ih.final }
  where
    cases :
        (k : ℕ)
        → k < suc r
        → get_or (swapped i array) i 0 ≡ get_or orig (n - i - 1) 0
        → ((k : ℕ)
            → k < r
            → get_or (reverse_from r (suc i) (swapped i array)).0 k 0
              ≡ get_or orig (n - (suc i + k) - 1) 0)
        → get_or (get_or (swapped i array) i 0 ∷ (reverse_from r (suc i) (swapped i array)).0) k 0
          ≡ get_or orig (n - (i + k) - 1) 0
    cases zero h first others = first ∙ ap (λ m. get_or orig (n - m - 1) 0) (omega arith)
    cases (suc k) h first others =
        others k (omega arith) ∙ ap (λ m. get_or orig (n - m - 1) 0) (omega arith)

-- For N numbers `reverse_output` prints as many, in the reverse order, and leaves the array itself
-- reversed: the swaps stop at the middle.
reverse_output_lem :
    (n : ℕ) (array : List ℕ) (k : ℕ)
    → length array ≡ suc n
    → k < suc n
    → (printed : List ℕ) × (final : List ℕ) × (reverse_output (pos (suc n)) array
        ≡ some (printed, final))
      × (length printed ≡ suc n)
      × (get_or printed k 0 ≡ get_or array (n - k) 0)
      × (get_or final k 0 ≡ get_or array (n - k) 0)
unfolding reverse_output IsHalfway
reverse_output_lem n array k size h =
    let r =
      reverse_from-Reverses (suc n) (suc n) 0 array array (omega arith)
        (size, λ j hj. ground arith) in
    let (printed, final) = reverse_from (suc n) 0 array in
    (
      printed,
      final,
      refl,
      r.count,
      r.printed k h ∙ ap (λ m. get_or array m 0) (omega arith),
      r.final.1 k h ∙ end_cell (get_or array),
    )
  where
    end_cell :
        (cell : ℕ → ℕ → ℕ)
        → (if mirrored (suc n) (suc n) k then cell (suc n - k - 1) 0 else cell k 0) ≡ cell (n - k) 0
    end_cell cell =
        let same : suc n - k - 1 ≡ n - k = omega arith in
        let all : ltb k (suc n) ≡ true = ground arith in rw (all, same) refl
