-- ===== src/Massives/Triangle.antt =====
-- The cells of the triangle and of the square matrix.
use eltex_systems.Base.{
  ◌∷◌, ℕ, zero, suc, ◌+◌, ◌-◌, ◌*◌, ◌≤◌, ◌<◌, ◌≡◌, refl, ◌∙◌, List, [], arith, ltb, if◌then◌else◌,
  length, get_or, set, length-set, get_or-set_self, get_or-set_ne, some, ap, ◌==◌, Bool-cases, inl,
  inr,
}
use eltex_systems.Base.Int.{pos}
use eltex_systems.Massives.{
  triangle_fill, triangle_row, triangle_rows, triangles, square_row, square_rows, square_matrix,
}

fill_above :
    (j buf k : ℕ) (row : List ℕ) → j ≤ k → get_or (triangle_fill j buf row) k 0 ≡ get_or row k 0
unfolding triangle_fill
fill_above zero buf k row h = refl
fill_above (suc j) buf k row h =
    fill_above j (buf - 1) k (set row j (if ltb 0 buf then 1 else 0)) (omega arith)
    ∙ get_or-set_ne row j k (if ltb 0 buf then 1 else 0) 0 (ground arith)

fill_cell :
    (j buf k : ℕ) (row : List ℕ)
    → j ≤ length row
    → k < j
    → get_or (triangle_fill j buf row) k 0 ≡ (if ltb j (k + buf + 1) then 1 else 0)
unfolding triangle_fill
fill_cell zero buf k row long h = absurd (omega arith)
fill_cell (suc j) buf k row long h =
    let v : ℕ = if ltb 0 buf then 1 else 0 in
    let same_length = length-set row j v in
    elim (Bool-cases (k == j)) [
      | inl last ↦
          let is : k ≡ j = ground arith in
          rw is (
            fill_above j (buf - 1) j (set row j v) (omega arith)
            ∙ get_or-set_self row j v 0 (omega arith)
            ∙ ground arith)
      | inr before ↦
          fill_cell j (buf - 1) k (set row j v) (omega (arith, same_length)) (ground arith)
          ∙ ground arith
    ]

triangle_row-cell :
    (i k : ℕ) (cells : List ℕ)
    → k < length cells
    → get_or (triangle_row i cells) k 0 ≡ (if ltb (k + i + 1) (length cells) then 0 else 1)
unfolding triangle_row
triangle_row-cell i k cells h =
    fill_cell (length cells) (i + 1) k cells (omega arith) h ∙ ground arith

triangle_rows-row :
    (i k : ℕ) (matrix : List (List ℕ))
    → k < length matrix
    → get_or (triangle_rows i matrix) k [] ≡ triangle_row (i + k) (get_or matrix k [])
unfolding triangle_rows
triangle_rows-row i k [] h = absurd (omega arith)
triangle_rows-row i zero (cells ∷ matrix) h = let same : i + 0 ≡ i = omega arith in rw same refl
triangle_rows-row i (suc k) (cells ∷ matrix) h =
    let same : i + 1 + k ≡ i + suc k = omega arith in
    triangle_rows-row (i + 1) k matrix (omega arith) ∙ rw same refl

-- Row `i` of the triangle of order `n` holds ones in its last `i + 1` columns and zeros before
-- them, whatever the matrix held before.
triangles-cell :
    (n i j : ℕ) (matrix : List (List ℕ))
    → length matrix ≡ suc n
    → i < suc n
    → length (get_or matrix i []) ≡ suc n
    → j < suc n
    → (rows : List (List ℕ)) × (triangles (pos (suc n)) matrix ≡ some rows)
      × (get_or (get_or rows i []) j 0 ≡ (if ltb (j + i + 1) (suc n) then 0 else 1))
unfolding triangles
triangles-cell n i j matrix rows_there hi width hj =
    let first : 0 + i ≡ i = omega arith in
    (
      triangle_rows 0 matrix,
      refl,
      ap (λ row. get_or row j 0) (triangle_rows-row 0 i matrix (omega arith))
          ∙ rw (first, ← width) (triangle_row-cell i j (get_or matrix i []) (omega arith)),
    )

square_row-cell : (n i r j k : ℕ) → k < r → get_or (square_row n i r j) k 0 ≡ n * i + 1 + (j + k)
unfolding square_row
square_row-cell n i zero j k h = absurd (omega arith)
square_row-cell n i (suc r) j zero h = omega arith
square_row-cell n i (suc r) j (suc k) h =
    square_row-cell n i r (suc j) k (omega arith) ∙ omega arith

square_rows-row : (n r i k : ℕ) → k < r → get_or (square_rows n r i) k [] ≡ square_row n (i + k) n 0
unfolding square_rows
square_rows-row n zero i k h = absurd (omega arith)
square_rows-row n (suc r) i zero h = ap (λ m. square_row n m n 0) (omega arith)
square_rows-row n (suc r) i (suc k) h =
    square_rows-row n r (suc i) k (omega arith) ∙ ap (λ m. square_row n m n 0) (omega arith)

-- The square matrix of order `n` holds 1, 2, 3 and so on, row by row.
square_matrix-cell :
    (n i j : ℕ)
    → i < suc n
    → j < suc n
    → (rows : List (List ℕ)) × (square_matrix (pos (suc n)) ≡ some rows)
      × (get_or (get_or rows i []) j 0 ≡ suc n * i + j + 1)
unfolding square_matrix
square_matrix-cell n i j hi hj =
    let first : 0 + i ≡ i = omega arith in
    (
      square_rows (suc n) (suc n) 0,
      refl,
      ap (λ row. get_or row j 0) (square_rows-row (suc n) (suc n) 0 i hi)
          ∙ square_row-cell (suc n) (0 + i) (suc n) 0 j hj
          ∙ rw first (omega arith),
    )
