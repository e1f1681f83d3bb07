-- ===== src/Massives.antt =====
-- `massives/massives.c`: the square matrix, the array in reverse and the triangle (the
-- spiral is in Massives/Spiral). An array that
-- is not initialised starts with any contents.
pub mod Reverse
pub mod Triangle
pub mod Spiral
use eltex_systems.Base.{
  ℕ, zero, suc, ◌+◌, ◌-◌, ◌*◌, List, [], ◌∷◌, Option, none, some, ltb, ◌==◌, if◌then◌else◌, length,
  get_or, set,
}
use eltex_systems.Base.Int.{ℤ, pos, negsuc}

-- The inner loop of `square_matrix` from `j`, for the rounds that are left: what it prints.
unfoldable pub square_row : (n i : ℕ) (rounds j : ℕ) → List ℕ
square_row n i zero j = []
square_row n i (suc r) j = (n * i + 1 + j) ∷ square_row n i r (suc j)

unfoldable pub square_rows : (n : ℕ) (rounds i : ℕ) → List (List ℕ)
square_rows n zero i = []
square_rows n (suc r) i = square_row n i n 0 ∷ square_rows n r (suc i)

-- A `none` is the message that N must be above 0.
unfoldable pub square_matrix : ℤ → Option (List (List ℕ))
square_matrix (pos zero) = none
square_matrix (pos (suc n)) = some (square_rows (suc n) (suc n) 0)
square_matrix (negsuc n) = none

-- The second loop of `reverse_output` from `i`: the numbers that it prints, and the array.
unfoldable pub reverse_from : (rounds i : ℕ) → List ℕ → List ℕ × List ℕ
reverse_from zero i array = ([], array)
reverse_from (suc r) i array =
    let n = length array in
    let buf = get_or array (n - i - 1) 0 in
    let array' =
      if ltb i (n - i - 1) then set (set array (n - i - 1) (get_or array i 0)) i buf else array in
    let (printed, final) = reverse_from r (suc i) array' in (get_or array' i 0 ∷ printed, final)

-- `array` is the N numbers that were read; a `none` is the message that N must be above 0.
unfoldable pub reverse_output : ℤ → List ℕ → Option (List ℕ × List ℕ)
reverse_output (pos zero) array = none
reverse_output (pos (suc n)) array = some (reverse_from (suc n) 0 array)
reverse_output (negsuc n) array = none

-- The inner loop of `triangles`, down from the column before `j`, with `buf`.
unfoldable pub triangle_fill : (j buf : ℕ) → List ℕ → List ℕ
triangle_fill zero buf row = row
triangle_fill (suc j) buf row = triangle_fill j (buf - 1) (set row j (if ltb 0 buf then 1 else 0))

-- Row `i` of the matrix, over the `n` cells that it has.
unfoldable pub triangle_row : ℕ → List ℕ → List ℕ
triangle_row i cells = triangle_fill (length cells) (i + 1) cells

-- The rows of the matrix from `i`.
unfoldable pub triangle_rows : ℕ → List (List ℕ) → List (List ℕ)
triangle_rows i [] = []
triangle_rows i (cells ∷ matrix) = triangle_row i cells ∷ triangle_rows (i + 1) matrix

-- What is printed, from the N rows of the matrix as it was before; `none` is the same message.
unfoldable pub triangles : ℤ → List (List ℕ) → Option (List (List ℕ))
triangles (pos zero) matrix = none
triangles (pos (suc n)) matrix = some (triangle_rows 0 matrix)
triangles (negsuc n) matrix = none
