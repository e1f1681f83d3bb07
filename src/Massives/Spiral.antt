-- ===== src/Massives/Spiral.antt =====
-- `ulitka` of `massives/massives.c`: the matrix filled along a spiral, as the list of its writes.
use eltex_systems.Base.Int.{ℤ, pos, negsuc}
use eltex_systems.Base.{
  ◌==◌, ◌&&◌, ℕ, zero, suc, ◌+◌, ◌-◌, ◌*◌, ◌≤◌, ◌<◌, ◌≡◌, refl, ap, Bool, true, false, List, [],
  ◌∷◌, ◌++◌, Option, none, some, arith, leb, ltb, if◌then◌else◌, length, length-append, All,
}

-- `matrix[row][column] = value`.
pub record Write : Type 0 where
  pub row : ℕ
  pub column : ℕ
  pub value : ℕ

-- The four inner loops, for the rounds that are left: the writes, and `num` behind them.
unfoldable pub to_right : (rounds top i num : ℕ) → List Write × ℕ
to_right zero top i num = ([], num)
to_right (suc r) top i num =
    let (ws, end) = to_right r top (suc i) (num + 1) in
    (record { row = top; column = i; value = num } ∷ ws, end)

unfoldable pub to_bottom : (rounds right i num : ℕ) → List Write × ℕ
to_bottom zero right i num = ([], num)
to_bottom (suc r) right i num =
    let (ws, end) = to_bottom r right (suc i) (num + 1) in
    (record { row = i; column = right - 1; value = num } ∷ ws, end)

-- `i` is `left` and the rounds that are left behind this one.
unfoldable pub to_left : (rounds left bottom num : ℕ) → List Write × ℕ
to_left zero left bottom num = ([], num)
to_left (suc r) left bottom num =
    let (ws, end) = to_left r left bottom (num + 1) in
    (record { row = bottom - 1; column = left + r; value = num } ∷ ws, end)

unfoldable pub to_top : (rounds top left num : ℕ) → List Write × ℕ
to_top zero top left num = ([], num)
to_top (suc r) top left num =
    let (ws, end) = to_top r top left (num + 1) in
    (record { row = top + r; column = left; value = num } ∷ ws, end)

abbrev int_limit : ℕ
int_limit = 2147483648

-- The test `num <= N*N` in `int`; none where the product or `num` is beyond the greatest `int`,
-- which has no meaning.
unfoldable pub not_all : (num n : ℕ) → Option Bool
not_all num n = if ltb (n * n) int_limit && ltb num int_limit then some (leb num (n * n)) else none

-- The outer loop, on fuel; none where the fuel ends before the loop, or a number leaves `int`:
-- `num` only grows, so that the next test sees it. A bound that C would carry to -1 is only compared
-- with one that is not below it, so that the loops it bounds have no round.
unfoldable pub spiral : (fuel n num top bottom left right : ℕ) → Option (List Write)
spiral zero n num top bottom left right = elim (not_all num n) [
  | none ↦ none
  | some more ↦ if more then none else some []
]
spiral (suc f) n num top bottom left right =
    let (ws1, num1) = to_right (right - left) top left num in
    let (ws2, num2) = to_bottom (bottom - (top + 1)) right (top + 1) num1 in
    let (ws3, num3) = to_left (right - 1 - left) left bottom num2 in
    let (ws4, num4) = to_top (bottom - 1 - (top + 1)) (top + 1) left num3 in
    let rest = spiral f n num4 (top + 1) (bottom - 1) (left + 1) (right - 1) in
    elim (not_all num n) [
      | none ↦ none
      | some more ↦
          if more
          then (elim rest [ none ↦ none | some ws ↦ some (ws1 ++ (ws2 ++ (ws3 ++ (ws4 ++ ws)))) ])
          else some []
    ]

-- The filling of a matrix of order `n`.
unfoldable pub fill : ℕ → Option (List Write)
fill n = spiral n n 1 0 n 0 n

-- The cell of the matrix after the writes, the last of them behind the others; a cell that was
-- not written has any value, here `old`.
unfoldable pub read_cell : (old row column : ℕ) → List Write → ℕ
read_cell old row column [] = old
read_cell old row column (w ∷ ws) =
    read_cell (if w.row == row && w.column == column then w.value else old) row column ws

unfoldable pub print_row : (rounds row column : ℕ) → List Write → List ℕ
print_row zero row column ws = []
print_row (suc r) row column ws = read_cell 0 row column ws ∷ print_row r row (suc column) ws

unfoldable pub print_rows : (rounds n row : ℕ) → List Write → List (List ℕ)
print_rows zero n row ws = []
print_rows (suc r) n row ws = print_row n row 0 ws ∷ print_rows r n (suc row) ws

-- What `ulitka` prints: that N must be above 0, or the matrix; or the loop does not end within
-- `int`.
pub data Printed : Type 0 where
  wrong_order beyond_int : Printed
  matrix : List (List ℕ) → Printed

unfoldable pub ulitka : ℤ → Printed
ulitka (pos zero) = wrong_order
ulitka (pos (suc n)) = elim (fill (suc n)) [
  | none ↦ beyond_int
  | some ws ↦ matrix (print_rows (suc n) (suc n) 0 ws)
]
ulitka (negsuc n) = wrong_order

-- A walk of so many rounds from a number, inside the matrix of order `n`.
record Walks (n rounds num : ℕ) (walk : List Write × ℕ) : Type 0 where
  count : length walk.0 ≡ rounds
  stop : walk.1 ≡ num + rounds
  inside : All (λ w. (w.row < n) × (w.column < n)) walk.0

to_right-Walks : (n r top i num : ℕ) → top < n → i + r ≤ n → Walks n r num (to_right r top i num)
unfolding to_right
to_right-Walks n zero top i num h k = record { count = refl; stop = omega arith; inside = tt }
to_right-Walks n (suc r) top i num h k =
    let ih = to_right-Walks n r top (suc i) (num + 1) h (omega arith) in
    record {
      count = ap suc ih.count;
      stop = omega (arith, ih.stop);
      inside = ((h, omega arith), ih.inside);
    }

to_bottom-Walks :
    (n r right i num : ℕ) → right - 1 < n → i + r ≤ n → Walks n r num (to_bottom r right i num)
unfolding to_bottom
to_bottom-Walks n zero right i num h k = record { count = refl; stop = omega arith; inside = tt }
to_bottom-Walks n (suc r) right i num h k =
    let ih = to_bottom-Walks n r right (suc i) (num + 1) h (omega arith) in
    record {
      count = ap suc ih.count;
      stop = omega (arith, ih.stop);
      inside = ((omega arith, h), ih.inside);
    }

to_left-Walks :
    (n r left bottom num : ℕ)
    → bottom - 1 < n
    → left + r ≤ n
    → Walks n r num (to_left r left bottom num)
unfolding to_left
to_left-Walks n zero left bottom num h k = record { count = refl; stop = omega arith; inside = tt }
to_left-Walks n (suc r) left bottom num h k =
    let ih = to_left-Walks n r left bottom (num + 1) h (omega arith) in
    record {
      count = ap suc ih.count;
      stop = omega (arith, ih.stop);
      inside = ((h, omega arith), ih.inside);
    }

to_top-Walks :
    (n r top left num : ℕ) → left < n → top + r ≤ n → Walks n r num (to_top r top left num)
unfolding to_top
to_top-Walks n zero top left num h k = record { count = refl; stop = omega arith; inside = tt }
to_top-Walks n (suc r) top left num h k =
    let ih = to_top-Walks n r top left (num + 1) h (omega arith) in
    record {
      count = ap suc ih.count;
      stop = omega (arith, ih.stop);
      inside = ((omega arith, h), ih.inside);
    }

square_step : (m : ℕ) → suc (suc m) * suc (suc m) ≡ m * m + (4 * m + 4)
square_step m = ground arith

All-append : (P : Write → Type 0) (xs ys : List Write) → All P xs → All P ys → All P (xs ++ ys)
All-append P [] ys p q = q
All-append P (x ∷ xs) ys p q = (p.0, All-append P xs ys p.1 q)

abbrev IsFilled : ℕ → ℕ → Option (List Write) → Type 0
IsFilled n count result =
    (ws : List Write) × (result ≡ some ws)
    × (length ws ≡ count)
    × All (λ w. (w.row < n) × (w.column < n)) ws

not_all-leb :
    (num n : ℕ) → num ≤ n * n + 1 → n * n + 1 < int_limit → not_all num n ≡ some (leb num (n * n))
unfolding not_all
not_all-leb num n h small = ground arith

spiral_stop :
    (f n num top bottom left right : ℕ)
    → num ≡ n * n + 1
    → n * n + 1 < int_limit
    → spiral f n num top bottom left right ≡ some []
unfolding spiral
spiral_stop zero n num top bottom left right h small =
    let over : leb num (n * n) ≡ false = ground arith in
    rw (spiral, not_all-leb num n (omega arith) small, over) refl
spiral_stop (suc f) n num top bottom left right h small =
    let over : leb num (n * n) ≡ false = ground arith in
    rw (spiral, not_all-leb num n (omega arith) small, over) refl

-- One round on a ring of width `m`, above what the next rounds write.
round-IsFilled :
    (f n m k num num' rest_count bottom right : ℕ)
    → 0 < m
    → bottom ≡ k + m
    → right ≡ k + m
    → k + (k + m) ≡ n
    → num ≤ n * n
    → n * n + 1 < int_limit
    → num' ≡ num + (m + (m - 1) + (m - 1) + (m - 2))
    → IsFilled n rest_count (spiral f n num' (k + 1) (bottom - 1) (k + 1) (right - 1))
    → IsFilled n
        ((m + (m - 1) + (m - 1) + (m - 2)) + rest_count)
        (spiral (suc f) n num k bottom k right)
unfolding spiral
round-IsFilled f n m k num num' rest_count bottom right some_ring eb er whole open_ small last
      (ws, run, count, inside) =
    let W1 = to_right (right - k) k k num in
    let W2 = to_bottom (bottom - (k + 1)) right (k + 1) W1.1 in
    let W3 = to_left (right - 1 - k) k bottom W2.1 in
    let W4 = to_top (bottom - 1 - (k + 1)) (k + 1) k W3.1 in
    let w1 = to_right-Walks n (right - k) k k num (omega arith) (omega arith) in
    let w2 = to_bottom-Walks n (bottom - (k + 1)) right (k + 1) W1.1 (omega arith) (omega arith) in
    let w3 = to_left-Walks n (right - 1 - k) k bottom W2.1 (omega arith) (omega arith) in
    let w4 = to_top-Walks n (bottom - 1 - (k + 1)) (k + 1) k W3.1 (omega arith) (omega arith) in
    let on : leb num (n * n) ≡ true = ground arith in
    let same : W4.1 ≡ num' = omega (arith, w1.stop, w2.stop, w3.stop, w4.stop) in
    let run' : spiral f n W4.1 (k + 1) (bottom - 1) (k + 1) (right - 1) ≡ some ws = rw same run in
    let IsInside = λ (w : Write). (w.row < n) × (w.column < n) in
    (
      W1.0 ++ (W2.0 ++ (W3.0 ++ (W4.0 ++ ws))),
      rw (spiral, not_all-leb num n (omega arith) small, on, run') refl,
      omega (
        arith,
        length-append W1.0 (W2.0 ++ (W3.0 ++ (W4.0 ++ ws))),
        length-append W2.0 (W3.0 ++ (W4.0 ++ ws)),
        length-append W3.0 (W4.0 ++ ws),
        length-append W4.0 ws,
        w1.count,
        w2.count,
        w3.count,
        w4.count,
        count,
      ),
      All-append IsInside W1.0 _ w1.inside (
          All-append IsInside W2.0 _ w2.inside
            (All-append IsInside W3.0 _ w3.inside (All-append IsInside W4.0 ws w4.inside inside))),
    )

stopped-IsFilled :
    (f n num top bottom left right : ℕ)
    → num ≡ n * n + 1
    → n * n + 1 < int_limit
    → IsFilled n 0 (spiral f n num top bottom left right)
stopped-IsFilled f n num top bottom left right h small =
    ([], spiral_stop f n num top bottom left right h small, refl, tt)

spiral-IsFilled :
    (f n m k num bottom right : ℕ)
    → bottom ≡ k + m
    → right ≡ k + m
    → k + (k + m) ≡ n
    → num + m * m ≡ n * n + 1
    → m ≤ f + f
    → n * n + 1 < int_limit
    → IsFilled n (m * m) (spiral f n num k bottom k right)
spiral-IsFilled f n zero k num bottom right eb er whole left_over fuel small =
    stopped-IsFilled f n num k bottom k right (omega arith) small
spiral-IsFilled zero n (suc m) k num bottom right eb er whole left_over fuel small =
    absurd (omega arith)
spiral-IsFilled (suc f) n (suc zero) k num bottom right eb er whole left_over fuel small =
    round-IsFilled f n 1 k num (num + 1) 0 bottom right (omega arith) eb er whole (omega arith)
      small (omega arith)
      (stopped-IsFilled f n (num + 1) (k + 1) (bottom - 1) (k + 1) (right - 1) (omega arith) small)
spiral-IsFilled (suc f) n (suc (suc m)) k num bottom right eb er whole left_over fuel small =
    let square = square_step m in
    let count : (suc (suc m) + (suc (suc m) - 1) + (suc (suc m) - 1) + (suc (suc m) - 2)) + m * m
        ≡ suc (suc m) * suc (suc m) =
      omega (arith, square) in
    let inner =
      spiral-IsFilled f n m (k + 1) (num + (4 * m + 4)) (bottom - 1) (right - 1) (omega arith)
        (omega arith) (omega arith) (omega (arith, square)) (omega arith) small in
    rw (← count) (
      round-IsFilled f n (suc (suc m)) k num (num + (4 * m + 4)) (m * m) bottom right (omega arith)
        eb er whole (omega (arith, square)) small (omega arith) inner)

square_grows : (n d : ℕ) → n * n ≤ (n + d) * (n + d)
square_grows n d = omega arith

square-fits : (n : ℕ) → n ≤ 46340 → n * n + 1 < int_limit
square-fits n h =
    let e : n + (46340 - n) ≡ 46340 = omega arith in
    let whole : (n + (46340 - n)) * (n + (46340 - n)) ≡ 2147395600 = ap (λ x. x * x) e in
    let part = square_grows n (46340 - n) in omega arith

-- For every order from 1 to 46340: the loops of `ulitka` end, no number leaves `int`, there are
-- exactly as many writes as the matrix has cells, each of them inside the matrix, and the matrix is
-- printed. The memory for the matrix is taken to be there.
pub ulitka-IsFilled :
    (n : ℕ)
    → suc n ≤ 46340
    → (ws : List Write) × (fill (suc n) ≡ some ws)
      × (length ws ≡ suc n * suc n)
      × All (λ w. (w.row < suc n) × (w.column < suc n)) ws
      × (ulitka (pos (suc n)) ≡ matrix (print_rows (suc n) (suc n) 0 ws))
unfolding fill ulitka
ulitka-IsFilled n fits =
    let (ws, run, count, inside) =
      spiral-IsFilled (suc n) (suc n) (suc n) 0 1 (suc n) (suc n) (omega arith) (omega arith)
        (omega arith) (omega arith) (omega arith) (square-fits (suc n) fits) in
    (ws, run, count, inside, rw (ulitka, fill, run) refl)
