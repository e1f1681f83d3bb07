-- ===== src/Base/Strtol.antt =====
-- `strtol (p, &end, 10)` of the C library, on the bytes from `p` to the end of the string.
use Prim.Native.Nat.{ℕ, ◌-◌, ◌^◌, ◌≤◌, ◌<◌, min}
use mathlib.Core.Path.{◌≡◌, ap, ◌∙◌}
use mathlib.Core.Bool.{Bool, true, false}
use mathlib.Core.Option.{Option, none, some}
use mathlib.Core.List.{List, [], ◌∷◌, ◌++◌, append-nil}
use native.Mathlib.Omega.{arith}
use eltex_systems.Base.Tests.{◌==◌, if◌then◌else◌}
use eltex_systems.Base.Lists.{length, All}
use eltex_systems.Base.Int.{ℤ, pos, negsuc, to_int}
use eltex_systems.Base.Text.{is_digit, is_space, skip_spaces}
use eltex_systems.Base.Decimal.{
  decimal, read_digits, read_digits-decimal, decimal-All, length-decimal, NoDigitFirst, IsDigit,
}

-- The digits after the sign: `none` if there is none. The value is held at LONG_MAX or LONG_MIN.
abbrev pub magnitude : Bool → List ℕ → Option ℤ
magnitude negative [] = none
magnitude negative (b ∷ bs) =
    if is_digit b
    then some (
        if negative
        then (if read_digits 0 (b ∷ bs) == 0
            then pos 0
            else negsuc (min (read_digits 0 (b ∷ bs)) (2 ^ 63) - 1))
        else pos (min (read_digits 0 (b ∷ bs)) (2 ^ 63 - 1)))
    else none

abbrev pub signed : List ℕ → Option ℤ
signed [] = none
signed (b ∷ bs) =
    if b == b'-'
    then magnitude true bs
    else if b == b'+'
    then magnitude false bs
    else magnitude false (b ∷ bs)

-- `none` is no conversion (`end == p`, and the value 0).
unfoldable pub strtol : List ℕ → Option ℤ
strtol text = signed (skip_spaces text)

digits-strtol :
    (ds rest : List ℕ)
    → All IsDigit ds
    → 1 ≤ length ds
    → read_digits 0 (ds ++ rest) < 2 ^ 63
    → strtol (ds ++ rest) ≡ some (pos (read_digits 0 (ds ++ rest)))
unfolding strtol skip_spaces is_space is_digit
digits-strtol [] rest h l small = absurd (omega arith)
digits-strtol (d ∷ ds) rest h l small = ground arith

-- A decimal number below LONG_MAX is read back, up to what is no digit.
pub strtol-decimal :
    (n : ℕ) (rest : List ℕ)
    → n < 2 ^ 63
    → NoDigitFirst rest
    → strtol (decimal n ++ rest) ≡ some (pos n)
strtol-decimal n rest small stop =
    let v = read_digits-decimal n rest stop in
    let some_digits = (length-decimal 18 n (omega arith)).0 in
    digits-strtol (decimal n) rest (decimal-All n) some_digits (omega (arith, v))
    ∙ ap (λ k. some (pos k)) v

-- `(int)strtol (text, NULL, 10)`, which is `atoi (text)`.
unfoldable pub atoi : List ℕ → ℤ
atoi text = elim (strtol text) [ none ↦ pos 0 | some x ↦ to_int x ]

pub atoi-decimal : (n : ℕ) → n < 2 ^ 31 → atoi (decimal n) ≡ pos n
unfolding atoi
atoi-decimal n small =
    let read : strtol (decimal n) ≡ some (pos n) =
      rw (← append-nil (decimal n)) (strtol-decimal n [] (omega arith) tt) in
    rw (atoi, read) (ground arith)
