-- ===== src/Base/Int.antt =====
-- Signed integers over the native numbers, as far as the programs use them.
use Prim.Native.Nat.{ℕ, ◌-◌, ◌%◌, ◌^◌}
use mathlib.Core.Bool.{Bool, true, false}
use eltex_systems.Base.Tests.{ltb, if◌then◌else◌}

-- `negsuc n` is -(n + 1).
pub data ℤ : Type 0 where
  pos : ℕ → ℤ
  negsuc : ℕ → ℤ

-- `x <= 0`.
abbrev pub nonpositive : ℤ → Bool
nonpositive (pos n) = if ltb 0 n then false else true
nonpositive (negsuc n) = true

-- The cast to `int` on a two's complement machine of 32-bit `int`.
abbrev pub of_word : ℕ → ℤ
of_word w = if ltb w (2 ^ 31) then pos w else negsuc (2 ^ 32 - 1 - w)

abbrev pub to_word : ℤ → ℕ
to_word (pos n) = n % 2 ^ 32
to_word (negsuc n) = 2 ^ 32 - 1 - n % 2 ^ 32

abbrev pub to_int : ℤ → ℤ
to_int x = of_word (to_word x)
