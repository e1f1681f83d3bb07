-- ===== src/Base.antt =====
-- Shared vocabulary: library names passed on, Boolean tests, lists and bytes over the native
-- numbers, machine words, decimal text and the laws of the bit operations.
mod Tests
mod Lists
mod Wf
pub mod Bits
pub mod Fields
pub mod Decimal
pub mod Text
pub mod Int
pub mod Strtol
pub use Tests.*
pub use Lists.*
unfoldable pub use Wf.{lt_wf}
pub use Prim.Native.Nat.{
  ℕ, zero, suc, ◌+◌, ◌-◌, ◌*◌, ◌/◌, ◌%◌, ◌^◌, ◌≤◌, ◌<◌, bit_and, bit_or, bit_xor, min, max,
}
pub use mathlib.Core.Path.{◌≡◌, refl, sym, ap, ◌∙◌, fun_ext, subst}
pub use mathlib.Core.Logic.{◌≢◌, ◌↔◌, ◌⊎◌, inl, inr}
pub use mathlib.Core.Bool.{Bool, true, false, ◌&&◌, ◌||◌, not}
pub use mathlib.Core.Option.{Option, none, some}
pub use mathlib.Core.List.{List, [], ◌∷◌, ◌++◌, map, append_assoc, append-nil}
pub use native.Mathlib.Omega.{arith}
