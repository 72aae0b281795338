-- ===== src/Prelude.antt =====
-- The names that the other modules share: the libraries', passed on, and those of the children:
-- Boolean tests, lists measured by native numbers, the `Ord` interface, machine words.
mod Tests
mod Lists
mod Keys
mod Bits
mod Fallible
mod Int
mod Text
mod Sorting
mod Contains
mod Take
pub use Tests.*
pub use Lists.*
pub use Keys.*
pub use Bits.*
pub use Int.*
unfoldable pub use Sorting.*
unfoldable pub use Text.*
pub use Fallible.*
pub use Text.Decimal.*
pub use Contains.*
pub use Take.*
pub use Prim.Native.Nat.{
  ℕ, zero, suc, ◌+◌, ◌-◌, ◌*◌, ◌/◌, ◌%◌, ◌^◌, ◌≤◌, ◌<◌, min, max, bit_or, bit_and, bit_xor,
}
pub use Prim.Native.String.{String}
pub use mathlib.Core.Path.{◌≡◌, refl, sym, ap, ◌∙◌}
pub use mathlib.Core.Logic.{◌≢◌, ◌↔◌, ◌⊎◌, inl, inr}
pub use mathlib.Core.Bool.{Bool, true, false, ◌&&◌, ◌||◌, not}
pub use mathlib.Core.Option.{Option, none, some}
pub use mathlib.Core.List.{List, [], ◌∷◌, ◌++◌, map}
pub use native.Mathlib.Omega.{arith}
