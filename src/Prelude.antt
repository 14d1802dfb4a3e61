-- ===== src/Prelude.antt =====
-- The names that the other modules share: those of the libraries and of the children, passed on.
mod Tests
mod Lists
mod Member
mod Strings
mod Assoc
mod Faults
mod Disjoint
pub mod Int
pub mod Sorting
pub use Tests.*
pub use Lists.*
pub use Member.*
unfoldable pub use Strings.*
unfoldable pub use Assoc.*
pub use Disjoint.*
pub use Faults.*
pub use Int.{ℤ, pos, negsuc}
pub use Prim.Native.Nat.{ℕ, zero, suc, ◌+◌, ◌-◌, ◌*◌, ◌/◌, ◌%◌, ◌^◌, ◌≤◌, ◌<◌, bit_and, bit_or}
pub use mathlib.Core.Path.{◌≡◌, refl, sym, ap, ◌∙◌, subst}
pub use mathlib.Core.Logic.{◌≢◌, ◌↔◌, ◌⊎◌, inl, inr}
pub use mathlib.Core.Bool.{Bool, true, false, ◌&&◌, ◌||◌, not}
pub use mathlib.Core.Option.{Option, none, some}
pub use mathlib.Core.List.{List, [], ◌∷◌, ◌++◌, map, foldl, Memᴰ, Permᴰ}
pub use native.Mathlib.Omega.{arith}
