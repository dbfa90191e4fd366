-- ===== src/Prelude.antt =====
-- The names that the modules share: those of the libraries, passed on, and those of the children.
mod Tests
mod Lists
mod Int
mod Strings
mod Assoc
pub use Tests.*
pub use Lists.*
pub use Int.*
unfoldable pub use Int.{◌+ℤ◌}
unfoldable pub use Strings.*
unfoldable pub use Assoc.*
pub use Assoc.Laws.*
pub use Prim.Native.Nat.{ℕ, zero, suc, ◌+◌, ◌-◌, ◌*◌, ◌/◌, ◌%◌, ◌^◌, ◌≤◌, ◌<◌, min, max}
pub use mathlib.Core.Path.{◌≡◌, refl, sym, ap, ◌∙◌}
pub use mathlib.Core.Logic.{◌≢◌, ◌↔◌, ◌⊎◌, inl, inr}
pub use mathlib.Core.Bool.{Bool, true, false, not, ◌&&◌, ◌||◌}
pub use mathlib.Core.Option.{Option, none, some}
pub use mathlib.Core.List.{List, [], ◌∷◌, ◌++◌, map}
pub use native.Mathlib.Omega.{arith}
