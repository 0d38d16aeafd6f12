-- ===== src/Common.antt =====
-- The names that the other modules share: those of the libraries, passed on, and the Boolean
-- tests, list functions, finite maps, texts, integers, stable sort and results of the child modules.
pub mod Tests
pub mod Lists
pub mod Map
pub mod Text
pub mod Strings
pub mod Int
pub mod Grid
pub mod Sort
pub mod Result
pub mod Values
pub use Tests.*
pub use Lists.*
pub use Prim.Native.Nat.{ℕ, zero, suc, ◌+◌, ◌-◌, ◌*◌, ◌/◌, ◌%◌, ◌^◌, ◌≤◌, ◌<◌}
pub use mathlib.Core.Path.{◌≡◌, refl, sym, ap, subst, ◌∙◌}
pub use mathlib.Core.Logic.{◌≢◌, ◌↔◌, ◌⊎◌, inl, inr}
pub use mathlib.Core.Bool.{Bool, true, false, not, ◌&&◌, ◌||◌}
pub use mathlib.Core.Option.{Option, none, some}
pub use mathlib.Core.List.{List, [], ◌∷◌, ◌++◌, map}
pub use native.Mathlib.Omega.{arith}
