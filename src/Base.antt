-- ===== src/Base.antt =====
-- The names that the other modules share: the libraries', passed on, and those of the children.
mod Tests
mod Lists
mod Int
pub mod Result
pub mod Text
pub mod Heap
pub mod Format
pub use Tests.*
pub use Lists.*
unfoldable pub use Int.*
pub use Prim.Native.Nat.{ℕ, zero, suc, ◌+◌, ◌-◌, ◌*◌, ◌%◌, ◌^◌, ◌≤◌, ◌<◌}
pub use mathlib.Core.Path.{◌≡◌, refl, sym, ap, subst, ◌∙◌}
pub use mathlib.Core.Logic.{◌≢◌, ◌↔◌, ◌⊎◌, inl, inr, ite, if_pos, if_neg}
pub use mathlib.Core.Bool.{Bool, true, false, not, ◌&&◌, ◌||◌}
pub use mathlib.Core.Option.{Option, none, some}
pub use mathlib.Core.List.{List, [], ◌∷◌, ◌++◌, map}
pub use native.Mathlib.Omega.{arith}
unfoldable pub use native.Mathlib.Decide.{ℕ_discrete}
