-- ===== src/Common.antt =====
-- The names that every other file takes: those of the libraries, passed on, and the helpers over
-- native numbers, lists, maps and integers of the modules below.
mod Tests
mod Lists
mod Words
mod Clock
pub mod Int
pub mod Map
pub mod Json
pub mod Result
pub mod Tables
pub mod Text
pub use Tests.*
pub use Lists.*
pub use Words.*
pub use Clock.*
pub use Prim.Native.Nat.{ℕ, zero, suc, ◌+◌, ◌-◌, ◌*◌, ◌/◌, ◌%◌, ◌^◌, ◌≤◌, ◌<◌, min, max}
pub use Prim.Native.String.{String}
pub use mathlib.Core.Path.{◌≡◌, refl, sym, ap, ◌∙◌}
pub use mathlib.Core.Logic.{◌≢◌, ◌↔◌, ◌⊎◌, inl, inr}
pub use mathlib.Core.Bool.{Bool, true, false, not, ◌&&◌, ◌||◌}
pub use mathlib.Core.Option.{Option, none, some}
pub use mathlib.Core.List.{List, [], ◌∷◌, ◌++◌, map}
pub use native.Mathlib.Omega.{arith}
unfoldable pub use native.Mathlib.Decide.{dec_lt, ℕ_discrete}
pub use native.Mathlib.Nat.{add-zero, add-suc, suc-add, add_comm, add_assoc}
