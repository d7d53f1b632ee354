-- ===== src/Base.antt =====
-- What every component shares: the libraries' names passed on, Boolean tests, lists measured by
-- native numbers, and (in `Base.Int`) Go's signed integers.
mod Tests
mod Lists
mod Slices
mod Everywhere
mod Words
mod Dict
mod Table
pub mod Int
pub mod Int64
pub use Tests.*
pub use Lists.*
pub use Slices.*
pub use Everywhere.*
pub use Words.*
pub use Dict.*
pub use Table.*
pub use Prim.Native.Nat.{ℕ, zero, suc, ◌+◌, ◌-◌, ◌*◌, ◌/◌, ◌%◌, ◌^◌, ◌≤◌, ◌<◌, min, max}
pub use mathlib.Core.Path.{◌≡◌, refl, sym, ap, ◌∙◌}
pub use mathlib.Core.Logic.{◌≢◌, ◌↔◌, ◌⊎◌, inl, inr}
pub use mathlib.Core.Bool.{Bool, true, false, not, ◌&&◌, ◌||◌}
pub use mathlib.Core.Option.{Option, none, some}
pub use mathlib.Core.List.{List, [], ◌∷◌, ◌++◌, map}
pub use native.Mathlib.Omega.{arith}
