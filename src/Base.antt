-- ===== src/Base.antt =====
-- The names that the other modules share: the libraries', passed on, tests on numbers, lists
-- measured by the native numbers, results with an error, and JavaScript's maps.
--
-- A string that the code only stores and compares is a number: strings of UTF-16 units are in
-- bijection with the natural numbers, and 0 stands for the empty string.
mod Tests
mod Lists
mod Results
pub mod Dict
pub mod Exec
pub use Tests.*
unfoldable pub use Lists.*
pub use Results.*
pub use Prim.Native.Nat.{ℕ, zero, suc, ◌+◌, ◌-◌, ◌*◌, ◌/◌, ◌%◌, ◌≤◌, ◌<◌}
pub use mathlib.Core.Path.{◌≡◌, refl, sym, ap, subst, ◌∙◌}
pub use mathlib.Core.Logic.{◌≢◌, ◌↔◌, ◌⊎◌, inl, inr}
pub use mathlib.Core.Bool.{Bool, true, false, not, ◌&&◌, ◌||◌}
pub use mathlib.Core.Option.{Option, none, some}
pub use mathlib.Core.List.{List, [], ◌∷◌, ◌++◌, map, append_assoc, append-nil}
pub use native.Mathlib.Omega.{arith}
