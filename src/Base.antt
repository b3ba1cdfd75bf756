-- ===== src/Base.antt =====
-- The names that the modules of every component share: the libraries', passed on, and those of the
-- children: Boolean tests, machine words, lists and arrays, and the counted loop.
mod Tests
mod Words
mod Arrays
mod Lists
mod Search
mod Text
pub use Tests.*
unfoldable pub use Words.*
unfoldable pub use Arrays.*
pub use Lists.*
unfoldable pub use Text.*
unfoldable pub use Search.*
pub use Prim.Native.Nat.{ℕ, zero, suc, ◌+◌, ◌-◌, ◌*◌, ◌/◌, ◌%◌, ◌^◌, ◌≤◌, ◌<◌}
pub use mathlib.Core.Path.{◌≡◌, refl, sym, ap, ◌∙◌, fun_ext}
pub use mathlib.Core.Logic.{◌≢◌, ◌⊎◌, inl, inr}
pub use mathlib.Core.Bool.{Bool, true, false, not, ◌&&◌, ◌||◌}
pub use mathlib.Core.Option.{Option, none, some}
pub use mathlib.Core.List.{List, [], ◌∷◌, ◌++◌, map}
pub use native.Mathlib.Omega.{arith}
