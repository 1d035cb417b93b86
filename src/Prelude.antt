-- ===== src/Prelude.antt =====
-- The names that all parts share: those of the libraries, passed on, and those of the children,
-- which stand for the Python that the whole program is written in (its tests, lists, dicts, texts
-- and exceptions).
mod Branch
mod Lists
pub mod Text
pub mod Dict
pub mod Number
pub mod Runs
pub mod Fails
pub mod Reaches
mod Monad
unfoldable pub use Branch.*
pub use Lists.*
unfoldable pub use Monad.*
pub use Prim.Native.Nat.{ℕ, zero, suc, ◌+◌, ◌-◌, ◌*◌, ◌/◌, ◌%◌, ◌≤◌, ◌<◌, min}
pub use Prim.Native.Char.{Char, code}
pub use Prim.Native.String.{String}
pub use mathlib.Core.Path.{◌≡◌, refl, sym, ap, ◌∙◌}
pub use mathlib.Core.Logic.{◌≢◌, ◌↔◌, ◌⊎◌, inl, inr}
pub use mathlib.Core.Bool.{Bool, true, false, not, ◌&&◌, ◌||◌}
pub use mathlib.Core.Option.{Option, none, some}
pub use mathlib.Core.List.{List, [], ◌∷◌, ◌++◌, map}
pub use native.Mathlib.Omega.{arith}
pub use Text.{◌<>◌}
