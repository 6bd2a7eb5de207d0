-- ===== src/Base.antt =====
-- The names that the other modules share: the libraries', passed on, and those of the children.
mod Tests
mod Equality
mod Lists
mod Order
mod Sort
mod Dictionary
mod Texts
mod Indexing
mod Results
mod Integers
mod Ranking
mod Permuted
pub use Tests.*
unfoldable pub use Equality.*
unfoldable pub use Lists.*
unfoldable pub use Order.*
unfoldable pub use Sort.*
unfoldable pub use Dictionary.*
unfoldable pub use Texts.*
unfoldable pub use Indexing.*
pub use Results.*
unfoldable pub use Integers.*
unfoldable pub use Ranking.*
pub use Permuted.*
pub use Prim.Native.Nat.{ℕ, zero, suc, ◌+◌, ◌-◌, ◌*◌, ◌≤◌, ◌<◌}
pub use mathlib.Core.Path.{◌≡◌, refl, sym, ap, ◌∙◌}
pub use mathlib.Core.Logic.{◌≢◌, ◌↔◌, ◌⊎◌, inl, inr}
pub use mathlib.Core.Bool.{Bool, true, false, ◌&&◌, ◌||◌, not}
pub use mathlib.Core.Option.{Option, none, some}
pub use mathlib.Core.List.{List, [], ◌∷◌, ◌++◌, map}
unfoldable pub use mathlib.Core.List.{reverse}
pub use native.Mathlib.Omega.{arith}
