-- ===== src/Base.antt =====
-- The names that every module shares: the libraries', passed on, and those of its children.
-- Opaque texts of the program (claim ids, action ids, digests, nonces) are only compared or tested
-- for being empty, so they are native numbers here, and 0 is the empty text.
mod Tests
mod Lists
mod Dicts
mod Results
pub mod Pigeonhole
pub mod Keys
pub mod Json
pub mod Text
pub use Tests.*
pub use Lists.*
pub use Dicts.*
pub use Results.*
pub use Prim.Native.Nat.{ℕ, zero, suc, ◌+◌, ◌-◌, ◌*◌, ◌/◌, ◌%◌, ◌^◌, ◌≤◌, ◌<◌, max, min}
pub use mathlib.Core.Path.{◌≡◌, refl, sym, ap, ◌∙◌, subst}
pub use mathlib.Core.Logic.{◌≢◌, ◌↔◌, ◌⊎◌, inl, inr}
pub use mathlib.Core.Bool.{Bool, true, false, ◌&&◌, ◌||◌, not}
pub use mathlib.Core.Option.{Option, none, some}
pub use mathlib.Core.List.{List, [], ◌∷◌, ◌++◌, map}
pub use native.Mathlib.Omega.{arith}
