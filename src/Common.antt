-- ===== src/Common.antt =====
-- What every part of the development shares: names of the libraries, passed on, and the helpers of
-- the child modules (Boolean tests, lists measured by native numbers, byte strings, Go maps,
-- errors). Nothing here models a line of the program; it models what Go itself gives to it.
mod Tests
mod Lists
mod Errors
mod ByteText
pub mod Dict
pub mod Count
pub mod Sort
pub mod Member
unfoldable pub use Tests.*
unfoldable pub use Lists.*
unfoldable pub use Errors.*
unfoldable pub use ByteText.*
pub use Prim.Native.Nat.{ℕ, zero, suc, ◌+◌, ◌-◌, ◌*◌, ◌/◌, ◌%◌, ◌^◌, ◌≤◌, ◌<◌, max}
pub use mathlib.Core.Path.{◌≡◌, refl, sym, ap, ◌∙◌}
pub use mathlib.Core.Logic.{◌≢◌, ◌↔◌, ◌⊎◌, inl, inr}
pub use mathlib.Core.Bool.{Bool, true, false, not, ◌&&◌, ◌||◌}
pub use mathlib.Core.Option.{Option, none, some}
pub use mathlib.Core.List.{List, [], ◌∷◌, ◌++◌, map, append-nil, append_assoc}
pub use native.Mathlib.Omega.{arith}
