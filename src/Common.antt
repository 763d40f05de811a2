-- ===== src/Common.antt =====
-- The names that every module shares: the libraries', passed on, the outcome of a call and the
-- lists, tests and integers of the children.
mod Tests
mod Lists
mod Indexed
pub mod Keyed
pub mod Calls
mod Int
mod Results
pub use Tests.*
pub use Lists.*
pub use Indexed.*
unfoldable pub use Keyed.{same_text}
pub use Keyed.{KeyEq, same_text_iff, same_text_refl, text_keys, number_keys, same_refl}
pub use Int.*
pub use Results.*
pub use Prim.Native.Nat.{ℕ, zero, suc, ◌+◌, ◌-◌, ◌*◌, ◌/◌, ◌%◌, ◌^◌, ◌≤◌, ◌<◌, min}
pub use mathlib.Core.Path.{◌≡◌, refl, sym, ap, ◌∙◌, subst}
pub use mathlib.Core.Logic.{◌≢◌, ◌↔◌, ◌⊎◌, inl, inr}
pub use mathlib.Core.Bool.{Bool, true, false, not, ◌&&◌, ◌||◌}
pub use mathlib.Core.Option.{Option, none, some}
pub use mathlib.Core.List.{List, [], ◌∷◌, ◌++◌, map, append-nil, append_assoc}
pub use native.Mathlib.Omega.{arith}
