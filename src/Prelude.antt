-- ===== src/Prelude.antt =====
-- The names that every component shares: those of the libraries, and the helpers of two children.
mod Tests
mod Lists
mod Texts
pub mod Unions
pub mod Results
pub mod Tables
pub mod Maps
pub mod Order
pub mod Int
pub use Tests.*
pub use Lists.*
unfoldable pub use Texts.{
  Text, codes, text_eq, starts_with, strip_prefix, contains, ends_with, contains_text,
}
pub use Texts.{text_eq_refl, text_eq_iff, text_eq_sym, Text-discrete}
pub use Prim.Native.Nat.{ℕ, zero, suc, ◌+◌, ◌-◌, ◌*◌, ◌/◌, ◌%◌, ◌^◌, ◌≤◌, ◌<◌, min, max}
pub use Prim.Native.String.{String}
pub use mathlib.Core.Path.{◌≡◌, refl, sym, ap, ◌∙◌}
pub use mathlib.Core.Logic.{◌≢◌, ◌↔◌, ◌⊎◌, inl, inr}
pub use mathlib.Core.Bool.{Bool, true, false, not, ◌&&◌, ◌||◌}
pub use mathlib.Core.Option.{Option, none, some}
pub use mathlib.Core.List.{List, [], ◌∷◌, ◌++◌, map}
pub use native.Mathlib.Omega.{arith}
unfoldable pub use native.Mathlib.Decide.{dec_lt, ℕ_discrete}
