-- ===== src/Base.antt =====
-- Shared helpers of the development: the library's names passed on, Boolean tests, lists measured
-- by native numbers, texts, dictionaries in insertion order and the outcome of a call that may throw.
mod Tests
mod Lists
mod Texts
mod Trim
mod Calls
mod Truthy
mod Members
mod Decimal
pub mod Dict
unfoldable pub use Tests.*
unfoldable pub use Lists.*
unfoldable pub use Texts.*
unfoldable pub use Trim.*
unfoldable pub use Calls.*
unfoldable pub use Truthy.*
unfoldable pub use Members.*
unfoldable pub use Decimal.*
pub use Prim.Native.Nat.{ℕ, zero, suc, ◌+◌, ◌-◌, ◌*◌, ◌/◌, ◌%◌, ◌^◌, ◌≤◌, ◌<◌, min, max}
pub use Prim.Native.String.{String, ◌++◌ as ◌<>◌}
pub use mathlib.Core.Path.{◌≡◌, refl, sym, ap, ◌∙◌, subst, fun_ext, ◌≡⟨◌⟩◌, ◌∎}
pub use mathlib.Core.Logic.{◌≢◌, ◌↔◌, ◌⊎◌, inl, inr}
pub use mathlib.Core.Bool.{Bool, true, false, not, ◌&&◌, ◌||◌, true≢false, false≢true}
pub use mathlib.Core.Option.{Option, none, some}
pub use mathlib.Core.List.{List, [], ◌∷◌, ◌++◌, map, Memᴰ, append_assoc}
pub use native.Mathlib.Omega.{arith}
pub use text.Mathlib.TextEquality.{eq_iff}
pub use text.Mathlib.TextPositions.{eq_refl}
