-- ===== src/Prelude.antt =====
-- The names that the other modules share: the libraries', passed on, and those of the children.
mod Tests
mod Lists
mod Maps
mod Clock
pub mod Bytes
pub mod Joins
pub use Tests.*
pub use Lists.*
pub use Maps.{Dict, keys, In-keys-put, get-put, get_absent, keys-put-IsDistinct}
unfoldable pub use Maps.{get, put}
pub use Clock.{
  ℤ, pos, negsuc, le_zero, is_neg, leb_ℤ, positive_or, max_duration, second, millisecond, minute,
  hour, is_zero, sub_le, sub_ge,
}
unfoldable pub use Clock.{sub}
pub use Prim.Native.Nat.{ℕ, zero, suc, ◌+◌, ◌-◌, ◌*◌, ◌/◌, ◌%◌, ◌^◌, ◌≤◌, ◌<◌, min}
pub use Prim.Native.String.{String}
pub use text.Mathlib.Text.{◌==◌ as str_eq}
pub use text.Mathlib.TextEquality.{eq_iff}
pub use mathlib.Core.Path.{◌≡◌, refl, sym, ap, subst, ◌∙◌}
pub use mathlib.Core.Logic.{◌≢◌, ◌↔◌, ◌⊎◌, inl, inr}
pub use mathlib.Core.Bool.{Bool, true, false, ◌&&◌, ◌||◌, not}
pub use mathlib.Core.Option.{Option, none, some}
pub use mathlib.Core.List.{List, [], ◌∷◌, ◌++◌, map}
pub use native.Mathlib.Omega.{arith}
