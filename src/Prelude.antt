-- ===== src/Prelude.antt =====
-- Names that every module shares: the libraries', passed on, and the helpers of the children.
mod Tests
mod Lists
pub mod Text
mod Stripped
pub mod Tables
pub mod Order
pub mod Json
pub mod Keys
pub mod Result
pub use Tests.*
pub use Lists.*
pub use Tables.*
unfoldable pub use Order.*
pub use Keys.*
pub use Text.{str_take_le, contains_text_refl, starts_with-join_text}
pub use Stripped.{has_visible, strip_idem, strip-has_visible}
unfoldable pub use Text.{
  lstrip, rstrip, join_text, or_text, strip, take_text, text_len, is_blank, starts_with,
  contains_text,
}
pub use Prim.Native.Nat.{ℕ, zero, suc, ◌+◌, ◌-◌, ◌*◌, ◌/◌, ◌%◌, ◌^◌, ◌≤◌, ◌<◌, min, max}
pub use Prim.Native.String.{String}
pub use mathlib.Core.Path.{◌≡◌, refl, sym, ap, ◌∙◌, subst, fun_ext}
pub use mathlib.Core.Logic.{◌≢◌, ◌↔◌, ◌⊎◌, inl, inr}
pub use mathlib.Core.Bool.{Bool, true, false, not, ◌&&◌, ◌||◌}
pub use mathlib.Core.Option.{Option, none, some}
pub use mathlib.Core.List.{List, [], ◌∷◌, ◌++◌, map}
pub use native.Mathlib.Omega.{arith}
pub use text.Mathlib.TextEquality.{eq_iff}
pub use text.Mathlib.TextPositions.{eq_refl}
