-- ===== src/Base.antt =====
-- The names that the other modules share: the libraries', passed on, Boolean tests on numbers,
-- lists measured by native numbers, signed integers, and Go maps as association lists.
mod Tests
mod Lists
mod Int
mod Maps
mod Results
mod Text
mod Decimal
pub use Tests.*
unfoldable pub use Lists.{contains}
pub use Lists.*
unfoldable pub use Int.{◌+ℤ◌, ◌-ℤ◌}
pub use Int.*
unfoldable pub use Maps.{lookup, insert, remove, keep}
pub use Maps.*
pub use Results.*
unfoldable pub use Text.{
  text_eq, has_prefix, contains_text, is_space, trim_left, trim_right, trim_space, before_blank,
  digits_of, decimal, replace_from, replace_all, utf8_char, utf8,
}
pub use Text.{codes, text_eq→eq, text_eq_refl}
pub use Decimal.*
pub use Prim.Native.Nat.{ℕ, zero, suc, ◌+◌, ◌-◌, ◌*◌, ◌/◌, ◌%◌, ◌^◌, ◌≤◌, ◌<◌, min}
pub use Prim.Native.String.{String}
pub use mathlib.Core.Path.{◌≡◌, refl, sym, ap, ◌∙◌}
pub use mathlib.Core.Logic.{◌≢◌, ◌↔◌, ◌⊎◌, inl, inr}
pub use mathlib.Core.Bool.{Bool, true, false, not, ◌&&◌, ◌||◌}
pub use mathlib.Core.Option.{Option, none, some}
pub use mathlib.Core.List.{List, [], ◌∷◌, ◌++◌, map, append-nil, append_assoc}
pub use native.Mathlib.Omega.{arith}
pub use text.Mathlib.Text.{◌==◌ as str_eq}
pub use text.Mathlib.TextEquality.{eq_iff}
pub use text.Mathlib.TextPositions.{eq_refl}
