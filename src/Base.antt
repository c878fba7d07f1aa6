-- ===== src/Base.antt =====
-- The names that every module shares: the libraries' names passed on, and the helpers of the
-- modules below (Boolean tests, lists over the native numbers, exceptions as values, text, ℤ).
mod Tests
mod Lists
mod Results
mod Text
mod Int
mod Dict
pub use Tests.*
pub use Lists.*
pub use Results.*
pub use Int.*
unfoldable pub use Text.{
  is_prefix, is_substring, ends_with, str_of_nat, str_of_int, int_of, strip_char, char_eq,
}
unfoldable pub use Dict.{dict_get, dict_set}
pub use Dict.{dict_get-dict_set}
pub use Text.{str_length, str_take, str_drop, str_append}
pub use Prim.Native.Nat.{ℕ, zero, suc, ◌+◌, ◌-◌, ◌*◌, ◌/◌, ◌%◌, ◌^◌, ◌≤◌, ◌<◌}
pub use Prim.Native.String.{String}
pub use Prim.Native.Char.{Char, code}
pub use mathlib.Core.Path.{◌≡◌, refl, sym, ap, ◌∙◌, subst}
pub use mathlib.Core.Logic.{◌≢◌, ◌↔◌, ◌⊎◌, inl, inr}
pub use mathlib.Core.Bool.{Bool, true, false, ◌&&◌, ◌||◌, not}
pub use mathlib.Core.Option.{Option, none, some}
pub use mathlib.Core.List.{List, [], ◌∷◌, ◌++◌, map, append-nil, append_assoc}
pub use native.Mathlib.Omega.{arith}
pub use text.Mathlib.Text.{◌==◌ as str_eq}
pub use text.Mathlib.TextEquality.{eq_iff}
pub use text.Mathlib.TextPositions.{eq_refl}
