-- ===== src/Base/Dict.antt =====
-- Python's `dict` with string keys, as an association list with the newest value at a key's place.
use mathlib.Core.Path.{◌≡◌, refl}
use mathlib.Core.Option.{Option, none, some}
use mathlib.Core.List.{List, [], ◌∷◌}
use Prim.Native.String.{String}
use native.Mathlib.Omega.{arith}
use text.Mathlib.Text.{◌==◌ as str_eq}
use text.Mathlib.TextEquality.{eq_iff}
use cros_dev_util.Base.Tests.{if◌then◌else◌}

module _ {ν} {V : Type ν} where
  -- d.get(k)
  unfoldable pub dict_get : String → List (String × V) → Option V
  dict_get k [] = none
  dict_get k ((j, v) ∷ d) = if str_eq j k then some v else dict_get k d

  -- d[k] = v
  unfoldable pub dict_set : String → V → List (String × V) → List (String × V)
  dict_set k v [] = (k, v) ∷ []
  dict_set k v ((j, w) ∷ d) = if str_eq j k then (k, v) ∷ d else (j, w) ∷ dict_set k v d

  pub dict_get-dict_set :
      (k j : String) (v : V) (d : List (String × V))
      → dict_get j (dict_set k v d) ≡ (if str_eq k j then some v else dict_get j d)
  unfolding dict_get dict_set
  dict_get-dict_set k j v [] = refl
  dict_get-dict_set k j v ((i, w) ∷ d) =
      ground (arith, eq_iff k j, eq_iff i k, eq_iff i j, dict_get-dict_set k j v d)
