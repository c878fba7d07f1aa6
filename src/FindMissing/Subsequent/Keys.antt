-- ===== src/FindMissing/Subsequent/Keys.antt =====
-- What the steps of get_subsequent_fixes do to the shas that are known.
use Prim.Native.Nat.{max}
use cros_dev_util.Base.{
  dict_get, ℕ, String, ◌≡◌, ap, ◌↔◌, ◌⊎◌, inl, inr, true, false, List, [], ◌∷◌, arith, In, str_elem,
  str_elem-In, dict_set, eq_iff, Bool-cases,
}
use cros_dev_util.FindMissing.Subsequent.{
  Table, Fixes, level_or_zero, fixes_for_shas, note_fixes, keys, unseen,
}

-- A row of the table whose first sha is asked for.
abbrev pub FixOf : Table → List String → String → Type 0
FixOf table shas f = (u : String) × In (u, f) table × (str_elem u shas ≡ true)

FixOf-first :
    (u g f : String) (rows : Table) (shas : List String)
    → str_elem u shas ≡ true
    → (f ≡ g) ⊎ FixOf rows shas f
    → FixOf ((u, g) ∷ rows) shas f
FixOf-first u g f rows shas h (inl e) = (u, inl (ap (λ x. (u, x)) e), h)
FixOf-first u g f rows shas h (inr (v, m, k)) = (v, inr m, k)

pub fixes_for_shas_sound :
    (table : Table) (shas : List String) (f : String)
    → In f (fixes_for_shas table shas)
    → FixOf table shas f
unfolding fixes_for_shas
fixes_for_shas_sound [] shas f m = absurd m
fixes_for_shas_sound ((u, g) ∷ rows) shas f m = elim (Bool-cases (str_elem u shas)) [
  | inl here ↦
      FixOf-first u g f rows shas here (elim (rw here at m) as (λ _. (f ≡ g) ⊎ FixOf rows shas f) [
        | inl e ↦ inl e
        | inr r ↦ inr (fixes_for_shas_sound rows shas f r)
      ])
  | inr away ↦ let (v, r, k) = fixes_for_shas_sound rows shas f (rw away at m) in (v, inr r, k)
]

pub fixes_for_shas_complete :
    (table : Table) (shas : List String) (u f : String)
    → In (u, f) table
    → str_elem u shas ≡ true
    → In f (fixes_for_shas table shas)
unfolding fixes_for_shas
fixes_for_shas_complete [] shas u f m h = absurd m
fixes_for_shas_complete ((v, g) ∷ rows) shas u f m h =
    ground (arith, fixes_for_shas_complete rows shas u f)

pub keys-dict_set :
    (k j : String) (v : ℕ) (d : Fixes) → In k (keys (dict_set j v d)) ↔ ((k ≡ j) ⊎ In k (keys d))
unfolding dict_set
keys-dict_set k j v [] = ((λ m. m), (λ m. m))
keys-dict_set k j v ((i, w) ∷ d) = ground (arith, eq_iff i j, keys-dict_set k j v d)

pub keys-note_fixes :
    (k : String) (iteration : ℕ) (shas : List String) (d : Fixes)
    → In k (keys (note_fixes iteration shas d)) ↔ (In k shas ⊎ In k (keys d))
unfolding note_fixes
keys-note_fixes k iteration [] d = ground arith
keys-note_fixes k iteration (s ∷ shas) d =
    let level = max (level_or_zero (dict_get s d)) iteration in
    ground (arith, keys-note_fixes k iteration shas (dict_set s level d), keys-dict_set k s level d)

pub unseen_sound :
    (seen shas : List String) (k : String)
    → In k (unseen seen shas)
    → In k shas × (str_elem k seen ≡ false)
unfolding unseen
unseen_sound seen [] k m = absurd m
unseen_sound seen (s ∷ shas) k m = ground (arith, unseen_sound seen shas k)

pub unseen_complete :
    (seen shas : List String) (k : String)
    → In k shas
    → str_elem k seen ≡ false
    → In k (unseen seen shas)
unfolding unseen
unseen_complete seen [] k m h = absurd m
unseen_complete seen (s ∷ shas) k m h =
    ground (arith, unseen_complete seen shas k, str_elem-In s (unseen seen shas))
