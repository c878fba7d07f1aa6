-- ===== src/FindMissing/Subsequent/Tests.antt =====
-- Tests of get_subsequent_fixes, and its theorem at a cyclic table.
use cros_dev_util.Base.{String, ◌≡◌, refl, ◌↔◌, some, List, [], ◌∷◌, Once, In, dict_get, dict_set}
use cros_dev_util.FindMissing.Subsequent.{
  Table, fixes_for_shas, note_fixes, unseen, collect, insert_by_level, sort_by_level,
  get_subsequent_fixes,
}
use cros_dev_util.FindMissing.Subsequent.Reach.{Reach}
use cros_dev_util.FindMissing.Subsequent.Order.{get_subsequent_fixes-Reach}

abbrev cyclic : Table
cyclic = ("A", "B") ∷ ("B", "A") ∷ ("C", "D") ∷ []

get_subsequent_fixes-Reach_example :
    (shas : List String) × (get_subsequent_fixes cyclic "A" ≡ some shas)
    × Once shas
    × ((k : String) → In k shas ↔ Reach cyclic "A" k)
get_subsequent_fixes-Reach_example = get_subsequent_fixes-Reach cyclic "A"

cyclic_shas : get_subsequent_fixes cyclic "B" ≡ some ("A" ∷ "B" ∷ [])
unfolding get_subsequent_fixes collect fixes_for_shas note_fixes unseen sort_by_level
    insert_by_level dict_get dict_set
cyclic_shas = refl

-- The table of the docstring.
abbrev documented : Table
documented =
    ("A", "B")
    ∷ ("A", "C")
    ∷ ("A", "H")
    ∷ ("B", "D")
    ∷ ("B", "E")
    ∷ ("C", "F")
    ∷ ("C", "G")
    ∷ ("E", "H")
    ∷ []

documented_shas :
    get_subsequent_fixes documented "A" ≡ some ("A" ∷ "B" ∷ "C" ∷ "D" ∷ "E" ∷ "F" ∷ "G" ∷ "H" ∷ [])
unfolding get_subsequent_fixes collect fixes_for_shas note_fixes unseen sort_by_level
    insert_by_level dict_get dict_set
documented_shas = refl

-- C fixes A and E, and D fixes C; C moves behind E, and D is left before C.
abbrev moved : Table
moved = ("A", "B") ∷ ("A", "C") ∷ ("B", "E") ∷ ("E", "C") ∷ ("C", "D") ∷ []

fix_before_fixed : get_subsequent_fixes moved "A" ≡ some ("A" ∷ "B" ∷ "E" ∷ "D" ∷ "C" ∷ [])
unfolding get_subsequent_fixes collect fixes_for_shas note_fixes unseen sort_by_level
    insert_by_level dict_get dict_set
fix_before_fixed = refl
