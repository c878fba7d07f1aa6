-- ===== src/FindMissing/Subsequent.antt =====
-- get_subsequent_fixes of contrib/findmissing/missing.py: the fixes of a fix, the fixes of those,
-- and so on. The table upstream_fixes is the list of its rows, in the order of the query's result.
pub mod Keys
pub mod Reach
pub mod Order
pub mod Tests
use Prim.Native.Nat.{max}
use cros_dev_util.Base.{
  ℕ, zero, suc, ◌+◌, String, Bool, true, false, ◌||◌, Option, none, some, List, [], ◌∷◌, map,
  length, is_empty, str_elem, dict_get, dict_set, leb, if◌then◌else◌,
}

-- Rows (upstream_sha, fixedby_upstream_sha).
abbrev pub Table : Type 0
Table = List (String × String)

-- The dictionary `fixes`, from a sha to the iteration that found it last.
abbrev pub Fixes : Type 0
Fixes = List (String × ℕ)

-- upstream_fixes_for_shas: SELECT fixedby_upstream_sha WHERE upstream_sha IN (shas)
unfoldable pub fixes_for_shas : Table → List String → List String
fixes_for_shas [] shas = []
fixes_for_shas ((upstream, fixedby) ∷ rows) shas =
    let rest = fixes_for_shas rows shas in if str_elem upstream shas then fixedby ∷ rest else rest

-- `fixes[sha] if fixes.get(sha) else 0`
abbrev pub level_or_zero : Option ℕ → ℕ
level_or_zero none = 0
level_or_zero (some n) = n

-- The loop over fixes_for_new_shas.
unfoldable pub note_fixes : ℕ → List String → Fixes → Fixes
note_fixes iteration [] fixes = fixes
note_fixes iteration (sha ∷ shas) fixes =
    note_fixes iteration shas
      (dict_set sha (max (level_or_zero (dict_get sha fixes)) iteration) fixes)

abbrev pub keys : Fixes → List String
keys = map (λ (entry : String × ℕ). entry.0)

-- set(shas) - set(seen)
unfoldable pub unseen : List String → List String → List String
unseen seen [] = []
unseen seen (sha ∷ shas) =
    let rest = unseen seen shas in
    if str_elem sha seen || str_elem sha rest then rest else sha ∷ rest

-- `while new_shas`, with fuel; `none` means that the fuel ran out.
unfoldable pub collect : Table → ℕ → ℕ → Fixes → List String → Option Fixes
collect table zero iteration fixes new_shas = none
collect table (suc fuel) iteration fixes new_shas =
    let found = fixes_for_shas table new_shas in
    let rest =
      collect table fuel (suc iteration) (note_fixes (suc iteration) found fixes)
        (unseen (keys fixes) found) in
    if is_empty new_shas then some fixes else rest

-- list.sort by the iteration, which keeps the order of equal ones.
unfoldable pub insert_by_level : String × ℕ → Fixes → Fixes
insert_by_level entry [] = entry ∷ []
insert_by_level entry (other ∷ rest) =
    if leb entry.1 other.1 then entry ∷ other ∷ rest else other ∷ insert_by_level entry rest

unfoldable pub sort_by_level : Fixes → Fixes
unfolding insert_by_level
sort_by_level [] = []
sort_by_level (entry ∷ rest) = insert_by_level entry (sort_by_level rest)

abbrev pub sorted_keys : Option Fixes → Option (List String)
sorted_keys none = none
sorted_keys (some fixes) = some (keys (sort_by_level fixes))

-- get_subsequent_fixes. Each iteration but the last two finds a row of a sha that was not yet seen.
unfoldable pub get_subsequent_fixes : Table → String → Option (List String)
unfolding collect sort_by_level
get_subsequent_fixes table start =
    sorted_keys (collect table (length table + 2) 0 ((start, 0) ∷ []) (start ∷ []))
