-- ===== src/FindMissing/Fixes.antt =====
-- The fixes tables of contrib/findmissing, chrome_fixes and stable_fixes, and the statements with
-- which contrib/findmissing/cloudsql_interface.py changes their rows. A table is the list of its
-- rows; a NULL is `none`. The time of common.get_current_time is an argument.
pub mod Lifecycle
pub mod ChangeId
pub mod World
pub mod Create
pub mod Update
pub mod Live
pub mod Queries
pub mod Hindered
pub mod Limit
pub mod Refresh
pub mod Restore
pub mod Tests
use cros_dev_util.Base.{
  ℕ, String, Bool, true, false, ◌&&◌, ◌||◌, not, Option, none, some, List, [], ◌∷◌, map, Result, ok,
  err, type_error, value_error, index_error, ◌>>=◌, or_raise, str_eq, is_empty, if◌then◌else◌,
  filter_by, first_by, leb, length, str_elem,
}

-- common.Status; OPEN is `opened`.
pub data Status : Type 0 where
  opened merged abandoned conflict : Status

abbrev pub status_eq : Status → Status → Bool
status_eq opened opened = true
status_eq merged merged = true
status_eq abandoned abandoned = true
status_eq conflict conflict = true
status_eq _ _ = false

-- A row of a fixes table.
pub record Row : Type 0 where
  pub kernel_sha : String
  pub fixedby_upstream_sha : String
  pub branch : String
  pub entry_time : String
  pub close_time : Option String
  pub fix_change_id : Option String
  pub initial_status : Status
  pub status : Status
  pub reason : Option String

-- WHERE kernel_sha = %s AND fixedby_upstream_sha = %s
abbrev pub has_key : String → String → Row → Bool
has_key kernel_sha fixedby row =
    str_eq kernel_sha row.kernel_sha && str_eq fixedby row.fixedby_upstream_sha

-- UPDATE ... SET ... WHERE ...
abbrev pub update_where : (Row → Bool) → (Row → Row) → List Row → List Row
update_where test change [] = []
update_where test change (row ∷ rows) =
    let rest = update_where test change rows in if test row then change row ∷ rest else row ∷ rest

abbrev pub is_active : Row → Bool
is_active row = status_eq row.status opened || status_eq row.status conflict

unfoldable pub update_change_abandoned :
    String → String → String → Option String → List Row → List Row
update_change_abandoned now kernel_sha fixedby why =
    update_where (λ row. has_key kernel_sha fixedby row && is_active row)
      (λ row. record row { status = abandoned; close_time = some now; reason = why })

-- WHERE kernel_sha IN shas AND (or OR) fixedby_upstream_sha IN shas, on one table.
unfoldable pub get_fix_status_and_changeid : List Row → List String → Bool → List Row
get_fix_status_and_changeid rows shas strict =
    filter_by
      (λ row.
        let kernel = str_elem row.kernel_sha shas in
        let fixedby = str_elem row.fixedby_upstream_sha shas in
        if strict && leb 2 (length shas) then kernel && fixedby else (kernel || fixedby))
      rows

-- 'OPEN' if row['fix_change_id'] else row['initial_status']
abbrev pub has_change : Row → Bool
has_change row = elim row.fix_change_id [ none ↦ false | some c ↦ not (str_eq c "") ]

abbrev pub restored_status : Row → Status
restored_status row = if has_change row then opened else row.initial_status

unfoldable pub update_change_restored :
    String → String → Option String → List Row → Result (List Row)
unfolding get_fix_status_and_changeid
update_change_restored kernel_sha fixedby why rows = do
  first ←
      or_raise
        (first_by (λ row. true) (get_fix_status_and_changeid rows (kernel_sha ∷ fixedby ∷ []) true))
        index_error
  ok (
      update_where (λ row. has_key kernel_sha fixedby row && status_eq row.status abandoned)
        (λ row. record row { status = restored_status first; close_time = none; reason = why })
        rows)

abbrev pub default_merged_reason : String
default_merged_reason = "Fix merged into linux chrome"

unfoldable pub update_change_merged : String → String → String → Option String → List Row → List Row
update_change_merged now kernel_sha fixedby why =
    update_where (has_key kernel_sha fixedby)
      (λ row. record row { status = merged; close_time = some now; reason = why })

-- The key of the first row with this change; subscripting None raises TypeError.
unfoldable pub get_fixes_table_primary_key : List Row → String → Result (String × String)
get_fixes_table_primary_key rows change = do
  row ←
      or_raise
        (first_by (λ row. elim row.fix_change_id [ none ↦ false | some c ↦ str_eq c change ]) rows)
        type_error
  ok (row.kernel_sha, row.fixedby_upstream_sha)

abbrev pub dispatch : String → String × String → Status → List Row → Result (List Row)
dispatch now (kernel_sha, fixedby) opened rows = update_change_restored kernel_sha fixedby none rows
dispatch now (kernel_sha, fixedby) abandoned rows =
    ok (update_change_abandoned now kernel_sha fixedby none rows)
dispatch now (kernel_sha, fixedby) merged rows =
    ok (update_change_merged now kernel_sha fixedby (some default_merged_reason) rows)
dispatch now (kernel_sha, fixedby) conflict rows = err value_error

unfoldable pub update_change_status : String → String → Status → List Row → Result (List Row)
unfolding get_fixes_table_primary_key
update_change_status now change status rows = do
  key ← get_fixes_table_primary_key rows change
  dispatch now key status rows

unfoldable pub update_conflict_to_open : String → String → String → List Row → List Row
update_conflict_to_open kernel_sha fixedby change =
    update_where (has_key kernel_sha fixedby) (λ row. record row {
      status = opened;
      fix_change_id = some change;
      reason = some "Patch applies cleanly after originally conflicting.";
    })
