-- ===== src/FindMissing/Fixes/Update.antt =====
-- contrib/findmissing/missing.py: the periodic update of the rows of a fixes table.
use cros_dev_util.Base.{
  String, Bool, false, ◌&&◌, ◌||◌, not, Option, none, some, List, [], ◌∷◌, str_eq, if◌then◌else◌,
  filter_by,
}
use cros_dev_util.FindMissing.Fixes.{
  opened, merged, conflict, status_eq, Row, update_where, update_change_merged,
  update_conflict_to_open,
}
use cros_dev_util.FindMissing.Fixes.World.{
  FixesTable, Commit, linux_chrome, Db, abandon_call, World, rows_of, set_rows, Env, is_sha,
}
use cros_dev_util.FindMissing.Fixes.Create.{get_cherrypick_status, file_change, truthy}

-- `if fix_change_id: update_conflict_to_open(...)`, with the answer of create_change.
abbrev pub reopen_row : FixesTable → Row → Option String → World → World
reopen_row fixes row none w = w
reopen_row fixes row (some change) w =
    let rows =
      update_conflict_to_open row.kernel_sha row.fixedby_upstream_sha change (rows_of fixes w) in
    if truthy (some change) then set_rows fixes rows w else w

abbrev pub merged_reason : String
merged_reason = "Fix was merged externally and detected by robot."

-- `if fix_change_id: abandon_change(...)`
abbrev pub abandon_old : String → Option String → World → World
abandon_old branch none w = w
abandon_old branch (some change) w =
    if truthy (some change)
    then record w { calls = abandon_call change branch merged_reason ∷ w.calls }
    else w

abbrev pub merge_row : Env → FixesTable → Row → World → World
merge_row env fixes row w =
    set_rows fixes
      (update_change_merged (env.now w) row.kernel_sha row.fixedby_upstream_sha (some merged_reason)
        (rows_of fixes w))
      w

-- The body of the loop, for a row as the query returned it.
unfoldable pub fixup_row : Env → Db → FixesTable → String → Row → World → World
unfolding get_cherrypick_status file_change update_change_merged update_conflict_to_open
fixup_row env db fixes branch row w =
    let found = get_cherrypick_status env branch row.fixedby_upstream_sha in
    let (answer, w') = file_change env db row.kernel_sha row.fixedby_upstream_sha branch w in
    if status_eq row.status conflict && status_eq found opened
    then reopen_row fixes row answer w'
    else if status_eq found merged
    then merge_row env fixes row (abandon_old branch row.fix_change_id w)
    else w

unfoldable pub fixup_rows : Env → Db → FixesTable → String → List Row → World → World
unfolding fixup_row
fixup_rows env db fixes branch [] w = w
fixup_rows env db fixes branch (row ∷ rows) w =
    fixup_rows env db fixes branch rows (fixup_row env db fixes branch row w)

-- fixup_unmerged_patches
unfoldable pub fixup_unmerged_patches : Env → Db → FixesTable → String → World → World
unfolding fixup_rows
fixup_unmerged_patches env db fixes branch w =
    fixup_rows env db fixes branch
      (filter_by (λ row. not (status_eq row.status merged) && str_eq row.branch branch)
        (rows_of fixes w))
      w

abbrev pub any_commit : (Commit → Bool) → List Commit → Bool
any_commit p [] = false
any_commit p (c ∷ cs) = p c || any_commit p cs

-- Whether the fix of the row is a commit of linux_chrome.
abbrev pub is_applied : Db → String → Row → Bool
is_applied db branch row =
    any_commit
      (λ commit. is_sha commit.upstream_sha row.fixedby_upstream_sha && str_eq commit.branch branch)
      (db.commits linux_chrome)

abbrev pub mark_merged : String → Row → Row
mark_merged time row = record row {
  status = merged;
  close_time = some time;
  reason = some "Patch has been applied to linux_chome";
}

-- The UPDATE of the rows whose fix is in linux_chrome.
unfoldable pub merge_applied : Env → Db → FixesTable → String → World → World
merge_applied env db fixes branch w =
    let applied : Row → Bool = λ row.
      str_eq row.branch branch && (is_applied db branch row && not (status_eq row.status merged)) in
    if env.update_fails fixes w
    then w
    else set_rows fixes (update_where applied (mark_merged (env.now w)) (rows_of fixes w)) w

-- update_fixes_in_branch
unfoldable pub update_fixes_in_branch : Env → Db → FixesTable → String → World → World
unfolding merge_applied fixup_unmerged_patches
update_fixes_in_branch env db fixes branch w =
    fixup_unmerged_patches env db fixes branch (merge_applied env db fixes branch w)
