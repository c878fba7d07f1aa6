-- ===== src/FindMissing/Fixes/Tests.antt =====
-- Tests of the model of the fixes tables, and its theorems at a small database.
use Prim.Native.Nat.{max}
use cros_dev_util.Base.{
  filter_by, ◌+◌, ◌≤◌, String, ◌≡◌, refl, inl, inr, true, false, Option, none, some, List, [], ◌∷◌,
  ok, str_eq, if◌then◌else◌,
}
use cros_dev_util.FindMissing.Fixes.{
  Status, opened, merged, conflict, Row, has_key, update_where, update_change_abandoned,
  update_change_restored, update_change_merged, update_change_status, get_fixes_table_primary_key,
  get_fix_status_and_changeid,
}
use cros_dev_util.FindMissing.Fixes.World.{
  rows_of, change_candidates, chrome_fixes, linux_chrome, Commit, Db, World, Env, find_duplicate,
  merged_shas, upstream_sha_to_kernel_sha, create_call,
}
use cros_dev_util.FindMissing.Fixes.ChangeId.{
  Candidate, get_change_id, choose_change, try_change, take_change, is_abandoned,
}
use cros_dev_util.FindMissing.Fixes.Create.{
  insert_by_patch_id, get_cherrypick_status, file_change, insert_fix_gerrit, create_loop,
  missing_fixes, create_new_fixes_in_branch,
}
use cros_dev_util.FindMissing.Fixes.Refresh.{conflicts, fixup_unmerged_patches_limit}
use cros_dev_util.FindMissing.Fixes.Update.{fixup_unmerged_patches}
use cros_dev_util.FindMissing.Fixes.Lifecycle.{Kept, update_change_status-Kept}
use cros_dev_util.FindMissing.Fixes.Restore.{
  with_change, update_change_restored-update_change_abandoned,
}
use cros_dev_util.FindMissing.Fixes.Live.{Offers, get_change_id_live}
use cros_dev_util.FindMissing.Fixes.Hindered.{queued, insert_fix_gerrit-IsHindered}
use cros_dev_util.FindMissing.Fixes.Limit.{created, create_new_fixes_in_branch_limit}

abbrev row_of : String → String → Option String → Status → Row
row_of kernel_sha fixedby change s = record {
  kernel_sha = kernel_sha;
  fixedby_upstream_sha = fixedby;
  branch = "5.4";
  entry_time = "t0";
  close_time = none;
  fix_change_id = change;
  initial_status = s;
  status = s;
  reason = none;
}

abbrev rows : List Row
rows = row_of "k1" "f1" (some "I1") opened ∷ row_of "k2" "f1" none conflict ∷ []

abbrev rows_merged : List Row
rows_merged =
    record (row_of "k1" "f1" (some "I1") opened) {
      status = merged;
      close_time = some "t1";
      reason = some "Fix merged into linux chrome";
    }
    ∷ row_of "k2" "f1" none conflict
    ∷ []

status_merged : update_change_status "t1" "I1" merged rows ≡ ok rows_merged
unfolding update_change_status get_fixes_table_primary_key update_change_merged
status_merged = refl

update_change_status-Kept_example : Kept rows rows_merged
update_change_status-Kept_example =
    update_change_status-Kept "t1" "I1" merged rows rows_merged status_merged

update_change_restored-update_change_abandoned_example :
    update_change_restored "k1" "f1" none (update_change_abandoned "t1" "k1" "f1" none rows)
    ≡ ok
        (update_where (has_key "k1" "f1") (λ r. record r { close_time = none; reason = none }) rows)
unfolding get_fix_status_and_changeid
update_change_restored-update_change_abandoned_example =
    update_change_restored-update_change_abandoned "t1" "k1" "f1" none none rows
      (row_of "k1" "f1" (some "I1") opened) refl refl refl (with_change "I1" refl refl refl)

abbrev commit_of : String → String → String → Commit
commit_of sha upstream patch = record {
  sha = sha;
  branch = "5.4";
  upstream_sha = some upstream;
  patch_id = patch;
}

abbrev candidate : String → Candidate
candidate change = record {
  chrome_change = some change;
  chrome_branch = some "5.4";
  stable_change = none;
  stable_branch = none;
}

abbrev offers : List Candidate
offers = candidate "I0" ∷ candidate "I1" ∷ []

-- A kernel commit k1 with the upstream commit u1, which f1 and f2 fix.
abbrev db_of : String → Db
db_of patch = record {
  linux_upstream = ("u1", "p1") ∷ ("f1", "p2") ∷ ("f2", "p3") ∷ [];
  commits = λ table. commit_of "k1" "u1" patch ∷ [];
  upstream_fixes = ("u1", "f1") ∷ ("u1", "f2") ∷ [];
}

abbrev status_of : String → String → Option String
status_of change branch = if str_eq change "I0" then some "ABANDONED" else some "NEW"

abbrev env : Env
env = record {
  now = λ w. "t1";
  rejects = λ table rows row. false;
  update_fails = λ table w. false;
  get_status = status_of;
  applied = λ branch sha. some false;
  pick_fails = λ branch sha. false;
  diff = λ branch sha. some true;
  commit_change_id = λ sha. none;
  create_change = λ calls kernel_sha fixedby branch known. some "I9";
}

abbrev start : World
start = record { stable_rows = []; chrome_rows = []; calls = [] }

get_change_id_live_example :
    (c : String) × (b : String) × (found : String) × (get_change_id status_of offers ≡ some c)
    × Offers offers c b
    × (status_of c b ≡ some found)
    × (is_abandoned found ≡ false)
unfolding Offers
get_change_id_live_example =
    get_change_id_live status_of offers "I1" "5.4" "NEW" (candidate "I1", inr (inl refl), inl refl)
      refl refl refl

-- Of the two missing fixes the limit of one change lets one through.
one_created :
    (create_new_fixes_in_branch env (db_of "q1") linux_chrome chrome_fixes "5.4" 1 start).1.calls
    ≡ create_call "k1" "f1" "5.4" none (some "I9") ∷ []
unfolding create_new_fixes_in_branch create_loop missing_fixes insert_fix_gerrit insert_by_patch_id
    find_duplicate merged_shas change_candidates get_cherrypick_status file_change get_change_id
    choose_change try_change take_change
one_created = refl

create_new_fixes_in_branch_limit_example :
    let (n, after) =
      create_new_fixes_in_branch env (db_of "q1") linux_chrome chrome_fixes "5.4" 1 start in
    (n ≤ max 1 1) × (created after.calls ≡ created start.calls + n)
create_new_fixes_in_branch_limit_example =
    create_new_fixes_in_branch_limit env (db_of "q1") linux_chrome chrome_fixes "5.4" 1 start

-- The branch has the patch of f1 under the sha f9.
abbrev renamed_db : Db
renamed_db = record (db_of "q1") {
  linux_upstream = ("f9", "p2") ∷ ("u1", "p1") ∷ ("f1", "p2") ∷ [];
}

abbrev renamed : World
renamed = record start { chrome_rows = row_of "k9" "f9" (some "I9") opened ∷ [] }

insert_fix_gerrit-IsHindered_example :
    ((insert_fix_gerrit env renamed_db linux_chrome chrome_fixes "5.4" "k1" "f1" renamed).0 ≡ false)
    × ((insert_fix_gerrit env renamed_db linux_chrome chrome_fixes "5.4" "k1" "f1" renamed).1.calls
        ≡ [])
insert_fix_gerrit-IsHindered_example =
    insert_fix_gerrit-IsHindered env renamed_db linux_chrome chrome_fixes "5.4" "k1" "f1" renamed (
      queued (row_of "k9" "f9" (some "I9") opened) "p2" (inl refl) refl (inl refl)
        (inr (inr (inl refl))) refl)

-- A kernel commit with the patch of its upstream commit: each of its fixes counts as merged, though
-- no row of linux_chrome is the fix.
fix_taken_for_merged : (insert_by_patch_id env (db_of "p1") "5.4" "f1" start).0 ≡ true
unfolding insert_by_patch_id find_duplicate merged_shas
fix_taken_for_merged = refl

fix_not_in_chrome : upstream_sha_to_kernel_sha (db_of "p1") linux_chrome "5.4" "f1" ≡ none
unfolding upstream_sha_to_kernel_sha
fix_not_in_chrome = refl

abbrev pending : World
pending = record start { chrome_rows = row_of "k1" "u1" none opened ∷ [] }

abbrev applied_row : Row
applied_row = record (row_of "k1" "u1" none opened) {
  status = merged;
  close_time = some "t1";
  reason = some "Patch has been applied to linux_chome";
}

abbrev in_conflict : World
in_conflict = record start { chrome_rows = rows }

fixup_unmerged_patches_limit_example :
    created (fixup_unmerged_patches env (db_of "q1") chrome_fixes "5.4" in_conflict).calls
    ≤ created in_conflict.calls
      + conflicts (filter_by (λ row. str_eq row.branch "5.4") (rows_of chrome_fixes in_conflict))
fixup_unmerged_patches_limit_example =
    fixup_unmerged_patches_limit env (db_of "q1") chrome_fixes "5.4" in_conflict
