-- ===== src/FindMissing/Fixes/Create.antt =====
-- contrib/findmissing/missing.py: filing changes for the fixes that a branch is missing, and
-- get_cherrypick_status of git_interface.py.
use cros_dev_util.Base.{
  ℕ, suc, String, Bool, true, false, ◌&&◌, not, Option, none, some, List, [], ◌∷◌, map, str_eq,
  str_append, is_empty, if◌then◌else◌, filter_by, leb,
}
use cros_dev_util.FindMissing.Fixes.{Status, opened, merged, abandoned, conflict, status_eq, Row}
use cros_dev_util.FindMissing.Fixes.ChangeId.{get_change_id}
use cros_dev_util.FindMissing.Fixes.World.{
  change_candidates, FixesTable, chrome_fixes, CommitTable, linux_chrome, Db, create_call, World,
  rows_of, Env, insert, concat_map, is_tracked, closed_row, insert_merged,
  upstream_sha_to_kernel_sha, find_duplicate, merged_shas, is_sha,
}

-- insert_by_patch_id behind its search for a duplicate.
abbrev pub insert_known : Env → Db → String → String → World → Option Row → Bool × World
insert_known env db branch fixedby w (some row) =
    let final = if status_eq row.status opened then abandoned else row.status in
    let why =
      str_append "Already merged/queued into linux_chrome [upstream sha "
        (str_append row.fixedby_upstream_sha "]") in
    (
      true,
      insert env chrome_fixes
          (closed_row row.kernel_sha fixedby branch (env.now w) row.status final why) w,
    )
insert_known env db branch fixedby w none =
    let shas = merged_shas db w branch fixedby in
    (not (is_empty shas), insert_merged env branch fixedby shas w)

-- insert_by_patch_id: whether the fix needs nothing else, and the tables behind it.
unfoldable pub insert_by_patch_id : Env → Db → String → String → World → Bool × World
unfolding find_duplicate
insert_by_patch_id env db branch fixedby w =
    insert_known env db branch fixedby w (find_duplicate db w branch fixedby)

-- git_interface.get_cherrypick_status: a CalledProcessError counts as a conflict.
unfoldable pub get_cherrypick_status : Env → String → String → Status
get_cherrypick_status env branch sha = elim (env.applied branch sha) [
  | none ↦ conflict
  | some true ↦ merged
  | some false ↦
      let clean = elim (env.diff branch sha) as (λ _. Status) [
        | none ↦ conflict
        | some true ↦ opened
        | some false ↦ merged
      ] in
      if env.pick_fails branch sha then conflict else clean
]

abbrev pub truthy : Option String → Bool
truthy none = false
truthy (some s) = not (str_eq s "")

-- gerrit_interface.create_change with the Change-Id of get_change_id.
unfoldable pub file_change : Env → Db → String → String → String → World → Option String × World
unfolding get_change_id change_candidates
file_change env db kernel_sha fixedby branch w =
    let known = get_change_id env.get_status (change_candidates db w fixedby) in
    let answer = env.create_change w.calls kernel_sha fixedby branch known in
    (answer, record w { calls = create_call kernel_sha fixedby branch known answer ∷ w.calls })

abbrev pub new_row :
    String → String → String → String → Option String → Option String → Status → Option String → Row
new_row kernel_sha fixedby branch time closed change s why = record {
  kernel_sha = kernel_sha;
  fixedby_upstream_sha = fixedby;
  branch = branch;
  entry_time = time;
  close_time = closed;
  fix_change_id = change;
  initial_status = s;
  status = s;
  reason = why;
}

-- The Change-Id of a fix that was merged: only linux_chrome has them.
abbrev pub merged_change_id : Env → CommitTable → Option String → Option String
merged_change_id env linux_chrome (some sha) =
    if str_eq sha "" then none else env.commit_change_id sha
merged_change_id env _ _ = none

-- insert_fix_gerrit behind the cherry-pick, with its status.
abbrev pub insert_status :
    Env → Db → CommitTable → FixesTable → String → String → String → World → Status → Bool × World
insert_status env db table fixes branch kernel_sha fixedby w merged =
    let change = merged_change_id env table (upstream_sha_to_kernel_sha db table branch fixedby) in
    let time = env.now w in
    let why : String = "Patch applied to linux_chrome before this robot was run" in
    let row = new_row kernel_sha fixedby branch time (some time) change merged (some why) in
    (false, insert env fixes row w)
insert_status env db table fixes branch kernel_sha fixedby w opened =
    let (answer, w') = file_change env db kernel_sha fixedby branch w in
    let row = new_row kernel_sha fixedby branch (env.now w) none answer opened none in
    if truthy answer then (true, insert env fixes row w') else (false, w')
insert_status env db table fixes branch kernel_sha fixedby w status =
    let row = new_row kernel_sha fixedby branch (env.now w) none none status none in
    (false, insert env fixes row w)

-- insert_fix_gerrit: whether a change was created, and the tables and calls behind it.
unfoldable pub insert_fix_gerrit :
    Env → Db → CommitTable → FixesTable → String → String → String → World → Bool × World
unfolding insert_by_patch_id get_cherrypick_status
insert_fix_gerrit env db table fixes branch kernel_sha fixedby w =
    let (known, w') = insert_by_patch_id env db branch fixedby w in
    let status = get_cherrypick_status env branch fixedby in
    if known
    then (false, w')
    else insert_status env db table fixes branch kernel_sha fixedby w' status

-- The loop of create_new_fixes_in_branch: the count of new changes, and the tables and calls.
unfoldable pub create_loop :
    Env
    → Db
    → CommitTable
    → FixesTable
    → String
    → ℕ
    → ℕ
    → List (String × String)
    → World
    → ℕ × World
unfolding insert_fix_gerrit
create_loop env db table fixes branch limit count [] w = (count, w)
create_loop env db table fixes branch limit count ((kernel_sha, fixedby) ∷ rows) w =
    let (new, w') = insert_fix_gerrit env db table fixes branch kernel_sha fixedby w in
    let count' = if new then suc count else count in
    let rest = create_loop env db table fixes branch limit count' rows w' in
    if leb limit count' then (count', w') else rest

-- The query of create_new_fixes_in_branch.
unfoldable pub missing_fixes :
    Db → CommitTable → FixesTable → String → World → List (String × String)
missing_fixes db table fixes branch w =
    concat_map
      (λ commit.
        map (λ fix. (commit.sha, fix.1))
          (filter_by
            (λ fix.
              is_sha commit.upstream_sha fix.0
              && not (is_tracked (rows_of fixes w) branch commit.sha fix.1))
            db.upstream_fixes))
      (filter_by (λ commit. str_eq commit.branch branch) (db.commits table))

unfoldable pub create_new_fixes_in_branch :
    Env → Db → CommitTable → FixesTable → String → ℕ → World → ℕ × World
unfolding create_loop missing_fixes
create_new_fixes_in_branch env db table fixes branch limit w =
    create_loop env db table fixes branch limit 0 (missing_fixes db table fixes branch w) w
