-- ===== src/FindMissing/Fixes/World.antt =====
-- The database and the services that contrib/findmissing/missing.py works on, and its queries.
-- MySQL, git and Gerrit are parameters: `rejects` says that an INSERT raises MySQLdb.Error,
-- `create_change` answers with a Change-Id or none.
use cros_dev_util.Base.{
  is_empty, String, Bool, false, ◌&&◌, ◌||◌, not, Option, none, some, List, [], ◌∷◌, ◌++◌, map,
  str_eq, str_append, if◌then◌else◌, filter_by, first_by,
}
use cros_dev_util.FindMissing.Subsequent.{Table}
use cros_dev_util.FindMissing.Fixes.{Status, merged, Row, has_key}
use cros_dev_util.FindMissing.Fixes.ChangeId.{Candidate}

pub data FixesTable : Type 0 where
  stable_fixes chrome_fixes : FixesTable

pub data CommitTable : Type 0 where
  linux_stable linux_chrome : CommitTable

-- A row of linux_stable or linux_chrome.
pub record Commit : Type 0 where
  pub sha : String
  pub branch : String
  pub upstream_sha : Option String
  pub patch_id : String

-- The tables that the functions below only read. linux_upstream has (sha, patch_id).
pub record Db : Type 0 where
  pub linux_upstream : List (String × String)
  pub commits : CommitTable → List Commit
  pub upstream_fixes : Table

-- A call of gerrit_interface.create_change, with its answer, or of abandon_change.
pub data Call : Type 0 where
  create_call : String → String → String → Option String → Option String → Call
  abandon_call : String → String → String → Call

pub record World : Type 0 where
  pub stable_rows : List Row
  pub chrome_rows : List Row
  pub calls : List Call

abbrev pub rows_of : FixesTable → World → List Row
rows_of stable_fixes w = w.stable_rows
rows_of chrome_fixes w = w.chrome_rows

abbrev pub set_rows : FixesTable → List Row → World → World
set_rows stable_fixes rows w = record w { stable_rows = rows }
set_rows chrome_fixes rows w = record w { chrome_rows = rows }

-- The patch ids of an upstream sha, and the test for one.
abbrev pub patch_ids : List (String × String) → String → List String
patch_ids upstream sha =
    map (λ (row : String × String). row.1) (filter_by (λ row. str_eq row.0 sha) upstream)

abbrev pub str_any : (String → Bool) → List String → Bool
str_any p [] = false
str_any p (x ∷ xs) = p x || str_any p xs

-- `upstream_sha = %s`, which NULL is not.
abbrev pub is_sha : Option String → String → Bool
is_sha none sha = false
is_sha (some s) sha = str_eq s sha

unfoldable pub upstream_sha_to_kernel_sha : Db → CommitTable → String → String → Option String
upstream_sha_to_kernel_sha db table branch upstream_sha =
    elim (first_by
        (λ commit.
          str_eq commit.branch branch
          && (is_sha commit.upstream_sha upstream_sha
              || str_any (str_eq commit.patch_id) (patch_ids db.linux_upstream upstream_sha)))
        (db.commits table))
      as (λ _. Option String) [ none ↦ none | some commit ↦ some commit.sha ]

-- Whether the second sha is another upstream sha with the patch of the first.
abbrev pub same_patch : Db → String → String → Bool
same_patch db l1 l2 =
    not (str_eq l1 l2)
    && str_any (λ p. str_any (str_eq p) (patch_ids db.linux_upstream l2))
        (patch_ids db.linux_upstream l1)

-- The first row of the branch in chrome_fixes for another sha of this patch.
unfoldable pub find_duplicate : Db → World → String → String → Option Row
find_duplicate db w branch upstream_sha =
    first_by
      (λ row. same_patch db row.fixedby_upstream_sha upstream_sha && str_eq row.branch branch)
      w.chrome_rows

-- What MySQL, git and Gerrit answer: get_status is `none` for an HTTPError, `applied` and `diff`
-- for a CalledProcessError of git log and git diff.
pub record Env : Type 0 where
  pub now : World → String
  pub rejects : FixesTable → List Row → Row → Bool
  pub update_fails : FixesTable → World → Bool
  pub get_status : String → String → Option String
  pub applied : String → String → Option Bool
  pub pick_fails : String → String → Bool
  pub diff : String → String → Option Bool
  pub commit_change_id : String → Option String
  pub create_change : List Call → String → String → String → Option String → Option String

-- INSERT INTO a fixes table; an error is logged.
abbrev pub insert : Env → FixesTable → Row → World → World
insert env table row w =
    if env.rejects table (rows_of table w) row
    then w
    else set_rows table (rows_of table w ++ row ∷ []) w

abbrev pub concat_map : {A : Type 0} {B : Type 0} → (A → List B) → List A → List B
concat_map f [] = []
concat_map f (x ∷ xs) = f x ++ concat_map f xs

-- (sha, fixedby) NOT IN (SELECT kernel_sha, fixedby_upstream_sha FROM ... WHERE branch = %s)
abbrev pub is_tracked : List Row → String → String → String → Bool
is_tracked [] branch sha fixedby = false
is_tracked (row ∷ rows) branch sha fixedby =
    (str_eq row.branch branch && has_key sha fixedby row) || is_tracked rows branch sha fixedby

-- LEFT JOIN a fixes table ON fixedby_upstream_sha = sha: NULLs where no row matches.
abbrev pub joined : List Row → String → List (Option String × Option String)
joined rows sha =
    let found : List (Option String × Option String) =
      map (λ row. (row.fix_change_id, some row.branch))
        (filter_by (λ row. str_eq row.fixedby_upstream_sha sha) rows) in
    if is_empty found then (none, none) ∷ [] else found

-- The query of get_change_id.
unfoldable pub change_candidates : Db → World → String → List Candidate
change_candidates db w sha =
    concat_map
      (λ patch.
        concat_map
          (λ l2.
            concat_map
              (λ chrome.
                map
                  (λ stable. record {
                    chrome_change = chrome.0;
                    chrome_branch = chrome.1;
                    stable_change = stable.0;
                    stable_branch = stable.1;
                  })
                  (joined w.stable_rows l2.0))
              (joined w.chrome_rows l2.0))
          (filter_by (λ l2. str_eq patch l2.1) db.linux_upstream))
      (patch_ids db.linux_upstream sha)

-- The second query of insert_by_patch_id: a commit for each upstream sha with its patch and each
-- row of upstream_fixes.
unfoldable pub merged_shas : Db → World → String → String → List String
merged_shas db w branch fixedby =
    concat_map
      (λ commit.
        concat_map
          (λ _.
            map (λ _. commit.sha)
              (filter_by (λ fix. is_sha commit.upstream_sha fix.0 && str_eq fix.1 fixedby)
                db.upstream_fixes))
          (filter_by (λ upstream. str_eq upstream.1 commit.patch_id) db.linux_upstream))
      (filter_by
        (λ commit.
          str_eq commit.branch branch && not (is_tracked w.chrome_rows branch commit.sha fixedby))
        (db.commits linux_chrome))

abbrev pub closed_row : String → String → String → String → Status → Status → String → Row
closed_row kernel_sha fixedby branch time initial final why = record {
  kernel_sha = kernel_sha;
  fixedby_upstream_sha = fixedby;
  branch = branch;
  entry_time = time;
  close_time = some time;
  fix_change_id = none;
  initial_status = initial;
  status = final;
  reason = some why;
}

abbrev pub insert_merged : Env → String → String → List String → World → World
insert_merged env branch fixedby [] w = w
insert_merged env branch fixedby (sha ∷ shas) w = insert_merged env branch fixedby shas (
    insert env chrome_fixes
      (closed_row sha fixedby branch (env.now w) merged merged
        (str_append "Already merged into linux_chrome [upstream sha " (str_append fixedby "]")))
      w)
