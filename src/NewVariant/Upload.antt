-- ===== src/NewVariant/Upload.antt =====
-- The steps of contrib/variant/new_variant.py that push and upload commits, and find their CLs.
use cros_dev_util.Base.{
  str_drop, is_prefix, ◌==◌, Char, code, String, Bool, true, false, ◌&&◌, ◌||◌, Option, none, some,
  List, [], ◌∷◌, Result, err, ok, value_error, key_error, is_some, dict_get, str_eq, if◌then◌else◌,
}
use cros_dev_util.NewVariant.State.{
  CommitData, Action, ◌>>=◌, ◌>>◌, return, found, get_commit, put_commit, save, str_concat,
}
use cros_dev_util.NewVariant.Build.{Tools, run_process}

-- 'gerrit' in commit and 'cl_number' in commit
abbrev pub is_uploaded : CommitData → Bool
is_uploaded commit = is_some commit.gerrit && is_some commit.cl_number

-- commit[key]
abbrev pub field : Option String → Action String
field = found key_error

-- query_gerrit: the number of the first change.
abbrev pub query_gerrit : List String → Option String
query_gerrit [] = none
query_gerrit (number ∷ _) = some number

-- `if cl_number:`
abbrev pub or_next : String → Option String → Option (String × String) → Option (String × String)
or_next instance none next = next
or_next instance (some number) next = if str_eq number "" then next else some (instance, number)

-- split(':') into exactly two parts; any other number of parts raises ValueError.
abbrev pub char_is_colon : Char → Bool
char_is_colon c = code c == b':'

abbrev pub has_colon : String → Bool
has_colon String.[] = false
has_colon (String.◌∷◌ c s) = char_is_colon c || has_colon s

abbrev pub split_colon : String → Option (String × String)
split_colon String.[] = none
split_colon (String.◌∷◌ c s) =
    let rest = elim (split_colon s) as (λ _. Option (String × String)) [
      | none ↦ none
      | some (a, b) ↦ some (String.◌∷◌ c a, b)
    ] in
    if char_is_colon c then (if has_colon s then none else some (String.[], s)) else rest

module _ (tools : Tools) where
  -- json.loads raises a ValueError where the text is no JSON.
  unfoldable pub query_coreboot_gerrit : String → Action (Option String)
  query_coreboot_gerrit change_id m =
      let response =
        tools.http_get m.events
          (str_concat ("https://review.coreboot.org/changes/" ∷ change_id ∷ [])) in
      if is_prefix "Not found:" response
      then (ok none, m)
      else found value_error (tools.json_number (str_drop 5 response)) m

  unfoldable pub find_change_id : String → Action (Option (String × String))
  unfolding query_coreboot_gerrit
  find_change_id change_id m =
      let coreboot : Result (Option (String × String)) =
        elim (query_coreboot_gerrit change_id m).0 [
          | err exn ↦ err exn
          | ok number ↦ ok (or_next "coreboot" number none)
        ] in
      let internal : Result (Option (String × String)) =
        elim (or_next "chrome-internal" (query_gerrit (tools.query_internal m.events change_id))
          none) [ none ↦ coreboot | some cl ↦ ok (some cl) ] in
      let chromium : Result (Option (String × String)) =
        elim (or_next "chromium" (query_gerrit (tools.query_chromium m.events change_id)) none) [
          | none ↦ internal
          | some cl ↦ ok (some cl)
        ] in
      (chromium, m)

  unfoldable pub save_cl_data : String → String × String → Action (Unit {0})
  save_cl_data commit_key (instance, number) = do
    commit ← get_commit commit_key
    put_commit commit_key (record commit { gerrit = some instance; cl_number = some number })
    save

  unfoldable pub repo_upload : String → String → Action Bool
  unfolding run_process
  repo_upload branch cwd =
      run_process tools
        ("repo"
          ∷ "upload"
          ∷ "."
          ∷ str_concat ("--br=" ∷ branch ∷ [])
          ∷ "--wip"
          ∷ "--verify"
          ∷ "--yes"
          ∷ "--hashtag=new_variant"
          ∷ [])
        (some cwd) []

  -- The body of the loop of push_coreboot, for a commit without a CL. The messages of the log read
  -- the branch and the directory of a commit that is not found.
  unfoldable pub push_commit : String → CommitData → Action Bool
  unfolding find_change_id save_cl_data
  push_commit key commit = do
    change_id ← field commit.change_id
    cl ← find_change_id change_id
    elim cl as (λ _. Action Bool) [
      | some found_cl ↦ (save_cl_data key found_cl >> return true)
      | none ↦ (field commit.branch_name >>= λ _. field commit.dir >>= λ _. return false)
    ]

  unfoldable pub push_commits : List String → Bool → Action Bool
  unfolding push_commit
  push_commits [] rc = return rc
  push_commits (key ∷ keys) rc = do
    commit ← get_commit key
    pushed ← if is_uploaded commit then return true else push_commit key commit
    push_commits keys (rc && pushed)

  unfoldable pub push_coreboot : Action Bool
  unfolding push_commits
  push_coreboot m = push_commits m.status.config.coreboot_push_list true m

  -- The body of the loop of upload_CLs, for a commit without a CL.
  unfoldable pub upload_commit : String → CommitData → Action Bool
  unfolding find_change_id save_cl_data repo_upload
  upload_commit key commit = do
    change_id ← field commit.change_id
    cl ← find_change_id change_id
    elim cl as (λ _. Action Bool) [
      | some found_cl ↦ (save_cl_data key found_cl >> return true)
      | none ↦ do
        branch ← field commit.branch_name
        dir ← field commit.dir
        uploaded ← repo_upload branch dir
        let again = do
          cl' ← find_change_id change_id
          elim cl' as (λ _. Action Bool) [
            | some found_cl ↦ (save_cl_data key found_cl >> return true)
            | none ↦ return false
          ]
        if uploaded then again else return false
    ]

  unfoldable pub upload_commits : List String → Action Bool
  unfolding upload_commit
  upload_commits [] = return true
  upload_commits (key ∷ keys) = do
    commit ← get_commit key
    uploaded ← if is_uploaded commit then return true else upload_commit key commit
    let rest = upload_commits keys
    if uploaded then rest else return false

  unfoldable pub upload_cls : Action Bool
  unfolding upload_commits
  upload_cls m = upload_commits m.status.config.repo_upload_list m

  abbrev pub upstream_commit : String × String → CommitData
  upstream_commit (instance, number) = record {
    branch_name = none;
    dir = none;
    change_id = none;
    gerrit = some instance;
    cl_number = some number;
    cq_depend = none;
    needs_re_upload = false;
  }

  -- What the query for the upstream CL found.
  unfoldable pub record_upstream : CommitData → List String → Action Bool
  record_upstream variant [] = do number ← field variant.cl_number; return false
  record_upstream variant (link ∷ []) = do
    parts ← found value_error (split_colon link)
    put_commit "find" (upstream_commit parts)
    return true
  record_upstream variant (link ∷ other ∷ links) = return false

  -- The query, where the commit has a Change-Id.
  unfoldable pub query_upstream_of : CommitData → Option String → Action Bool
  unfolding record_upstream
  query_upstream_of variant none m = (ok false, m)
  query_upstream_of variant (some change_id) m =
      record_upstream variant (tools.query_upstream m.events change_id) m

  unfoldable pub search_upstream : Option CommitData → Action Bool
  unfolding query_upstream_of
  search_upstream none m = (ok false, m)
  search_upstream (some variant) m = query_upstream_of variant variant.change_id m

  abbrev pub found_upstream : Option CommitData → Bool
  found_upstream none = false
  found_upstream (some commit) = is_uploaded commit

  unfoldable pub find_coreboot_upstream : Action Bool
  unfolding search_upstream
  find_coreboot_upstream m =
      if found_upstream (dict_get "find" m.status.commits)
      then (ok true, m)
      else search_upstream (dict_get "cb_variant" m.status.commits) m
