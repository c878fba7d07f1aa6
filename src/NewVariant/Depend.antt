-- ===== src/NewVariant/Depend.antt =====
-- The steps of contrib/variant/new_variant.py behind the uploads: the Cq-Depend lines, the second
-- upload, the clean-up, and abort.
use cros_dev_util.Base.{
  String, Bool, true, false, ◌&&◌, ◌||◌, Option, none, some, List, [], ◌∷◌, Result, err, ok,
  value_error, is_substring, str_eq, if◌then◌else◌,
}
use cros_dev_util.NewVariant.State.{
  CommitData, Action, ◌>>=◌, ◌>>◌, return, found, get_commit, put_commit, rm, str_concat,
}
use cros_dev_util.NewVariant.Build.{Tools, run_process}
use cros_dev_util.NewVariant.Upload.{field, repo_upload}

-- ', '.join(parts)
abbrev pub join_commas : List String → String
join_commas [] = ""
join_commas (a ∷ []) = a
join_commas (a ∷ b ∷ rest) = str_concat (a ∷ ", " ∷ join_commas (b ∷ rest) ∷ [])

-- f'{instance_name}:{cl_number}'
abbrev pub cl_link : String → String → String
cl_link instance number = str_concat (instance ∷ ":" ∷ number ∷ [])

abbrev pub cq_depend_line : List String → String
cq_depend_line links = str_concat ("Cq-Depend: " ∷ join_commas links ∷ [])

abbrev pub add_link : String → Option (List String) → Option (List String)
add_link link none = none
add_link link (some links) = some (link ∷ links)

-- A link and those behind it; `none` is the early return of False.
abbrev pub with_link :
    Option String → Option String → Action (Option (List String)) → Action (Option (List String))
with_link none number rest = return none
with_link (some instance) none rest = return none
with_link (some instance) (some number) rest =
    rest >>= λ links. return (add_link (cl_link instance number) links)

-- The links of the CLs that a commit depends on.
unfoldable pub depend_links : List String → Action (Option (List String))
depend_links [] = return (some [])
depend_links (depend_key ∷ depend_keys) = do
  commit ← get_commit depend_key
  let rest = depend_links depend_keys
  with_link commit.gerrit commit.cl_number rest

-- status.commits[key]['cq_depend'] = ..., and the rest of the loop.
abbrev pub write_line : String → Action Bool → Option (List String) → Action Bool
write_line key rest none = return false
write_line key rest (some links) = do
  commit ← get_commit key
  put_commit key (record commit { cq_depend = some (cq_depend_line links) })
  rest

unfoldable pub calc_commits : List (String × List String) → Action Bool
unfolding depend_links
calc_commits [] = return true
calc_commits ((key, depend_keys) ∷ depends) =
    let rest = calc_commits depends in depend_links depend_keys >>= write_line key rest

unfoldable pub calc_cq_depend : Action Bool
unfolding calc_commits
calc_cq_depend m = calc_commits m.status.config.depends m

-- any('Cq-Depend' in tmpstr for tmpstr in msg)
abbrev pub mentions : String → List String → Bool
mentions part [] = false
mentions part (line ∷ lines) = is_substring part line || mentions part lines

abbrev pub only_hash : List String → Result (Option String)
only_hash [] = ok none
only_hash (sha ∷ []) = ok (some sha)
only_hash (_ ∷ _ ∷ _) = err value_error

module _ (tools : Tools) where
  -- change_id_to_sha: None, the hash, or a ValueError if there is more than one.
  unfoldable pub change_id_to_sha : String → String → Action (Option String)
  change_id_to_sha git_repo change_id m =
      (only_hash (tools.git_log_hash m.events git_repo change_id), m)

  unfoldable pub get_commit_msg : String → String → Action (List String)
  get_commit_msg git_repo rev m = found value_error (tools.git_log_msg m.events git_repo rev) m

  -- The rest of add_cq_depend_to_commit_msg, by what change_id_to_sha returns.
  unfoldable pub add_line_at : String → String → String → Option String → Action Bool
  unfolding get_commit_msg run_process
  add_line_at git_repo change_id cq_depend_str none = return false
  add_line_at git_repo change_id cq_depend_str (some sha) = do
    msg ← get_commit_msg git_repo sha
    let filter =
        run_process tools
          ("git"
            ∷ "filter-branch"
            ∷ "-f"
            ∷ "--msg-filter"
            ∷ str_concat
                ("sed -E \"s/^(Change-Id: " ∷ change_id ∷ ")$/" ∷ cq_depend_str ∷ "\\n\\1/\"" ∷ [])
            ∷ "--"
            ∷ str_concat (sha ∷ "^.." ∷ [])
            ∷ [])
          (some git_repo) (("FILTER_BRANCH_SQUELCH_WARNING", "1") ∷ [])
    if mentions "Cq-Depend" msg then return true else filter

  unfoldable pub add_cq_depend_to_commit_msg : String → String → String → Action Bool
  unfolding change_id_to_sha add_line_at
  add_cq_depend_to_commit_msg git_repo change_id cq_depend_str =
      change_id_to_sha git_repo change_id >>= add_line_at git_repo change_id cq_depend_str

  -- The body of the loop of add_cq_depend, for a commit with a Cq-Depend line, by its directory and
  -- its Change-Id.
  unfoldable pub amend_commit :
      String → CommitData → String → Option String → Option String → Action Bool
  unfolding add_cq_depend_to_commit_msg
  amend_commit key commit line none change_id = return false
  amend_commit key commit line (some dir) none = return false
  amend_commit key commit line (some dir) (some change_id) = do
    amended ← add_cq_depend_to_commit_msg dir change_id line
    let flag = put_commit key (record commit { needs_re_upload = true }) >> return true
    if amended then flag else return false

  unfoldable pub amend_if : String → CommitData → Option String → Action Bool
  unfolding amend_commit
  amend_if key commit none = return true
  amend_if key commit (some line) = amend_commit key commit line commit.dir commit.change_id

  unfoldable pub add_to_commits : List (String × CommitData) → Action Bool
  unfolding amend_if
  add_to_commits [] = return true
  add_to_commits ((key, commit) ∷ commits) = do
    amended ← amend_if key commit commit.cq_depend
    let rest = add_to_commits commits
    if amended then rest else return false

  unfoldable pub add_cq_depend : Action Bool
  unfolding add_to_commits
  add_cq_depend m = add_to_commits m.status.commits m

  -- The body of the loop of re_upload, by the branch and the directory of a commit that is flagged.
  unfoldable pub re_upload_at : String → CommitData → Option String → Option String → Action Bool
  unfolding repo_upload
  re_upload_at key commit branch_name dir = do
    branch ← field branch_name
    cwd ← field dir
    uploaded ← repo_upload tools branch cwd
    let reset = put_commit key (record commit { needs_re_upload = false }) >> return true
    if uploaded then reset else return false

  unfoldable pub re_upload_if : String → CommitData → Bool → Action Bool
  unfolding re_upload_at
  re_upload_if key commit false = return true
  re_upload_if key commit true = re_upload_at key commit commit.branch_name commit.dir

  unfoldable pub re_upload_commits : List (String × CommitData) → Action Bool
  unfolding re_upload_if
  re_upload_commits [] = return true
  re_upload_commits ((key, commit) ∷ commits) = do
    uploaded ← re_upload_if key commit commit.needs_re_upload
    let rest = re_upload_commits commits
    if uploaded then rest else return false

  unfoldable pub re_upload : Action Bool
  unfolding re_upload_commits
  re_upload m = re_upload_commits m.status.commits m

  unfoldable pub clean_up : Action Bool
  unfolding rm
  clean_up = rm >> return true

  -- (branch, cwd) in abandoned
  abbrev pub was_abandoned : String → String → List (String × String) → Bool
  was_abandoned branch cwd [] = false
  was_abandoned branch cwd ((b, d) ∷ abandoned) =
      (str_eq branch b && str_eq cwd d) || was_abandoned branch cwd abandoned

  -- `repo abandon`, once for each branch and directory.
  unfoldable pub abandon_once : Bool → String → String → Action Bool
  unfolding run_process
  abandon_once true branch cwd = return true
  abandon_once false branch cwd =
      run_process tools ("repo" ∷ "abandon" ∷ branch ∷ "." ∷ []) (some cwd) []

  unfoldable pub abandon_commits : List (String × String) → List (String × CommitData) → Action Bool
  unfolding abandon_once
  abandon_commits abandoned [] = return true
  abandon_commits abandoned ((key, commit) ∷ commits) = do
    branch ← field commit.branch_name
    cwd ← field commit.dir
    let known = was_abandoned branch cwd abandoned
    let rest = abandon_commits (if known then abandoned else (branch, cwd) ∷ abandoned) commits
    ended ← abandon_once known branch cwd
    if ended then rest else return false

  unfoldable pub abort : Action Bool
  unfolding abandon_commits
  abort m = abandon_commits [] m.status.commits m
