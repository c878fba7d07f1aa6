-- ===== src/NewVariant/Build.antt =====
-- What contrib/variant/new_variant.py meets outside, and the helpers of its steps that run processes,
-- record a git commit and work on packages.
use cros_dev_util.Base.{
  String, Bool, true, false, not, Option, none, some, List, ◌∷◌, ok, type_error, system_exit,
  is_empty, is_substring, str_elem, if◌then◌else◌, filter_by,
}
use cros_dev_util.NewVariant.State.{
  CommitData, BoardModule, Event, ran, workon_started, workon_stopped, Action, ◌>>=◌, ◌>>◌, return,
  found, log_event, put_commit,
}

-- The chroot, git, Gerrit and json.loads, as the program meets them behind the events so far: whether a process
-- succeeds, files, git's branch and Change-Id in a directory, the packages that are worked on, the
-- changes that a Gerrit instance knows, the text at a URL, the `_number` of a JSON text, and the
-- modules of the boards.
pub record Tools : Type 0 where
  pub runs : List Event → List String → Option String → List (String × String) → Bool
  pub is_file : List Event → String → Bool
  pub read_file : List Event → String → String
  pub expanduser : String → String
  pub lower : String → String
  pub find_git_top_level : String → String
  pub current_branch : List Event → String → Option String
  pub current_change_id : List Event → String → Option String
  pub list_atoms : List Event → String → List String
  pub query_chromium : List Event → String → List String
  pub query_internal : List Event → String → List String
  pub http_get : List Event → String → String
  pub json_number : String → Option (Option String)
  pub query_upstream : List Event → String → List String
  pub git_log_hash : List Event → String → String → List String
  pub git_log_msg : List Event → String → String → Option (List String)
  pub import_module : String → Option BoardModule
  pub program_dir : String

abbrev pub src_dir : String
src_dir = "/mnt/host/source/src"

-- os.path.join with an attribute that may be None.
abbrev pub required : Option String → Action String
required = found type_error

module _ (tools : Tools) where
  -- run_process, without the text that it captures.
  unfoldable pub run_process : List String → Option String → List (String × String) → Action Bool
  run_process args cwd environ m = (
    ok (tools.runs m.events args cwd environ),
    record m { events = ran args cwd environ ∷ m.events },
  )

  unfoldable pub get_git_commit_data : String → Action CommitData
  get_git_commit_data path m =
      let cwd = tools.find_git_top_level (tools.expanduser path) in
      (do
        branch ← found system_exit (tools.current_branch m.events cwd)
        change ← found system_exit (tools.current_change_id m.events cwd)
        return (record {
          branch_name = some branch;
          dir = some cwd;
          change_id = some change;
          gerrit = none;
          cl_number = none;
          cq_depend = none;
          needs_re_upload = false;
        }))
        m

  -- status.commits[key] = get_git_commit_data(path)
  unfoldable pub record_commit : String → String → Action (Unit {0})
  unfolding get_git_commit_data
  record_commit key path = do commit ← get_git_commit_data path; put_commit key commit

  -- rc = run_process(...); if rc: status.commits[key] = ...; return rc
  unfoldable pub run_and_record :
      String → String → List String → List (String × String) → Action Bool
  unfolding run_process record_commit
  run_and_record key path args environ = do
    rc ← run_process args none environ
    if rc then (record_commit key path >> return true) else return false

  -- emerge_with_workon
  unfoldable pub emerge_with_workon :
      List String → String → List String → List (String × String) → Action Bool
  unfolding run_process
  emerge_with_workon workon_pkgs emerge_cmd emerge_pkgs environ m =
      let base = m.status.config.base in
      let before = tools.list_atoms m.events base in
      let started : Action (Unit {0}) =
        if is_empty workon_pkgs then return tt else log_event (workon_started workon_pkgs) in
      let after : Action (List String) = λ m'. (ok (tools.list_atoms m'.events base), m') in
      (do
        started
        after_workon ← after
        let stop_packages = filter_by (λ p. not (str_elem p before)) after_workon
        result ← run_process (emerge_cmd ∷ emerge_pkgs) none environ
        if is_empty stop_packages then return tt else log_event (workon_stopped stop_packages)
        return result)
        m

  abbrev pub is_file : String → Action Bool
  is_file path m = (ok (tools.is_file m.events path), m)

  -- variant in osutils.ReadFile(path)
  abbrev pub names_variant : String → Action Bool
  names_variant path m = (ok (is_substring m.status.variant (tools.read_file m.events path)), m)

  abbrev pub if_ok : Action Bool → Action Bool → Action Bool
  if_ok test rest = do passed ← test; if passed then rest else return false
