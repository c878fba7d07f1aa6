-- ===== src/FromUpstream/Run.antt =====
-- contrib/fromupstream.py: conflicts, the commit message, and the loop of main over the locations.
use cros_dev_util.Base.{
  ℕ, zero, suc, String, Option, none, some, List, [], ◌∷◌, ◌++◌, map, str_eq, str_elem, ◌==◌,
  str_append, if◌then◌else◌,
}
use cros_dev_util.FromUpstream.Session.{
  Outside, PickOptions, Session, stopped, returned, Action, ◌>>=◌, ◌>>◌, return, raise, found,
  system_exit, type_error, value_error, killed, run_git, default_changeid, set_tag, set_changeid,
  get,
}
use cros_dev_util.FromUpstream.Pick.{Location, handler, join_texts}

-- The lines that every commit message gets.
pub record Lines : Type 0 where
  pub bug_lines : List String
  pub test_lines : List String
  pub cq_depends : List String

-- '\n'.join(lines)
abbrev pub join_lines : List String → String
join_lines [] = ""
join_lines (line ∷ []) = line
join_lines (line ∷ line' ∷ lines) = join_texts (line ∷ "\n" ∷ join_lines (line' ∷ lines) ∷ [])

abbrev pub resolutions : List String
resolutions = "DD" ∷ "AU" ∷ "UD" ∷ "UA" ∷ "DU" ∷ "AA" ∷ "UU" ∷ []

abbrev pub show_head : List String
show_head = "show" ∷ "-s" ∷ "--format=%B" ∷ "HEAD" ∷ []

module _ (w : Outside) (opts : PickOptions) where
  -- The conflicting files of the lines of `git status`.
  unfoldable pub conflict_lines : List String → Action (List String)
  conflict_lines [] = return []
  conflict_lines (line ∷ lines) =
      let rest = conflict_lines lines in
      if str_eq line "" then rest else do
        status ← found value_error (w.split_status line)
        more ← rest
        return (if str_elem status.0 resolutions then str_append "   " status.1 ∷ more else more)

  abbrev pub conflicts_text : List String → String
  conflicts_text [] = ""
  conflicts_text (c ∷ cs) = join_texts ("\nConflicts:\n" ∷ join_lines (c ∷ cs) ∷ "\n" ∷ [])

  unfoldable pub get_conflicts : Action String
  get_conflicts = do
    status ← run_git w ("status" ∷ "--porcelain" ∷ "--untracked-files=no" ∷ []) none
    conflicts ← conflict_lines (w.splitlines status)
    return (conflicts_text conflicts)

  -- os.kill(os.getpid(), signal.SIGTSTP)
  abbrev pub stop : Action (Unit {0})
  stop s = (returned tt, record s { calls = stopped ∷ s.calls })

  abbrev pub stop_at : String → Action (Unit {0})
  stop_at path s = if w.path_exists s.calls path then stop s else (returned tt, s)

  -- The loop until there is a new commit; the user kills the job in the end.
  unfoldable pub wait_for_commit : ℕ → String → Action (Unit {0})
  wait_for_commit zero previous = raise killed
  wait_for_commit (suc patience) previous =
      let again = wait_for_commit patience previous in
      do
        hash ← run_git w ("rev-parse" ∷ "HEAD" ∷ []) none
        if str_eq previous hash then (stop >> again) else return tt

  unfoldable pub pause_for_merge : Action (Unit {0})
  pause_for_merge = do
    git_root ← run_git w ("rev-parse" ∷ "--show-toplevel" ∷ []) none
    previous ← run_git w ("rev-parse" ∷ "HEAD" ∷ []) none
    stop_at (w.join_path (git_root ∷ ".git" ∷ "rebase-apply" ∷ []))
    stop_at (w.join_path (git_root ∷ ".git" ∷ "CHERRY_PICK_HEAD" ∷ []))
    wait_for_commit w.patience previous

  -- What a pick that has failed leaves to do: the text on its conflicts.
  unfoldable pub backport : Action String
  backport = do
    conflicts ← get_conflicts
    old ← get (λ s. s.tag)
    tag ← found type_error old
    set_tag (if str_eq tag "UPSTREAM: " then "BACKPORT: " else str_append "BACKPORT: " tag)
    pause_for_merge
    return conflicts

  -- The option of `git commit` that signs off, unless the message has the line.
  unfoldable pub signoff_args : String → Action (List String)
  signoff_args message =
      if opts.signoff
      then (do
        name ← run_git w ("config" ∷ "user.name" ∷ []) none
        email ← run_git w ("config" ∷ "user.email" ∷ []) none
        let line = join_texts ("Signed-off-by: " ∷ name ∷ " <" ∷ email ∷ ">" ∷ [])
        return (if str_elem line (w.splitlines message) then [] else "-s" ∷ []))
      else return []

  -- The message without a Change-Id, with what is noted behind it.
  abbrev pub noted_message : Lines → String → String → String → String
  noted_message lines message source conflicts = join_texts (
      w.remove_changeid message
      ∷ "\n"
      ∷ source
      ∷ "\n"
      ∷ conflicts
      ∷ "\n"
      ∷ join_lines (map (str_append "BUG=") lines.bug_lines)
      ∷ "\n"
      ∷ join_lines (map (str_append "TEST=") lines.test_lines)
      ∷ [])

  -- The Change-Id that the commit is to have, which is then forgotten.
  abbrev pub with_changeid : String → Option String → Action String
  with_changeid message none = return message
  with_changeid message (some id) = do set_changeid none; return (w.replace_changeid id message)

  abbrev pub with_cq_depends : List String → String → String
  with_cq_depends [] message = message
  with_cq_depends (c ∷ cs) message = w.add_cq_depends (c ∷ cs) message

  abbrev pub amend : List String → String → Action String
  amend extra message =
      run_git w ("commit" ∷ (extra ++ ("--amend" ∷ "-F" ∷ "-" ∷ []))) (some message)

  -- The first commit, with the notes.
  unfoldable pub note_commit : Lines → String → Action (Unit {0})
  note_commit lines conflicts = do
    message ← run_git w show_head none
    line ← get (λ s. s.source_line)
    source ← found type_error line
    let noted = noted_message lines message source conflicts
    extra ← signoff_args noted
    done ← amend extra noted
    return tt

  -- The last commit, with the title's tag.
  unfoldable pub title_commit : Lines → Action (Unit {0})
  title_commit lines = do
    message ← run_git w show_head none
    default_changeid (w.link_changeid message)
    id ← get (λ s. s.changeid)
    changed ← with_changeid message id
    old ← get (λ s. s.tag)
    tag ← found type_error old
    done ← amend [] (str_append tag (with_cq_depends lines.cq_depends changed))
    return tt

  -- The user's arguments, as they were before the first location.
  abbrev pub restored : Session → Session → Session
  restored user s = record s {
    source_line = user.source_line;
    tag = user.tag;
    changeid = user.changeid;
  }

  unfoldable pub run_location : Lines → Option Location → Action (Unit {0})
  run_location lines location = do
    place ← found system_exit location
    ret ← handler w opts place
    conflicts ← (if ret == 0 then return "" else backport)
    note_commit lines conflicts
    title_commit lines

  unfoldable pub run_locations :
      (String → Option Location) → Lines → Session → List String → Action ℕ
  run_locations match_location lines user [] = return 0
  run_locations match_location lines user (location ∷ locations) =
      let rest = run_locations match_location lines user locations in
      λ s. (run_location lines (match_location location) >> rest) (restored user s)
