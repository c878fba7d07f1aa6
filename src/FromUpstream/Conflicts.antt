-- ===== src/FromUpstream/Conflicts.antt =====
-- What main of contrib/fromupstream.py does about conflicts keeps the title's tag and the source line.
use cros_dev_util.Base.{
  ℕ, zero, suc, String, true, false, Option, none, some, List, [], ◌∷◌, str_eq, str_elem,
  str_append, if◌then◌else◌,
}
use cros_dev_util.FromUpstream.Session.{
  Outside, PickOptions, Session, GitCall, Raise, system_exit, type_error, value_error, killed,
  called_process_error, attribute_error, url_error, rpc_error, config_error, Ending, raised,
  returned, Action, ◌>>=◌, ◌>>◌, return, found, run_git,
}
use cros_dev_util.FromUpstream.Run.{
  conflict_lines, conflicts_text, get_conflicts, stop, stop_at, wait_for_commit, pause_for_merge,
  resolutions,
}
use cros_dev_util.FromUpstream.Frames.{Ends, bind_Ends, Refused, if_Ends, git_Ends}
use cros_dev_util.FromUpstream.Handlers.{IsTitled}

-- Everything may be raised but a TypeError.
abbrev pub IsTyped : Raise → Session → Type 0
IsTyped type_error s = ⊥
IsTyped _ s = Unit

pub typed :
    {T : Type 0} (Q : T → Session → Type 0) (before : List GitCall) (p : Ending T × Session)
    → Ends Q (Refused before) p
    → Ends Q IsTyped p
typed Q before (returned t, s) h = h
typed Q before (raised system_exit, s) h = tt
typed Q before (raised type_error, s) h = h
typed Q before (raised value_error, s) h = tt
typed Q before (raised killed, s) h = tt
typed Q before (raised attribute_error, s) h = tt
typed Q before (raised url_error, s) h = tt
typed Q before (raised rpc_error, s) h = tt
typed Q before (raised config_error, s) h = tt
typed Q before (raised (called_process_error code), s) h = tt

-- The title of a commit whose pick has failed.
abbrev pub backported : String → String
backported tag = if str_eq tag "UPSTREAM: " then "BACKPORT: " else str_append "BACKPORT: " tag

module _ (w : Outside) (opts : PickOptions) (tag : String) where
  abbrev pub Keeps : {T : Type 0} → Ending T × Session → Type 0
  Keeps = Ends (λ _. IsTitled (some tag) tt) IsTyped

  abbrev Has : Session → Type 0
  Has = IsTitled (some tag) tt

  pub then_Keeps :
      {T U : Type 0} (first : Action T) (rest : T → Action U) (s : Session)
      → Keeps (first s)
      → ((t : T) (s' : Session) → Has s' → Keeps (rest t s'))
      → Keeps ((first >>= rest) s)
  then_Keeps first rest s h k = bind_Ends (λ _. Has) (λ _. Has) IsTyped first rest s h k

  pub git_Keeps :
      (argv : List String) (stdin : Option String) (s : Session)
      → Has s
      → Keeps (run_git w argv stdin s)
  git_Keeps argv stdin s h =
      typed (λ _. Has) [] (run_git w argv stdin s) (git_Ends w [] Has argv stdin s h)

  conflict_lines-Keeps :
      (lines : List String) (s : Session) → Has s → Keeps (conflict_lines w opts lines s)
  unfolding conflict_lines
  conflict_lines-Keeps [] s h = h
  conflict_lines-Keeps (line ∷ lines) s h =
      let added : String × String → Action (List String) = λ status.
        conflict_lines w opts lines >>= λ more.
        return (if str_elem status.0 resolutions then str_append "   " status.1 ∷ more else more) in
      if_Ends Keeps (str_eq line "") (conflict_lines w opts lines)
        (found value_error (w.split_status line) >>= added) s (conflict_lines-Keeps lines s h)
        (elim (w.split_status line) as (λ o. Keeps ((found value_error o >>= added) s)) [
          | none ↦ tt
          | some status ↦
              then_Keeps (conflict_lines w opts lines)
                (λ more. return (
                  if str_elem status.0 resolutions then str_append "   " status.1 ∷ more else more))
                s (conflict_lines-Keeps lines s h) (λ more s' h'. h')
        ])

  pub get_conflicts-Keeps : (s : Session) → Has s → Keeps (get_conflicts w opts s)
  unfolding get_conflicts
  get_conflicts-Keeps s h =
      let show : List String → Action String =
        λ conflicts. return (conflicts_text w opts conflicts) in
      then_Keeps (run_git w ("status" ∷ "--porcelain" ∷ "--untracked-files=no" ∷ []) none)
        (λ status. conflict_lines w opts (w.splitlines status) >>= show) s
        (git_Keeps ("status" ∷ "--porcelain" ∷ "--untracked-files=no" ∷ []) none s h)
        (λ status s1 h1.
          then_Keeps (conflict_lines w opts (w.splitlines status)) show s1
            (conflict_lines-Keeps (w.splitlines status) s1 h1) (λ conflicts s2 h2. h2))

  stop_at-Keeps : (path : String) (s : Session) → Has s → Keeps (stop_at w opts path s)
  stop_at-Keeps path s h =
      elim (w.path_exists s.calls path)
        as (λ b. Keeps (if b then stop w opts s else (returned tt, s))) [ true ↦ h | false ↦ h ]

  wait_for_commit-Keeps :
      (patience : ℕ) (previous : String) (s : Session)
      → Has s
      → Keeps (wait_for_commit w opts patience previous s)
  unfolding wait_for_commit
  wait_for_commit-Keeps zero previous s h = tt
  wait_for_commit-Keeps (suc patience) previous s h =
      let again = wait_for_commit w opts patience previous in
      then_Keeps (run_git w ("rev-parse" ∷ "HEAD" ∷ []) none)
        (λ hash. if str_eq previous hash then (stop w opts >> again) else return tt) s
        (git_Keeps ("rev-parse" ∷ "HEAD" ∷ []) none s h)
        (λ hash s1 h1.
          if_Ends Keeps (str_eq previous hash) (stop w opts >> again) (return tt) s1
            (then_Keeps (stop w opts) (λ _. again) s1 h1
              (λ _ s2 h2. wait_for_commit-Keeps patience previous s2 h2))
            h1)

  pub pause_for_merge-Keeps : (s : Session) → Has s → Keeps (pause_for_merge w opts s)
  unfolding pause_for_merge
  pause_for_merge-Keeps s h =
      let path : String → String → String = λ root name. w.join_path (root ∷ ".git" ∷ name ∷ []) in
      let wait : String → Action (Unit {0}) =
        λ previous. wait_for_commit w opts w.patience previous in
      let stops : String → String → Action (Unit {0}) = λ root previous.
        stop_at w opts (path root "rebase-apply")
        >> (stop_at w opts (path root "CHERRY_PICK_HEAD") >> wait previous) in
      then_Keeps (run_git w ("rev-parse" ∷ "--show-toplevel" ∷ []) none)
        (λ root. run_git w ("rev-parse" ∷ "HEAD" ∷ []) none >>= stops root) s
        (git_Keeps ("rev-parse" ∷ "--show-toplevel" ∷ []) none s h)
        (λ root s1 h1.
          then_Keeps (run_git w ("rev-parse" ∷ "HEAD" ∷ []) none) (stops root) s1
            (git_Keeps ("rev-parse" ∷ "HEAD" ∷ []) none s1 h1)
            (λ previous s2 h2.
              then_Keeps (stop_at w opts (path root "rebase-apply"))
                (λ _. stop_at w opts (path root "CHERRY_PICK_HEAD") >> wait previous) s2
                (stop_at-Keeps (path root "rebase-apply") s2 h2)
                (λ _ s3 h3.
                  then_Keeps (stop_at w opts (path root "CHERRY_PICK_HEAD")) (λ _. wait previous) s3
                    (stop_at-Keeps (path root "CHERRY_PICK_HEAD") s3 h3)
                    (λ _ s4 h4. wait_for_commit-Keeps w.patience previous s4 h4))))
