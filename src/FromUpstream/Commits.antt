-- ===== src/FromUpstream/Commits.antt =====
-- The commits that main of contrib/fromupstream.py makes for a location once its handler has returned.
use cros_dev_util.Base.{
  String, true, Option, none, some, List, [], ◌∷◌, ◌++◌, ◌≡◌, refl, sym, subst, str_elem,
  str_append, is_some, if◌then◌else◌,
}
use cros_dev_util.FromUpstream.Session.{
  Outside, PickOptions, Session, GitCall, git_call, type_error, Ending, Action, ◌>>=◌, ◌>>◌, return,
  found, run_git, default_changeid, set_tag, get,
}
use cros_dev_util.FromUpstream.Pick.{join_texts}
use cros_dev_util.FromUpstream.Run.{
  Lines, show_head, get_conflicts, pause_for_merge, backport, signoff_args, noted_message,
  with_changeid, with_cq_depends, amend, note_commit, title_commit,
}
use cros_dev_util.FromUpstream.Frames.{Ends, bind_Ends, if_Ends, git_Ends}
use cros_dev_util.FromUpstream.Handlers.{IsTitled}
use cros_dev_util.FromUpstream.Conflicts.{
  IsTyped, typed, backported, Keeps, then_Keeps, git_Keeps, get_conflicts-Keeps,
  pause_for_merge-Keeps,
}

abbrev pub amend_args : List String
amend_args = "commit" ∷ "--amend" ∷ "-F" ∷ "-" ∷ []

-- The last call is the commit with this tag before its title.
abbrev pub IsCommitted : String → Session → Type 0
IsCommitted tag s =
    (message : String) × (calls : List GitCall) × (s.calls
      ≡ git_call amend_args (some (str_append tag message)) ∷ calls)

found_tag :
    {U : Type 0} (P : Ending U × Session → Type 0) (tag : String) (rest : String → Action U)
    (s : Session)
    → s.tag ≡ some tag
    → P (rest tag s)
    → P ((found type_error s.tag >>= rest) s)
found_tag P tag rest s e p = subst (λ o. P ((found type_error o >>= rest) s)) (sym e) p

found_source :
    {U : Type 0} (P : Ending U × Session → Type 0) (o : Option String) (rest : String → Action U)
    (s : Session)
    → is_some o ≡ true
    → ((source : String) → P (rest source s))
    → P ((found type_error o >>= rest) s)
found_source P none rest s e p = cc e
found_source P (some source) rest s e p = p source

module _ (w : Outside) (opts : PickOptions) (tag : String) where
  pub backport-Titled :
      (s : Session)
      → IsTitled (some tag) tt s
      → Ends (λ _. IsTitled (some (backported tag)) tt) IsTyped (backport w opts s)
  unfolding backport
  backport-Titled s h =
      let title = backported tag in
      let after : String → String → Action String =
        λ conflicts old. set_tag (backported old) >> (pause_for_merge w opts >> return conflicts) in
      bind_Ends (λ _. IsTitled (some tag) tt) (λ _. IsTitled (some title) tt) IsTyped
        (get_conflicts w opts)
        (λ conflicts. get (λ s'. s'.tag) >>= λ old. found type_error old >>= after conflicts) s
        (get_conflicts-Keeps w opts tag s h)
        (λ conflicts s1 h1.
          found_tag (Ends (λ _. IsTitled (some title) tt) IsTyped) tag (after conflicts) s1 h1.0 (
            then_Keeps w opts title (pause_for_merge w opts) (λ _. return conflicts)
              (record s1 { tag = some title })
              (pause_for_merge-Keeps w opts title (record s1 { tag = some title }) (refl, h1.1))
              (λ _ s2 h2. h2)))

  signoff_args-Keeps :
      (message : String) (s : Session)
      → IsTitled (some tag) tt s
      → Keeps w opts tag (signoff_args w opts message s)
  unfolding signoff_args
  signoff_args-Keeps message s h =
      let answer : String → String → Action (List String) = λ name email.
        let line = join_texts ("Signed-off-by: " ∷ name ∷ " <" ∷ email ∷ ">" ∷ []) in
        return (if str_elem line (w.splitlines message) then [] else "-s" ∷ []) in
      let ask : Action (List String) = run_git w ("config" ∷ "user.name" ∷ []) none >>= λ name.
      run_git w ("config" ∷ "user.email" ∷ []) none >>= answer name in
      if_Ends (Keeps w opts tag) opts.signoff ask (return []) s
        (then_Keeps w opts tag (run_git w ("config" ∷ "user.name" ∷ []) none)
          (λ name. run_git w ("config" ∷ "user.email" ∷ []) none >>= answer name) s
          (git_Keeps w opts tag ("config" ∷ "user.name" ∷ []) none s h)
          (λ name s1 h1.
            then_Keeps w opts tag (run_git w ("config" ∷ "user.email" ∷ []) none) (answer name) s1
              (git_Keeps w opts tag ("config" ∷ "user.email" ∷ []) none s1 h1) (λ email s2 h2. h2)))
        h

  note_commit-Keeps :
      (lines : Lines) (conflicts : String) (s : Session)
      → IsTitled (some tag) tt s
      → Keeps w opts tag (note_commit w opts lines conflicts s)
  unfolding note_commit
  note_commit-Keeps lines conflicts s h =
      let noted : String → String → String =
        λ message source. noted_message w opts lines message source conflicts in
      let commit : String → List String → Action (Unit {0}) =
        λ text extra. amend w opts extra text >>= λ done. return tt in
      let write : String → Action (Unit {0}) = λ text. signoff_args w opts text >>= commit text in
      then_Keeps w opts tag (run_git w show_head none)
        (λ message. get (λ s'. s'.source_line) >>= λ line.
          found type_error line >>= λ source. write (noted message source))
        s (git_Keeps w opts tag show_head none s h)
        (λ message s1 h1.
          found_source (Keeps w opts tag) s1.source_line (λ source. write (noted message source)) s1
            h1.1
            (λ source.
              then_Keeps w opts tag (signoff_args w opts (noted message source))
                (commit (noted message source)) s1 (signoff_args-Keeps (noted message source) s1 h1)
                (λ extra s2 h2.
                  then_Keeps w opts tag (amend w opts extra (noted message source))
                    (λ done. return tt) s2
                    (git_Keeps w opts tag ("commit" ∷ (extra ++ ("--amend" ∷ "-F" ∷ "-" ∷ [])))
                      (some (noted message source)) s2 h2)
                    (λ done s3 h3. h3))))

  default_changeid-Keeps :
      (id : Option String) (s : Session)
      → IsTitled (some tag) tt s
      → Keeps w opts tag (default_changeid id s)
  default_changeid-Keeps none s h = h
  default_changeid-Keeps (some id) s h = h

  with_changeid-Keeps :
      (message : String) (id : Option String) (s : Session)
      → IsTitled (some tag) tt s
      → Keeps w opts tag (with_changeid w opts message id s)
  with_changeid-Keeps message none s h = h
  with_changeid-Keeps message (some id) s h = h

  then_Commits :
      {T U : Type 0} (first : Action T) (rest : T → Action U) (s : Session)
      → Keeps w opts tag (first s)
      → ((t : T) (s' : Session)
          → IsTitled (some tag) tt s'
          → Ends (λ _. IsCommitted tag) IsTyped (rest t s'))
      → Ends (λ _. IsCommitted tag) IsTyped ((first >>= rest) s)
  then_Commits first rest s h k =
      bind_Ends (λ _. IsTitled (some tag) tt) (λ _. IsCommitted tag) IsTyped first rest s h k

  last_commit :
      (message : String) (s : Session)
      → Ends
          (λ _. IsCommitted tag)
          IsTyped
          ((amend w opts [] (str_append tag message) >>= λ done. return tt) s)
  last_commit message s =
      bind_Ends (λ _. IsCommitted tag) (λ _. IsCommitted tag) IsTyped
        (amend w opts [] (str_append tag message)) (λ done. return tt) s
        (typed (λ _. IsCommitted tag) [] (amend w opts [] (str_append tag message) s)
          (git_Ends w [] (IsCommitted tag) amend_args (some (str_append tag message)) s
            (message, s.calls, refl)))
        (λ done s' h. h)

  pub title_commit-IsCommitted :
      (lines : Lines) (s : Session)
      → IsTitled (some tag) tt s
      → Ends (λ _. IsCommitted tag) IsTyped (title_commit w opts lines s)
  unfolding title_commit
  title_commit-IsCommitted lines s h =
      let whole : String → String = λ changed. with_cq_depends w opts lines.cq_depends changed in
      let commit : String → String → Action (Unit {0}) =
        λ changed old. amend w opts [] (str_append old (whole changed)) >>= λ done. return tt in
      let titled : String → Action (Unit {0}) =
        λ changed. get (λ s'. s'.tag) >>= λ old. found type_error old >>= commit changed in
      let identified : String → Action (Unit {0}) =
        λ message. get (λ s'. s'.changeid) >>= λ id. with_changeid w opts message id >>= titled in
      then_Commits (run_git w show_head none)
        (λ message. default_changeid (w.link_changeid message) >>= λ _. identified message) s
        (git_Keeps w opts tag show_head none s h)
        (λ message s1 h1.
          then_Commits (default_changeid (w.link_changeid message)) (λ _. identified message) s1
            (default_changeid-Keeps (w.link_changeid message) s1 h1)
            (λ _ s2 h2.
              then_Commits (with_changeid w opts message s2.changeid) titled s2
                (with_changeid-Keeps message s2.changeid s2 h2)
                (λ changed s3 h3.
                  found_tag (Ends (λ _. IsCommitted tag) IsTyped) tag (commit changed) s3 h3.0
                    (last_commit (whole changed) s3))))

  -- From the pick on: the two commits.
  pub commits-IsCommitted :
      (lines : Lines) (conflicts : String) (s : Session)
      → IsTitled (some tag) tt s
      → Ends
          (λ _. IsCommitted tag)
          IsTyped
          ((note_commit w opts lines conflicts >> title_commit w opts lines) s)
  commits-IsCommitted lines conflicts s h =
      then_Commits (note_commit w opts lines conflicts) (λ _. title_commit w opts lines) s
        (note_commit-Keeps lines conflicts s h) (λ _ s1 h1. title_commit-IsCommitted lines s1 h1)
