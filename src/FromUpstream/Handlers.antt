-- ===== src/FromUpstream/Handlers.antt =====
-- The handlers of contrib/fromupstream.py for commits of git repositories: what they leave in the
-- arguments, and what they have run when they exit.
use cros_dev_util.Base.{
  ℕ, String, Bool, true, false, Option, none, some, List, [], ◌∷◌, ◌≡◌, refl, ap, str_eq, is_some,
  if◌then◌else◌,
}
use cros_dev_util.FromUpstream.Session.{
  Outside, PickOptions, Session, GitCall, system_exit, Ending, Action, ◌>>=◌, ◌>>◌, return, raise,
  found, run_git, git_returncode, try_git, or_else, default_tag, set_source_line,
}
use cros_dev_util.FromUpstream.Pick.{
  Location, patchwork, msgid, upstream, fromgit, gitfetch, join_texts, upstream_urls, is_upstream,
  first_remote, find_upstream_remote, is_in_branch, reset_replaced, note_source, cherry_pick,
  match_upstream, from_line, match_fromgit, match_gitfetch,
}
use cros_dev_util.FromUpstream.Frames.{
  Ends, bind_Ends, Quiet, Refused, if_Ends, git_Ends, git_returncode-Ends, git-Quiet, try_git-Quiet,
}

-- The title's tag of a location where the user gives none.
abbrev pub tag_of : Location → String
tag_of (patchwork _ _) = "FROMLIST: "
tag_of (msgid _) = "FROMLIST: "
tag_of (upstream _) = "UPSTREAM: "
tag_of (fromgit _ _ _) = "FROMGIT: "
tag_of (gitfetch _ _ _) = "FROMGIT: "

-- Both arguments are there: the tag is the user's, or the default.
abbrev pub IsNoted : Option String → ℕ → Session → Type 0
IsNoted tag ret s = (s.tag ≡ tag) × (is_some s.source_line ≡ true)

module _ (w : Outside) (opts : PickOptions) (before : List GitCall)
    (tag source_line : Option String) where
  abbrev At : Session → Type 0
  At = Quiet before tag source_line

  abbrev pub Stays : {T : Type 0} → Ending T × Session → Type 0
  Stays = Ends (λ _. At) (Refused before)

  then_Stays :
      {T U : Type 0} (first : Action T) (rest : T → Action U) (s : Session)
      → Stays (first s)
      → ((t : T) (s' : Session) → At s' → Stays (rest t s'))
      → Stays ((first >>= rest) s)
  then_Stays first rest s h k = bind_Ends (λ _. At) (λ _. At) (Refused before) first rest s h k

  pub if_Stays :
      {T : Type 0} (b : Bool) (act alt : Action T) (s : Session)
      → Stays (act s)
      → Stays (alt s)
      → Stays ((if b then act else alt) s)
  if_Stays b act alt s h k = if_Ends Stays b act alt s h k

  first_remote-Stays :
      (urls remotes : List String) (s : Session) → At s → Stays (first_remote w opts urls remotes s)
  unfolding first_remote
  first_remote-Stays urls [] s q = q
  first_remote-Stays urls (remote ∷ remotes) s q =
      then_Stays (try_git w ("remote" ∷ "get-url" ∷ remote ∷ []))
        (λ url.
          if is_upstream w opts urls url
          then return (some remote)
          else first_remote w opts urls remotes)
        s (try_git-Quiet w ("remote" ∷ "get-url" ∷ remote ∷ []) s refl q)
        (λ url s' q'.
          if_Stays (is_upstream w opts urls url) (return (some remote))
            (first_remote w opts urls remotes) s' q' (first_remote-Stays urls remotes s' q'))

  find_upstream_remote-Stays :
      (urls : List String) (s : Session) → At s → Stays (find_upstream_remote w opts urls s)
  unfolding find_upstream_remote
  find_upstream_remote-Stays urls s q =
      then_Stays (run_git w ("remote" ∷ []) none)
        (λ remotes. first_remote w opts urls (w.splitlines remotes)) s
        (git-Quiet w ("remote" ∷ []) none s refl q)
        (λ remotes s' q'. first_remote-Stays urls (w.splitlines remotes) s' q')

  is_in_branch-Stays :
      (commit remote : String) (branches : List String) (s : Session)
      → At s
      → Stays (is_in_branch w opts commit remote branches s)
  unfolding is_in_branch
  is_in_branch-Stays commit remote [] s q = q
  is_in_branch-Stays commit remote (branch ∷ branches) s q =
      let argv =
        "merge-base" ∷ "--is-ancestor" ∷ commit ∷ join_texts (remote ∷ "/" ∷ branch ∷ []) ∷ [] in
      then_Stays (try_git w argv)
        (λ answer.
          if is_some answer then return true else is_in_branch w opts commit remote branches)
        s (try_git-Quiet w argv s refl q)
        (λ answer s' q'.
          if_Stays (is_some answer) (return true) (is_in_branch w opts commit remote branches) s' q'
            (is_in_branch-Stays commit remote branches s' q'))

  pub found-Stays : {T : Type 0} (o : Option T) (s : Session) → At s → Stays (found system_exit o s)
  found-Stays none s q = q.same_changes
  found-Stays (some t) s q = q

  -- From here on a handler does not exit.
  abbrev pub Ended : Option String → Ending ℕ × Session → Type 0
  Ended tag' = Ends (IsNoted tag') (Refused before)

  pub then_Ended :
      {T : Type 0} (tag' : Option String) (first : Action T) (rest : T → Action ℕ) (s : Session)
      → Stays (first s)
      → ((t : T) (s' : Session) → At s' → Ended tag' (rest t s'))
      → Ended tag' ((first >>= rest) s)
  then_Ended tag' first rest s h k =
      bind_Ends (λ _. At) (IsNoted tag') (Refused before) first rest s h k

-- The arguments stay, whatever git answers.
abbrev pub IsTitled : {T : Type 0} → Option String → T → Session → Type 0
IsTitled tag t s = (s.tag ≡ tag) × (is_some s.source_line ≡ true)

module _ (w : Outside) (opts : PickOptions) (before : List GitCall) (tag : Option String) where
  reset-IsTitled :
      (s : Session)
      → IsTitled tag tt s
      → Ends (IsTitled tag) (Refused before) (reset_replaced w opts s)
  unfolding reset_replaced
  reset-IsTitled s h =
      elim opts.replace
        as (λ b. Ends (IsTitled tag) (Refused before) (
          (if b
              then (run_git w ("reset" ∷ "--hard" ∷ "HEAD~1" ∷ []) none >>= λ done. return tt)
              else return tt)
            s)) [
              | true ↦
                  bind_Ends (IsTitled tag) (IsTitled tag) (Refused before)
                    (run_git w ("reset" ∷ "--hard" ∷ "HEAD~1" ∷ []) none) (λ done. return tt) s
                    (git_Ends w before (IsTitled tag tt) ("reset" ∷ "--hard" ∷ "HEAD~1" ∷ []) none s
                      h)
                    (λ done s' h'. h')
              | false ↦ h
            ]

  -- The reset and the pick.
  pub pick-IsTitled :
      (argv : List String) (stdin : Option String) (s : Session)
      → IsTitled tag tt s
      → Ends
          (IsNoted tag)
          (Refused before)
          ((reset_replaced w opts >> git_returncode w argv stdin) s)
  pick-IsTitled argv stdin s h =
      bind_Ends (IsTitled tag) (IsNoted tag) (Refused before) (reset_replaced w opts)
        (λ _. git_returncode w argv stdin) s (reset-IsTitled s h)
        (λ _ s' h'. git_returncode-Ends w before (IsTitled tag tt) argv stdin s' h')

  note_source-IsTitled :
      (commit : String) (line : String → String) (source : Option String) (s : Session)
      → s.source_line ≡ source
      → s.tag ≡ tag
      → Ends (IsTitled tag) (Refused before) (note_source w opts commit line source s)
  unfolding note_source
  note_source-IsTitled commit line (some given) s e t = (t, ap is_some e)
  note_source-IsTitled commit line none s e t =
      bind_Ends (λ _ s'. s'.tag ≡ tag) (IsTitled tag) (Refused before)
        (run_git w ("rev-parse" ∷ commit ∷ []) none)
        (λ hash. set_source_line (line hash) >> return hash) s
        (git_Ends w before (λ s'. s'.tag ≡ tag) ("rev-parse" ∷ commit ∷ []) none s t)
        (λ hash s' t'. (t', refl))

module _ (w : Outside) (opts : PickOptions) (before : List GitCall)
    (tag source_line : Option String) where
  cherry_pick-IsNoted :
      (commit : String) (line : String → String) (default : String) (s : Session)
      → Quiet before tag source_line s
      → Ends
          (IsNoted (or_else tag default))
          (Refused before)
          (cherry_pick w opts commit line default s)
  unfolding cherry_pick
  cherry_pick-IsNoted commit line default s q =
      bind_Ends (IsTitled tag) (IsNoted (or_else tag default)) (Refused before)
        (note_source w opts commit line s.source_line)
        (λ picked.
          default_tag default
          >> (reset_replaced w opts >> git_returncode w ("cherry-pick" ∷ picked ∷ []) none))
        s (note_source-IsTitled w opts before tag commit line s.source_line s refl q.same_tag)
        (λ picked s' h.
          pick-IsTitled w opts before (or_else tag default) ("cherry-pick" ∷ picked ∷ []) none
            (record s' { tag = or_else s'.tag default }) (ap (λ t. or_else t default) h.0, h.1))

  pub match_upstream-IsNoted :
      (commit : String) (s : Session)
      → Quiet before tag source_line s
      → Ends (IsNoted (or_else tag "UPSTREAM: ")) (Refused before) (match_upstream w opts commit s)
  unfolding match_upstream
  match_upstream-IsNoted commit s q =
      let title = or_else tag "UPSTREAM: " in
      let pick =
        cherry_pick w opts commit
          (λ hash. join_texts ("(cherry picked from commit " ∷ hash ∷ ")" ∷ [])) "UPSTREAM: " in
      let branches = "main" ∷ "master" ∷ [] in
      let search : String → Action Bool = λ name.
        if str_eq name "" then raise system_exit else is_in_branch w opts commit name branches in
      let check : Bool → Action (Unit {0}) =
        λ is_in. if is_in then return tt else raise system_exit in
      let checked : Bool → Action ℕ = λ is_in. check is_in >> pick in
      then_Ended w opts before tag source_line title (find_upstream_remote w opts upstream_urls)
        (λ remote. found system_exit remote >>= λ name. search name >>= checked) s
        (find_upstream_remote-Stays w opts before tag source_line upstream_urls s q)
        (λ remote s1 q1.
          then_Ended w opts before tag source_line title (found system_exit remote)
            (λ name. search name >>= checked) s1
            (found-Stays w opts before tag source_line remote s1 q1)
            (λ name s2 q2.
              then_Ended w opts before tag source_line title (search name) checked s2
                (if_Stays w opts before tag source_line (str_eq name "") (raise system_exit)
                  (is_in_branch w opts commit name branches) s2 q2.same_changes
                  (is_in_branch-Stays w opts before tag source_line commit name branches s2 q2))
                (λ is_in s3 q3.
                  then_Ended w opts before tag source_line title (check is_in) (λ _. pick) s3
                    (if_Stays w opts before tag source_line is_in (return tt) (raise system_exit) s3
                      q3 q3.same_changes)
                    (λ _ s4 q4.
                      cherry_pick-IsNoted commit
                        (λ hash. join_texts ("(cherry picked from commit " ∷ hash ∷ ")" ∷ []))
                        "UPSTREAM: " s4 q4))))

  pub match_fromgit-IsNoted :
      (remote branch commit : String) (s : Session)
      → Quiet before tag source_line s
      → Ends
          (IsNoted (or_else tag "FROMGIT: "))
          (Refused before)
          (match_fromgit w opts remote branch commit s)
  unfolding match_fromgit
  match_fromgit-IsNoted remote branch commit s q =
      let argv =
        "merge-base" ∷ "--is-ancestor" ∷ commit ∷ join_texts (remote ∷ "/" ∷ branch ∷ []) ∷ [] in
      let pick : String → Action ℕ =
        λ url. cherry_pick w opts commit (from_line w opts url branch) "FROMGIT: " in
      let url_argv = "remote" ∷ "get-url" ∷ remote ∷ [] in
      let title = or_else tag "FROMGIT: " in
      then_Ended w opts before tag source_line title (try_git w argv)
        (λ answer. found system_exit answer >>= λ _. run_git w url_argv none >>= pick) s
        (try_git-Quiet w argv s refl q)
        (λ answer s1 q1.
          then_Ended w opts before tag source_line title (found system_exit answer)
            (λ _. run_git w url_argv none >>= pick) s1
            (found-Stays w opts before tag source_line answer s1 q1)
            (λ _ s2 q2.
              then_Ended w opts before tag source_line title (run_git w url_argv none) pick s2
                (git-Quiet w url_argv none s2 refl q2)
                (λ url s3 q3.
                  cherry_pick-IsNoted commit (from_line w opts url branch) "FROMGIT: " s3 q3)))

  pub match_gitfetch-IsNoted :
      (remote branch commit : String) (s : Session)
      → Quiet before tag source_line s
      → Ends
          (IsNoted (or_else tag "FROMGIT: "))
          (Refused before)
          (match_gitfetch w opts remote branch commit s)
  unfolding match_gitfetch
  match_gitfetch-IsNoted remote branch commit s q =
      let argv = "fetch" ∷ remote ∷ branch ∷ [] in
      let pick = cherry_pick w opts commit (from_line w opts remote branch) "FROMGIT: " in
      then_Ended w opts before tag source_line (or_else tag "FROMGIT: ") (try_git w argv)
        (λ answer. found system_exit answer >>= λ _. pick) s (try_git-Quiet w argv s refl q)
        (λ answer s1 q1.
          then_Ended w opts before tag source_line (or_else tag "FROMGIT: ")
            (found system_exit answer) (λ _. pick) s1
            (found-Stays w opts before tag source_line answer s1 q1)
            (λ _ s2 q2.
              cherry_pick-IsNoted commit (from_line w opts remote branch) "FROMGIT: " s2 q2))
