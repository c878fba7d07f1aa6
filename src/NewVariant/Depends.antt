-- ===== src/NewVariant/Depends.antt =====
-- The steps of contrib/variant/new_variant.py that calculate the Cq-Depend lines and find the
-- upstream CL.
use cros_dev_util.Base.{
  String, Bool, true, false, ◌&&◌, Option, none, some, List, [], ◌∷◌, ◌≡◌, refl, sym, ◌∙◌, ap,
  subst, inl, inr, arith, Bool-cases, Result, ok, key_error, value_error, is_some, dict_get,
  dict_set, str_elem,
}
use cros_dev_util.NewVariant.State.{
  CommitData, BoardModule, Machine, Action, ◌>>=◌, ◌>>◌, return, found, get_commit, put_commit,
  set_commits,
}
use cros_dev_util.NewVariant.Build.{Tools}
use cros_dev_util.NewVariant.Upload.{
  is_uploaded, field, find_coreboot_upstream, query_upstream_of, search_upstream, record_upstream,
  upstream_commit, found_upstream, split_colon,
}
use cros_dev_util.NewVariant.Depend.{
  cl_link, cq_depend_line, add_link, with_link, write_line, depend_links, calc_commits,
  calc_cq_depend,
}
use cros_dev_util.NewVariant.Typing.{Context, with_cl, depends_known, all_in}
use cros_dev_util.NewVariant.Commits.{
  Commits, Holds, has_git, passes, entry_of, tidy-dict_get, Holds-dict_set, Holds-already,
  Holds-new_cl,
}
use cros_dev_util.NewVariant.Contracts.{
  FileAt, Ensures, Ensures-weaken, from_entry, >>=-result, During, Ended,
}

-- Another list of commits in the status.
pub During-set :
    (config : BoardModule) (step : String) (start now after : Context) (d : Commits) (m : Machine)
    → During config step start now m
    → Holds after d
    → During config step start after (set_commits d m)
During-set config step start now after d m at h = record {
  status_at = record {
    same_config = at.status_at.same_config;
    same_step = at.status_at.same_step;
    holds = h;
  };
  file_at = at.file_at;
}

module _ (c : Context) (m : Machine) (holds : Holds c m.status.commits) where
  with_link-Known :
      (gerrit number : Option String) (rest : Action (Option (List String)))
      → (is_some gerrit && is_some number) ≡ true
      → ((links : List String) × (rest m ≡ (ok (some links), m)))
      → (links : List String) × (with_link gerrit number rest m ≡ (ok (some links), m))
  with_link-Known none number rest up h = cc
  with_link-Known (some instance') none rest up h = cc
  with_link-Known (some instance') (some number) rest up (links, h) = (
    cl_link instance' number ∷ links,
    >>=-result rest (some links) (λ links. return (add_link (cl_link instance' number) links)) m h,
  )

  depend_links-Known :
      (keys : List String)
      → all_in keys c.cls ≡ true
      → (links : List String) × (depend_links keys m ≡ (ok (some links), m))
  unfolding depend_links
  depend_links-Known [] known = ([], refl)
  depend_links-Known (key ∷ keys) known =
      let (commit, there, up) =
        entry_of is_uploaded key m.status.commits (holds.cl_known key (ground (arith, known))) in
      let (links, h) =
        with_link-Known commit.gerrit commit.cl_number (depend_links keys) up
          (depend_links-Known keys (ground (arith, known))) in
      (
        links,
        >>=-result (get_commit key) commit (λ c. with_link c.gerrit c.cl_number (depend_links keys))
              m (ap (λ o. found key_error o m) there)
            ∙ h,
      )

module _ (config : BoardModule) (step : String) (start now : Context) where
  -- Where every commit of `depends` is on record and every dependency has a CL, the loop of
  -- calc_cq_depend raises nothing and returns True, and what was on record stays on record.
  pub calc_commits-Done :
      (depends : List (String × List String)) (m : Machine)
      → depends_known depends now ≡ true
      → During config step start now m
      → Ensures
          (λ _. ⊥)
          (λ b m'. (b ≡ true) × During config step start now m')
          (calc_commits depends m)
  unfolding calc_commits
  calc_commits-Done [] m known d = (refl, d)
  calc_commits-Done ((key, keys) ∷ depends) m known d =
      let (links, h) = depend_links-Known now m d.status_at.holds keys (ground (arith, known)) in
      let (commit, there, git) =
        entry_of has_git key m.status.commits
          (d.status_at.holds.git_known key (ground (arith, known))) in
      let with_line : CommitData → CommitData =
        λ c. record c { cq_depend = some (cq_depend_line links) } in
      let holds =
        Holds-dict_set now key commit (with_line commit) m.status.commits there (λ g. g) (λ u. u)
          (tidy-dict_get key commit m.status.commits d.status_at.holds.all_tidy there)
          d.status_at.holds in
      let next = calc_commits depends in
      subst (Ensures (λ _. ⊥) (λ b m'. (b ≡ true) × During config step start now m'))
        (sym (>>=-result (depend_links keys) (some links) (write_line key next) m h))
        (from_entry (λ _. ⊥) (λ b m'. (b ≡ true) × During config step start now m')
          (dict_get key m.status.commits) commit (λ c. put_commit key (with_line c) >> next) m there
          (calc_commits-Done depends
            (set_commits (dict_set key (with_line commit) m.status.commits) m)
            (ground (arith, known)) (During-set config step start now now _ m d holds)))

  pub calc_cq_depend-Ended :
      (m : Machine)
      → depends_known config.depends now ≡ true
      → During config step start now m
      → Ensures (FileAt config step start) (Ended config step start now) (calc_cq_depend m)
  unfolding calc_cq_depend
  calc_cq_depend-Ended m known d =
      Ensures-weaken (λ _. ⊥) (FileAt config step start) _ _
        (calc_commits m.status.config.depends m) (λ _ none'. elim none' [ ]) is_true
        (subst
          (λ depends.
            Ensures (λ _. ⊥) (λ b m'. (b ≡ true) × During config step start now m')
              (calc_commits depends m))
          (sym (ap (λ c. c.depends) d.status_at.same_config))
          (calc_commits-Done config.depends m known d))
    where
      is_true :
          (b : Bool) (m' : Machine)
          → (b ≡ true) × During config step start now m'
          → Ended config step start now b m'
      is_true true m' h = h.1
      is_true false m' h = h.1.file_at

-- The upstream CL of the coreboot commit.
module _ (tools : Tools) (config : BoardModule) (step : String) (start : Context) (m : Machine)
    (new : str_elem "find" start.git ≡ false) (d : During config step start start m) where
  abbrev Finds : Result Bool × Machine → Type 0
  Finds r = Ensures (FileAt config step start) (Ended config step start (with_cl "find" start)) r

  recorded :
      (o : Option (String × String))
      → Finds (
          (found value_error o >>= λ parts.
          put_commit "find" (upstream_commit tools parts) >> return true)
            m)
  recorded none = d.file_at
  recorded (some parts) = During-set config step start start _ _ m d (
      Holds-new_cl start "find" (upstream_commit tools parts) m.status.commits new refl refl
        d.status_at.holds)

  numbered :
      (number : Option String)
      → is_some number ≡ true
      → Finds ((field number >>= λ _. return false) m)
  numbered none known = cc
  numbered (some number) known = d.file_at

  record_upstream-Finds :
      (variant : CommitData) (links : List String)
      → is_uploaded variant ≡ true
      → Finds (record_upstream tools variant links m)
  unfolding record_upstream
  record_upstream-Finds variant [] up = numbered variant.cl_number (ground (arith, up))
  record_upstream-Finds variant (link ∷ []) up = recorded (split_colon link)
  record_upstream-Finds variant (link ∷ other ∷ links) up = d.file_at

  query_upstream_of-Finds :
      (variant : CommitData) (change_id : Option String)
      → is_uploaded variant ≡ true
      → Finds (query_upstream_of tools variant change_id m)
  unfolding query_upstream_of
  query_upstream_of-Finds variant none up = d.file_at
  query_upstream_of-Finds variant (some change_id) up =
      record_upstream-Finds variant (tools.query_upstream m.events change_id) up

  search_upstream-Finds :
      (o : Option CommitData) → passes is_uploaded o ≡ true → Finds (search_upstream tools o m)
  unfolding search_upstream
  search_upstream-Finds none up = cc
  search_upstream-Finds (some variant) up = query_upstream_of-Finds variant variant.change_id up

  pub find_coreboot_upstream-Finds :
      str_elem "cb_variant" start.cls ≡ true → Finds (find_coreboot_upstream tools m)
  unfolding find_coreboot_upstream
  find_coreboot_upstream-Finds known =
      elim (Bool-cases (found_upstream tools (dict_get "find" m.status.commits))) [
        | inl h ↦ rw h (record {
          status_at = record {
            same_config = d.status_at.same_config;
            same_step = d.status_at.same_step;
            holds =
                Holds-already start "find" m.status.commits
                  (passing (dict_get "find" m.status.commits) h) d.status_at.holds;
          };
          file_at = d.file_at;
        })
        | inr h ↦ rw h (
            search_upstream-Finds (dict_get "cb_variant" m.status.commits)
              (d.status_at.holds.cl_known "cb_variant" known))
      ]
    where
      passing :
          (o : Option CommitData) → found_upstream tools o ≡ true → passes is_uploaded o ≡ true
      passing none h = h
      passing (some c) h = h
