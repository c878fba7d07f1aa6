-- ===== src/NewVariant/Amends.antt =====
-- The steps of contrib/variant/new_variant.py that amend the commits, upload them again and remove
-- the yaml file.
use cros_dev_util.Base.{
  String, Bool, true, false, ◌&&◌, Option, none, some, List, [], ◌∷◌, ◌≡◌, refl, arith,
  if◌then◌else◌, Result, ok, err, key_error, is_some, dict_set,
}
use cros_dev_util.NewVariant.State.{CommitData, BoardModule, Machine, ◌>>◌, return, put_commit, rm}
use cros_dev_util.NewVariant.Build.{Tools, run_process}
use cros_dev_util.NewVariant.Upload.{repo_upload}
use cros_dev_util.NewVariant.Depend.{
  only_hash, amend_if, change_id_to_sha, get_commit_msg, add_line_at, add_cq_depend_to_commit_msg,
  amend_commit, add_to_commits, add_cq_depend, re_upload_at, re_upload_if, re_upload_commits,
  re_upload, clean_up,
}
use cros_dev_util.NewVariant.Typing.{Context, no_commits}
use cros_dev_util.NewVariant.Commits.{Commits, AllTidy, AllTidy-dict_set, tidy, Holds-nothing}
use cros_dev_util.NewVariant.Contracts.{
  Keeps, Keeps-Ended, Keeps-bind, FileAt, Ensures, Ensures-bind, During, During-moved, Ended,
}
use cros_dev_util.NewVariant.Depends.{During-set}

-- The Cq-Depend lines in the commits.
module _ (tools : Tools) (config : BoardModule) (step : String) (start now : Context) where
  abbrev Stays : Result Bool × Machine → Type 0
  Stays r = Ensures (FileAt config step start) (Ended config step start no_commits) r

  abbrev Tidy : Machine → Type 0
  Tidy m = During config step start no_commits m

  only_hash-raises : (shas : List String) → only_hash shas ≡ err key_error → ⊥
  only_hash-raises [] e = cc e
  only_hash-raises (sha ∷ []) e = cc e
  only_hash-raises (sha ∷ other ∷ shas) e = cc e

  add_line_at-Keeps :
      (git_repo change_id line : String) (sha : Option String) (m : Machine)
      → Keeps m (add_line_at tools git_repo change_id line sha m)
  unfolding add_line_at get_commit_msg run_process
  add_line_at-Keeps git_repo change_id line sha m = ground arith

  add_cq_depend_to_commit_msg-Keeps :
      (git_repo change_id line : String) (m : Machine)
      → Keeps m (add_cq_depend_to_commit_msg tools git_repo change_id line m)
  unfolding add_cq_depend_to_commit_msg change_id_to_sha
  add_cq_depend_to_commit_msg-Keeps git_repo change_id line m =
      Keeps-bind (change_id_to_sha tools git_repo change_id)
        (add_line_at tools git_repo change_id line) m
        (refl, refl, only_hash-raises (tools.git_log_hash m.events git_repo change_id))
        (add_line_at-Keeps git_repo change_id line)

  flag_tidy :
      (commit : CommitData) (dir : String)
      → commit.dir ≡ some dir
      → tidy commit ≡ true
      → tidy (record commit { needs_re_upload = true }) ≡ true
  flag_tidy commit dir e t = ground (arith, e, t)

  amended :
      (key : String) (commit : CommitData) (b : Bool) (m : Machine)
      → tidy (record commit { needs_re_upload = true }) ≡ true
      → Ended config step start no_commits b m
      → Stays (
          (if b
              then (put_commit key (record commit { needs_re_upload = true }) >> return true)
              else return false)
            m)
  amended key commit true m t d =
      During-set config step start no_commits no_commits
        (dict_set key (record commit { needs_re_upload = true }) m.status.commits) m d
        (record {
          git_known = λ k e. cc e;
          cl_known = λ k e. cc e;
          all_tidy = AllTidy-dict_set key _ m.status.commits t d.status_at.holds.all_tidy;
        })
  amended key commit false m t f = f

  amend_commit-Stays :
      (key : String) (commit : CommitData) (line : String) (dir change_id : Option String)
      (m : Machine)
      → commit.dir ≡ dir
      → tidy commit ≡ true
      → Tidy m
      → Stays (amend_commit tools key commit line dir change_id m)
  unfolding amend_commit
  amend_commit-Stays key commit line none change_id m e t d = d.file_at
  amend_commit-Stays key commit line (some dir) none m e t d = d.file_at
  amend_commit-Stays key commit line (some dir) (some change_id) m e t d =
      Ensures-bind (FileAt config step start) (Ended config step start no_commits)
        (Ended config step start no_commits) (add_cq_depend_to_commit_msg tools dir change_id line)
        (λ b.
          if b
          then (put_commit key (record commit { needs_re_upload = true }) >> return true)
          else return false)
        m
        (Keeps-Ended config step start no_commits m
          (add_cq_depend_to_commit_msg tools dir change_id line m) d
          (add_cq_depend_to_commit_msg-Keeps dir change_id line m))
        (λ b m'. amended key commit b m' (flag_tidy commit dir e t))

  amend_if-Stays :
      (key : String) (commit : CommitData) (line : Option String) (m : Machine)
      → tidy commit ≡ true
      → Tidy m
      → Stays (amend_if tools key commit line m)
  unfolding amend_if
  amend_if-Stays key commit none m t d = d
  amend_if-Stays key commit (some line) m t d =
      amend_commit-Stays key commit line commit.dir commit.change_id m refl t d

  add_to_commits-Stays :
      (commits : Commits) (m : Machine)
      → AllTidy commits
      → Tidy m
      → Stays (add_to_commits tools commits m)
  unfolding add_to_commits
  add_to_commits-Stays [] m t d = d
  add_to_commits-Stays ((key, commit) ∷ commits) m (t, ts) d =
      Ensures-bind (FileAt config step start) (Ended config step start no_commits)
        (Ended config step start no_commits) (amend_if tools key commit commit.cq_depend)
        (λ b. if b then add_to_commits tools commits else return false) m
        (amend_if-Stays key commit commit.cq_depend m t d)
        (λ b m'.
          elim b
            as (λ b.
              Ended config step start no_commits b m'
              → Stays ((if b then add_to_commits tools commits else return false) m')) [
                | true ↦ λ d'. add_to_commits-Stays commits m' ts d'
                | false ↦ λ f. f
              ])

  During-nothing : (m : Machine) → During config step start now m → Tidy m
  During-nothing m d = record {
    status_at = record {
      same_config = d.status_at.same_config;
      same_step = d.status_at.same_step;
      holds = Holds-nothing now m.status.commits d.status_at.holds;
    };
    file_at = d.file_at;
  }

  pub add_cq_depend-Stays :
      (m : Machine) → During config step start now m → Stays (add_cq_depend tools m)
  unfolding add_cq_depend
  add_cq_depend-Stays m d =
      add_to_commits-Stays m.status.commits m d.status_at.holds.all_tidy (During-nothing m d)

  -- The second upload.
  reset :
      (key : String) (commit : CommitData) (b : Bool) (m : Machine)
      → tidy (record commit { needs_re_upload = false }) ≡ true
      → Tidy m
      → Stays (
          (if b
              then (put_commit key (record commit { needs_re_upload = false }) >> return true)
              else return false)
            m)
  reset key commit true m t d =
      During-set config step start no_commits no_commits
        (dict_set key (record commit { needs_re_upload = false }) m.status.commits) m d
        (record {
          git_known = λ k e. cc e;
          cl_known = λ k e. cc e;
          all_tidy = AllTidy-dict_set key _ m.status.commits t d.status_at.holds.all_tidy;
        })
  reset key commit false m t d = d.file_at

  re_upload_at-Stays :
      (key : String) (commit : CommitData) (branch dir : Option String) (m : Machine)
      → (is_some branch && is_some dir) ≡ true
      → tidy (record commit { needs_re_upload = false }) ≡ true
      → Tidy m
      → Stays (re_upload_at tools key commit branch dir m)
  unfolding re_upload_at repo_upload run_process
  re_upload_at-Stays key commit none dir m known t d = cc
  re_upload_at-Stays key commit (some branch) none m known t d = cc
  re_upload_at-Stays key commit (some branch) (some dir) m known t d =
      reset key commit _ _ t (During-moved config step start no_commits _ m d)

  re_upload_if-Stays :
      (key : String) (commit : CommitData) (flagged : Bool) (m : Machine)
      → commit.needs_re_upload ≡ flagged
      → tidy commit ≡ true
      → Tidy m
      → Stays (re_upload_if tools key commit flagged m)
  unfolding re_upload_if
  re_upload_if-Stays key commit false m e t d = d
  re_upload_if-Stays key commit true m e t d =
      re_upload_at-Stays key commit commit.branch_name commit.dir m (ground (arith, e, t))
        (ground (arith, e, t)) d

  re_upload_commits-Stays :
      (commits : Commits) (m : Machine)
      → AllTidy commits
      → Tidy m
      → Stays (re_upload_commits tools commits m)
  unfolding re_upload_commits
  re_upload_commits-Stays [] m t d = d
  re_upload_commits-Stays ((key, commit) ∷ commits) m (t, ts) d =
      Ensures-bind (FileAt config step start) (Ended config step start no_commits)
        (Ended config step start no_commits) (re_upload_if tools key commit commit.needs_re_upload)
        (λ b. if b then re_upload_commits tools commits else return false) m
        (re_upload_if-Stays key commit commit.needs_re_upload m refl t d)
        (λ b m'.
          elim b
            as (λ b.
              Ended config step start no_commits b m'
              → Stays ((if b then re_upload_commits tools commits else return false) m')) [
                | true ↦ λ d'. re_upload_commits-Stays commits m' ts d'
                | false ↦ λ f. f
              ])

  pub re_upload-Stays : (m : Machine) → During config step start now m → Stays (re_upload tools m)
  unfolding re_upload
  re_upload-Stays m d =
      re_upload_commits-Stays m.status.commits m d.status_at.holds.all_tidy (During-nothing m d)

  -- The file that is removed is there.
  pub clean_up-Removes :
      (m : Machine)
      → During config step start now m
      → (m' : Machine) × (clean_up tools m ≡ (ok true, m'))
        × (m'.yaml_file ≡ none)
        × (m'.status ≡ m.status)
  unfolding clean_up rm
  clean_up-Removes m d =
      let (saved, e, at) = d.file_at in rw e (record m { yaml_file = none }, refl, refl, refl)
