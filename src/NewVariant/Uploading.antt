-- ===== src/NewVariant/Uploading.antt =====
-- One commit of the steps push_coreboot and upload_CLs of contrib/variant/new_variant.py.
use cros_dev_util.Base.{
  String, Bool, true, false, ◌&&◌, Option, none, some, ◌≡◌, refl, sym, subst, inl, inr, arith,
  if◌then◌else◌, Bool-cases, Result, ok, err, key_error, is_some, dict_get, dict_set, str_elem,
}
use cros_dev_util.NewVariant.State.{
  CommitData, BoardModule, Machine, Action, ◌>>=◌, ◌>>◌, return, get_commit, put_commit, save,
}
use cros_dev_util.NewVariant.Build.{Tools, run_process}
use cros_dev_util.NewVariant.Upload.{
  is_uploaded, field, find_change_id, query_coreboot_gerrit, save_cl_data, repo_upload, push_commit,
  upload_commit,
}
use cros_dev_util.NewVariant.Typing.{Context, with_cl}
use cros_dev_util.NewVariant.Commits.{
  Commits, Holds, has_git, passes, entry_of, tidy-dict_get, Holds-fewer, Holds-with_cl,
  Holds-already,
}
use cros_dev_util.NewVariant.Contracts.{
  StatusAt, FileAt, Ensures, Ensures-bind, from_entry, During, During-moved,
}

module _ (tools : Tools) where
  find_change_id-raises :
      (change_id : String) (m : Machine) → (find_change_id tools change_id m).0 ≡ err key_error → ⊥
  unfolding find_change_id query_coreboot_gerrit
  find_change_id-raises change_id m = ground arith

module _ (tools : Tools) (config : BoardModule) (step : String) (start now : Context)
    (key : String) where
  -- Behind one commit of the loop: on True it has a CL.
  abbrev pub Went : Bool → Machine → Type 0
  Went true m = During config step start (with_cl key now) m
  Went false m = During config step start now m

  -- Every place where the step may stop can be begun again from the file.
  abbrev pub Goes : Result Bool × Machine → Type 0
  Goes r = Ensures (FileAt config step start) Went r

  module _ (back : (d : Commits) → Holds now d → Holds start d) (commit : CommitData) where
    abbrev pub Entry : Machine → Type 0
    Entry m = (dict_get key m.status.commits ≡ some commit) × (has_git commit ≡ true)

    saved :
        (cl : String × String) (m : Machine)
        → During config step start now m
        → Entry m
        → Goes ((save_cl_data tools key cl >> return true) m)
    unfolding save_cl_data save
    saved (instance', number) m d (there, git) =
        let holds =
          Holds-with_cl now key commit (with_data commit) m.status.commits there (λ g. g) refl
            (tidy-dict_get key commit m.status.commits d.status_at.holds.all_tidy there)
            d.status_at.holds in
        Ensures-bind (FileAt config step start) (λ _. Went true) Went
          (save_cl_data tools key (instance', number)) (λ _. return true) m
          (from_entry (FileAt config step start) (λ _. Went true) (dict_get key m.status.commits)
            commit (λ c. put_commit key (with_data c) >> save) m there
            (record {
              status_at = at holds;
              file_at = (_, refl, at (back _ (Holds-fewer key now _ holds)));
            }))
          (λ _ _ h. h)
      where
        with_data : CommitData → CommitData
        with_data c = record c { gerrit = some instance'; cl_number = some number }

        at :
            {c : Context}
            → Holds c (dict_set key (with_data commit) m.status.commits)
            → StatusAt config step c
                (record m.status { commits = dict_set key (with_data commit) m.status.commits })
        at h = record {
          same_config = d.status_at.same_config;
          same_step = d.status_at.same_step;
          holds = h;
        }

    -- What the answer of Gerrit leads to.
    abbrev Answer : Type 0
    Answer = Result (Option (String × String))

    abbrev save_found : Action Bool → Option (String × String) → Action Bool
    save_found other cl = elim cl as (λ _. Action Bool) [
      | some found_cl ↦ (save_cl_data tools key found_cl >> return true)
      | none ↦ other
    ]

    answered :
        (answer : Answer) (other : Action Bool) (m : Machine)
        → (answer ≡ err key_error → ⊥)
        → During config step start now m
        → Entry m
        → Goes (other m)
        → Goes (((λ m'. (answer, m')) >>= save_found other) m)
    answered (ok (some cl)) other m raises d e g = saved cl m d e
    answered (ok none) other m raises d e g = g
    answered (err key_error) other m raises d e g = raises refl
    answered (err _) other m raises d e g = d.file_at

    asked :
        (change_id : String) (other : Action Bool) (m : Machine)
        → During config step start now m
        → Entry m
        → Goes (other m)
        → Goes ((find_change_id tools change_id >>= save_found other) m)
    unfolding find_change_id
    asked change_id other m d e g =
        answered (find_change_id tools change_id m).0 other m
          (find_change_id-raises tools change_id m) d e g

    push_at :
        (change_id branch dir : Option String) (m : Machine)
        → (is_some branch && (is_some dir && is_some change_id)) ≡ true
        → During config step start now m
        → Entry m
        → Goes (
            (field change_id >>= λ id.
            find_change_id tools id
            >>= save_found (field branch >>= λ _. field dir >>= λ _. return false))
              m)
    push_at none (some branch) (some dir) m g d e = cc
    push_at (some id) none dir m g d e = cc
    push_at (some id) (some branch) none m g d e = cc
    push_at none none dir m g d e = cc
    push_at none (some branch) none m g d e = cc
    push_at (some id) (some branch) (some dir) m g d e = asked id (return false) m d e d

    pub pushed :
        (m : Machine)
        → During config step start now m
        → Entry m
        → Goes (push_commit tools key commit m)
    unfolding push_commit
    pushed m d e = push_at commit.change_id commit.branch_name commit.dir m e.1 d e

    abbrev upload_again : String → String → String → Action Bool
    upload_again id branch dir = do
      uploaded ← repo_upload tools branch dir
      let again = find_change_id tools id >>= save_found (return false)
      if uploaded then again else return false

    then_again :
        (id : String) (done : Bool) (m : Machine)
        → During config step start now m
        → Entry m
        → Goes (
            (if done then (find_change_id tools id >>= save_found (return false)) else return false)
              m)
    then_again id true m d e = asked id (return false) m d e d
    then_again id false m d e = d

    again_at :
        (id branch dir : String) (m : Machine)
        → During config step start now m
        → Entry m
        → Goes (upload_again id branch dir m)
    unfolding repo_upload run_process
    again_at id branch dir m d e = then_again id _ _ (During-moved config step start now _ m d) e

    upload_at :
        (change_id branch dir : Option String) (m : Machine)
        → (is_some branch && (is_some dir && is_some change_id)) ≡ true
        → During config step start now m
        → Entry m
        → Goes (
            (field change_id >>= λ id.
            find_change_id tools id
            >>= save_found (field branch >>= λ b. field dir >>= λ d. upload_again id b d))
              m)
    upload_at none (some branch) (some dir) m g d e = cc
    upload_at (some id) none dir m g d e = cc
    upload_at (some id) (some branch) none m g d e = cc
    upload_at none none dir m g d e = cc
    upload_at none (some branch) none m g d e = cc
    upload_at (some id) (some branch) (some dir) m g d e =
        asked id (upload_again id branch dir) m d e (again_at id branch dir m d e)

    pub uploaded :
        (m : Machine)
        → During config step start now m
        → Entry m
        → Goes (upload_commit tools key commit m)
    unfolding upload_commit
    uploaded m d e = upload_at commit.change_id commit.branch_name commit.dir m e.1 d e

  known_or :
      (commit : CommitData) (act : Action Bool) (m : Machine)
      → dict_get key m.status.commits ≡ some commit
      → During config step start now m
      → Goes (act m)
      → Goes ((if is_uploaded commit then return true else act) m)
  known_or commit act m there d g = elim (Bool-cases (is_uploaded commit)) [
    | inl h ↦ rw h (record {
      status_at = record {
        same_config = d.status_at.same_config;
        same_step = d.status_at.same_step;
        holds =
            Holds-already now key m.status.commits
              (subst (λ o. passes is_uploaded o ≡ true) (sym there) h) d.status_at.holds;
      };
      file_at = d.file_at;
    })
    | inr h ↦ rw h g
  ]

  -- The body of a loop, and what comes behind it.
  pub one_commit :
      (act : CommitData → Action Bool) (rest : Bool → Action Bool) (Done : Bool → Machine → Type 0)
      (m : Machine)
      → str_elem key now.git ≡ true
      → During config step start now m
      → ((commit : CommitData)
          → dict_get key m.status.commits ≡ some commit
          → has_git commit ≡ true
          → Goes (act commit m))
      → ((m' : Machine) → Went true m' → Ensures (FileAt config step start) Done (rest true m'))
      → ((m' : Machine) → Went false m' → Ensures (FileAt config step start) Done (rest false m'))
      → Ensures (FileAt config step start) Done (
          (get_commit key >>= λ commit.
          (if is_uploaded commit then return true else act commit) >>= rest)
            m)
  one_commit act rest Done m known d acts done others =
      let (commit, there, git) =
        entry_of has_git key m.status.commits (d.status_at.holds.git_known key known) in
      from_entry (FileAt config step start) Done (dict_get key m.status.commits) commit
        (λ c. (if is_uploaded c then return true else act c) >>= rest) m there
        (Ensures-bind (FileAt config step start) Went Done
          (if is_uploaded commit then return true else act commit) rest m
          (known_or commit (act commit) m there d (acts commit there git))
          (λ b m'.
            elim b as (λ b. Went b m' → Ensures (FileAt config step start) Done (rest b m')) [
              | true ↦ done m'
              | false ↦ others m'
            ]))
