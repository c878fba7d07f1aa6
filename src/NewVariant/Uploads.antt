-- ===== src/NewVariant/Uploads.antt =====
-- The steps of contrib/variant/new_variant.py that push and upload the commits of a list.
use cros_dev_util.Base.{
  String, Bool, true, false, List, [], ◌∷◌, ◌≡◌, refl, sym, ap, subst, arith, if◌then◌else◌,
}
use cros_dev_util.NewVariant.State.{BoardModule, Machine, return}
use cros_dev_util.NewVariant.Build.{Tools}
use cros_dev_util.NewVariant.Upload.{
  push_commit, push_commits, push_coreboot, upload_commit, upload_commits, upload_cls,
}
use cros_dev_util.NewVariant.Typing.{Context, with_cl, add_cls, all_in}
use cros_dev_util.NewVariant.Commits.{Commits, Holds, Holds-fewer}
use cros_dev_util.NewVariant.Contracts.{FileAt, Ensures, Ensures-weaken, During, Ended}
use cros_dev_util.NewVariant.Uploading.{pushed, uploaded, one_commit}

-- The loops over the commits of a list.
module _ (tools : Tools) (config : BoardModule) (step : String) (start : Context) where
  pub upload_commits-Ended :
      (keys : List String) (now : Context) (m : Machine)
      → ((d : Commits) → Holds now d → Holds start d)
      → all_in keys now.git ≡ true
      → During config step start now m
      → Ensures
          (FileAt config step start)
          (Ended config step start (add_cls keys now))
          (upload_commits tools keys m)
  unfolding upload_commits
  upload_commits-Ended [] now m back known d = d
  upload_commits-Ended (key ∷ keys) now m back known d =
      one_commit tools config step start now key (upload_commit tools key)
        (λ b. if b then upload_commits tools keys else return false)
        (Ended config step start (add_cls keys (with_cl key now))) m (ground (arith, known)) d
        (λ commit there git. uploaded tools config step start now key back commit m d (there, git))
        (λ m' d'.
          upload_commits-Ended keys (with_cl key now) m' (λ d h. back d (Holds-fewer key now d h))
            (ground (arith, known)) d')
        (λ m' d'. d'.file_at)

  -- Where every commit of repo_upload_list is on record, upload_CLs raises no KeyError. On True each
  -- of them has a CL in status.commits, and however it ends the yaml file is one from which the step
  -- can be begun again.
  pub upload_cls-Ended :
      (m : Machine)
      → all_in config.repo_upload_list start.git ≡ true
      → During config step start start m
      → Ensures
          (FileAt config step start)
          (Ended config step start (add_cls config.repo_upload_list start))
          (upload_cls tools m)
  unfolding upload_cls
  upload_cls-Ended m known d =
      subst
        (λ keys.
          Ensures (FileAt config step start)
            (Ended config step start (add_cls config.repo_upload_list start))
            (upload_commits tools keys m))
        (sym (ap (λ c. c.repo_upload_list) d.status_at.same_config))
        (upload_commits-Ended config.repo_upload_list start m (λ d h. h) known d)

  -- Where a commit has no CL, the loop goes on, and the step returns False.
  push_rest-Ended :
      (keys : List String) (now : Context) (m : Machine)
      → ((d : Commits) → Holds now d → Holds start d)
      → all_in keys now.git ≡ true
      → During config step start now m
      → Ensures
          (FileAt config step start)
          (λ b m'. (b ≡ false) × FileAt config step start m')
          (push_commits tools keys false m)
  unfolding push_commits
  push_rest-Ended [] now m back known d = (refl, d.file_at)
  push_rest-Ended (key ∷ keys) now m back known d =
      one_commit tools config step start now key (push_commit tools key)
        (λ _. push_commits tools keys false) (λ b m'. (b ≡ false) × FileAt config step start m') m
        (ground (arith, known)) d
        (λ commit there git. pushed tools config step start now key back commit m d (there, git))
        (λ m' d'.
          push_rest-Ended keys (with_cl key now) m' (λ d h. back d (Holds-fewer key now d h))
            (ground (arith, known)) d')
        (λ m' d'. push_rest-Ended keys now m' back (ground (arith, known)) d')

  pub push_commits-Ended :
      (keys : List String) (now : Context) (m : Machine)
      → ((d : Commits) → Holds now d → Holds start d)
      → all_in keys now.git ≡ true
      → During config step start now m
      → Ensures
          (FileAt config step start)
          (Ended config step start (add_cls keys now))
          (push_commits tools keys true m)
  unfolding push_commits
  push_commits-Ended [] now m back known d = d
  push_commits-Ended (key ∷ keys) now m back known d =
      one_commit tools config step start now key (push_commit tools key) (push_commits tools keys)
        (Ended config step start (add_cls keys (with_cl key now))) m (ground (arith, known)) d
        (λ commit there git. pushed tools config step start now key back commit m d (there, git))
        (λ m' d'.
          push_commits-Ended keys (with_cl key now) m' (λ d h. back d (Holds-fewer key now d h))
            (ground (arith, known)) d')
        (λ m' d'.
          Ensures-weaken (FileAt config step start) (FileAt config step start) _ _
            (push_commits tools keys false m') (λ _ f. f) is_false
            (push_rest-Ended keys now m' back (ground (arith, known)) d'))
    where
      is_false :
          (b : Bool) (m' : Machine)
          → (b ≡ false) × FileAt config step start m'
          → Ended config step start (add_cls keys (with_cl key now)) b m'
      is_false true m' h = cc h.0
      is_false false m' h = h.1

  -- Where every commit of coreboot_push_list is on record, push_coreboot raises no KeyError. On True
  -- each of them has a CL in status.commits, and however it ends the yaml file is one from which the
  -- step can be begun again.
  pub push_coreboot-Ended :
      (m : Machine)
      → all_in config.coreboot_push_list start.git ≡ true
      → During config step start start m
      → Ensures
          (FileAt config step start)
          (Ended config step start (add_cls config.coreboot_push_list start))
          (push_coreboot tools m)
  unfolding push_coreboot
  push_coreboot-Ended m known d =
      subst
        (λ keys.
          Ensures (FileAt config step start)
            (Ended config step start (add_cls config.coreboot_push_list start))
            (push_commits tools keys true m))
        (sym (ap (λ c. c.coreboot_push_list) d.status_at.same_config))
        (push_commits-Ended config.coreboot_push_list start m (λ d h. h) known d)
