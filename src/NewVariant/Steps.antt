-- ===== src/NewVariant/Steps.antt =====
-- The table of the steps of contrib/variant/new_variant.py against the check of the steps.
use cros_dev_util.Base.{
  String, Bool, true, false, ◌&&◌, not, Option, none, some, List, [], ◌∷◌, ◌≡◌, refl, sym, ◌∙◌,
  subst, inl, inr, arith, if◌then◌else◌, Bool-cases, Result, system_exit, str_elem, str_eq, eq_iff,
  dict_get, All,
}
use cros_dev_util.NewVariant.State.{
  BoardModule, Machine, Action, ◌>>=◌, ◌>>◌, found, log_event, began,
}
use cros_dev_util.NewVariant.Build.{Tools}
use cros_dev_util.NewVariant.Scripts.{
  project_config, fw_build_config, create_coreboot_variant, create_coreboot_config,
  copy_cras_config, add_fitimage, gen_fit_image_outside_chroot, commit_fitimage,
  create_initial_ec_image, ec_buildall, add_variant_to_public_yaml, add_variant_to_private_yaml,
  build_config, emerge_all,
}
use cros_dev_util.NewVariant.Upload.{push_coreboot, upload_cls, find_coreboot_upstream}
use cros_dev_util.NewVariant.Depend.{calc_cq_depend, add_cq_depend, re_upload}
use cros_dev_util.NewVariant.Run.{step_table, perform_step}
use cros_dev_util.NewVariant.Typing.{
  Context, no_commits, with_git, with_cl, add_git, add_cls, all_in, depends_known, context_after,
}
use cros_dev_util.NewVariant.Contracts.{
  FileAt, Ensures, During, During-moved, Ended, Keeps, Keeps-Ended,
}
use cros_dev_util.NewVariant.Quiet.{
  project_config-Keeps, gen_fit_image_outside_chroot-Keeps, commit_fitimage-Keeps,
  ec_buildall-Keeps, build_config-Keeps, emerge_all-Keeps,
}
use cros_dev_util.NewVariant.Recording.{
  fw_build_config-Records, create_coreboot_variant-Records, create_coreboot_config-Records,
  copy_cras_config-Records, add_fitimage-Records, create_initial_ec_image-Records,
  add_variant_to_public_yaml-Records, add_variant_to_private_yaml-Records,
}
use cros_dev_util.NewVariant.Uploads.{upload_cls-Ended, push_coreboot-Ended}
use cros_dev_util.NewVariant.Depends.{calc_cq_depend-Ended, find_coreboot_upstream-Finds}
use cros_dev_util.NewVariant.Amends.{add_cq_depend-Stays, re_upload-Stays}

passed {ℓ} : {A : Type ℓ} {x y : A} → some x ≡ some y → x ≡ y
passed e = cc e

if_new :
    {x y : Context} (known : Bool)
    → (if known then none else some x) ≡ some y
    → (known ≡ false) × (x ≡ y)
if_new true e = cc e
if_new false e = (refl, passed e)

if_known :
    {x y : Context} (known : Bool)
    → (if known then some x else none) ≡ some y
    → (known ≡ true) × (x ≡ y)
if_known true e = (refl, passed e)
if_known false e = cc e

module _ (tools : Tools) (config : BoardModule) where
  -- What the step does, where the check lets it pass.
  abbrev Typed : String × Action Bool → Type 0
  Typed (step, action) =
      (c c' : Context) (m : Machine)
      → context_after config step c ≡ some c'
      → During config step c c m
      → Ensures (FileAt config step c) (Ended config step c c') (action m)

  -- The context behind a step, where the check lets it pass.
  at_context :
      (step : String) (c after c' : Context) (r : Result Bool × Machine)
      → after ≡ c'
      → Ensures (FileAt config step c) (Ended config step c after) r
      → Ensures (FileAt config step c) (Ended config step c c') r
  at_context step c after c' r e h =
      subst (λ x. Ensures (FileAt config step c) (Ended config step c x) r) e h

  quiet-Typed :
      (step : String) (action : Action Bool)
      → ((m : Machine) → Keeps m (action m))
      → ((c : Context) → context_after config step c ≡ some c)
      → Typed (step, action)
  quiet-Typed step action keeps passes c c' m e d =
      at_context step c c c' (action m) (passed (sym (passes c) ∙ e))
        (Keeps-Ended config step c c m (action m) d (keeps m))

  recording-Typed :
      (step key : String) (action : Action Bool)
      → ((c : Context) (m : Machine)
          → During config step c c m
          → str_elem key c.cls ≡ false
          → Ensures (FileAt config step c) (Ended config step c (with_git key c)) (action m))
      → ((c : Context) → context_after config step c ≡ add_git key c)
      → Typed (step, action)
  recording-Typed step key action records passes c c' m e d =
      let (new, same) = if_new (str_elem key c.cls) (sym (passes c) ∙ e) in
      at_context step c (with_git key c) c' (action m) same (records c m d new)

  checked-Typed :
      (step : String) (action : Action Bool) (test : Context → Bool) (after : Context → Context)
      → ((c : Context) (m : Machine)
          → During config step c c m
          → test c ≡ true
          → Ensures (FileAt config step c) (Ended config step c (after c)) (action m))
      → ((c : Context) → context_after config step c ≡ (if test c then some (after c) else none))
      → Typed (step, action)
  checked-Typed step action test after records passes c c' m e d =
      let (known, same) = if_known (test c) (sym (passes c) ∙ e) in
      at_context step c (after c) c' (action m) same (records c m d known)

  step_table-Typed : All Typed (step_table tools)
  unfolding step_table context_after
  step_table-Typed = (
    quiet-Typed "project_config" (project_config tools) (project_config-Keeps tools) (λ c. refl),
    (
      recording-Typed "fw_build_config" "fw_build_config" (fw_build_config tools)
          (λ c m d new. fw_build_config-Records tools config "fw_build_config" c c m d new)
          (λ c. refl),
      (
        recording-Typed "cb_variant" "cb_variant" (create_coreboot_variant tools)
            (λ c m d new. create_coreboot_variant-Records tools config "cb_variant" c c m d new)
            (λ c. refl),
        (
          recording-Typed "cb_config" "cb_config" (create_coreboot_config tools)
              (λ c m d new. create_coreboot_config-Records tools config "cb_config" c c m d new)
              (λ c. refl),
          (
            recording-Typed "cras_config" "cras_config" (copy_cras_config tools)
                (λ c m d new. copy_cras_config-Records tools config "cras_config" c c m d new)
                (λ c. refl),
            (
              recording-Typed "add_fit" "commit_fit" (add_fitimage tools)
                  (λ c m d new. add_fitimage-Records tools config "add_fit" c c m d new)
                  (λ c. refl),
              (
                quiet-Typed "gen_fit" (gen_fit_image_outside_chroot tools)
                    (gen_fit_image_outside_chroot-Keeps tools) (λ c. refl),
                (
                  quiet-Typed "commit_fit" (commit_fitimage tools) (commit_fitimage-Keeps tools)
                      (λ c. refl),
                  (
                    recording-Typed "ec_image" "ec_image" (create_initial_ec_image tools)
                        (λ c m d new.
                          create_initial_ec_image-Records tools config "ec_image" c c m d new)
                        (λ c. refl),
                    (
                      quiet-Typed "ec_buildall" (ec_buildall tools) (ec_buildall-Keeps tools)
                          (λ c. refl),
                      (
                        recording-Typed "add_pub_yaml" "add_pub_yaml"
                            (add_variant_to_public_yaml tools)
                            (λ c m d new.
                              add_variant_to_public_yaml-Records tools config "add_pub_yaml" c c m d
                                new)
                            (λ c. refl),
                        (
                          recording-Typed "add_priv_yaml" "add_priv_yaml"
                              (add_variant_to_private_yaml tools)
                              (λ c m d new.
                                add_variant_to_private_yaml-Records tools config "add_priv_yaml" c c
                                  m d new)
                              (λ c. refl),
                          (
                            quiet-Typed "build_config" (build_config tools)
                                (build_config-Keeps tools) (λ c. refl),
                            (
                              quiet-Typed "emerge" (emerge_all tools) (emerge_all-Keeps tools)
                                  (λ c. refl),
                              (
                                checked-Typed "push" (push_coreboot tools)
                                    (λ c. all_in config.coreboot_push_list c.git)
                                    (add_cls config.coreboot_push_list)
                                    (λ c m d known.
                                      push_coreboot-Ended tools config "push" c m known d)
                                    (λ c. refl),
                                (
                                  checked-Typed "upload" (upload_cls tools)
                                      (λ c. all_in config.repo_upload_list c.git)
                                      (add_cls config.repo_upload_list)
                                      (λ c m d known.
                                        upload_cls-Ended tools config "upload" c m known d)
                                      (λ c. refl),
                                  (
                                    checked-Typed "find" (find_coreboot_upstream tools)
                                        (λ c.
                                          str_elem "cb_variant" c.git
                                          && (str_elem "cb_variant" c.cls
                                              && not (str_elem "find" c.git)))
                                        (with_cl "find")
                                        (λ c m d known.
                                          find_coreboot_upstream-Finds tools config "find" c m
                                            (ground (arith, known)) d (ground (arith, known)))
                                        (λ c. refl),
                                    (
                                      checked-Typed "calc_cq_depend" calc_cq_depend
                                          (depends_known config.depends) (λ c. c)
                                          (λ c m d known.
                                            calc_cq_depend-Ended config "calc_cq_depend" c c m known
                                              d)
                                          (λ c. refl),
                                      (
                                        (λ c c' m e d.
                                            at_context "add_cq_depend" c no_commits c'
                                              (add_cq_depend tools m) (passed e)
                                              (add_cq_depend-Stays tools config "add_cq_depend" c c
                                                m d)),
                                        (
                                          (λ c c' m e d.
                                              at_context "re_upload" c no_commits c'
                                                (re_upload tools m) (passed e)
                                                (re_upload-Stays tools config "re_upload" c c m d)),
                                          ((λ c c' m e d. cc e), ((λ c c' m e d. cc e), tt)),
                                        ),
                                      ),
                                    ),
                                  ),
                                ),
                              ),
                            ),
                          ),
                        ),
                      ),
                    ),
                  ),
                ),
              ),
            ),
          ),
        ),
      ),
    ),
  )

  lookup_step :
      (table : List (String × Action Bool)) (step : String) (action : Action Bool)
      → All Typed table
      → dict_get step table ≡ some action
      → Typed (step, action)
  unfolding dict_get
  lookup_step [] step action all e = cc e
  lookup_step ((s, a) ∷ table) step action (t, all) e = elim (Bool-cases (str_eq s step)) [
    | inl same ↦
        subst (λ x. Typed (x, action)) ((eq_iff s step).0 same)
          (subst (λ y. Typed (s, y)) (passed (rw (dict_get, same) at e)) t)
    | inr other ↦ lookup_step table step action all (rw (dict_get, other) at e)
  ]

  -- A step that the check lets pass, with its line in the log.
  pub perform_step-Ended :
      (step : String) (c c' : Context) (m : Machine)
      → context_after config step c ≡ some c'
      → During config step c c m
      → Ensures (FileAt config step c) (Ended config step c c') (perform_step tools step m)
  unfolding perform_step
  perform_step-Ended step c c' m e d = performed (dict_get step (step_table tools)) refl
    where
      performed :
          (o : Option (Action Bool))
          → dict_get step (step_table tools) ≡ o
          → Ensures
              (FileAt config step c)
              (Ended config step c c')
              ((found system_exit o >>= λ action. log_event (began step) >> action) m)
      performed none same = d.file_at
      performed (some action) same =
          lookup_step (step_table tools) step action step_table-Typed same c c' _ e
            (During-moved config step c c (began step) m d)
