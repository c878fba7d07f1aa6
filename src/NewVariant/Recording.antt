-- ===== src/NewVariant/Recording.antt =====
-- The steps of contrib/variant/new_variant.py that record a git commit.
use cros_dev_util.Base.{
  String, Bool, true, false, Option, none, some, List, [], ◌∷◌, ◌≡◌, refl, sym, ◌∙◌, subst, inl,
  inr, arith, Bool-cases, Result, ok, err, key_error, system_exit, dict_set, str_eq, eq_iff,
  str_elem,
}
use cros_dev_util.NewVariant.State.{
  CommitData, BoardModule, Machine, Action, ◌>>=◌, ◌>>◌, return, found, put_commit, path_join, ran,
}
use cros_dev_util.NewVariant.Build.{
  Tools, run_and_record, record_commit, get_git_commit_data, is_file, if_ok, required, src_dir,
}
use cros_dev_util.NewVariant.Scripts.{
  fw_build_config, create_coreboot_variant, create_coreboot_config, copy_cras_config, add_fitimage,
  create_initial_ec_image, add_variant_to_public_yaml, add_variant_to_private_yaml,
}
use cros_dev_util.NewVariant.Upload.{is_uploaded}
use cros_dev_util.NewVariant.Typing.{Context, with_git}
use cros_dev_util.NewVariant.Commits.{
  Commits, Holds, has_git, tidy, AllTidy-dict_set, has_entry-dict_set,
}
use cros_dev_util.NewVariant.Contracts.{FileAt, Ensures, During, During-moved, Ended}

Holds-record :
    (now : Context) (key : String) (c : CommitData) (d : Commits)
    → str_elem key now.cls ≡ false
    → has_git c ≡ true
    → tidy c ≡ true
    → Holds now d
    → Holds (with_git key now) (dict_set key c d)
Holds-record now key c d new g t h = record {
  git_known = λ k m.
      rw (has_entry-dict_set has_git key k c d)
        (ground (arith, eq_iff k key, eq_iff key k, g, h.git_known k, m));
  cl_known = λ k m. elim (Bool-cases (str_eq key k)) [
    | inl same ↦
        cc (sym new ∙ subst (λ x. str_elem x now.cls ≡ true) (sym ((eq_iff key k).0 same)) m)
    | inr other ↦ rw (has_entry-dict_set is_uploaded key k c d, other) (h.cl_known k m)
  ];
  all_tidy = AllTidy-dict_set key c d t h.all_tidy;
}

module _ (tools : Tools) (config : BoardModule) (step : String) (start now : Context) (m : Machine)
    (d : During config step start now m) where
  abbrev Records : String → Result Bool × Machine → Type 0
  Records key r = Ensures (FileAt config step start) (Ended config step start (with_git key now)) r

  -- record_commit at what git answers.
  abbrev recording : Option String → Option String → String → String → Action Bool
  recording branch_name change_id cwd key =
      let data_of = do
        branch ← found system_exit branch_name
        change ← found system_exit change_id
        return (record {
          branch_name = some branch;
          dir = some cwd;
          change_id = some change;
          gerrit = none;
          cl_number = none;
          cq_depend = none;
          needs_re_upload = false;
        })
      in (data_of >>= put_commit key) >> return true

  recording-Records :
      (branch_name change_id : Option String) (cwd key : String)
      → str_elem key now.cls ≡ false
      → Records key (recording branch_name change_id cwd key m)
  recording-Records none change_id cwd key new = d.file_at
  recording-Records (some branch) none cwd key new = d.file_at
  recording-Records (some branch) (some change) cwd key new = record {
    status_at = record {
      same_config = d.status_at.same_config;
      same_step = d.status_at.same_step;
      holds = Holds-record now key _ m.status.commits new refl refl d.status_at.holds;
    };
    file_at = d.file_at;
  }

  record_commit-Records :
      (key path : String)
      → str_elem key now.cls ≡ false
      → Records key ((record_commit tools key path >> return true) m)
  unfolding record_commit get_git_commit_data
  record_commit-Records key path new =
      let cwd = tools.find_git_top_level (tools.expanduser path) in
      recording-Records (tools.current_branch m.events cwd) (tools.current_change_id m.events cwd)
        cwd key new

module _ (tools : Tools) (config : BoardModule) (step : String) (start now : Context) (m : Machine)
    (d : During config step start now m) where
  pub run_and_record-Records :
      (key path : String) (args : List String) (environ : List (String × String))
      → str_elem key now.cls ≡ false
      → Records tools config step start now m d key (run_and_record tools key path args environ m)
  unfolding run_and_record
  run_and_record-Records key path args environ new =
      elim (Bool-cases (tools.runs m.events args none environ)) [
        | inl h ↦ rw h (
            record_commit-Records tools config step start now
              (record m { events = ran args none environ ∷ m.events })
              (During-moved config step start now (ran args none environ) m d) key path new)
        | inr h ↦ rw h d.file_at
      ]

  abbrev Recorded : String → Action Bool → Type 0
  Recorded key action =
      str_elem key now.cls ≡ false → Records tools config step start now m d key (action m)

  pub fw_build_config-Records : Recorded "fw_build_config" (fw_build_config tools)
  unfolding fw_build_config
  fw_build_config-Records new = run_and_record-Records _ _ _ _ new

  pub create_coreboot_variant-Records : Recorded "cb_variant" (create_coreboot_variant tools)
  unfolding create_coreboot_variant
  create_coreboot_variant-Records new = run_and_record-Records _ _ _ _ new

  pub create_coreboot_config-Records : Recorded "cb_config" (create_coreboot_config tools)
  unfolding create_coreboot_config
  create_coreboot_config-Records new = run_and_record-Records _ _ _ _ new

  pub copy_cras_config-Records : Recorded "cras_config" (copy_cras_config tools)
  unfolding copy_cras_config
  copy_cras_config-Records new = run_and_record-Records _ _ _ _ new

  pub add_variant_to_public_yaml-Records :
      Recorded "add_pub_yaml" (add_variant_to_public_yaml tools)
  unfolding add_variant_to_public_yaml
  add_variant_to_public_yaml-Records new = run_and_record-Records _ _ _ _ new

  -- A script whose directory is an attribute that may be None.
  from_required :
      (key : String) (o : Option String) (path : String → String) (args : String → List String)
      → str_elem key now.cls ≡ false
      → Records tools config step start now m d key
          ((required o >>= λ dir. run_and_record tools key (path dir) (args dir) []) m)
  from_required key none path args new = d.file_at
  from_required key (some dir) path args new =
      run_and_record-Records key (path dir) (args dir) [] new

  pub add_fitimage-Records : Recorded "commit_fit" (add_fitimage tools)
  unfolding add_fitimage
  add_fitimage-Records new =
      let script : String → String =
        λ dir. tools.expanduser (path_join src_dir (path_join dir "files/add_fitimage.sh")) in
      from_required "commit_fit" m.status.config.fitimage_dir (path_join src_dir)
        (λ dir. script dir ∷ m.status.variant ∷ m.status.bug ∷ []) new

  pub add_variant_to_private_yaml-Records :
      Recorded "add_priv_yaml" (add_variant_to_private_yaml tools)
  unfolding add_variant_to_private_yaml
  add_variant_to_private_yaml-Records new =
      from_required "add_priv_yaml" m.status.config.private_yaml_dir (λ dir. dir)
        (λ dir.
          tools.expanduser (path_join dir "add_variant.sh") ∷ m.status.variant ∷ m.status.bug ∷ [])
        new

  -- The test of the EC image behind the script.
  then_file :
      (key path : String) (r : Result Bool × Machine)
      → Records tools config step start now m d key r
      → Records tools config step start now m d key (if_ok tools (λ _. r) (is_file tools path) m)
  then_file key path (ok true, m') d' = elim (Bool-cases (tools.is_file m'.events path)) [
    | inl h ↦ rw h d'
    | inr h ↦ rw h d'.file_at
  ]
  then_file key path (ok false, m') f = f
  then_file key path (err key_error, m') f = f
  then_file key path (err _, m') f = f

  pub create_initial_ec_image-Records : Recorded "ec_image" (create_initial_ec_image tools)
  unfolding create_initial_ec_image
  create_initial_ec_image-Records new =
      let s = m.status in
      let image =
        path_join "/mnt/host/source/src/platform/ec"
          (path_join "build" (path_join s.variant "ec.bin")) in
      let args =
        path_join s.my_loc "create_initial_ec_image.sh" ∷ s.board ∷ s.variant ∷ s.bug ∷ [] in
      let environ : List (String × String) = ("NEW_VARIANT_BRANCH", s.branch) ∷ [] in
      let board_dir : String = "/mnt/host/source/src/platform/ec/board" in
      then_file "ec_image" image (run_and_record tools "ec_image" board_dir args environ m)
        (run_and_record-Records "ec_image" board_dir args environ new)
