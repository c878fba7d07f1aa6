-- ===== src/NewVariant/Scripts.antt =====
-- The steps of contrib/variant/new_variant.py that run scripts and builds.
use cros_dev_util.Base.{
  String, Bool, true, not, Option, none, some, List, [], ◌∷◌, is_empty, str_eq, if◌then◌else◌,
  filter_by,
}
use cros_dev_util.NewVariant.State.{Action, ◌>>=◌, return, str_concat, path_join}
use cros_dev_util.NewVariant.Build.{
  Tools, src_dir, required, run_process, run_and_record, emerge_with_workon, is_file, names_variant,
  if_ok,
}

module _ (tools : Tools) where
  -- project_config: each RuntimeError that it raises ends in False.
  unfoldable pub project_config : Action Bool
  unfolding emerge_with_workon
  project_config m =
      let config = m.status.config in
      let json =
        path_join "/build"
          (path_join config.base "usr/share/chromeos-config/yaml/project-config.json") in
      if_ok tools
        (emerge_with_workon tools config.config_workon_pkgs config.emerge_cmd
          config.config_emerge_pkgs [])
        (if_ok tools (is_file tools json) (names_variant tools json)) m

  unfoldable pub fw_build_config : Action Bool
  unfolding run_and_record
  fw_build_config m =
      let s = m.status in
      run_and_record tools "fw_build_config"
        (path_join "/mnt/host/source/src/project" (path_join s.config.base s.variant))
        (path_join s.my_loc "fw_build_config.sh" ∷ s.config.base ∷ s.variant ∷ s.bug ∷ []) [] m

  unfoldable pub create_coreboot_variant : Action Bool
  unfolding run_and_record
  create_coreboot_variant m =
      let s = m.status in
      let cb_src_dir = path_join "/mnt/host/source/src/" s.config.coreboot_dir in
      run_and_record tools "cb_variant" cb_src_dir
        (path_join s.my_loc "create_coreboot_variant.sh"
          ∷ s.coreboot_base
          ∷ s.coreboot_reference
          ∷ s.variant
          ∷ s.bug
          ∷ [])
        (("CB_SRC_DIR", cb_src_dir) ∷ ("NEW_VARIANT_BRANCH", s.branch) ∷ []) m

  -- `status.cb_config_dir or 'third_party/chromiumos-overlay'`, and the variable for the script.
  abbrev config_dir_or : Option String → String
  config_dir_or none = "third_party/chromiumos-overlay"
  config_dir_or (some d) = if str_eq d "" then "third_party/chromiumos-overlay" else d

  abbrev config_environ : Option String → List (String × String)
  config_environ none = []
  config_environ (some d) = ("CB_CONFIG_DIR", d) ∷ []

  unfoldable pub create_coreboot_config : Action Bool
  unfolding run_and_record
  create_coreboot_config m =
      let s = m.status in
      run_and_record tools "cb_config"
        (path_join "/mnt/host/source/src/" (config_dir_or s.config.cb_config_dir))
        (path_join s.my_loc "create_coreboot_config.sh"
          ∷ s.config.base
          ∷ s.coreboot_reference
          ∷ s.variant
          ∷ s.bug
          ∷ [])
        (config_environ s.config.cb_config_dir) m

  unfoldable pub copy_cras_config : Action Bool
  unfolding run_and_record
  copy_cras_config m =
      let s = m.status in
      run_and_record tools "cras_config" "/mnt/host/source/src/overlays"
        (path_join s.my_loc "copy_cras_config.sh"
          ∷ s.config.base
          ∷ s.board
          ∷ s.variant
          ∷ s.bug
          ∷ [])
        [] m

  unfoldable pub add_fitimage : Action Bool
  unfolding run_and_record
  add_fitimage m =
      let s = m.status in
      (do
        fitimage_dir ← required s.config.fitimage_dir
        run_and_record tools "commit_fit" (path_join src_dir fitimage_dir)
            (tools.expanduser (path_join src_dir (path_join fitimage_dir "files/add_fitimage.sh"))
              ∷ s.variant
              ∷ s.bug
              ∷ [])
            [])
        m

  -- check_fit_image_files: the files that are missing.
  unfoldable pub check_fit_image_files : Action (List String)
  check_fit_image_files m =
      let s = m.status in
      (do
        fitimage_dir ← required s.config.fitimage_dir
        fitimage_outputs_dir ← required s.config.fitimage_outputs_dir
        let outputs_dir = path_join src_dir (path_join fitimage_dir fitimage_outputs_dir)
        let bin = str_concat ("fitimage-" ∷ s.variant ∷ ".bin" ∷ [])
        let text = str_concat ("fitimage-" ∷ s.variant ∷ "-versions.txt" ∷ [])
        return (
            filter_by (λ name. not (tools.is_file m.events (path_join outputs_dir name)))
              (bin ∷ text ∷ [])))
        m

  unfoldable pub gen_fit_image_outside_chroot : Action Bool
  unfolding check_fit_image_files
  gen_fit_image_outside_chroot = do missing ← check_fit_image_files; return (is_empty missing)

  unfoldable pub commit_fitimage : Action Bool
  unfolding run_process
  commit_fitimage m =
      (do
        fitimage_dir ← required m.status.config.fitimage_dir
        run_process tools
            (tools.expanduser
                (path_join src_dir (path_join fitimage_dir "files/commit_fitimage.sh"))
              ∷ m.status.variant
              ∷ [])
            none [])
        m

  unfoldable pub create_initial_ec_image : Action Bool
  unfolding run_and_record
  create_initial_ec_image m =
      let s = m.status in
      if_ok tools
        (run_and_record tools "ec_image" "/mnt/host/source/src/platform/ec/board"
          (path_join s.my_loc "create_initial_ec_image.sh" ∷ s.board ∷ s.variant ∷ s.bug ∷ [])
          (("NEW_VARIANT_BRANCH", s.branch) ∷ []))
        (is_file tools (
          path_join "/mnt/host/source/src/platform/ec"
            (path_join "build" (path_join s.variant "ec.bin"))))
        m

  unfoldable pub ec_buildall : Action Bool
  ec_buildall = return true

  unfoldable pub add_variant_to_public_yaml : Action Bool
  unfolding run_and_record
  add_variant_to_public_yaml m =
      let s = m.status in
      run_and_record tools "add_pub_yaml" "/mnt/host/source/src/overlays"
        (path_join s.my_loc "add_variant_to_yaml.sh" ∷ s.config.base ∷ s.variant ∷ s.bug ∷ []) [] m

  unfoldable pub add_variant_to_private_yaml : Action Bool
  unfolding run_and_record
  add_variant_to_private_yaml m =
      let s = m.status in
      (do
        yaml_dir ← required s.config.private_yaml_dir
        run_and_record tools "add_priv_yaml" yaml_dir
            (tools.expanduser (path_join yaml_dir "add_variant.sh") ∷ s.variant ∷ s.bug ∷ []) [])
        m

  unfoldable pub build_config : Action Bool
  unfolding emerge_with_workon
  build_config m =
      let config = m.status.config in
      let yaml =
        path_join "/build" (path_join config.base "usr/share/chromeos-config/yaml/config.yaml") in
      if_ok tools
        (emerge_with_workon tools config.config_workon_pkgs config.emerge_cmd
          config.config_emerge_pkgs [])
        (if_ok tools (is_file tools yaml) (names_variant tools yaml)) m

  unfoldable pub emerge_all : Action Bool
  unfolding emerge_with_workon
  emerge_all m =
      let s = m.status in
      let build_path = str_concat ("/build/" ∷ s.config.base ∷ "/firmware" ∷ []) in
      if_ok tools
        (emerge_with_workon tools s.config.workon_pkgs s.config.emerge_cmd s.config.emerge_pkgs
          (("FW_NAME", s.variant) ∷ []))
        (if_ok tools
          (is_file tools (path_join build_path (str_concat ("image-" ∷ s.variant ∷ ".bin" ∷ []))))
          (is_file tools
            (path_join build_path (str_concat ("image-" ∷ s.variant ∷ ".serial.bin" ∷ [])))))
        m
