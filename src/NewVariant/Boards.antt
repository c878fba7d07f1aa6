-- ===== src/NewVariant/Boards.antt =====
-- The modules of the supported reference boards: hatch.py, puff.py, ambassador.py, trembyle.py,
-- volteer.py and waddledee.py of contrib/variant.
use cros_dev_util.Base.{String, Option, none, some, [], ◌∷◌, str_eq, if◌then◌else◌}
use cros_dev_util.NewVariant.State.{BoardModule}

abbrev pub hatch : BoardModule
hatch = record {
  base = "hatch";
  coreboot_base = none;
  coreboot_dir = "third_party/coreboot";
  coreboot_reference = none;
  cb_config_dir = none;
  emerge_cmd = "emerge-hatch";
  emerge_pkgs =
      "coreboot" ∷ "libpayload" ∷ "vboot_reference" ∷ "depthcharge" ∷ "intel-cmlfsp"
      ∷ "coreboot-private-files-hatch" ∷ "chromeos-ec" ∷ "chromeos-config-bsp-hatch-private"
      ∷ "chromeos-config" ∷ "chromeos-config-bsp" ∷ "chromeos-config-bsp-hatch"
      ∷ "coreboot-private-files" ∷ "chromeos-bootimage" ∷ [];
  fitimage_dir =
      some "private-overlays/baseboard-hatch-private/sys-boot/coreboot-private-files-hatch";
  fitimage_outputs_dir = some "asset_generation/outputs";
  fitimage_pkg = some "coreboot-private-files-hatch";
  fitimage_cmd = some "./gen_fit_image.sh %s <path_to_fit_kit> -b";
  fsp = some "intel-cmlfsp";
  private_yaml_dir =
      some
        "~/trunk/src/private-overlays/overlay-hatch-private/chromeos-base/chromeos-config-bsp-hatch-private";
  step_list =
      "cb_variant" ∷ "cb_config" ∷ "add_fit" ∷ "gen_fit" ∷ "commit_fit" ∷ "ec_image"
      ∷ "add_pub_yaml" ∷ "add_priv_yaml" ∷ "build_config" ∷ "emerge" ∷ "push" ∷ "upload" ∷ "find"
      ∷ "calc_cq_depend" ∷ "add_cq_depend" ∷ "re_upload" ∷ "clean_up" ∷ [];
  workon_pkgs =
      "coreboot" ∷ "libpayload" ∷ "vboot_reference" ∷ "depthcharge" ∷ "intel-cmlfsp"
      ∷ "coreboot-private-files-hatch" ∷ "chromeos-ec" ∷ "chromeos-config-bsp-hatch-private" ∷ [];
  config_workon_pkgs = "chromeos-config" ∷ "chromeos-config-bsp-hatch-private" ∷ [];
  config_emerge_pkgs =
      "chromeos-config-bsp" ∷ "chromeos-config" ∷ "chromeos-config-bsp-hatch"
      ∷ "chromeos-config-bsp-hatch-private" ∷ [];
  coreboot_push_list = "cb_variant" ∷ [];
  repo_upload_list =
      "cb_config" ∷ "commit_fit" ∷ "ec_image" ∷ "add_pub_yaml" ∷ "add_priv_yaml" ∷ [];
  depends =
      ("cb_config", "find" ∷ [])
      ∷ ("add_pub_yaml", "add_priv_yaml" ∷ "cb_config" ∷ "commit_fit" ∷ "ec_image" ∷ [])
      ∷ ("add_priv_yaml", "add_pub_yaml" ∷ "cb_config" ∷ "commit_fit" ∷ "ec_image" ∷ [])
      ∷ [];
}

abbrev pub puff : BoardModule
puff = record {
  base = "puff";
  coreboot_base = some "hatch";
  coreboot_dir = "third_party/coreboot";
  coreboot_reference = none;
  cb_config_dir = none;
  emerge_cmd = "emerge-puff";
  emerge_pkgs =
      "coreboot" ∷ "libpayload" ∷ "vboot_reference" ∷ "depthcharge" ∷ "intel-cmlfsp"
      ∷ "coreboot-private-files-puff" ∷ "chromeos-ec" ∷ "chromeos-config-bsp-puff-private"
      ∷ "chromeos-config" ∷ "chromeos-config-bsp" ∷ "coreboot-private-files" ∷ "chromeos-bootimage"
      ∷ [];
  fitimage_dir =
      some "private-overlays/baseboard-puff-private/sys-boot/coreboot-private-files-puff";
  fitimage_outputs_dir = some "asset_generation/outputs";
  fitimage_pkg = some "coreboot-private-files-puff";
  fitimage_cmd = some "./gen_fit_image.sh %s <path_to_fit_kit> -b";
  fsp = some "intel-cmlfsp";
  private_yaml_dir = none;
  step_list =
      "project_config" ∷ "fw_build_config" ∷ "cb_variant" ∷ "cb_config" ∷ "add_fit" ∷ "gen_fit"
      ∷ "commit_fit" ∷ "emerge" ∷ "push" ∷ "upload" ∷ "find" ∷ "calc_cq_depend" ∷ "add_cq_depend"
      ∷ "re_upload" ∷ "clean_up" ∷ [];
  workon_pkgs =
      "coreboot" ∷ "libpayload" ∷ "vboot_reference" ∷ "depthcharge" ∷ "intel-cmlfsp"
      ∷ "coreboot-private-files-puff" ∷ "chromeos-ec" ∷ "chromeos-config-bsp-puff-private" ∷ [];
  config_workon_pkgs = "chromeos-config-bsp-puff-private" ∷ [];
  config_emerge_pkgs = "chromeos-config-bsp-puff-private" ∷ [];
  coreboot_push_list = "cb_variant" ∷ [];
  repo_upload_list = "cb_config" ∷ "commit_fit" ∷ "fw_build_config" ∷ [];
  depends =
      ("cb_config", "find" ∷ [])
      ∷ ("fw_build_config", "find" ∷ "cb_config" ∷ "commit_fit" ∷ [])
      ∷ [];
}

abbrev pub ambassador : BoardModule
ambassador = record {
  base = "ambassador";
  coreboot_base = some "hatch";
  coreboot_dir = "third_party/coreboot";
  coreboot_reference = some "puff";
  cb_config_dir = none;
  emerge_cmd = "emerge-ambassador";
  emerge_pkgs =
      "coreboot" ∷ "libpayload" ∷ "vboot_reference" ∷ "depthcharge" ∷ "intel-cmlfsp"
      ∷ "coreboot-private-files-puff" ∷ "chromeos-ec" ∷ "chromeos-config-bsp-ambassador-private"
      ∷ "chromeos-config" ∷ "chromeos-config-bsp" ∷ "coreboot-private-files" ∷ "chromeos-bootimage"
      ∷ [];
  fitimage_dir =
      some "private-overlays/baseboard-puff-private/sys-boot/coreboot-private-files-puff";
  fitimage_outputs_dir = some "asset_generation/outputs";
  fitimage_pkg = some "coreboot-private-files-puff";
  fitimage_cmd = some "./gen_fit_image.sh %s <path_to_fit_kit> -b";
  fsp = some "intel-cmlfsp";
  private_yaml_dir = none;
  step_list =
      "project_config" ∷ "fw_build_config" ∷ "cb_variant" ∷ "cb_config" ∷ "add_fit" ∷ "gen_fit"
      ∷ "commit_fit" ∷ "emerge" ∷ "push" ∷ "upload" ∷ "find" ∷ "calc_cq_depend" ∷ "add_cq_depend"
      ∷ "re_upload" ∷ "clean_up" ∷ [];
  workon_pkgs =
      "coreboot" ∷ "libpayload" ∷ "vboot_reference" ∷ "depthcharge" ∷ "intel-cmlfsp"
      ∷ "coreboot-private-files-puff" ∷ "chromeos-ec" ∷ "chromeos-config-bsp-ambassador-private"
      ∷ [];
  config_workon_pkgs = "chromeos-config-bsp-ambassador-private" ∷ [];
  config_emerge_pkgs = "chromeos-config-bsp-ambassador-private" ∷ [];
  coreboot_push_list = "cb_variant" ∷ [];
  repo_upload_list = "cb_config" ∷ "commit_fit" ∷ "fw_build_config" ∷ [];
  depends =
      ("cb_config", "find" ∷ [])
      ∷ ("fw_build_config", "find" ∷ "cb_config" ∷ "commit_fit" ∷ [])
      ∷ [];
}

abbrev pub trembyle : BoardModule
trembyle = record {
  base = "zork";
  coreboot_base = none;
  coreboot_dir = "third_party/coreboot";
  coreboot_reference = none;
  cb_config_dir = none;
  emerge_cmd = "emerge-zork";
  emerge_pkgs =
      "coreboot" ∷ "vboot_reference" ∷ "chromeos-ec" ∷ "chromeos-config-bsp-zork-private"
      ∷ "chromeos-config" ∷ "chromeos-config-bsp" ∷ "coreboot-private-files" ∷ "chromeos-bootimage"
      ∷ [];
  fitimage_dir = none;
  fitimage_outputs_dir = none;
  fitimage_pkg = none;
  fitimage_cmd = none;
  fsp = none;
  private_yaml_dir = none;
  step_list =
      "project_config" ∷ "fw_build_config" ∷ "cb_variant" ∷ "cb_config" ∷ "cras_config" ∷ "ec_image"
      ∷ "emerge" ∷ "push" ∷ "find" ∷ "upload" ∷ "calc_cq_depend" ∷ "add_cq_depend" ∷ "re_upload"
      ∷ "clean_up" ∷ [];
  workon_pkgs = "coreboot" ∷ "chromeos-ec" ∷ "chromeos-config-bsp-zork-private" ∷ [];
  config_workon_pkgs = "chromeos-config" ∷ "chromeos-config-bsp-zork-private" ∷ [];
  config_emerge_pkgs =
      "chromeos-config-bsp" ∷ "chromeos-config" ∷ "chromeos-config-bsp-zork-private" ∷ [];
  coreboot_push_list = "cb_variant" ∷ [];
  repo_upload_list = "cb_config" ∷ "cras_config" ∷ "ec_image" ∷ "fw_build_config" ∷ [];
  depends =
      ("cb_config", "find" ∷ [])
      ∷ ("fw_build_config", "find" ∷ "cb_config" ∷ "cras_config" ∷ "ec_image" ∷ "commit_fit" ∷ [])
      ∷ [];
}

abbrev pub volteer : BoardModule
volteer = record {
  base = "volteer";
  coreboot_base = none;
  coreboot_dir = "third_party/coreboot";
  coreboot_reference = none;
  cb_config_dir = none;
  emerge_cmd = "emerge-volteer";
  emerge_pkgs =
      "coreboot" ∷ "libpayload" ∷ "vboot_reference" ∷ "depthcharge" ∷ "intel-tglfsp"
      ∷ "coreboot-private-files-baseboard-volteer" ∷ "chromeos-ec"
      ∷ "chromeos-config-bsp-volteer-private" ∷ "chromeos-config" ∷ "chromeos-config-bsp"
      ∷ "coreboot-private-files" ∷ "chromeos-bootimage" ∷ [];
  fitimage_dir =
      some
        "private-overlays/baseboard-volteer-private/sys-boot/coreboot-private-files-baseboard-volteer";
  fitimage_outputs_dir = some "asset_generation/outputs";
  fitimage_pkg = some "coreboot-private-files-baseboard-volteer";
  fitimage_cmd = some "./gen_fit_image.sh %s <path_to_fit_kit> -b";
  fsp = some "intel-tglfsp";
  private_yaml_dir = none;
  step_list =
      "project_config" ∷ "fw_build_config" ∷ "cb_variant" ∷ "cb_config" ∷ "add_fit" ∷ "gen_fit"
      ∷ "commit_fit" ∷ "ec_image" ∷ "emerge" ∷ "push" ∷ "upload" ∷ "find" ∷ "calc_cq_depend"
      ∷ "add_cq_depend" ∷ "re_upload" ∷ "clean_up" ∷ [];
  workon_pkgs =
      "coreboot" ∷ "libpayload" ∷ "vboot_reference" ∷ "depthcharge" ∷ "intel-tglfsp"
      ∷ "coreboot-private-files-baseboard-volteer" ∷ "chromeos-ec"
      ∷ "chromeos-config-bsp-volteer-private" ∷ [];
  config_workon_pkgs = "chromeos-config-bsp-volteer-private" ∷ [];
  config_emerge_pkgs = "chromeos-config-bsp-volteer-private" ∷ [];
  coreboot_push_list = "cb_variant" ∷ [];
  repo_upload_list = "cb_config" ∷ "commit_fit" ∷ "ec_image" ∷ "fw_build_config" ∷ [];
  depends =
      ("cb_config", "find" ∷ [])
      ∷ ("fw_build_config", "find" ∷ "cb_config" ∷ "commit_fit" ∷ "ec_image" ∷ [])
      ∷ [];
}

abbrev pub waddledee : BoardModule
waddledee = record {
  base = "dedede";
  coreboot_base = none;
  coreboot_dir = "third_party/coreboot";
  coreboot_reference = none;
  cb_config_dir = none;
  emerge_cmd = "emerge-dedede";
  emerge_pkgs =
      "coreboot" ∷ "libpayload" ∷ "vboot_reference" ∷ "depthcharge" ∷ "intel-jslfsp"
      ∷ "coreboot-private-files-baseboard-dedede" ∷ "chromeos-ec"
      ∷ "chromeos-config-bsp-dedede-private" ∷ "chromeos-config" ∷ "chromeos-config-bsp"
      ∷ "coreboot-private-files" ∷ "chromeos-bootimage" ∷ [];
  fitimage_dir =
      some
        "private-overlays/baseboard-dedede-private/sys-boot/coreboot-private-files-baseboard-dedede";
  fitimage_outputs_dir = some "files/blobs";
  fitimage_pkg = some "coreboot-private-files-baseboard-dedede";
  fitimage_cmd = some "./gen_fit_image.sh %s <path_to_fit_kit> -b";
  fsp = some "intel-jslfsp";
  private_yaml_dir = none;
  step_list =
      "project_config" ∷ "fw_build_config" ∷ "cb_variant" ∷ "cb_config" ∷ "add_fit" ∷ "gen_fit"
      ∷ "commit_fit" ∷ "ec_image" ∷ "emerge" ∷ "push" ∷ "upload" ∷ "find" ∷ "calc_cq_depend"
      ∷ "add_cq_depend" ∷ "re_upload" ∷ "clean_up" ∷ [];
  workon_pkgs =
      "coreboot" ∷ "libpayload" ∷ "vboot_reference" ∷ "depthcharge" ∷ "intel-jslfsp"
      ∷ "coreboot-private-files-baseboard-dedede" ∷ "chromeos-ec"
      ∷ "chromeos-config-bsp-dedede-private" ∷ [];
  config_workon_pkgs = "chromeos-config-bsp-dedede-private" ∷ [];
  config_emerge_pkgs = "chromeos-config-bsp-dedede-private" ∷ [];
  coreboot_push_list = "cb_variant" ∷ [];
  repo_upload_list = "cb_config" ∷ "commit_fit" ∷ "ec_image" ∷ "fw_build_config" ∷ [];
  depends =
      ("cb_config", "find" ∷ [])
      ∷ ("fw_build_config", "find" ∷ "cb_config" ∷ "commit_fit" ∷ "ec_image" ∷ [])
      ∷ [];
}

-- importlib.import_module on these modules; `none` is an ImportError.
unfoldable pub import_board : String → Option BoardModule
import_board name =
    if str_eq name "hatch"
    then some hatch
    else if str_eq name "puff"
    then some puff
    else if str_eq name "ambassador"
    then some ambassador
    else if str_eq name "trembyle"
    then some trembyle
    else if str_eq name "volteer"
    then some volteer
    else if str_eq name "waddledee"
    then some waddledee
    else none
