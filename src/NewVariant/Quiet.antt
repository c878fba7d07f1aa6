-- ===== src/NewVariant/Quiet.antt =====
-- The steps of contrib/variant/new_variant.py that record nothing.
use cros_dev_util.Base.{arith}
use cros_dev_util.NewVariant.State.{Machine}
use cros_dev_util.NewVariant.Build.{Tools}
use cros_dev_util.NewVariant.Scripts.{
  project_config, gen_fit_image_outside_chroot, commit_fitimage, ec_buildall, build_config,
  emerge_all,
}
use cros_dev_util.NewVariant.Contracts.{Keeps}

module _ (tools : Tools) (m : Machine) where
  pub project_config-Keeps : Keeps m (project_config tools m)
  unfolding project_config
  project_config-Keeps = ground arith

  pub gen_fit_image_outside_chroot-Keeps : Keeps m (gen_fit_image_outside_chroot tools m)
  unfolding gen_fit_image_outside_chroot
  gen_fit_image_outside_chroot-Keeps = ground arith

  pub commit_fitimage-Keeps : Keeps m (commit_fitimage tools m)
  unfolding commit_fitimage
  commit_fitimage-Keeps = ground arith

  pub ec_buildall-Keeps : Keeps m (ec_buildall tools m)
  unfolding ec_buildall
  ec_buildall-Keeps = ground arith

  pub build_config-Keeps : Keeps m (build_config tools m)
  unfolding build_config
  build_config-Keeps = ground arith

  pub emerge_all-Keeps : Keeps m (emerge_all tools m)
  unfolding emerge_all
  emerge_all-Keeps = ground arith
