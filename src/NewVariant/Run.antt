-- ===== src/NewVariant/Run.antt =====
-- A run of contrib/variant/new_variant.py: the flags, the status that it starts from, and the loop
-- over the steps.
use cros_dev_util.Base.{
  ℕ, zero, suc, String, Bool, true, false, ◌&&◌, ◌||◌, not, Option, none, some, List, [], ◌∷◌,
  Result, ok, system_exit, index_error, is_some, dict_get, str_eq, if◌then◌else◌,
}
use cros_dev_util.NewVariant.State.{
  BoardModule, VariantStatus, began, Machine, Action, ◌>>=◌, ◌>>◌, return, found, log_event, save,
  load,
}
use cros_dev_util.NewVariant.Build.{Tools}
use cros_dev_util.NewVariant.Scripts.{
  project_config, fw_build_config, create_coreboot_variant, create_coreboot_config,
  copy_cras_config, add_fitimage, gen_fit_image_outside_chroot, commit_fitimage,
  create_initial_ec_image, ec_buildall, add_variant_to_public_yaml, add_variant_to_private_yaml,
  build_config, emerge_all,
}
use cros_dev_util.NewVariant.Upload.{push_coreboot, upload_cls, find_coreboot_upstream}
use cros_dev_util.NewVariant.Depend.{calc_cq_depend, add_cq_depend, re_upload, clean_up, abort}

-- The arguments that the parser returns.
pub record ParsedArgs : Type 0 where
  pub board : Option String
  pub variant : Option String
  pub bug : Option String
  pub branch : Option String
  pub continue_flag : Bool
  pub abort_flag : Bool

abbrev pub lower_arg : (String → String) → Option String → Option String
lower_arg lower none = none
lower_arg lower (some s) = some (lower s)

-- args.bug or 'None'
abbrev pub or_none_text : Option String → String
or_none_text none = "None"
or_none_text (some s) = if str_eq s "" then "None" else s

unfoldable pub check_flags : Option String → Option String → String → Bool → Bool → Bool
check_flags board variant bug continue_flag abort_flag =
    if continue_flag || abort_flag
    then not (is_some board || (is_some variant || not (str_eq bug "None")))
    else is_some board && is_some variant

-- getattr(module, ..., default)
abbrev pub or_default : Option String → String → String
or_default none d = d
or_default (some s) d = s

abbrev pub first_step : List String → Option String
first_step [] = none
first_step (s ∷ _) = some s

-- The attributes that get_status sets from the board's module.
unfoldable pub new_status : String → String → String → String → BoardModule → String → VariantStatus
new_status board variant bug branch mod' step = record {
  board = board;
  variant = variant;
  bug = bug;
  branch = branch;
  coreboot_base = or_default mod'.coreboot_base mod'.base;
  coreboot_reference = or_default mod'.coreboot_reference board;
  config = mod';
  step = some step;
  commits = [];
  my_loc = "";
}

-- The step behind the first place of `step` in the list; `none` if it is not there.
unfoldable pub step_after : String → List String → Option (Option String)
step_after step [] = none
step_after step (s ∷ steps) =
    let rest = step_after step steps in if str_eq s step then some (first_step steps) else rest

abbrev pub set_step : Option String → Action (Unit {0})
set_step step m = (ok tt, record m { status = record m.status { step = step } })

unfoldable pub move_to_next_step : String → Action (Unit {0})
unfolding step_after
move_to_next_step step m =
    if str_eq step "abort"
    then set_step (some "clean_up") m
    else (found system_exit (step_after step m.status.config.step_list) >>= set_step) m

module _ (tools : Tools) where
  -- get_status for a new variant: the module of the board, its first step, and the yaml file.
  unfoldable pub start_status : String → String → String → String → Action (Unit {0})
  unfolding new_status save
  start_status board variant bug branch = do
    mod' ← found system_exit (tools.import_module board)
    step ← found index_error (first_step mod'.step_list)
    (λ m. (ok tt, record m { status = new_status board variant bug branch mod' step }))
    save

  -- get_status: whether it returns an object, which then is the machine's status. The object that
  -- it returns for --continue and --abort is empty until `load`.
  unfoldable pub get_status :
      Option String → Option String → String → String → Bool → Bool → Action Bool
  unfolding start_status
  get_status board variant bug branch continue_flag abort_flag m =
      if continue_flag || abort_flag
      then (ok (is_some m.yaml_file), m)
      else if is_some m.yaml_file
      then (ok false, m)
      else (start_status (or_default board "") (or_default variant "") bug branch >> return true) m

  -- The table `dispatch` of perform_step.
  unfoldable pub step_table : List (String × Action Bool)
  step_table =
      ("project_config", project_config tools)
      ∷ ("fw_build_config", fw_build_config tools)
      ∷ ("cb_variant", create_coreboot_variant tools)
      ∷ ("cb_config", create_coreboot_config tools)
      ∷ ("cras_config", copy_cras_config tools)
      ∷ ("add_fit", add_fitimage tools)
      ∷ ("gen_fit", gen_fit_image_outside_chroot tools)
      ∷ ("commit_fit", commit_fitimage tools)
      ∷ ("ec_image", create_initial_ec_image tools)
      ∷ ("ec_buildall", ec_buildall tools)
      ∷ ("add_pub_yaml", add_variant_to_public_yaml tools)
      ∷ ("add_priv_yaml", add_variant_to_private_yaml tools)
      ∷ ("build_config", build_config tools)
      ∷ ("emerge", emerge_all tools)
      ∷ ("push", push_coreboot tools)
      ∷ ("upload", upload_cls tools)
      ∷ ("find", find_coreboot_upstream tools)
      ∷ ("calc_cq_depend", calc_cq_depend)
      ∷ ("add_cq_depend", add_cq_depend tools)
      ∷ ("re_upload", re_upload tools)
      ∷ ("clean_up", clean_up tools)
      ∷ ("abort", abort tools)
      ∷ []

  unfoldable pub perform_step : String → Action Bool
  unfolding step_table
  perform_step step = do
    action ← found system_exit (dict_get step step_table)
    log_event (began step)
    action

  -- The body of the loop of main, at a step.
  unfoldable pub one_round : String → Action Bool
  unfolding save perform_step move_to_next_step
  one_round step = do
    save
    performed ← perform_step step
    if performed then (move_to_next_step step >> return true) else return false

  -- The end of a run, or the rest of it.
  abbrev pub after_round :
      (Machine → Option (Result Bool × Machine))
      → Result Bool × Machine
      → Option (Result Bool × Machine)
  after_round rest (ok true, m) = rest m
  after_round rest (r, m) = some (r, m)

  -- `while status.step is not None`, with fuel; `none` means that the fuel ran out.
  unfoldable pub run_loop : ℕ → Machine → Option (Result Bool × Machine)
  unfolding one_round
  run_loop zero m = none
  run_loop (suc fuel) m = elim m.status.step as (λ _. Option (Result Bool × Machine)) [
    | none ↦ some (ok true, m)
    | some step ↦ after_round (run_loop fuel) (one_round step m)
  ]

  -- main behind get_status: the load, the directory of the program, and the step of --abort.
  unfoldable pub set_up : Bool → Action Bool
  set_up abort_flag = do
    (λ m. (ok tt, record m { status = record m.status { my_loc = tools.program_dir } }))
    if abort_flag then set_step (some "abort") else return tt
    return true

  unfoldable pub prepare : Bool → Action Bool
  unfolding load set_up
  prepare abort_flag = load >> set_up abort_flag

  -- The part of main before the loop: False where it returns False.
  unfoldable pub begin_run : ParsedArgs → Action Bool
  unfolding check_flags get_status prepare
  begin_run args =
      let board = lower_arg tools.lower args.board in
      let variant = lower_arg tools.lower args.variant in
      let bug = or_none_text args.bug in
      let start = do
        ready ←
            get_status board variant bug (or_none_text args.branch) args.continue_flag
              args.abort_flag
        if ready then prepare args.abort_flag else return false
      in if check_flags board variant bug args.continue_flag args.abort_flag
        then start
        else return false

  -- main, with the fuel of its loop.
  unfoldable pub main : ℕ → ParsedArgs → Machine → Option (Result Bool × Machine)
  unfolding begin_run run_loop
  main fuel args m = after_round (run_loop fuel) (begin_run args m)
