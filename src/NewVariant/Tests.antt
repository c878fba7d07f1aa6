-- ===== src/NewVariant/Tests.antt =====
-- Runs of the models of contrib/variant on concrete inputs.
use cros_dev_util.Base.{
  List, ◌≤◌, length, String, Bool, true, false, Option, none, some, [], ◌∷◌, ◌≡◌, refl, sym, subst,
  arith, inl, eq_iff, Result, ok, is_some, dict_get,
}
use cros_dev_util.NewVariant.State.{save, load, rm, CommitData, BoardModule, VariantStatus, Machine}
use cros_dev_util.NewVariant.Boards.{import_board, hatch, trembyle}
use cros_dev_util.NewVariant.Build.{Tools}
use cros_dev_util.NewVariant.Scripts.{ec_buildall}
use cros_dev_util.NewVariant.Upload.{is_uploaded, push_coreboot, upload_cls}
use cros_dev_util.NewVariant.Depend.{calc_commits, calc_cq_depend, clean_up, abort}
use cros_dev_util.NewVariant.Run.{
  ParsedArgs, new_status, main, begin_run, check_flags, get_status, start_status, prepare, set_up,
  run_loop, one_round, perform_step, step_table, move_to_next_step, step_after,
}
use cros_dev_util.NewVariant.Typing.{all_once, Context, check_board}
use cros_dev_util.NewVariant.Commits.{Holds, has_git, has_entry}
use cros_dev_util.NewVariant.Contracts.{StatusAt, FileAt, Ensures, During, Ended}
use cros_dev_util.NewVariant.Resume.{BoardChecked, Startable}
use cros_dev_util.NewVariant.Rounds.{Tail}
use cros_dev_util.NewVariant.Soundness.{Walk}
use cros_dev_util.NewVariant.Sessions.{
  main-Walk, begun_visits, Stops, no_run, one_run, main-Stops, Runs-Startable,
}
use cros_dev_util.NewVariant.Supported.{import_board-checked}
use cros_dev_util.NewVariant.Uploads.{push_coreboot-Ended, upload_cls-Ended}
use cros_dev_util.NewVariant.Depends.{calc_commits-Done}
use cros_dev_util.NewVariant.Missing.{calc_cq_depend-Missing}
use cros_dev_util.NewVariant.Kconfig.{
  add_to_kconfig, kconfig_lines, lines_of, part_section, dir_section, part_line, dir_line, Piece,
  add_to_kconfig-lines_of,
}
use cros_dev_util.NewVariant.Unnamed.{abort-Unnamed}

-- Every process succeeds, and every commit has a CL.
abbrev test_tools : Tools
test_tools = record {
  runs = λ events args cwd environ. true;
  is_file = λ events path. true;
  read_file = λ events path. "name: kohaku";
  expanduser = λ path. path;
  lower = λ s. s;
  find_git_top_level = λ path. path;
  current_branch = λ events path. some "create_kohaku";
  current_change_id = λ events path. some "I1";
  list_atoms = λ events base. [];
  query_chromium = λ events id. "7" ∷ [];
  query_internal = λ events id. [];
  http_get = λ events url. "Not found: I1";
  json_number = λ text. none;
  query_upstream = λ events id. "chromium:9" ∷ [];
  git_log_hash = λ events repo id. "abc" ∷ [];
  git_log_msg = λ events repo rev. some [];
  import_module = import_board;
  program_dir = "/variant";
}

hatch_board : BoardChecked 18 test_tools "hatch"
hatch_board config e =
    let (checked, few) = import_board-checked "hatch" config (λ t. cc t) e in
    (checked, omega (arith, few))

abbrev new_args : ParsedArgs
new_args = record {
  board = some "hatch";
  variant = some "kohaku";
  bug = none;
  branch = none;
  continue_flag = false;
  abort_flag = false;
}

-- No run yet: the status is not read.
abbrev no_file : Machine
no_file = record {
  status = new_status "hatch" "kohaku" "None" "None" hatch "cb_variant";
  yaml_file = none;
  events = [];
}

-- A board with two steps.
abbrev tiny : BoardModule
tiny = record hatch {
  step_list = "ec_buildall" ∷ "clean_up" ∷ [];
  coreboot_push_list = "cb_variant" ∷ [];
  repo_upload_list = "cb_variant" ∷ [];
  depends = ("cb_variant", "cb_variant" ∷ []) ∷ [];
}

abbrev tiny_tools : Tools
tiny_tools = record test_tools { import_module = λ name. some tiny }

-- What a run returned, and whether it left a file.
abbrev end_of : Option (Result Bool × Machine) → Option (Result Bool × Bool)
end_of none = none
end_of (some (r, m)) = some (r, is_some m.yaml_file)

run_returns_true : end_of (main tiny_tools 3 new_args no_file) ≡ some (ok true, false)
unfolding main begin_run check_flags get_status start_status new_status save prepare load set_up
    run_loop one_round perform_step step_table dict_get move_to_next_step step_after ec_buildall
    clean_up rm
run_returns_true = refl

-- Witnesses.
main-Stops_example :
    (r : Result Bool) × (m' : Machine) × (main test_tools 18 new_args no_file ≡ some (r, m'))
    × Stops 18 test_tools r m'
main-Stops_example = main-Stops 18 test_tools new_args no_file refl hatch_board (inl refl)

-- One run of the program.
abbrev first_run :
    (r : Result Bool) × (m' : Machine) × (main test_tools 18 new_args no_file ≡ some (r, m'))
    × Stops 18 test_tools r m'
first_run = main-Stops 18 test_tools new_args no_file refl hatch_board (inl refl)

Runs-Startable_example : Startable 18 first_run.1
Runs-Startable_example =
    Runs-Startable 18 test_tools {m = no_file} (inl refl)
      (one_run new_args refl hatch_board first_run.2 no_run)

import_board-checked_example : (check_board hatch ≡ true) × (length hatch.step_list ≤ 17)
unfolding import_board
import_board-checked_example = import_board-checked "hatch" hatch (λ e. cc e) refl

-- A commit at the step push.
abbrev a_commit : Option String → CommitData
a_commit cl_number = record {
  branch_name = some "create_kohaku";
  dir = some "/coreboot";
  change_id = some "I1";
  gerrit = cl_number;
  cl_number = cl_number;
  cq_depend = none;
  needs_re_upload = false;
}

abbrev status_at : String → Option String → VariantStatus
status_at step cl_number = record {
  board = "tiny";
  variant = "kohaku";
  bug = "None";
  branch = "None";
  coreboot_base = "tiny";
  coreboot_reference = "tiny";
  config = tiny;
  step = some step;
  commits = ("cb_variant", a_commit cl_number) ∷ [];
  my_loc = "";
}

abbrev machine_at : String → Option String → Machine
machine_at step cl_number = record {
  status = status_at step cl_number;
  yaml_file = some (status_at step cl_number);
  events = [];
}

abbrev context_of : Option String → Context
context_of none = record { git = "cb_variant" ∷ []; cls = [] }
context_of (some _) = record { git = "cb_variant" ∷ []; cls = "cb_variant" ∷ [] }

on_record :
    (cl_number : Option String)
    → Holds (context_of cl_number) (("cb_variant", a_commit cl_number) ∷ [])
unfolding dict_get
on_record none = record {
  git_known = λ k h.
      subst (λ x. has_entry has_git x (("cb_variant", a_commit none) ∷ []) ≡ true)
        (sym ((eq_iff k "cb_variant").0 (ground (arith, h)))) refl;
  cl_known = λ k h. cc h;
  all_tidy = (refl, tt);
}
on_record (some number) = record {
  git_known = λ k h.
      subst (λ x. has_entry has_git x (("cb_variant", a_commit (some number)) ∷ []) ≡ true)
        (sym ((eq_iff k "cb_variant").0 (ground (arith, h)))) refl;
  cl_known = λ k h.
      subst (λ x. has_entry is_uploaded x (("cb_variant", a_commit (some number)) ∷ []) ≡ true)
        (sym ((eq_iff k "cb_variant").0 (ground (arith, h)))) refl;
  all_tidy = (refl, tt);
}

during :
    (step : String) (cl_number : Option String)
    → During tiny step (context_of cl_number) (context_of cl_number) (machine_at step cl_number)
during step cl_number = record { status_at = at; file_at = (status_at step cl_number, refl, at) }
  where
    at : StatusAt tiny step (context_of cl_number) (status_at step cl_number)
    at = record { same_config = refl; same_step = refl; holds = on_record cl_number }

push_coreboot-Ended_example :
    Ensures
      (FileAt tiny "push" (context_of none))
      (Ended tiny "push" (context_of none) (context_of (some "7")))
      (push_coreboot test_tools (machine_at "push" none))
push_coreboot-Ended_example =
    push_coreboot-Ended test_tools tiny "push" (context_of none) (machine_at "push" none) refl
      (during "push" none)

upload_cls-Ended_example :
    Ensures
      (FileAt tiny "upload" (context_of none))
      (Ended tiny "upload" (context_of none) (context_of (some "7")))
      (upload_cls test_tools (machine_at "upload" none))
upload_cls-Ended_example =
    upload_cls-Ended test_tools tiny "upload" (context_of none) (machine_at "upload" none) refl
      (during "upload" none)

calc_commits-Done_example :
    Ensures
      (λ _. ⊥)
      (λ b m'.
        (b ≡ true)
        × During tiny "calc_cq_depend" (context_of (some "7")) (context_of (some "7")) m')
      (calc_commits tiny.depends (machine_at "calc_cq_depend" (some "7")))
calc_commits-Done_example =
    calc_commits-Done tiny "calc_cq_depend" (context_of (some "7")) (context_of (some "7"))
      tiny.depends (machine_at "calc_cq_depend" (some "7")) refl
      (during "calc_cq_depend" (some "7"))

-- The step calc_cq_depend of trembyle: nothing has recorded "commit_fit".
abbrev trembyle_machine : Machine
trembyle_machine = record {
  status = new_status "trembyle" "dalboz" "None" "None" trembyle "calc_cq_depend";
  yaml_file = none;
  events = [];
}

calc_cq_depend-Missing_example : ¬ ((calc_cq_depend trembyle_machine).0 ≡ ok true)
unfolding dict_get new_status
calc_cq_depend-Missing_example = calc_cq_depend-Missing "commit_fit" trembyle_machine refl refl

-- --abort behind the step find.
abbrev found_machine : Machine
found_machine = record {
  status = record (status_at "abort" (some "7")) {
    commits =
        ("find", record (a_commit (some "7")) { branch_name = none; dir = none; change_id = none })
        ∷ [];
  };
  yaml_file = none;
  events = [];
}

abort-Unnamed_example : ¬ ((abort test_tools found_machine).0 ≡ ok true)
abort-Unnamed_example = abort-Unnamed test_tools found_machine refl

-- The Kconfig file of a mainboard, with the names as they are.
abbrev kconfig_file : List String
kconfig_file =
    "config VARIANT_DIR" ∷ "\tstring" ∷ "" ∷ "config MAINBOARD_PART_NUMBER" ∷ "\tstring" ∷ "" ∷ []

abbrev same : String → String
same s = s

kconfig_added :
    add_to_kconfig same same same same "kohaku" kconfig_file
    ≡ "config VARIANT_DIR" ∷ "\tstring" ∷ "\tdefault \"kohaku\" if BOARD_GOOGLE_kohaku" ∷ ""
      ∷ "config MAINBOARD_PART_NUMBER" ∷ "\tstring" ∷ "\tdefault \"kohaku\" if BOARD_GOOGLE_kohaku"
      ∷ "" ∷ []
unfolding add_to_kconfig kconfig_lines
kconfig_added = refl

abbrev kconfig_pieces : List Piece
kconfig_pieces = dir_section ("\tstring" ∷ []) ∷ part_section ("\tstring" ∷ []) ∷ []

add_to_kconfig-lines_of_example :
    add_to_kconfig same same same same "kohaku" kconfig_file
    ≡ lines_of
        (part_line same same same "kohaku" ∷ [])
        (dir_line same same same "kohaku" ∷ [])
        kconfig_pieces
add_to_kconfig-lines_of_example =
    add_to_kconfig-lines_of same same same same "kohaku" kconfig_file kconfig_pieces refl refl

-- The machine behind the preparation of a new run.
abbrev loaded_machine : Machine
loaded_machine =
    let saved = new_status "hatch" "kohaku" "None" "None" hatch "cb_variant" in
    record { status = record saved { my_loc = "/variant" }; yaml_file = some saved; events = [] }

main-Walk_example :
    (config : BoardModule) × (step : String) × (steps : List String) × (r : Result Bool)
    × (m' : Machine) × (loaded_machine.status.config ≡ config)
    × (loaded_machine.status.step ≡ some step)
    × (all_once config.step_list ≡ true)
    × Tail (step ∷ steps) config.step_list
    × (main test_tools 18 new_args no_file ≡ some (r, m'))
    × Walk config (step ∷ steps) (begun_visits 18 test_tools new_args no_file) r m'
unfolding begin_run check_flags get_status start_status new_status save prepare load set_up
    import_board
main-Walk_example =
    main-Walk 18 test_tools new_args no_file loaded_machine refl hatch_board (inl refl) refl
