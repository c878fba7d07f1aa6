-- ===== src/NewVariant/Resume.antt =====
-- The runs of contrib/variant/new_variant.py, new ones and with --continue, one behind the other.
use cros_dev_util.Base.{
  ℕ, ◌<◌, length, String, Bool, true, false, Option, none, some, List, [], ◌∷◌, ◌≡◌, refl, sym, ap,
  subst, ◌⊎◌, inl, inr, arith, if◌then◌else◌, Bool-cases, Option-cases, Result, ok, err,
  system_exit, index_error, io_error, is_some,
}
use cros_dev_util.NewVariant.State.{
  BoardModule, Machine, Action, ◌>>=◌, ◌>>◌, return, found, VariantStatus, save, load,
}
use cros_dev_util.NewVariant.Build.{Tools}
use cros_dev_util.NewVariant.Run.{
  ParsedArgs, lower_arg, or_none_text, or_default, check_flags, first_step, new_status,
  start_status, get_status, set_up, prepare, begin_run,
}
use cros_dev_util.NewVariant.Typing.{Context, no_commits, check_board, check_steps}
use cros_dev_util.NewVariant.Contracts.{StatusAt, Ensures, Ensures-bind, >>=-result}
use cros_dev_util.NewVariant.Rounds.{Tail, here, StepAt, Resumable}

-- The steps of the board pass the check, and the fuel is enough for them.
abbrev pub IsChecked : ℕ → BoardModule → Type 0
IsChecked fuel config = (check_board config ≡ true) × (length config.step_list < fuel)

-- The module of the board, if there is one, is checked.
abbrev pub BoardChecked : ℕ → Tools → String → Type 0
BoardChecked fuel tools board =
    (config : BoardModule) → tools.import_module board ≡ some config → IsChecked fuel config

-- The board that the arguments name.
abbrev pub named_board : Tools → ParsedArgs → String
named_board tools args = or_default (lower_arg tools.lower args.board) ""

-- The file of a run that can be continued.
abbrev pub FileReady : ℕ → Machine → Type 0
FileReady fuel m = (config : BoardModule) × IsChecked fuel config × Resumable config m

-- There is no file, or the run that left it can be continued.
abbrev pub Startable : ℕ → Machine → Type 0
Startable fuel m = (m.yaml_file ≡ none) ⊎ FileReady fuel m

module _ (fuel : ℕ) (tools : Tools) where
  abbrev Got : Bool → Machine → Type 0
  Got true m = FileReady fuel m
  Got false m = Startable fuel m

  new_file :
      (board variant bug branch : String) (config : BoardModule) (step : String)
      (steps : List String) (m : Machine)
      → config.step_list ≡ step ∷ steps
      → IsChecked fuel config
      → FileReady fuel (record m {
        status = new_status board variant bug branch config step;
        yaml_file = some (new_status board variant bug branch config step);
      })
  unfolding new_status check_board
  new_file board variant bug branch config step steps m e checked = (
    config,
    checked,
    (
      step,
      steps,
      no_commits,
      record {
        tail = subst (Tail (step ∷ steps)) (sym e) here;
        checked =
            subst (λ all. check_steps config no_commits all ≡ true) e (ground (arith, checked.0));
      },
      (
        _,
        refl,
        record {
          same_config = refl;
          same_step = refl;
          holds = record { git_known = λ k h. cc h; cl_known = λ k h. cc h; all_tidy = tt };
        },
      ),
    ),
  )

  -- start_status at what the import returns, and at the steps.
  abbrev set_new : String → String → String → String → BoardModule → String → Action (Unit {0})
  set_new board variant bug branch config step =
      (λ m. (ok tt, record m { status = new_status board variant bug branch config step })) >> save

  abbrev import_as : String → String → String → String → Option BoardModule → Action (Unit {0})
  import_as board variant bug branch o = found system_exit o >>= λ config.
      found index_error (first_step config.step_list) >>= set_new board variant bug branch config

  stepped :
      (board variant bug branch : String) (config : BoardModule) (steps : List String) (m : Machine)
      → config.step_list ≡ steps
      → IsChecked fuel config
      → m.yaml_file ≡ none
      → Ensures (Startable fuel) Got (
          ((found index_error (first_step steps) >>= set_new board variant bug branch config)
              >> return true)
            m)
  unfolding save
  stepped board variant bug branch config [] m e checked empty = inl empty
  stepped board variant bug branch config (step ∷ steps) m e checked empty =
      new_file board variant bug branch config step steps m e checked

  imported :
      (board variant bug branch : String) (o : Option BoardModule) (m : Machine)
      → BoardChecked fuel tools board
      → tools.import_module board ≡ o
      → m.yaml_file ≡ none
      → Ensures (Startable fuel) Got ((import_as board variant bug branch o >> return true) m)
  imported board variant bug branch none m checked e empty = inl empty
  imported board variant bug branch (some config) m checked e empty =
      stepped board variant bug branch config config.step_list m refl (checked config e) empty

  started :
      (board variant bug branch : String) (m : Machine)
      → BoardChecked fuel tools board
      → m.yaml_file ≡ none
      → Ensures
          (Startable fuel)
          Got
          ((start_status tools board variant bug branch >> return true) m)
  unfolding start_status
  started board variant bug branch m checked empty =
      imported board variant bug branch (tools.import_module board) m checked refl empty

  -- A file that is there can be continued.
  ready_file : (m : Machine) → Startable fuel m → is_some m.yaml_file ≡ true → FileReady fuel m
  ready_file m (inl e) there = cc (rw e at there)
  ready_file m (inr f) there = f

  no_file : (m : Machine) → is_some m.yaml_file ≡ false → m.yaml_file ≡ none
  no_file m gone = elim (Option-cases m.yaml_file) [ inl e ↦ e | inr (s, e) ↦ cc (rw e at gone) ]

  get_status-Got :
      (board variant : Option String) (bug branch : String) (continue_flag : Bool) (m : Machine)
      → BoardChecked fuel tools (or_default board "")
      → Startable fuel m
      → Ensures
          (Startable fuel)
          Got
          (get_status tools board variant bug branch continue_flag false m)
  unfolding get_status
  get_status-Got board variant bug branch true m checked at =
      elim (Bool-cases (is_some m.yaml_file)) [
        | inl h ↦ subst (λ b. Got b m) (sym h) (ready_file m at h)
        | inr h ↦ subst (λ b. Got b m) (sym h) at
      ]
  get_status-Got board variant bug branch false m checked at =
      elim (Bool-cases (is_some m.yaml_file)) [
        | inl h ↦ rw h at
        | inr h ↦ rw h (
            started (or_default board "") (or_default variant "") bug branch m checked
              (no_file m h))
      ]

  -- The status is at a step of its board.
  abbrev pub Ready : Bool → Machine → Type 0
  Ready true m =
      (config : BoardModule) × IsChecked fuel config
      × ((step : String) × (steps : List String) × (c : Context) × StepAt config step steps c
          × StatusAt config step c m.status)
  Ready false m = Startable fuel m

  loaded :
      (m : Machine) (s : VariantStatus)
      → m.yaml_file ≡ some s
      → load m ≡ (ok tt, record m { status = s })
  unfolding load
  loaded m s e =
      ap
        (λ o. elim o as (λ _. Result (Unit {0}) × Machine) [
          | none ↦ (err io_error, m)
          | some saved ↦ (ok tt, record m { status = saved })
        ])
        e

  set_up-Ready :
      (m : Machine) → Ready true m → Ensures (Startable fuel) Ready (set_up tools false m)
  unfolding set_up
  set_up-Ready m (config, checked, (step, steps, c, place, at)) = (
    config,
    checked,
    (
      step,
      steps,
      c,
      place,
      record { same_config = at.same_config; same_step = at.same_step; holds = at.holds },
    ),
  )

  prepare-Ready :
      (m : Machine) → FileReady fuel m → Ensures (Startable fuel) Ready (prepare tools false m)
  unfolding prepare
  prepare-Ready m (config, checked, (step, steps, c, place, (s, e, at))) =
      subst (Ensures (Startable fuel) Ready)
        (sym (>>=-result load tt (λ _. set_up tools false) m (loaded m s e)))
        (set_up-Ready (record m { status = s }) (config, checked, (step, steps, c, place, at)))

  -- The guard of the flags.
  flags_pass :
      (passed : Bool) (start : Action Bool) (m : Machine)
      → Startable fuel m
      → Ensures (Startable fuel) Ready (start m)
      → Ensures (Startable fuel) Ready ((if passed then start else return false) m)
  flags_pass true start m at h = h
  flags_pass false start m at h = at

  pub begin_run-Ready :
      (args : ParsedArgs) (m : Machine)
      → args.abort_flag ≡ false
      → BoardChecked fuel tools (named_board tools args)
      → Startable fuel m
      → Ensures (Startable fuel) Ready (begin_run tools args m)
  unfolding begin_run
  begin_run-Ready args m no_abort checked at =
      let board = lower_arg tools.lower args.board in
      let variant = lower_arg tools.lower args.variant in
      let bug = or_none_text args.bug in
      let branch = or_none_text args.branch in
      let start : Bool → Action Bool = λ abort_flag.
        get_status tools board variant bug branch args.continue_flag abort_flag >>= λ ready.
        if ready then prepare tools abort_flag else return false in
      subst
        (λ abort_flag. Ensures (Startable fuel) Ready (
          (if check_flags board variant bug args.continue_flag abort_flag
              then start abort_flag
              else return false)
            m))
        (sym no_abort)
        (flags_pass (check_flags board variant bug args.continue_flag false) (start false) m at (
          Ensures-bind (Startable fuel) Got Ready
            (get_status tools board variant bug branch args.continue_flag false)
            (λ ready. if ready then prepare tools false else return false) m
            (get_status-Got board variant bug branch args.continue_flag m checked at)
            (λ b m'.
              elim b
                as (λ b.
                  Got b m'
                  → Ensures (Startable fuel) Ready
                      ((if b then prepare tools false else return false) m')) [
                        | true ↦ λ f. prepare-Ready m' f
                        | false ↦ λ f. f
                      ])))
