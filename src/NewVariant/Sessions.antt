-- ===== src/NewVariant/Sessions.antt =====
-- The runs of contrib/variant/new_variant.py, one behind the other.
use cros_dev_util.Base.{
  List, ◌∷◌, String, ℕ, Bool, true, false, Option, none, some, ◌≡◌, refl, sym, ◌∙◌, ap, subst, ◌⊎◌,
  inl, inr, arith, Result, ok, err, Exn, key_error,
}
use cros_dev_util.NewVariant.State.{BoardModule, Machine}
use cros_dev_util.NewVariant.Build.{Tools}
use cros_dev_util.NewVariant.Run.{ParsedArgs, begin_run, after_round, run_loop, main}
use cros_dev_util.NewVariant.Typing.{check_board, all_once}
use cros_dev_util.NewVariant.Contracts.{Ensures}
use cros_dev_util.NewVariant.Rounds.{Tail, Resumable, Tail-length}
use cros_dev_util.NewVariant.Soundness.{
  Walk, visits, visits_after, run_loop-Walk, Ends, run_loop-Ends,
}
use cros_dev_util.NewVariant.Resume.{
  IsChecked, BoardChecked, named_board, Startable, Ready, begin_run-Ready,
}

module _ (fuel : ℕ) (tools : Tools) where
  -- A run that is done has removed the file, and any other can be continued or begun.
  abbrev pub Stops : Result Bool → Machine → Type 0
  Stops r m =
      ((r ≡ ok true) × (m.yaml_file ≡ none))
      ⊎ ((¬ (r ≡ ok true)) × (¬ (r ≡ err key_error)) × Startable fuel m)

  -- The end of the loop, for the board that it is about.
  stopped :
      (config : BoardModule) (r : Result Bool × Machine)
      → IsChecked fuel config
      → Ends config r
      → Stops r.0 r.1
  stopped config (ok true, m) checked h = inl (refl, h)
  stopped config (ok false, m) checked h = inr ((λ e. cc e), (λ e. cc e), inr (config, checked, h))
  stopped config (err exn, m) checked h =
      inr ((λ e. cc e), raised exn h, inr (config, checked, resumed exn h))
    where
      raised :
          (exn : Exn)
          → Ends config (err exn, m)
          → ¬ (◌≡◌ {A = Result Bool} (err exn) (err key_error))
      raised key_error h' e = h'
      raised _ h' e = cc e

      resumed : (exn : Exn) → Ends config (err exn, m) → Resumable config m
      resumed key_error h' = elim h' [ ]
      resumed _ h' = h'

  once : (config : BoardModule) → check_board config ≡ true → all_once config.step_list ≡ true
  unfolding check_board
  once config h = ground (arith, h)

  begun :
      (r : Result Bool × Machine)
      → Ensures (Startable fuel) (Ready fuel tools) r
      → (end : Result Bool) × (m' : Machine) × (after_round tools (run_loop tools fuel) r
          ≡ some (end, m'))
        × Stops end m'
  begun (ok true, m) (config, checked, (step, steps, c, place, at)) =
      let shorter = Tail-length place.tail in
      let enough = checked.1 in
      let (r, e, h) =
        run_loop-Ends tools config (once config checked.0) fuel steps step c m
          (omega (arith, shorter, enough)) at place in
      (r.0, r.1, e, stopped config r checked h)
  begun (ok false, m) h = (ok false, m, refl, inr ((λ e. cc e), (λ e. cc e), h))
  begun (err exn, m) h = (err exn, m, refl, inr ((λ e. cc e), raised exn h, startable exn h))
    where
      raised :
          (exn : Exn)
          → Ensures (Startable fuel) (Ready fuel tools) (err exn, m)
          → ¬ (◌≡◌ {A = Result Bool} (err exn) (err key_error))
      raised key_error h' e = h'
      raised _ h' e = cc e

      startable :
          (exn : Exn) → Ensures (Startable fuel) (Ready fuel tools) (err exn, m) → Startable fuel m
      startable key_error h' = elim h' [ ]
      startable _ h' = h'

  -- A run that is not told to abort, and names a board whose steps pass check_board and are fewer
  -- than the fuel (or a board that cannot be imported), ends and raises no KeyError, whatever the
  -- tools answer: from a state without a file, or with the file of a run of such a board that can be
  -- continued, it either returns True and leaves no file, or leaves a state from which such a run can
  -- start again.
  pub main-Stops :
      (args : ParsedArgs) (m : Machine)
      → args.abort_flag ≡ false
      → BoardChecked fuel tools (named_board tools args)
      → Startable fuel m
      → (r : Result Bool) × (m' : Machine) × (main tools fuel args m ≡ some (r, m')) × Stops r m'
  unfolding main
  main-Stops args m no_abort checked at =
      begun (begin_run tools args m) (begin_run-Ready fuel tools args m no_abort checked at)

  left_by : (r : Result Bool) (m : Machine) → Stops r m → Startable fuel m
  left_by r m (inl (returned, empty)) = inl empty
  left_by r m (inr (other, no_key_error, at)) = at

  -- Runs one behind the other, none of them told to abort, each naming a board whose steps pass
  -- check_board and are fewer than the fuel. What the processes keep is the file.
  pub data Runs : Machine → Machine → Type 0 where
    no_run : {m : Machine} → Runs m m
    one_run :
        {m m' last : Machine} {r : Result Bool} (args : ParsedArgs)
        → args.abort_flag ≡ false
        → BoardChecked fuel tools (named_board tools args)
        → main tools fuel args m ≡ some (r, m')
        → Runs m' last
        → Runs m last

  -- Behind any number of runs that are not told to abort and name boards whose steps pass check_board
  -- and are fewer than the fuel, new ones and continued ones, there is no file, or it is of such a
  -- board and its run can be continued from a step whose commits and CLs are on record, if that was
  -- so before the first of them.
  pub Runs-Startable : {m last : Machine} → Startable fuel m → Runs m last → Startable fuel last
  Runs-Startable at no_run = at
  Runs-Startable {m = m} at (one_run args no_abort checked e more) =
      let (r, m', e', stops) = main-Stops args m no_abort checked at in
      let machine : Option (Result Bool × Machine) → Machine =
        λ o. elim o as (λ _. Machine) [ none ↦ m | some end ↦ end.1 ] in
      Runs-Startable (subst (Startable fuel) (ap machine (sym e' ∙ e)) (left_by r m' stops)) more

  -- The steps that main begins.
  abbrev pub begun_visits : ParsedArgs → Machine → List String
  begun_visits args m = visits_after tools (visits tools fuel) (begin_run tools args m)

  -- A run that is not told to abort, names a board whose steps pass check_board and are fewer than
  -- the fuel, starts without a file or with the file of a run of such a board that can be
  -- continued, and gets past its preparation, is a walk over the steps of its board from the one in
  -- the loaded status: it begins these steps in their order, skips none and begins none twice, and
  -- either returns True behind the last of them with no file left, or stops in one of them with a
  -- file from which that step can be begun again.
  pub main-Walk :
      (args : ParsedArgs) (m loaded : Machine)
      → args.abort_flag ≡ false
      → BoardChecked fuel tools (named_board tools args)
      → Startable fuel m
      → begin_run tools args m ≡ (ok true, loaded)
      → (config : BoardModule) × (step : String) × (steps : List String) × (r : Result Bool)
        × (m' : Machine) × (loaded.status.config ≡ config)
        × (loaded.status.step ≡ some step)
        × (all_once config.step_list ≡ true)
        × Tail (step ∷ steps) config.step_list
        × (main tools fuel args m ≡ some (r, m'))
        × Walk config (step ∷ steps) (begun_visits args m) r m'
  unfolding main
  main-Walk args m loaded no_abort checked at begins =
      let (config, checked, (step, steps, c, place, at')) =
        subst (Ensures (Startable fuel) (Ready fuel tools)) begins
          (begin_run-Ready fuel tools args m no_abort checked at) in
      let shorter = Tail-length place.tail in
      let enough = checked.1 in
      let (r, m', e, walk) =
        run_loop-Walk tools config (once config checked.0) fuel steps step c loaded
          (omega (arith, shorter, enough)) at' place in
      (
        config,
        step,
        steps,
        r,
        m',
        at'.same_config,
        at'.same_step,
        once config checked.0,
        place.tail,
        ap (after_round tools (run_loop tools fuel)) begins ∙ e,
        subst (λ seen. Walk config (step ∷ steps) seen r m')
            (sym (ap (visits_after tools (visits tools fuel)) begins)) walk,
      )
