-- ===== src/NewVariant/Rounds.antt =====
-- One round of the loop of contrib/variant/new_variant.py: a step of a board that passes the check
-- of its steps, and the next step of the list.
use cros_dev_util.Base.{
  length, ◌≤◌, String, Bool, true, false, none, some, List, [], ◌∷◌, ◌≡◌, refl, sym, ◌∙◌, ap, subst,
  inl, inr, arith, if◌then◌else◌, Bool-cases, ok, system_exit, str_elem, str_eq, eq_iff, eq_refl,
  dict_get,
}
use cros_dev_util.NewVariant.State.{
  BoardModule, Machine, Action, ◌>>◌, return, found, began, save, rm,
}
use cros_dev_util.NewVariant.Build.{Tools}
use cros_dev_util.NewVariant.Depend.{clean_up}
use cros_dev_util.NewVariant.Run.{
  step_table, perform_step, first_step, step_after, set_step, move_to_next_step, one_round,
}
use cros_dev_util.NewVariant.Typing.{Context, context_after, check_steps, all_once}
use cros_dev_util.NewVariant.Contracts.{
  StatusAt, FileAt, Ensures, Ensures-bind, Ensures-weaken, >>=-result, During, Ended,
}
use cros_dev_util.NewVariant.Steps.{perform_step-Ended}

-- The rest of a list of steps.
pub data Tail : List String → List String → Type 0 where
  here : {steps : List String} → Tail steps steps
  there : {s : String} {steps all : List String} → Tail steps all → Tail steps (s ∷ all)

pub Tail-next : {s : String} {steps all : List String} → Tail (s ∷ steps) all → Tail steps all
Tail-next here = there here
Tail-next (there t) = there (Tail-next t)

pub Tail-length : {steps all : List String} → Tail steps all → length steps ≤ length all
Tail-length here = omega arith
Tail-length (there t) = let shorter = Tail-length t in omega (arith, shorter)

Tail-elem : {s : String} {steps all : List String} → Tail (s ∷ steps) all → str_elem s all ≡ true
Tail-elem {s = s} here = ground (arith, eq_refl s)
Tail-elem {s = s} (there t) = ground (arith, Tail-elem t)

-- In a list without repeats, the step behind a step is the next one.
pub step_after-Tail :
    (s : String) (steps all : List String)
    → Tail (s ∷ steps) all
    → all_once all ≡ true
    → step_after s all ≡ some (first_step steps)
unfolding step_after all_once
step_after-Tail s steps _ here once = rw (eq_refl s) refl
step_after-Tail s steps (x ∷ all) (there t) once =
    ground (arith, once, Tail-elem t, eq_iff x s, step_after-Tail s steps all t)

-- A step of the board from the file, with the steps behind it.
pub record StepAt (config : BoardModule) (step : String) (steps : List String) (c : Context)
    : Type 0 where
  pub tail : Tail (step ∷ steps) config.step_list
  pub checked : check_steps config c (step ∷ steps) ≡ true

-- The program can be continued from the yaml file at this step, with these steps behind it.
abbrev pub StillAt : BoardModule → String → List String → Machine → Type 0
StillAt config step steps m = (c : Context) × StepAt config step steps c × FileAt config step c m

-- The program can be continued from the yaml file.
abbrev pub Resumable : BoardModule → Machine → Type 0
Resumable config m =
    (step : String) × (steps : List String) × (c : Context) × StepAt config step steps c
    × FileAt config step c m

module _ (tools : Tools) (config : BoardModule) (once : all_once config.step_list ≡ true) where
  -- Behind a round that is not the last.
  abbrev pub Moved : String → String → List String → Context → Bool → Machine → Type 0
  Moved step next steps c true m = StatusAt config next c m.status
  Moved step next steps c false m = StillAt config step (next ∷ steps) m

  abbrev next_round : String → Bool → Action Bool
  next_round step performed =
      if performed then (move_to_next_step step >> return true) else return false

  moves :
      (step : String) (steps : List String) (m : Machine)
      → str_eq step "abort" ≡ false
      → Tail (step ∷ steps) config.step_list
      → m.status.config ≡ config
      → move_to_next_step step m ≡ set_step (first_step steps) m
  unfolding move_to_next_step
  moves step steps m other t same = rw other (
      >>=-result (found system_exit (step_after step m.status.config.step_list)) (first_step steps)
        (set_step) m
        (ap (λ o. found system_exit o m)
          (ap (λ c. step_after step c.step_list) same
            ∙ step_after-Tail step steps config.step_list t once)))

  not_abort :
      (step : String) (c c' : Context)
      → context_after config step c ≡ some c'
      → str_eq step "abort" ≡ false
  unfolding context_after
  not_abort step c c' e = elim (Bool-cases (str_eq step "abort")) [
    | inl same ↦
        cc (subst (λ x. context_after config x c ≡ some c') ((eq_iff step "abort").0 same) e)
    | inr other ↦ other
  ]

  -- The status and the file behind `save`.
  saved :
      (step : String) (c : Context) (m : Machine)
      → StatusAt config step c m.status
      → During config step c c (record m { yaml_file = some m.status })
  saved step c m at = record { status_at = at; file_at = (m.status, refl, at) }

  go_on :
      (step next : String) (steps : List String) (c c' : Context) (performed : Bool) (m : Machine)
      → StepAt config step (next ∷ steps) c
      → str_eq step "abort" ≡ false
      → Ended config step c c' performed m
      → Ensures
          (StillAt config step (next ∷ steps))
          (Moved step next steps c')
          (next_round step performed m)
  go_on step next steps c c' true m place other d =
      subst (Ensures (StillAt config step (next ∷ steps)) (Moved step next steps c'))
        (sym (
          >>=-result (move_to_next_step step) tt (λ _. return true) m
            (moves step (next ∷ steps) m other place.tail d.status_at.same_config)))
        (record {
          same_config = d.status_at.same_config;
          same_step = refl;
          holds = d.status_at.holds;
        })
  go_on step next steps c c' false m place other f = (c, place, f)

  pub middle_round :
      (step next : String) (steps : List String) (c c' : Context) (m : Machine)
      → StatusAt config step c m.status
      → StepAt config step (next ∷ steps) c
      → context_after config step c ≡ some c'
      → Ensures
          (StillAt config step (next ∷ steps))
          (Moved step next steps c')
          (one_round tools step m)
  unfolding one_round save
  middle_round step next steps c c' m at place e =
      let saved_m = record m { yaml_file = some m.status } in
      Ensures-bind (StillAt config step (next ∷ steps)) (Ended config step c c')
        (Moved step next steps c') (perform_step tools step) (next_round step) saved_m
        (Ensures-weaken (FileAt config step c) (StillAt config step (next ∷ steps))
          (Ended config step c c') (Ended config step c c') (perform_step tools step saved_m)
          (λ m' f. (c, place, f)) (λ _ _ h. h)
          (perform_step-Ended tools config step c c' saved_m e (saved step c m at)))
        (λ performed m'. go_on step next steps c c' performed m' place (not_abort step c c' e))

  -- The step clean_up behind `save`.
  cleaned : Machine → Machine
  cleaned m = record m { yaml_file = none; events = began "clean_up" ∷ m.events }

  perform_step-clean_up :
      (m : Machine)
      → perform_step tools "clean_up" (record m { yaml_file = some m.status })
        ≡ (ok true, cleaned m)
  unfolding perform_step step_table dict_get clean_up rm cleaned
  perform_step-clean_up m = refl

  -- Behind the clean-up there is no step and no file.
  pub last_round :
      (c : Context) (m : Machine)
      → StatusAt config "clean_up" c m.status
      → StepAt config "clean_up" [] c
      → (m' : Machine) × (one_round tools "clean_up" m ≡ (ok true, m'))
        × (m'.status.step ≡ none)
        × (m'.yaml_file ≡ none)
  unfolding one_round save cleaned
  last_round c m at place =
      let move = move_to_next_step "clean_up" in
      (
        record (cleaned m) { status = record m.status { step = none } },
        (>>=-result (perform_step tools "clean_up") true (next_round "clean_up")
              (record m { yaml_file = some m.status }) (perform_step-clean_up m)
            ∙ >>=-result move tt (λ _. return true) (cleaned m)
                (moves "clean_up" [] (cleaned m) refl place.tail at.same_config)),
        refl,
        refl,
      )
