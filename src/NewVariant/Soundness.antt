-- ===== src/NewVariant/Soundness.antt =====
-- The loop of contrib/variant/new_variant.py over the steps of a board that passes the check.
use cros_dev_util.Base.{
  ℕ, zero, suc, ◌<◌, length, String, Bool, true, false, Option, none, some, List, [], ◌∷◌, ◌≡◌,
  refl, sym, ◌∙◌, ap, subst, inl, inr, arith, Bool-cases, Option-cases, Result, ok, err, Exn,
  key_error, str_eq, eq_iff,
}
use cros_dev_util.NewVariant.State.{BoardModule, Machine}
use cros_dev_util.NewVariant.Build.{Tools}
use cros_dev_util.NewVariant.Run.{one_round, after_round, run_loop}
use cros_dev_util.NewVariant.Typing.{Context, context_after, check_steps, all_once}
use cros_dev_util.NewVariant.Contracts.{StatusAt, Ensures}
use cros_dev_util.NewVariant.Rounds.{
  StillAt, Tail-next, StepAt, Resumable, middle_round, last_round, Moved,
}

module _ (config : BoardModule) (c : Context) (step : String) where
  check_steps-last : check_steps config c (step ∷ []) ≡ true → step ≡ "clean_up"
  unfolding check_steps
  check_steps-last h = elim (Bool-cases (str_eq step "clean_up")) [
    | inl same ↦ (eq_iff step "clean_up").0 same
    | inr other ↦ elim (Option-cases (context_after config step c)) [
      | inl e ↦ cc (rw (other, e) at h)
      | inr (c', e) ↦ cc (rw (other, e) at h)
    ]
  ]

  check_steps-next :
      (next : String) (steps : List String)
      → check_steps config c (step ∷ next ∷ steps) ≡ true
      → (c' : Context) × (context_after config step c ≡ some c')
        × (check_steps config c' (next ∷ steps) ≡ true)
  unfolding check_steps
  check_steps-next next steps h = elim (Bool-cases (str_eq step "clean_up")) [
    | inl same ↦ cc (rw same at h)
    | inr other ↦ elim (Option-cases (context_after config step c)) [
      | inl e ↦ cc (rw (other, e) at h)
      | inr (c', e) ↦ (c', e, rw (other, e) at h)
    ]
  ]

-- The loop as a walk over the steps that are left: the steps that it has begun, in order, and how it
-- ended. It returns True behind the last step, with no file, or it stops in a step, with a file from
-- which that step can be begun again.
pub data Walk (config : BoardModule)
    : List String → List String → Result Bool → Machine → Type 0 where
  at_end : {m : Machine} → m.yaml_file ≡ none → Walk config [] [] (ok true) m
  stopped_at :
      {step : String} {steps : List String} {r : Result Bool} {m : Machine}
      → ¬ (r ≡ ok true)
      → ¬ (r ≡ err key_error)
      → StillAt config step steps m
      → Walk config (step ∷ steps) (step ∷ []) r m
  went_on :
      {step : String} {steps seen : List String} {r : Result Bool} {m : Machine}
      → Walk config steps seen r m
      → Walk config (step ∷ steps) (step ∷ seen) r m

-- How a run ends: on True there is no file, and otherwise it can be continued.
abbrev pub Stopped : BoardModule → Bool → Machine → Type 0
Stopped config true m = m.yaml_file ≡ none
Stopped config false m = Resumable config m

abbrev pub Ends : BoardModule → Result Bool × Machine → Type 0
Ends config r = Ensures (Resumable config) (Stopped config) r

stop_Ends :
    (config : BoardModule) (r : Result Bool) (m : Machine)
    → ¬ (r ≡ ok true)
    → ¬ (r ≡ err key_error)
    → Resumable config m
    → Ends config (r, m)
stop_Ends config (ok true) m other no_key_error h = elim (other refl) [ ]
stop_Ends config (ok false) m other no_key_error h = h
stop_Ends config (err key_error) m other no_key_error h = no_key_error refl
stop_Ends config (err _) m other no_key_error h = h

Walk-Ends :
    {config : BoardModule} {left seen : List String} {r : Result Bool} {m : Machine}
    → Walk config left seen r m
    → Ends config (r, m)
Walk-Ends (at_end gone) = gone
Walk-Ends {config = config} {r = r} {m = m} (stopped_at {step} {steps} other no_key_error still) =
    stop_Ends config r m other no_key_error
      (let (c, place, f) = still in (step, steps, c, place, f))
Walk-Ends (went_on more) = Walk-Ends more

module _ (tools : Tools) where
  run_loop-step :
      (fuel : ℕ) (step : String) (m : Machine)
      → m.status.step ≡ some step
      → run_loop tools (suc fuel) m
        ≡ after_round tools (run_loop tools fuel) (one_round tools step m)
  unfolding run_loop
  run_loop-step fuel step m e =
      ap
        (λ o. elim o as (λ _. Option (Result Bool × Machine)) [
          | none ↦ some (ok true, m)
          | some s ↦ after_round tools (run_loop tools fuel) (one_round tools s m)
        ])
        e

  run_loop-end :
      (fuel : ℕ) (m : Machine)
      → m.status.step ≡ none
      → run_loop tools (suc fuel) m ≡ some (ok true, m)
  unfolding run_loop
  run_loop-end fuel m e =
      ap
        (λ o. elim o as (λ _. Option (Result Bool × Machine)) [
          | none ↦ some (ok true, m)
          | some s ↦ after_round tools (run_loop tools fuel) (one_round tools s m)
        ])
        e

  -- The steps that the loop begins.
  abbrev pub visits_after : (Machine → List String) → Result Bool × Machine → List String
  visits_after rest (ok true, m) = rest m
  visits_after rest _ = []

  unfoldable pub visits : ℕ → Machine → List String
  visits zero m = []
  visits (suc fuel) m = elim m.status.step as (λ _. List String) [
    | none ↦ []
    | some step ↦ step ∷ visits_after (visits fuel) (one_round tools step m)
  ]

  visits-step :
      (fuel : ℕ) (step : String) (m : Machine)
      → m.status.step ≡ some step
      → visits (suc fuel) m ≡ step ∷ visits_after (visits fuel) (one_round tools step m)
  unfolding visits
  visits-step fuel step m e =
      ap
        (λ o. elim o as (λ _. List String) [
          | none ↦ []
          | some s ↦ s ∷ visits_after (visits fuel) (one_round tools s m)
        ])
        e

  visits-end : (fuel : ℕ) (m : Machine) → m.status.step ≡ none → visits (suc fuel) m ≡ []
  unfolding visits
  visits-end fuel m e =
      ap
        (λ o. elim o as (λ _. List String) [
          | none ↦ []
          | some s ↦ s ∷ visits_after (visits fuel) (one_round tools s m)
        ])
        e

module _ (tools : Tools) (config : BoardModule) (once : all_once config.step_list ≡ true) where
  -- The end of a loop that has begun these steps.
  abbrev Walked : List String → List String → Option (Result Bool × Machine) → Type 0
  Walked left seen o =
      (r : Result Bool) × (m' : Machine) × (o ≡ some (r, m')) × Walk config left seen r m'

  failed :
      (step next : String) (steps : List String) (c : Context) (m : Machine) (exn : Exn)
      → Ensures
          (StillAt config step (next ∷ steps))
          (Moved tools config once step next steps c)
          (err exn, m)
      → Walk config (step ∷ next ∷ steps) (step ∷ []) (err exn) m
  failed step next steps c m key_error h = elim h [ ]
  failed step next steps c m _ h = stopped_at (λ e. cc e) (λ e. cc e) h

  -- A round that is not the last, and the rest of the loop.
  Walked-after :
      (fuel : ℕ) (step next : String) (steps : List String) (c : Context)
      (p : Result Bool × Machine)
      → ((m : Machine)
          → StatusAt config next c m.status
          → Walked (next ∷ steps) (visits tools fuel m) (run_loop tools fuel m))
      → Ensures (StillAt config step (next ∷ steps)) (Moved tools config once step next steps c) p
      → Walked
          (step ∷ next ∷ steps)
          (step ∷ visits_after tools (visits tools fuel) p)
          (after_round tools (run_loop tools fuel) p)
  Walked-after fuel step next steps c (ok true, m) rest h =
      let (r, m', e, walk) = rest m h in (r, m', e, went_on walk)
  Walked-after fuel step next steps c (ok false, m) rest h =
      (ok false, m, refl, stopped_at (λ e. cc e) (λ e. cc e) h)
  Walked-after fuel step next steps c (err exn, m) rest h =
      (err exn, m, refl, failed step next steps c m exn h)

  last_step :
      (fuel : ℕ) (c : Context) (m : Machine)
      → StatusAt config "clean_up" c m.status
      → StepAt config "clean_up" [] c
      → Walked
          ("clean_up" ∷ [])
          (visits tools (suc (suc fuel)) m)
          (run_loop tools (suc (suc fuel)) m)
  last_step fuel c m at place =
      let (m', e, no_step, no_file) = last_round tools config once c m at place in
      (
        ok true,
        m',
        (run_loop-step tools (suc fuel) "clean_up" m at.same_step
            ∙ (ap (after_round tools (run_loop tools (suc fuel))) e
                ∙ run_loop-end tools fuel m' no_step)),
        subst (λ seen. Walk config ("clean_up" ∷ []) seen (ok true) m')
            (sym (
              visits-step tools (suc fuel) "clean_up" m at.same_step
              ∙ ap (λ p. "clean_up" ∷ visits_after tools (visits tools (suc fuel)) p) e
              ∙ ap (λ seen. "clean_up" ∷ seen) (visits-end tools fuel m' no_step)))
            (went_on (at_end no_file)),
      )

  -- With fuel above the number of steps that are left, the loop over the steps of a board that
  -- passes the check is a walk over them: it begins them in their order from the one in the status,
  -- returns True exactly behind the last of them, and where it stops the file says in which step.
  pub run_loop-Walk :
      (fuel : ℕ) (steps : List String) (step : String) (c : Context) (m : Machine)
      → suc (length steps) < fuel
      → StatusAt config step c m.status
      → StepAt config step steps c
      → (r : Result Bool) × (m' : Machine) × (run_loop tools fuel m ≡ some (r, m'))
        × Walk config (step ∷ steps) (visits tools fuel m) r m'
  run_loop-Walk zero steps step c m enough at place =
      let no : ⊥ = omega (arith, enough) in elim no [ ]
  run_loop-Walk (suc zero) steps step c m enough at place =
      let no : ⊥ = omega (arith, enough) in elim no [ ]
  run_loop-Walk (suc (suc fuel)) [] step c m enough at place =
      let to_end : String → Type 0 = λ s.
        StatusAt config s c m.status
        → StepAt config s [] c
        → Walked (s ∷ []) (visits tools (suc (suc fuel)) m) (run_loop tools (suc (suc fuel)) m) in
      subst to_end (sym (check_steps-last config c step place.checked)) (last_step fuel c m) at
        place
  run_loop-Walk (suc fuel) (next ∷ steps) step c m enough at place =
      let (c', e, checked) = check_steps-next config c step next steps place.checked in
      let (r, m', ended, walk) =
        Walked-after fuel step next steps c' (one_round tools step m)
          (λ m' at'.
            run_loop-Walk fuel steps next c' m' (omega (arith, enough)) at'
              (record { tail = Tail-next place.tail; checked = checked }))
          (middle_round tools config once step next steps c c' m at place e) in
      (
        r,
        m',
        run_loop-step tools fuel step m at.same_step ∙ ended,
        subst (λ seen. Walk config (step ∷ next ∷ steps) seen r m')
            (sym (visits-step tools fuel step m at.same_step)) walk,
      )

  pub run_loop-Ends :
      (fuel : ℕ) (steps : List String) (step : String) (c : Context) (m : Machine)
      → suc (length steps) < fuel
      → StatusAt config step c m.status
      → StepAt config step steps c
      → (r : Result Bool × Machine) × (run_loop tools fuel m ≡ some r) × Ends config r
  run_loop-Ends fuel steps step c m enough at place =
      let (r, m', e, walk) = run_loop-Walk fuel steps step c m enough at place in
      ((r, m'), e, Walk-Ends walk)
