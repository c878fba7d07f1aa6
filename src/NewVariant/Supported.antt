-- ===== src/NewVariant/Supported.antt =====
-- The steps of the boards of contrib/variant against the check of the steps.
use cros_dev_util.Base.{
  ◌≤◌, length, String, Bool, true, false, Option, none, some, ◌≡◌, refl, ap, subst, arith, inl, inr,
  Bool-cases, str_eq, eq_iff, if◌then◌else◌,
}
use cros_dev_util.NewVariant.State.{BoardModule}
use cros_dev_util.NewVariant.Boards.{
  import_board, hatch, puff, ambassador, trembyle, volteer, waddledee,
}
use cros_dev_util.NewVariant.Typing.{check_board, check_steps, context_after, all_once}

-- The steps pass the check, and there are at most 17 of them.
abbrev HasGoodSteps : BoardModule → Type 0
HasGoodSteps config = (check_board config ≡ true) × (length config.step_list ≤ 17)

hatch-HasGoodSteps : HasGoodSteps hatch
unfolding check_board check_steps context_after all_once
hatch-HasGoodSteps = (refl, omega arith)

puff-HasGoodSteps : HasGoodSteps puff
unfolding check_board check_steps context_after all_once
puff-HasGoodSteps = (refl, omega arith)

ambassador-HasGoodSteps : HasGoodSteps ambassador
unfolding check_board check_steps context_after all_once
ambassador-HasGoodSteps = (refl, omega arith)

volteer-HasGoodSteps : HasGoodSteps volteer
unfolding check_board check_steps context_after all_once
volteer-HasGoodSteps = (refl, omega arith)

waddledee-HasGoodSteps : HasGoodSteps waddledee
unfolding check_board check_steps context_after all_once
waddledee-HasGoodSteps = (refl, omega arith)

data IsGood : Option BoardModule → Type 0 where
  unknown : IsGood none
  known : {config : BoardModule} → HasGoodSteps config → IsGood (some config)

good_if :
    (test : Bool) (config : BoardModule) (other : Option BoardModule)
    → HasGoodSteps config
    → IsGood other
    → IsGood (if test then some config else other)
good_if true config other h o = known h
good_if false config other h o = o

good_of :
    (o : Option BoardModule) (config : BoardModule)
    → o ≡ some config
    → IsGood o
    → HasGoodSteps config
good_of none config e h = cc e
good_of (some c) config e (known h) =
    subst HasGoodSteps (ap (λ o. elim o as (λ _. BoardModule) [ none ↦ c | some x ↦ x ]) e) h

not_trembyle :
    (board : String) (other : Option BoardModule)
    → ¬ (board ≡ "trembyle")
    → IsGood other
    → IsGood (if str_eq board "trembyle" then some trembyle else other)
not_trembyle board other differs h = elim (Bool-cases (str_eq board "trembyle")) [
  | inl same ↦ elim (differs ((eq_iff board "trembyle").0 same)) [ ]
  | inr other' ↦ rw other' h
]

-- The steps of every supported reference board but trembyle pass the check: each step finds the
-- commits and the CLs that it reads, no step comes twice, and the clean-up is the last of at most
-- 17 steps.
pub import_board-checked :
    (board : String) (config : BoardModule)
    → ¬ (board ≡ "trembyle")
    → import_board board ≡ some config
    → (check_board config ≡ true) × (length config.step_list ≤ 17)
unfolding import_board
import_board-checked board config differs e = good_of (import_board board) config e (
    good_if _ hatch _ hatch-HasGoodSteps (
      good_if _ puff _ puff-HasGoodSteps (
        good_if _ ambassador _ ambassador-HasGoodSteps (
          not_trembyle board _ differs (
            good_if _ volteer _ volteer-HasGoodSteps
              (good_if _ waddledee none waddledee-HasGoodSteps unknown))))))
