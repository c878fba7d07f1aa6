-- ===== src/NewVariant/Unnamed.antt =====
-- abort of contrib/variant/new_variant.py where an entry of status.commits has no branch_name, as the
-- entry that find_coreboot_upstream records.
use cros_dev_util.Base.{
  String, Bool, true, false, ◌||◌, not, Option, none, some, List, [], ◌∷◌, ◌≡◌, refl, arith,
  if◌then◌else◌, is_some, Result, ok, err,
}
use cros_dev_util.NewVariant.State.{CommitData, Machine, Action, ◌>>=◌, return}
use cros_dev_util.NewVariant.Build.{Tools}
use cros_dev_util.NewVariant.Upload.{field}
use cros_dev_util.NewVariant.Depend.{was_abandoned, abandon_once, abandon_commits, abort}

-- An entry without a branch.
abbrev pub has_unnamed : List (String × CommitData) → Bool
has_unnamed [] = false
has_unnamed ((key, commit) ∷ commits) = not (is_some commit.branch_name) || has_unnamed commits

-- A sequence that returns True has a first action that returns, and so does the rest.
returned-rest :
    {T : Type 0} (first : Result T × Machine) (rest : T → Action Bool)
    → (elim first.0 as (λ _. Result Bool × Machine) [
      | ok t ↦ rest t first.1
      | err exn ↦ (err exn, first.1)
    ]).0
      ≡ ok true
    → (t : T) × (m' : Machine) × ((rest t m').0 ≡ ok true)
returned-rest (err exn, m) rest e = cc e
returned-rest (ok t, m) rest e = (t, m, e)

if_true :
    (test : Bool) (rest : Action Bool) (m : Machine)
    → ((if test then rest else return false) m).0 ≡ ok true
    → (rest m).0 ≡ ok true
if_true true rest m e = e
if_true false rest m e = cc e

named :
    (o : Option String) (rest : String → Action Bool) (m : Machine)
    → ((field o >>= rest) m).0 ≡ ok true
    → (t : String) × (is_some o ≡ true) × ((rest t m).0 ≡ ok true)
named none rest m e = cc e
named (some t) rest m e = (t, refl, e)

module _ (tools : Tools) where
  abandon_commits-Unnamed :
      (commits : List (String × CommitData)) (abandoned : List (String × String)) (m : Machine)
      → has_unnamed commits ≡ true
      → (abandon_commits tools abandoned commits m).0 ≡ ok true
      → ⊥
  unfolding abandon_commits
  abandon_commits-Unnamed [] abandoned m unnamed e = cc unnamed
  abandon_commits-Unnamed ((key, commit) ∷ commits) abandoned m unnamed e =
      let known : String → String → Bool = λ branch cwd. was_abandoned tools branch cwd abandoned in
      let rest : String → String → Action Bool = λ branch cwd.
        abandon_commits tools (if known branch cwd then abandoned else (branch, cwd) ∷ abandoned)
          commits in
      let end : String → String → Bool → Action Bool =
        λ branch cwd ended. if ended then rest branch cwd else return false in
      let abandon : String → String → Action Bool =
        λ branch cwd. abandon_once tools (known branch cwd) branch cwd >>= end branch cwd in
      let (branch, there, e1) =
        named commit.branch_name (λ b. field commit.dir >>= abandon b) m e in
      let (cwd, _, e2) = named commit.dir (abandon branch) m e1 in
      let (ended, m', e3) =
        returned-rest (abandon_once tools (known branch cwd) branch cwd m) (end branch cwd) e2 in
      abandon_commits-Unnamed commits _ m' (ground (arith, unnamed, there))
        (if_true ended (rest branch cwd) m' e3)

  -- Where an entry of status.commits has no branch_name, the step abort does not return True.
  pub abort-Unnamed :
      (m : Machine) → has_unnamed m.status.commits ≡ true → ¬ ((abort tools m).0 ≡ ok true)
  unfolding abort
  abort-Unnamed m unnamed e = abandon_commits-Unnamed m.status.commits [] m unnamed e
