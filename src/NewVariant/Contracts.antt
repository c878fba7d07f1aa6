-- ===== src/NewVariant/Contracts.antt =====
-- What a step of contrib/variant/new_variant.py may do to the status and to the yaml file, and how
-- it may end. A KeyError is never among the ends.
use cros_dev_util.Base.{
  String, Bool, true, false, Option, none, some, ◌∷◌, ◌≡◌, refl, sym, ◌∙◌, ap, subst, Result, ok,
  err, key_error,
}
use cros_dev_util.NewVariant.State.{
  CommitData, VariantStatus, BoardModule, Event, Machine, Action, ◌>>=◌, found,
}
use cros_dev_util.NewVariant.Typing.{Context}
use cros_dev_util.NewVariant.Commits.{Holds}

-- A status at a step of a board, with what the context says on record.
pub record StatusAt (config : BoardModule) (step : String) (c : Context) (s : VariantStatus)
    : Type 0 where
  pub same_config : s.config ≡ config
  pub same_step : s.step ≡ some step
  pub holds : Holds c s.commits

-- The yaml file from which the step can be begun again.
abbrev pub FileAt : BoardModule → String → Context → Machine → Type 0
FileAt config step c m = (s : VariantStatus) × (m.yaml_file ≡ some s) × StatusAt config step c s

-- Every KeyError is excluded, and any other exception leaves the machine in `Failed`.
abbrev pub Ensures :
    {T : Type 0} → (Machine → Type 0) → (T → Machine → Type 0) → Result T × Machine → Type 0
Ensures Failed Done (ok t, m) = Done t m
Ensures Failed Done (err key_error, m) = ⊥
Ensures Failed Done (err _, m) = Failed m

pub Ensures-bind :
    {T U : Type 0} (Failed : Machine → Type 0) (Middle : T → Machine → Type 0)
    (Done : U → Machine → Type 0) (first : Action T) (rest : T → Action U) (m : Machine)
    → Ensures Failed Middle (first m)
    → ((t : T) (m' : Machine) → Middle t m' → Ensures Failed Done (rest t m'))
    → Ensures Failed Done ((first >>= rest) m)
Ensures-bind {T = T} {U = U} Failed Middle Done first rest m h k = go (first m) h
  where
    go :
        (r : Result T × Machine)
        → Ensures Failed Middle r
        → Ensures Failed Done (elim r.0 [ ok t ↦ rest t r.1 | err exn ↦ (err exn, r.1) ])
    go (ok t, m') h' = k t m' h'
    go (err key_error, m') h' = h'
    go (err _, m') h' = h'

pub Ensures-weaken :
    {T : Type 0} (Failed Failed' : Machine → Type 0) (Done Done' : T → Machine → Type 0)
    (r : Result T × Machine)
    → ((m : Machine) → Failed m → Failed' m)
    → ((t : T) (m : Machine) → Done t m → Done' t m)
    → Ensures Failed Done r
    → Ensures Failed' Done' r
Ensures-weaken Failed Failed' Done Done' (ok t, m) f k h = k t m h
Ensures-weaken Failed Failed' Done Done' (err key_error, m) f k h = h
Ensures-weaken Failed Failed' Done Done' (err _, m) f k h = f m h

-- A first action whose result is known.
pub >>=-result :
    {T U : Type 0} (first : Action T) (t : T) (rest : T → Action U) (m : Machine) {m' : Machine}
    → first m ≡ (ok t, m')
    → (first >>= rest) m ≡ rest t m'
>>=-result {T = T} {U = U} first t rest m e =
    ap
      (λ (r : Result T × Machine). elim r.0 as (λ _. Result U × Machine) [
        | ok t ↦ rest t r.1
        | err exn ↦ (err exn, r.1)
      ])
      e

-- status.commits[key] where it is there.
pub from_entry :
    {U : Type 0} (Failed : Machine → Type 0) (Done : U → Machine → Type 0) (o : Option CommitData)
    (commit : CommitData) (rest : CommitData → Action U) (m : Machine)
    → o ≡ some commit
    → Ensures Failed Done (rest commit m)
    → Ensures Failed Done ((found key_error o >>= rest) m)
from_entry Failed Done none commit rest m e h = cc
from_entry Failed Done (some c) commit rest m e h =
    subst (λ x. Ensures Failed Done (rest x m))
      (ap (λ o. elim o as (λ _. CommitData) [ none ↦ commit | some x ↦ x ]) (sym e)) h

-- During a step: the status has what `now` says, and the file what `start` says.
pub record During (config : BoardModule) (step : String) (start now : Context) (m : Machine)
    : Type 0 where
  pub status_at : StatusAt config step now m.status
  pub file_at : FileAt config step start m

pub During-moved :
    (config : BoardModule) (step : String) (start now : Context) (e : Event) (m : Machine)
    → During config step start now m
    → During config step start now (record m { events = e ∷ m.events })
During-moved config step start now e m d = record { status_at = d.status_at; file_at = d.file_at }

-- Behind a step that returns: on True the status has what `after` says.
abbrev pub Ended : BoardModule → String → Context → Context → Bool → Machine → Type 0
Ended config step start after true m = During config step start after m
Ended config step start after false m = FileAt config step start m

-- An action that keeps the status and the file.
abbrev pub Keeps : {T : Type 0} → Machine → Result T × Machine → Type 0
Keeps m (r, m') = (m'.status ≡ m.status) × (m'.yaml_file ≡ m.yaml_file) × (r ≡ err key_error → ⊥)

pub Keeps-Ended :
    (config : BoardModule) (step : String) (start now : Context) (m : Machine)
    (r : Result Bool × Machine)
    → During config step start now m
    → Keeps m r
    → Ensures (FileAt config step start) (Ended config step start now) r
Keeps-Ended config step start now m (ok true, m') d (s, f, _) = record {
  status_at = subst (StatusAt config step now) (sym s) d.status_at;
  file_at = let (v, e, at) = d.file_at in (v, f ∙ e, at);
}
Keeps-Ended config step start now m (ok false, m') d (s, f, _) =
    let (v, e, at) = d.file_at in (v, f ∙ e, at)
Keeps-Ended config step start now m (err key_error, m') d (s, f, n) = n refl
Keeps-Ended config step start now m (err _, m') d (s, f, _) =
    let (v, e, at) = d.file_at in (v, f ∙ e, at)

pub Keeps-bind :
    {T U : Type 0} (first : Action T) (rest : T → Action U) (m : Machine)
    → Keeps m (first m)
    → ((t : T) (m' : Machine) → Keeps m' (rest t m'))
    → Keeps m ((first >>= rest) m)
Keeps-bind {T = T} {U = U} first rest m h k = go (first m) h
  where
    go :
        (r : Result T × Machine)
        → Keeps m r
        → Keeps m
            (elim r.0 as (λ _. Result U × Machine) [ ok t ↦ rest t r.1 | err exn ↦ (err exn, r.1) ])
    go (ok t, m') (s, f, _) = let (s', f', n) = k t m' in (s' ∙ s, f' ∙ f, n)
    go (err exn, m') (s, f, n) = (
      s,
      f,
      λ e.
          n (ap (λ (r : Result U). elim r as (λ _. Result T) [ ok _ ↦ err exn | err x ↦ err x ]) e),
    )
