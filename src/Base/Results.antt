-- ===== src/Base/Results.antt =====
-- Python's exceptions as values. A function that may raise returns a `Result`.
use mathlib.Core.Path.{◌≡◌, refl}
use mathlib.Core.Bool.{Bool, true, false}
use mathlib.Core.Option.{Option, none, some}
use mathlib.Core.List.{List, [], ◌∷◌}
use native.Mathlib.Omega.{arith}

-- The exception classes that the modelled code raises or catches.
pub data Exn : Type 0 where
  invalid_request key_error value_error type_error io_error struct_error http_error : Exn
  sql_error index_error system_exit : Exn

-- A raised exception comes first: nothing behind it runs.
pub data Result {κ} (T : Type κ) : Type κ where
  err : Exn → Result T
  ok : T → Result T

-- Statements in sequence.
infixl 6 ◌>>=◌ ◌>>◌
abbrev pub ◌>>=◌ {κ ν} : {T : Type κ} {U : Type ν} → Result T → (T → Result U) → Result U
err exn >>= rest = err exn
ok t >>= rest = rest t

abbrev pub ◌>>◌ {κ} : {U : Type κ} → Result (Unit {0}) → Result U → Result U
check >> rest = check >>= λ done. rest

-- `if not test: raise exn`
abbrev pub guard : Bool → Exn → Result (Unit {0})
guard test exn = elim test [ true ↦ ok tt | false ↦ err exn ]

-- A lookup that raises where there is nothing.
abbrev pub or_raise {ℓ} : {A : Type ℓ} → Option A → Exn → Result A
or_raise none e = err e
or_raise (some a) e = ok a

-- `[f(x) for x in xs]` where `f` may raise: the first exception ends the loop.
abbrev pub map_result {ℓ κ} : {A : Type ℓ} {B : Type κ} → (A → Result B) → List A → Result (List B)
map_result f [] = ok []
map_result f (x ∷ xs) = do y ← f x; ys ← map_result f xs; ok (y ∷ ys)

-- A sequence that returns: its first statement does, and so does the rest at what that returns.
pub >>=-eq-ok {κ ν} :
    {T : Type κ} {U : Type ν} (first : Result T) (rest : T → Result U) {u : U}
    → (first >>= rest) ≡ ok u
    → (t : T) × (first ≡ ok t) × (rest t ≡ ok u)
>>=-eq-ok (err exn) rest returned = cc
>>=-eq-ok (ok t) rest returned = (t, refl, returned)

module _ {ℓ κ} {A : Type ℓ} {B : Type κ} (f : A → Result B) where
  pub map_result-cons :
      (x : A) (xs : List A) (y : B) (ys : List B)
      → map_result f (x ∷ xs) ≡ ok (y ∷ ys)
      → (f x ≡ ok y) × (map_result f xs ≡ ok ys)
  map_result-cons x xs y ys h = ground arith

  pub map_result-nil : (x : A) (xs : List A) → map_result f (x ∷ xs) ≡ ok [] → ⊥
  map_result-nil x xs h = ground arith

pub ok-injective {κ} : {T : Type κ} {s t : T} → ◌≡◌ {A = Result T} (ok s) (ok t) → s ≡ t
ok-injective same = cc
