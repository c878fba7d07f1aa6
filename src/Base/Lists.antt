-- ===== src/Base/Lists.antt =====
-- Lists measured by native numbers, and predicates on lists by recursion.
use Prim.Native.Nat.{ℕ, zero, suc, ◌+◌, ◌-◌, ◌≤◌, min}
use mathlib.Core.Path.{◌≡◌, refl, ap, sym, subst}
use mathlib.Core.Logic.{◌⊎◌, inl, inr}
use mathlib.Core.Bool.{Bool, true, false, ◌||◌}
use mathlib.Core.List.{List, [], ◌∷◌, ◌++◌, map}
use mathlib.Core.Option.{Option, none, some}
use native.Mathlib.Omega.{arith}
use Prim.Native.String.{String}
use text.Mathlib.Text.{◌==◌ as str_eq}
use text.Mathlib.TextEquality.{eq_iff}
use cros_dev_util.Base.Tests.{if◌then◌else◌, ◌==◌, Bool-cases}

module _ {ℓ} {A : Type ℓ} where
  abbrev pub length : List A → ℕ
  length [] = 0
  length (x ∷ xs) = suc (length xs)

  abbrev pub get_elem? : List A → ℕ → Option A
  get_elem? [] i = none
  get_elem? (x ∷ xs) zero = some x
  get_elem? (x ∷ xs) (suc i) = get_elem? xs i

  abbrev pub take : ℕ → List A → List A
  take zero xs = []
  take (suc n) [] = []
  take (suc n) (x ∷ xs) = x ∷ take n xs

  abbrev pub drop : ℕ → List A → List A
  drop zero xs = xs
  drop (suc n) [] = []
  drop (suc n) (x ∷ xs) = drop n xs

  abbrev pub replicate : ℕ → A → List A
  replicate zero a = []
  replicate (suc n) a = a ∷ replicate n a

  -- `[x for x in xs if p(x)]`
  abbrev pub filter_by : (A → Bool) → List A → List A
  filter_by p [] = []
  filter_by p (x ∷ xs) = let rest = filter_by p xs in if p x then x ∷ rest else rest

  -- `next((x for x in xs if p(x)), None)`
  abbrev pub first_by : (A → Bool) → List A → Option A
  first_by p [] = none
  first_by p (x ∷ xs) = let rest = first_by p xs in if p x then some x else rest

  -- `if not xs`
  abbrev pub is_empty : List A → Bool
  is_empty [] = true
  is_empty (x ∷ xs) = false

  pub length-append : (xs ys : List A) → length (xs ++ ys) ≡ length xs + length ys
  length-append [] ys = omega arith
  length-append (x ∷ xs) ys = omega (arith, length-append xs ys)

  pub length-replicate : (n : ℕ) (a : A) → length (replicate n a) ≡ n
  length-replicate zero a = refl
  length-replicate (suc n) a = ap suc (length-replicate n a)

  pub length-take : (n : ℕ) (xs : List A) → length (take n xs) ≡ min n (length xs)
  length-take zero xs = omega arith
  length-take (suc n) [] = omega arith
  length-take (suc n) (x ∷ xs) = omega (arith, length-take n xs)

  pub length-drop : (n : ℕ) (xs : List A) → length (drop n xs) ≡ length xs - n
  length-drop zero xs = omega arith
  length-drop (suc n) [] = omega arith
  length-drop (suc n) (x ∷ xs) = omega (arith, length-drop n xs)

  pub take-append : (xs ys : List A) → take (length xs) (xs ++ ys) ≡ xs
  take-append [] ys = refl
  take-append (x ∷ xs) ys = ap (λ l. x ∷ l) (take-append xs ys)

  pub drop-append : (xs ys : List A) → drop (length xs) (xs ++ ys) ≡ ys
  drop-append [] ys = refl
  drop-append (x ∷ xs) ys = drop-append xs ys

  pub length-filter_by-le : (p : A → Bool) (xs : List A) → length (filter_by p xs) ≤ length xs
  length-filter_by-le p [] = omega arith
  length-filter_by-le p (x ∷ xs) = ground (arith, length-filter_by-le p xs)

-- A predicate of every element, and membership, by recursion.
module _ {ℓ κ} {A : Type ℓ} where
  abbrev pub All : (A → Type κ) → List A → Type κ
  All P [] = Unit
  All P (x ∷ xs) = P x × All P xs

pub length-map {ℓ κ} :
    {A : Type ℓ} {B : Type κ} (f : A → B) (xs : List A) → length (map f xs) ≡ length xs
length-map f [] = refl
length-map f (x ∷ xs) = ap suc (length-map f xs)

-- `n in xs` for numbers
abbrev pub elem : ℕ → List ℕ → Bool
elem n [] = false
elem n (x ∷ xs) = n == x || elem n xs

-- Membership, by recursion.
abbrev pub In : {A : Type 0} → A → List A → Type 0
In a [] = ⊥
In a (x ∷ xs) = (a ≡ x) ⊎ In a xs

module _ {A : Type 0} (p : A → Bool) where
  pub first_by_sound : (xs : List A) (a : A) → first_by p xs ≡ some a → In a xs × (p a ≡ true)
  first_by_sound [] a h = cc
  first_by_sound (x ∷ xs) a h = ground (arith, first_by_sound xs a)

  pub first_by-none : (xs : List A) → first_by p xs ≡ none → All (λ x. p x ≡ false) xs
  first_by-none [] h = tt
  first_by-none (x ∷ xs) h = ground (arith, first_by-none xs)

  pub first_by-some :
      (xs : List A) (a : A) → In a xs → p a ≡ true → (b : A) × (first_by p xs ≡ some b)
  first_by-some [] a m h = absurd m
  first_by-some (x ∷ xs) a m h = elim (Bool-cases (p x)) [
    | inl here ↦ (x, rw here)
    | inr there ↦ let (b, e) = first_by-some xs a (ground arith) h in (b, rw there e)
  ]

  pub In-filter_by : (xs : List A) (a : A) → In a (filter_by p xs) → In a xs × (p a ≡ true)
  In-filter_by [] a h = absurd h
  In-filter_by (x ∷ xs) a h = ground (arith, In-filter_by xs a)

  pub filter_by-In : (xs : List A) (a : A) → In a xs → p a ≡ true → In a (filter_by p xs)
  filter_by-In [] a h e = h
  filter_by-In (x ∷ xs) a h e = ground (arith, filter_by-In xs a)

pub All-In : {A : Type 0} (P : A → Type 0) (xs : List A) (a : A) → All P xs → In a xs → P a
All-In P [] a h m = absurd m
All-In P (x ∷ xs) a h (inl e) = subst P (sym e) h.0
All-In P (x ∷ xs) a h (inr m) = All-In P xs a h.1 m

-- `s in xs` for strings
abbrev pub str_elem : String → List String → Bool
str_elem s [] = false
str_elem s (x ∷ xs) = str_eq s x || str_elem s xs

pub str_elem-In : (s : String) (xs : List String) → str_elem s xs ≡ true → In s xs
str_elem-In s [] h = cc
str_elem-In s (x ∷ xs) h = ground (arith, eq_iff s x, str_elem-In s xs)

pub In-str_elem : (s : String) (xs : List String) → In s xs → str_elem s xs ≡ true
In-str_elem s [] m = absurd m
In-str_elem s (x ∷ xs) m = ground (arith, eq_iff s x, In-str_elem s xs)

-- No string twice.
abbrev pub Once : List String → Type 0
Once [] = Unit
Once (x ∷ xs) = (str_elem x xs ≡ false) × Once xs
