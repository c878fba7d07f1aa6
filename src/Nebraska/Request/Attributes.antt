-- ===== src/Nebraska/Request/Attributes.antt =====
-- What `_CheckAttributesAndReturnIt` of nebraska/nebraska.py accepts, and what it returns.
use cros_dev_util.Base.{
  String, ◌≡◌, refl, ◌↔◌, ◌⊎◌, inl, inr, Bool, true, false, ◌&&◌, not, Option, List, [], ◌∷◌, arith,
  ok, filter_by, opt_eq, opt_eq_iff, All, Bool-cases,
}
use cros_dev_util.Nebraska.Request.{opt_elem, unique, pop_unique, check_attributes}

module _ (v : Option String) where
  filter-nil :
      (xs : List (Option String)) → filter_by (λ y. not (opt_eq y v)) xs ≡ [] → All (λ a. a ≡ v) xs
  filter-nil [] h = tt
  filter-nil (x ∷ xs) h = ground (arith, opt_eq_iff x v, filter-nil xs)

  filter_const :
      (x : Option String) (xs : List (Option String))
      → x ≡ v
      → All (λ a. a ≡ v) xs
      → filter_by (λ y. not (opt_eq y x)) xs ≡ []
  filter_const x [] e h = refl
  filter_const x (y ∷ ys) e h = ground (arith, opt_eq_iff y x, filter_const x ys e h.1)

  filter-All :
      (p : Option String → Bool) (xs : List (Option String))
      → All (λ a. a ≡ v) xs
      → All (λ a. a ≡ v) (filter_by p xs)
  filter-All p [] h = tt
  filter-All p (x ∷ xs) h = ground (arith, filter-All p xs h.1)

  unique-All : (xs : List (Option String)) → All (λ a. a ≡ v) xs → All (λ a. a ≡ v) (unique xs)
  unfolding unique
  unique-All [] h = tt
  unique-All (x ∷ xs) h = (h.0, filter-All _ (unique xs) (unique-All xs h.1))

All-filter :
    (v x : Option String) (xs : List (Option String))
    → x ≡ v
    → All (λ a. a ≡ v) (filter_by (λ y. not (opt_eq y x)) xs)
    → All (λ a. a ≡ v) xs
All-filter v x [] e h = tt
All-filter v x (y ∷ ys) e h = elim (Bool-cases (opt_eq y x)) [
  | inl same ↦ ground (arith, opt_eq_iff y x, All-filter v x ys e)
  | inr other ↦ ground (arith, opt_eq_iff y x, All-filter v x ys e)
]

All-unique :
    (v : Option String) (xs : List (Option String))
    → All (λ a. a ≡ v) (unique xs)
    → All (λ a. a ≡ v) xs
unfolding unique
All-unique v [] h = tt
All-unique v (x ∷ xs) h = (h.0, All-unique v xs (All-filter v x (unique xs) h.0 h.1))

pop_unique-cons :
    (ig v y : Option String) (ys : List (Option String))
    → pop_unique ig (y ∷ ys) ≡ ok v
    → (y ≡ v) × (ys ≡ [])
unfolding pop_unique
pop_unique-cons ig v y [] h = ground arith
pop_unique-cons ig v y (z ∷ zs) h = cc

-- One value was left, or none.
pop_unique-ok :
    (ig v : Option String) (ys : List (Option String))
    → pop_unique ig (unique ys) ≡ ok v
    → ((ys ≡ []) × (v ≡ ig)) ⊎ (All (λ a. a ≡ v) ys × (opt_elem v ys ≡ true))
unfolding unique
pop_unique-ok ig v [] h = inl (refl, unfold pop_unique in (ground arith))
pop_unique-ok ig v (y ∷ ys) h =
    let (first, rest) = pop_unique-cons ig v y (filter_by (λ x. not (opt_eq x y)) (unique ys)) h in
    inr (
      (first, All-unique v ys (All-filter v y (unique ys) first (rw rest tt))),
      ground (arith, opt_eq_iff v y),
    )

unique_const :
    (v : Option String) (y : Option String) (ys : List (Option String))
    → All (λ a. a ≡ v) (y ∷ ys)
    → unique (y ∷ ys) ≡ v ∷ []
unfolding unique
unique_const v y ys h = ground (arith, filter_const v y (unique ys) h.0 (unique-All v ys h.1))

-- What is left when the ignored value is dropped.
module _ (ig : Option String) where
  All-kept :
      (v : Option String) (xs : List (Option String))
      → All (λ a. a ≡ v) (filter_by (λ x. not (opt_eq x ig)) xs)
      → All (λ a. (a ≡ ig) ⊎ (a ≡ v)) xs
  All-kept v [] h = tt
  All-kept v (x ∷ xs) h = elim (Bool-cases (opt_eq x ig)) [
    | inl same ↦ ground (arith, opt_eq_iff x ig, All-kept v xs)
    | inr other ↦ ground (arith, opt_eq_iff x ig, All-kept v xs)
  ]

  kept-All :
      (v : Option String) (xs : List (Option String))
      → All (λ a. (a ≡ ig) ⊎ (a ≡ v)) xs
      → All (λ a. a ≡ v) (filter_by (λ x. not (opt_eq x ig)) xs)
  kept-All v [] h = tt
  kept-All v (x ∷ xs) h = ground (arith, opt_eq_iff x ig, kept-All v xs h.1)

  elem-kept :
      (v : Option String) (xs : List (Option String))
      → opt_elem v (filter_by (λ x. not (opt_eq x ig)) xs) ≡ true
      → opt_elem v xs ≡ true
  elem-kept v [] h = h
  elem-kept v (x ∷ xs) h = ground (arith, opt_eq_iff x ig, elem-kept v xs)

  kept-elem :
      (v : Option String) (xs : List (Option String))
      → opt_eq v ig ≡ false
      → opt_elem v xs ≡ true
      → opt_elem v (filter_by (λ x. not (opt_eq x ig)) xs) ≡ true
  kept-elem v [] ne h = h
  kept-elem v (x ∷ xs) ne h =
      ground (arith, opt_eq_iff x ig, opt_eq_iff v x, opt_eq_iff v ig, kept-elem v xs)

-- `v` is what all values agree on, those that are ignored apart, and it is one of them unless it is
-- the ignored value itself; where every app must have a value, none is ignored.
pub record Agrees (all_attrs : List (Option String)) (in_all : Bool) (ig v : Option String)
    : Type 0 where
  pub agree : All (λ a. (a ≡ ig) ⊎ (a ≡ v)) all_attrs
  pub origin : (v ≡ ig) ⊎ (opt_elem v all_attrs ≡ true)
  pub complete : (in_all && opt_elem ig all_attrs) ≡ false

module _ (xs : List (Option String)) (in_all : Bool) (ig v : Option String) where
  abbrev kept : List (Option String)
  kept = filter_by (λ x. not (opt_eq x ig)) xs

  check_attributes-parts :
      check_attributes xs in_all ig ≡ ok v
      → ((in_all && opt_elem ig xs) ≡ false) × (pop_unique ig (unique kept) ≡ ok v)
  unfolding check_attributes
  check_attributes-parts h = elim (Bool-cases (in_all && opt_elem ig xs)) [
    | inl missing ↦ cc (rw missing at h)
    | inr complete ↦ (complete, rw complete at h)
  ]

  check_attributes_sound : check_attributes xs in_all ig ≡ ok v → Agrees xs in_all ig v
  check_attributes_sound h =
      let (complete, popped) = check_attributes-parts h in
      elim (pop_unique-ok ig v kept popped) [
        | inl (empty, same) ↦ record {
          agree = All-kept ig v xs (rw empty tt);
          origin = inl same;
          complete = complete;
        }
        | inr (same, mem) ↦ record {
          agree = All-kept ig v xs same;
          origin = inr (elem-kept ig v xs mem);
          complete = complete;
        }
      ]

  pop_unique_complete :
      (ys : List (Option String))
      → All (λ a. a ≡ v) ys
      → (v ≡ ig) ⊎ (opt_elem v ys ≡ true)
      → pop_unique ig (unique ys) ≡ ok v
  unfolding pop_unique unique
  pop_unique_complete [] h origin = ground arith
  pop_unique_complete (y ∷ ys) h origin = rw (unique_const v y ys h)

  origin-kept : (v ≡ ig) ⊎ (opt_elem v xs ≡ true) → (v ≡ ig) ⊎ (opt_elem v kept ≡ true)
  origin-kept (inl same) = inl same
  origin-kept (inr mem) = elim (Bool-cases (opt_eq v ig)) [
    | inl same ↦ inl ((opt_eq_iff v ig).0 same)
    | inr other ↦ inr (kept-elem ig v xs other mem)
  ]

  check_attributes_complete : Agrees xs in_all ig v → check_attributes xs in_all ig ≡ ok v
  unfolding check_attributes
  check_attributes_complete a =
      rw a.complete (pop_unique_complete kept (kept-All ig v xs a.agree) (origin-kept a.origin))

  -- The check of an attribute across all apps returns `v` exactly when every app's value is `v` or
  -- the ignored value, `v` is the ignored value or some app's value, and, where every app must
  -- have the attribute, no app has the ignored value.
  pub check_attributes_exact : (check_attributes xs in_all ig ≡ ok v) ↔ Agrees xs in_all ig v
  check_attributes_exact = (check_attributes_sound, check_attributes_complete)
