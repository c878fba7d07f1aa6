-- ===== src/NewVariant/Missing.antt =====
-- calc_cq_depend of contrib/variant/new_variant.py where a step that `depends` names has no entry in
-- status.commits.
use cros_dev_util.Base.{
  String, Bool, true, false, ◌||◌, Option, none, some, List, [], ◌∷◌, ◌≡◌, refl, sym, ◌∙◌, ap,
  subst, inl, inr, arith, Bool-cases, Option-cases, Result, ok, err, key_error, dict_get, dict_set,
  dict_get-dict_set, str_elem, str_eq, eq_iff,
}
use cros_dev_util.NewVariant.State.{
  CommitData, Machine, Action, ◌>>=◌, ◌>>◌, return, found, put_commit, set_commits,
}
use cros_dev_util.NewVariant.Depend.{
  cl_link, cq_depend_line, add_link, with_link, write_line, depend_links, calc_commits,
  calc_cq_depend,
}

-- `depends` names the step: for a commit that gets a line, or as a dependency.
abbrev pub names : String → List (String × List String) → Bool
names step [] = false
names step ((key, keys) ∷ depends) = (str_eq key step || str_elem step keys) || names step depends

-- An action that leaves the machine as it is: it ends with `r`.
after_first :
    {T U : Type 0} (first : Action T) (rest : T → Action U) (m : Machine) (r : Result T)
    → first m ≡ (r, m)
    → (first >>= rest) m
      ≡ elim r as (λ _. Result U × Machine) [ ok t ↦ rest t m | err exn ↦ (err exn, m) ]
after_first {T = T} {U = U} first rest m r e =
    ap
      (λ (p : Result T × Machine). elim p.0 as (λ _. Result U × Machine) [
        | ok t ↦ rest t p.1
        | err exn ↦ (err exn, p.1)
      ])
      e

module _ (step : String) where
  abbrev Lacks : Machine → Type 0
  Lacks m = dict_get step m.status.commits ≡ none

  -- The links of some commits: the machine stays, and there are none if the step is among them.
  abbrev LinksOf : List String → Machine → Result (Option (List String)) × Machine → Type 0
  LinksOf keys m p =
      (r : Result (Option (List String))) × (p ≡ (r, m))
      × (str_elem step keys ≡ true → (links : List String) → r ≡ ok (some links) → ⊥)

  linked :
      (keys : List String) (gerrit number : Option String) (rest : Action (Option (List String)))
      (m : Machine)
      → LinksOf keys m (rest m)
      → LinksOf keys m (with_link gerrit number rest m)
  linked keys none number rest m h = (ok none, refl, λ _ links e. cc e)
  linked keys (some instance') none rest m h = (ok none, refl, λ _ links e. cc e)
  linked keys (some instance') (some number) rest m (err exn, e, n) = (
    err exn,
    after_first rest (λ links. return (add_link (cl_link instance' number) links)) m (err exn) e,
    λ _ links e. cc e,
  )
  linked keys (some instance') (some number) rest m (ok none, e, n) = (
    ok none,
    after_first rest (λ links. return (add_link (cl_link instance' number) links)) m (ok none) e,
    λ _ links e. cc e,
  )
  linked keys (some instance') (some number) rest m (ok (some links), e, n) = (
    _,
    after_first rest (λ links. return (add_link (cl_link instance' number) links)) m
        (ok (some links)) e,
    λ k _ _. n k links refl,
  )

  -- An entry that is found is not the step's.
  other_step :
      (key : String) (commit : CommitData) (m : Machine)
      → Lacks m
      → dict_get key m.status.commits ≡ some commit
      → str_eq key step ≡ false
  other_step key commit m lacks e = elim (Bool-cases (str_eq key step)) [
    | inl same ↦ cc (
        sym lacks
        ∙ subst (λ k. dict_get k m.status.commits ≡ some commit) ((eq_iff key step).0 same) e)
    | inr other ↦ other
  ]

  depend_links-LinksOf :
      (keys : List String) (m : Machine) → Lacks m → LinksOf keys m (depend_links keys m)
  unfolding depend_links
  depend_links-LinksOf [] m lacks = (ok (some []), refl, λ e _ _. cc e)
  depend_links-LinksOf (key ∷ keys) m lacks =
      let rest : CommitData → Action (Option (List String)) =
        λ commit. with_link commit.gerrit commit.cl_number (depend_links keys) in
      elim (Option-cases (dict_get key m.status.commits)) [
        | inl e ↦ (err key_error, ap (λ o. (found key_error o >>= rest) m) e, λ _ links e. cc e)
        | inr (commit, e) ↦
            let (r, h, n) =
              linked keys commit.gerrit commit.cl_number (depend_links keys) m
                (depend_links-LinksOf keys m lacks) in
            (
              r,
              ap (λ o. (found key_error o >>= rest) m) e ∙ h,
              λ k links.
                  n
                    (ground
                      (arith, k, other_step key commit m lacks e, eq_iff key step, eq_iff step key))
                    links,
            )
      ]

  -- The rest of the loop behind a line that is written.
  written :
      (key : String) (rest : Action Bool) (links : List String) (m : Machine)
      → Lacks m
      → (str_eq key step ≡ false → (m' : Machine) → Lacks m' → ¬ ((rest m').0 ≡ ok true))
      → ¬ ((write_line key rest (some links) m).0 ≡ ok true)
  written key rest links m lacks rests returned =
      let line : CommitData → CommitData =
        λ c. record c { cq_depend = some (cq_depend_line links) } in
      let write : CommitData → Action Bool = λ c. put_commit key (line c) >> rest in
      elim (Option-cases (dict_get key m.status.commits)) [
        | inl e ↦ cc (sym returned ∙ ap (λ o. ((found key_error o >>= write) m).0) e)
        | inr (commit, e) ↦
            let other = other_step key commit m lacks e in
            rests other (set_commits (dict_set key (line commit) m.status.commits) m)
              (dict_get-dict_set key step (line commit) m.status.commits ∙ rw other lacks)
              (sym (ap (λ o. ((found key_error o >>= write) m).0) e) ∙ returned)
      ]

  calculated :
      (key : String) (keys : List String) (rest : Action Bool) (m : Machine)
      (r : Result (Option (List String)))
      → Lacks m
      → (str_elem step keys ≡ true → (links : List String) → r ≡ ok (some links) → ⊥)
      → (str_eq key step ≡ false
          → str_elem step keys ≡ false
          → (m' : Machine) → Lacks m'
          → ¬ ((rest m').0 ≡ ok true))
      → ¬ (
          (elim r as (λ _. Result Bool × Machine) [
            | ok t ↦ write_line key rest t m
            | err exn ↦ (err exn, m)
          ]).0
          ≡ ok true)
  calculated key keys rest m (err exn) lacks n rests returned = cc returned
  calculated key keys rest m (ok none) lacks n rests returned = cc returned
  calculated key keys rest m (ok (some links)) lacks n rests returned =
      elim (Bool-cases (str_elem step keys)) [
        | inl k ↦ n k links refl
        | inr k ↦ written key rest links m lacks (λ other. rests other k) returned
      ]

  calc_commits-Missing :
      (depends : List (String × List String)) (m : Machine)
      → Lacks m
      → names step depends ≡ true
      → (calc_commits depends m).0 ≡ ok true
      → ⊥
  unfolding calc_commits
  calc_commits-Missing [] m lacks named returned = cc named
  calc_commits-Missing ((key, keys) ∷ depends) m lacks named returned =
      let (r, e, n) = depend_links-LinksOf keys m lacks in
      let rest = calc_commits depends in
      calculated key keys rest m r lacks n
        (λ other absent m' lacks' returned'.
          calc_commits-Missing depends m' lacks' (ground (arith, named, other, absent)) returned')
        (sym (
            ap (λ (p : Result Bool × Machine). p.0)
              (after_first (depend_links keys) (write_line key rest) m r e))
          ∙ returned)

  -- Where `depends` names a step that has no entry in status.commits, calc_cq_depend does not
  -- return True.
  pub calc_cq_depend-Missing :
      (m : Machine)
      → dict_get step m.status.commits ≡ none
      → names step m.status.config.depends ≡ true
      → ¬ ((calc_cq_depend m).0 ≡ ok true)
  unfolding calc_cq_depend
  calc_cq_depend-Missing m lacks named returned =
      calc_commits-Missing m.status.config.depends m lacks named returned
