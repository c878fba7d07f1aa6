-- ===== src/FindMissing/Fixes/Live.antt =====
-- The choice of get_change_id among the changes of its query.
use cros_dev_util.Base.{
  String, Bool, true, false, not, Option, none, some, List, [], ◌∷◌, ◌≡◌, refl, sym, ◌∙◌, ap, subst,
  ◌⊎◌, inl, inr, str_eq, arith, Bool-cases, In,
}
use cros_dev_util.FindMissing.Fixes.ChangeId.{
  Candidate, Choice, no_choice, is_abandoned, is_abandoned?, settled, pick_change, take_change,
  offered, answered, try_change, choose_change, get_change_id,
}

-- A row of the query offers the change on the branch.
unfoldable pub Offers : List Candidate → String → String → Type 0
Offers all change branch =
    (row : Candidate) × In row all
    × ((offered row.chrome_change row.chrome_branch ≡ some (change, branch))
        ⊎ (offered row.stable_change row.stable_branch ≡ some (change, branch)))

pick_change-cases :
    (o : Option String) (live : Bool) (new old : Choice)
    → (pick_change o live new old ≡ new)
      ⊎ ((pick_change o live new old ≡ old) × (live ≡ false) × ((c : String) × (o ≡ some c)))
pick_change-cases none live new old = inl refl
pick_change-cases (some c) true new old = inl (ground arith)
pick_change-cases (some c) false new old = elim (Bool-cases (str_eq c "")) [
  | inl h ↦ inl (rw h refl)
  | inr h ↦ inr (rw h refl, refl, (c, refl))
]

not-true : (b : Bool) → not b ≡ true → b ≡ false
not-true true h = cc
not-true false h = refl

settled-status :
    (status : Option String)
    → settled status ≡ true
    → (s : String) × (status ≡ some s) × (is_abandoned s ≡ false)
settled-status none h = cc
settled-status (some s) h = (s, refl, ground (arith, h))

module _ (get_status : String → String → Option String) (all : List Candidate) where
  -- A change that a row offers and that Gerrit knows with this status.
  abbrev Known : String → String → Type 0
  Known change found =
      (branch : String) × Offers all change branch × (get_status change branch ≡ some found)

  -- Nothing chosen yet, or a known change with its status.
  Valid : Choice → Type 0
  Valid choice =
      ((choice.change_id ≡ none) × (choice.status ≡ none))
      ⊎ ((c : String) × (s : String) × (choice.change_id ≡ some c)
          × (choice.status ≡ some s)
          × Known c s)

  -- The chosen change is not abandoned.
  abbrev Live : Choice → Type 0
  Live choice = (s : String) × (choice.status ≡ some s) × (is_abandoned s ≡ false)

  -- What taking a known change into account does.
  Taken : String → Choice → Type 0
  Taken found choice =
      Valid choice
      × ((s : String) × (choice.status ≡ some s))
      × (is_abandoned found ≡ false → choice.status ≡ some found)

  take_change-Taken :
      (change found : String) (choice : Choice)
      → Known change found
      → Valid choice
      → Taken found (take_change change found choice)
  unfolding take_change Valid Taken
  take_change-Taken change found choice k v =
      let new : Choice = record { change_id = some change; status = some found } in
      elim (pick_change-cases choice.change_id (not (is_abandoned found)) new choice) [
        | inl e ↦
            subst (Taken found) (sym e)
              (inr (change, found, refl, refl, k), (found, refl), λ _. refl)
        | inr (e, dead, (c, ec)) ↦ subst (Taken found) (sym e) (
          v,
          elim v [ inl (n, _) ↦ absurd (cc (sym ec ∙ n)) | inr (_, s, _, es, _) ↦ (s, es) ],
          λ live. absurd (ground (arith, live, dead)),
        )
      ]

  -- The choice behind a try block, and its Boolean.
  Tried : Option (String × String) → Choice × Bool → Type 0
  Tried offer (choice, stop) =
      Valid choice
      × (stop ≡ true → Live choice)
      × ((change branch s : String)
          → offer ≡ some (change, branch)
          → get_status change branch ≡ some s
          → is_abandoned s ≡ false
          → (stop ≡ true) × (choice.status ≡ some s))

  answered-Tried :
      (change branch : String) (answer : Option String) (choice : Choice)
      → Offers all change branch
      → get_status change branch ≡ answer
      → Valid choice
      → Tried (some (change, branch)) (answered change answer choice)
  unfolding Taken Tried
  answered-Tried change branch none choice o h v = (v, (λ e. cc), λ c b s e h' live. cc)
  answered-Tried change branch (some found) choice o h v =
      let (v', (s, es), live) = take_change-Taken change found choice (branch, o, h) v in
      (
        v',
        (λ stop.
            (s, es, not-true (is_abandoned s) (subst (λ x. not (is_abandoned? x) ≡ true) es stop))),
        λ c b s' e h' l.
            let same : found ≡ s' = cc in
            let isnow = live (subst (λ x. is_abandoned x ≡ false) (sym same) l) in
            (
              subst (λ x. not (is_abandoned? x) ≡ true) (sym isnow)
                  (ap not (subst (λ x. is_abandoned x ≡ false) (sym same) l)),
              isnow ∙ ap some same,
            ),
      )

  try_change-Tried :
      (offer : Option (String × String)) (choice : Choice)
      → ((change branch : String) → offer ≡ some (change, branch) → Offers all change branch)
      → Valid choice
      → Tried offer (try_change get_status offer choice)
  unfolding try_change Tried
  try_change-Tried none choice o v = (v, (λ h. cc), λ c b s e h live. cc)
  try_change-Tried (some (change, branch)) choice o v =
      answered-Tried change branch (get_status change branch) choice (o change branch refl) refl v

  -- A row offers a change that is not abandoned, and whose status is not empty.
  LiveOffer : List Candidate → Type 0
  LiveOffer rows =
      (change : String) × (branch : String) × (s : String) × Offers rows change branch
      × (get_status change branch ≡ some s)
      × (is_abandoned s ≡ false)
      × (str_eq s "" ≡ false)

  settled-Live : (choice : Choice) → settled choice.status ≡ true → Live choice
  settled-Live choice h = settled-status choice.status h

  Live-settled :
      (choice : Choice) (s : String)
      → choice.status ≡ some s
      → is_abandoned s ≡ false
      → str_eq s "" ≡ false
      → settled choice.status ≡ true
  Live-settled choice s e l n = rw (e, n, l) refl

  choose_change-Valid :
      (rows : List Candidate) (choice : Choice)
      → ((row : Candidate) → In row rows → In row all)
      → Valid choice
      → Valid (choose_change get_status rows choice)
        × (LiveOffer rows → Live (choose_change get_status rows choice))
  unfolding choose_change Tried LiveOffer Offers
  choose_change-Valid [] choice sub v = (v, λ o. absurd o.3.1)
  choose_change-Valid (row ∷ rows) choice sub v =
      let first = offered row.chrome_change row.chrome_branch in
      let second = offered row.stable_change row.stable_branch in
      let (v1, stop1, live1) =
        try_change-Tried first choice (λ c b e. (row, sub row (inl refl), inl e)) v in
      let chosen = (try_change get_status first choice).0 in
      let (v2, stop2, live2) =
        try_change-Tried second chosen (λ c b e. (row, sub row (inl refl), inr e)) v1 in
      let both = (try_change get_status second chosen).0 in
      elim (Bool-cases (try_change get_status first choice).1) [
        | inl h ↦ rw h (v1, λ _. stop1 h)
        | inr h ↦ elim (Bool-cases (settled both.status)) [
          | inl h' ↦ rw (h, h') (v2, λ _. settled-Live both h')
          | inr h' ↦
              let (v3, live3) = choose_change-Valid rows both (λ r m. sub r (inr m)) v2 in
              rw (h, h')
                (
                  v3,
                  λ o.
                      let (c, b, s, (r, m, off), e, l, n) = o in
                      elim m [
                        | inl same ↦ elim off [
                          | inl eo ↦
                              let eo' : first ≡ some (c, b) =
                                subst (λ x. offered x.chrome_change x.chrome_branch ≡ some (c, b))
                                  same eo in
                              absurd (cc (sym h ∙ (live1 c b s eo' e l).0))
                          | inr eo ↦
                              let eo' : second ≡ some (c, b) =
                                subst (λ x. offered x.stable_change x.stable_branch ≡ some (c, b))
                                  same eo in
                              absurd (cc (sym h' ∙ Live-settled both s (live2 c b s eo' e l).1 l n))
                        ]
                        | inr m' ↦ live3 (c, b, s, (r, m', off), e, l, n)
                      ],
                )
        ]
      ]

  -- Where the query has a change that Gerrit knows and that is not abandoned (its status is not
  -- empty), get_change_id returns a change of the query with such a status.
  pub get_change_id_live :
      (change branch s : String)
      → Offers all change branch
      → get_status change branch ≡ some s
      → is_abandoned s ≡ false
      → str_eq s "" ≡ false
      → (c : String) × (b : String) × (found : String) × (get_change_id get_status all ≡ some c)
        × Offers all c b
        × (get_status c b ≡ some found)
        × (is_abandoned found ≡ false)
  unfolding get_change_id Valid LiveOffer
  get_change_id_live change branch s o e l n =
      let (v, live) = choose_change-Valid all no_choice (λ r m. m) (inl (refl, refl)) in
      let (found, es, dead) = live (change, branch, s, o, e, l, n) in
      elim v [
        | inl (_, none_found) ↦ absurd (cc (sym none_found ∙ es))
        | inr (c, s', ec, es', (b, off, known)) ↦ (c, b, found, ec, off, known ∙ sym es' ∙ es, dead)
      ]
