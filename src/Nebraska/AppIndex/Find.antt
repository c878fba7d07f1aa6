-- ===== src/Nebraska/AppIndex/Find.antt =====
-- What AppIndex.Find of nebraska/nebraska.py returns.
use cros_dev_util.Base.{
  ℕ, String, ◌≡◌, refl, sym, ◌∙◌, ap, ◌⊎◌, inl, inr, Bool, true, false, ◌&&◌, not, Option, none,
  some, List, [], ◌∷◌, arith, filter_by, first_by_sound, first_by-some, In, In-filter_by, is_empty,
  elem, eq_iff, is_substring, Bool-cases, Option-cases,
}
use cros_dev_util.Nebraska.Request.{AppRequest, RequestType, install, update, event}
use cros_dev_util.Nebraska.AppIndex.{
  AppData, match_appid, match_kind, match_app_data, or_if_empty, exact_match, canary_match,
  partial_match, candidates, only_delta, only_full, choose, record_match, pick, find_app,
}

-- The ways in which a payload's App ID can meet the request's.
pub data IdFits (r : AppRequest) (ignore_appid : Bool) (a : AppData) : Type 0 where
  exact : r.appid ≡ a.appid → IdFits r ignore_appid a
  canary : a.canary_appid ≡ r.appid → IdFits r ignore_appid a
  partial : is_substring a.appid r.appid ≡ true → IdFits r ignore_appid a
  ignored : ignore_appid ≡ true → IdFits r ignore_appid a

-- An update takes a full payload, and a delta if the client accepts deltas; an install takes a
-- full payload.
pub data KindFits (r : AppRequest) (a : AppData) : Type 0 where
  full_update : r.request_type ≡ update → a.is_delta ≡ false → KindFits r a
  delta_update : r.request_type ≡ update → a.is_delta ≡ true → r.delta_okay ≡ true → KindFits r a
  full_install : r.request_type ≡ install → a.is_delta ≡ false → KindFits r a

kind_cases :
    (t : RequestType) (okay delta : Bool)
    → match_kind t okay delta ≡ true
    → ((t ≡ update) × (delta ≡ false))
      ⊎ ((t ≡ update) × (delta ≡ true) × (okay ≡ true))
      ⊎ ((t ≡ install) × (delta ≡ false))
unfolding match_kind
kind_cases update okay delta h = ground arith
kind_cases install okay delta h = ground arith
kind_cases event okay delta h = cc

kind_fits :
    (r : AppRequest) (a : AppData)
    → match_kind r.request_type r.delta_okay a.is_delta ≡ true
    → KindFits r a
kind_fits r a h = elim (kind_cases r.request_type r.delta_okay a.is_delta h) [
  | inl (t, d) ↦ full_update t d
  | inr (inl (t, d, okay)) ↦ delta_update t d okay
  | inr (inr (t, d)) ↦ full_install t d
]

pub fits_kind :
    (r : AppRequest) (a : AppData)
    → KindFits r a
    → match_kind r.request_type r.delta_okay a.is_delta ≡ true
unfolding match_kind
fits_kind r a (full_update t d) = rw (t, d) refl
fits_kind r a (delta_update t d okay) = rw (t, d) okay
fits_kind r a (full_install t d) = rw (t, d) refl

match_appid_cases :
    (appid : String) (a : AppData) (partial_ok canary_ok any : Bool)
    → match_appid appid a partial_ok canary_ok any ≡ true
    → (any ≡ true)
      ⊎ (appid ≡ a.appid)
      ⊎ (is_substring a.appid appid ≡ true)
      ⊎ (a.canary_appid ≡ appid)
unfolding match_appid
match_appid_cases appid a partial_ok canary_ok any h =
    ground (arith, eq_iff appid a.appid, eq_iff a.canary_appid appid)

-- Each pass keeps payloads that fit.
match_sound :
    (r : AppRequest) (a : AppData) (partial_ok canary_ok any : Bool)
    → match_app_data r a partial_ok canary_ok any ≡ true
    → IdFits r any a × KindFits r a
unfolding match_app_data
match_sound r a partial_ok canary_ok any h = (
  elim (match_appid_cases r.appid a partial_ok canary_ok any (ground arith)) [
    | inl i ↦ ignored i
    | inr (inl e) ↦ exact e
    | inr (inr (inl s)) ↦ partial s
    | inr (inr (inr c)) ↦ canary c
  ],
  kind_fits r a (ground arith),
)

In-or_if_empty : (a : AppData) (xs ys : List AppData) → In a (or_if_empty xs ys) → In a xs ⊎ In a ys
In-or_if_empty a [] ys m = inr m
In-or_if_empty a (x ∷ xs) ys m = inl m

weaken : (r : AppRequest) (ig : Bool) (a : AppData) → IdFits r false a → IdFits r ig a
weaken r ig a (exact e) = exact e
weaken r ig a (canary e) = canary e
weaken r ig a (partial e) = partial e
weaken r ig a (ignored e) = cc

module _ (index : List AppData) (r : AppRequest) where
  abbrev after_canary : List AppData
  after_canary = or_if_empty (filter_by (exact_match r) index) (filter_by (canary_match r) index)

  abbrev after_partial : List AppData
  after_partial = or_if_empty after_canary (filter_by (partial_match r) index)

  pass_sound :
      (a : AppData) (p c any : Bool)
      → In a (filter_by (λ b. match_app_data r b p c any) index)
      → IdFits r any a × KindFits r a × In a index
  pass_sound a p c any m =
      let (member, ok) = In-filter_by (λ b. match_app_data r b p c any) index a m in
      let (id, kind) = match_sound r a p c any ok in (id, kind, member)

  after_partial_sound :
      (a : AppData) → In a after_partial → IdFits r false a × KindFits r a × In a index
  after_partial_sound a m = elim (In-or_if_empty a after_canary _ m) [
    | inl m' ↦ elim (In-or_if_empty a (filter_by (exact_match r) index) _ m') [
      | inl e ↦ pass_sound a false false false e
      | inr c ↦ pass_sound a false true false c
    ]
    | inr p ↦ pass_sound a true false false p
  ]

  pub candidates_sound :
      (ig : Bool) (a : AppData)
      → In a (candidates index r ig)
      → IdFits r ig a × KindFits r a × In a index
  unfolding candidates
  candidates_sound ig a m = elim (Bool-cases (is_empty after_partial && ig)) [
    | inl t ↦
        let (id, kind, member) = pass_sound a false false true (rw t at m) in
        (ignored (ground arith), kind, member)
    | inr f ↦
        let (id, kind, member) = after_partial_sound a (rw f at m) in
        (weaken r ig a id, kind, member)
  ]

pub choose_sound :
    (fresh : List AppData) (d : Bool) (fp : Option Bool) (a : AppData)
    → choose fresh d fp ≡ some a
    → In a fresh
      × ((only_full fp && a.is_delta) ≡ false)
      × ((only_delta fp && not a.is_delta) ≡ false)
      × ((a.is_delta && not d) ≡ false)
unfolding choose
choose_sound fresh d fp a h = ground (
  arith,
  first_by_sound (λ (a : AppData). not a.is_delta) fresh a,
  first_by_sound (λ (a : AppData). a.is_delta) fresh a,
)

pub choose-some :
    (fresh : List AppData) (okay : Bool) (fp : Option Bool) (a : AppData)
    → In a fresh
    → (only_full fp && a.is_delta) ≡ false
    → (only_delta fp && not a.is_delta) ≡ false
    → (a.is_delta && not okay) ≡ false
    → (only_delta fp && not okay) ≡ false
    → (b : AppData) × (choose fresh okay fp ≡ some b)
unfolding choose
choose-some fresh okay fp a m f d o p = elim (Option-cases (choose fresh okay fp)) [
  | inl e ↦ absurd (elim (Bool-cases a.is_delta) [
    | inl delta ↦
        let (b, eb) = first_by-some (λ (x : AppData). x.is_delta) fresh a m delta in ground arith
    | inr full ↦
        let (b, eb) = first_by-some (λ (x : AppData). not x.is_delta) fresh a m (rw full refl) in
        ground arith
  ])
  | inr found ↦ found
]

pub record_match-fst : (matched : List ℕ) (o : Option AppData) → (record_match matched o).0 ≡ o
record_match-fst matched none = refl
record_match-fst matched (some a) = refl

-- What a payload that Find returns is: it is offered, it fits the request by its App ID and its
-- kind, no earlier app of the request was given it, and it is of the kind that the server was told
-- to serve.
pub record Serves (index : List AppData) (r : AppRequest) (matched : List ℕ) (fp : Option Bool)
    (ig : Bool) (a : AppData) : Type 0 where
  pub offered : In a index
  pub id_fits : IdFits r ig a
  pub kind_fits : KindFits r a
  pub fresh : elem a.obj matched ≡ false
  pub full_if_told : (only_full fp && a.is_delta) ≡ false
  pub delta_if_told : (only_delta fp && not a.is_delta) ≡ false

module _ (index : List AppData) (r : AppRequest) (matched : List ℕ) (fp : Option Bool)
    (ig : Bool) where
  pub pick-Serves :
      (a : AppData) → pick index r matched fp ig ≡ some a → Serves index r matched fp ig a
  unfolding pick
  pick-Serves a h =
      let (member, full, delta, okay) = choose_sound _ r.delta_okay fp a h in
      let (candidate, free) = In-filter_by (λ (b : AppData). not (elem b.obj matched)) _ a member in
      let (id, kind, offered) = candidates_sound index r ig a candidate in
      record {
        offered = offered;
        id_fits = id;
        kind_fits = kind;
        fresh = ground arith;
        full_if_told = full;
        delta_if_told = delta;
      }

  -- A payload that Find returns is one of the index that no earlier app was given, its App ID and
  -- its kind fit the request, and it is of the kind that the server was told to serve; Find adds it
  -- to the set of matched payloads.
  pub find_app_sound :
      (a : AppData)
      → (find_app index r matched fp ig).0 ≡ some a
      → Serves index r matched fp ig a × ((find_app index r matched fp ig).1 ≡ a.obj ∷ matched)
  unfolding find_app
  find_app_sound a h =
      let e = sym (record_match-fst matched (pick index r matched fp ig)) ∙ h in
      (pick-Serves a e, ap (λ o. (record_match matched o).1) e)

  -- Where Find returns nothing the set of matched payloads stays as it is.
  pub find_app-none :
      (find_app index r matched fp ig).0 ≡ none → (find_app index r matched fp ig).1 ≡ matched
  unfolding find_app
  find_app-none h =
      ap (λ o. (record_match matched o).1)
        (sym (record_match-fst matched (pick index r matched fp ig)) ∙ h)
