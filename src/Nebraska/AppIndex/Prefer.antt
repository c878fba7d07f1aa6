-- ===== src/Nebraska/AppIndex/Prefer.antt =====
-- Which payload AppIndex.Find of nebraska/nebraska.py prefers: one with exactly the requested App
-- ID, and a delta where the client accepts it.
use cros_dev_util.Base.{
  ℕ, ◌≡◌, refl, sym, ◌∙◌, Bool, true, false, ◌&&◌, not, Option, some, List, [], ◌∷◌, arith,
  filter_by, first_by_sound, first_by-some, In, In-filter_by, filter_by-In, is_empty, elem, eq_iff,
}
use cros_dev_util.Nebraska.Request.{AppRequest}
use cros_dev_util.Nebraska.AppIndex.{
  AppData, match_appid, match_app_data, or_if_empty, exact_match, canary_match, partial_match,
  candidates, only_delta, only_full, choose, unmatched, pick, find_app,
}
use cros_dev_util.Nebraska.AppIndex.Find.{
  KindFits, full_update, delta_update, full_install, fits_kind, choose-some, choose_sound,
  record_match-fst,
}

or_if_empty-In : (a : AppData) (xs ys : List AppData) → In a xs → or_if_empty xs ys ≡ xs
or_if_empty-In a [] ys m = absurd m
or_if_empty-In a (x ∷ xs) ys m = refl

is_empty-In : (a : AppData) (xs : List AppData) → In a xs → is_empty xs ≡ false
is_empty-In a [] m = absurd m
is_empty-In a (x ∷ xs) m = refl

exact-appid : (r : AppRequest) (a : AppData) → exact_match r a ≡ true → r.appid ≡ a.appid
unfolding match_app_data match_appid
exact-appid r a h = ground (arith, eq_iff r.appid a.appid)

delta_accepted :
    (r : AppRequest) (b : AppData) → KindFits r b → (b.is_delta && not r.delta_okay) ≡ false
delta_accepted r b (full_update t d) = ground arith
delta_accepted r b (delta_update t d okay) = ground arith
delta_accepted r b (full_install t d) = ground arith

choose-delta :
    (fresh : List AppData) (okay : Bool) (fp : Option Bool) (b : AppData)
    → In b fresh
    → b.is_delta ≡ true
    → okay ≡ true
    → only_full fp ≡ false
    → (a : AppData) × (choose fresh okay fp ≡ some a) × (a.is_delta ≡ true)
unfolding choose
choose-delta fresh okay fp b m delta o f =
    let (a, e) = first_by-some (λ (x : AppData). x.is_delta) fresh b m delta in
    let (member, is_delta) = first_by_sound (λ (x : AppData). x.is_delta) fresh a e in
    (a, ground arith, is_delta)

module _ (index : List AppData) (r : AppRequest) (matched : List ℕ) (fp : Option Bool) (ig : Bool)
    (b : AppData) (offered : In b index) (same : r.appid ≡ b.appid) (kind : KindFits r b) where
  exact-In : In b (filter_by (exact_match r) index)
  unfolding match_app_data match_appid
  exact-In =
      filter_by-In (exact_match r) index b offered
        (ground (arith, eq_iff r.appid b.appid, fits_kind r b kind))

  candidates-exact : candidates index r ig ≡ filter_by (exact_match r) index
  unfolding candidates
  candidates-exact =
      rw
        (
          or_if_empty-In b _ (filter_by (canary_match r) index) exact-In,
          or_if_empty-In b _ (filter_by (partial_match r) index) exact-In,
          is_empty-In b _ exact-In,
        )
        refl

  -- Where the index has a payload of the request's App ID and of a kind that the request takes, Find
  -- returns no payload of another App ID, even if that one was matched before.
  pub find_app_exact_only :
      (a : AppData) → (find_app index r matched fp ig).0 ≡ some a → a.appid ≡ r.appid
  unfolding find_app pick
  find_app_exact_only a h =
      let e = sym (record_match-fst matched (pick index r matched fp ig)) ∙ h in
      let (member, _, _, _) = choose_sound _ r.delta_okay fp a e in
      let (candidate, _) = In-filter_by (λ (b : AppData). not (elem b.obj matched)) _ a member in
      sym (
        exact-appid r a (In-filter_by (exact_match r) index a (rw candidates-exact at candidate)).1)

  module _ (free : elem b.obj matched ≡ false) where
    fresh-In : In b (unmatched matched (candidates index r ig))
    fresh-In =
        rw candidates-exact
          (filter_by-In (λ (x : AppData). not (elem x.obj matched)) _ b exact-In (rw free refl))

    -- Where the index has a payload of the request's App ID that no earlier app was given, of a kind
    -- that the request takes and the server was told to serve, Find returns a payload of that App ID.
    pub find_app_complete :
        (only_full fp && b.is_delta) ≡ false
        → (only_delta fp && not b.is_delta) ≡ false
        → (a : AppData) × ((find_app index r matched fp ig).0 ≡ some a) × (a.appid ≡ r.appid)
    unfolding find_app pick
    find_app_complete f d =
        let (a, e) =
          choose-some _ r.delta_okay fp b fresh-In f d (delta_accepted r b kind)
            (ground (arith, delta_accepted r b kind)) in
        let found = record_match-fst matched (pick index r matched fp ig) ∙ e in
        (a, found, find_app_exact_only a found)

    -- Such a delta is preferred: where the client accepts deltas and the server was not told to serve
    -- full payloads, Find returns a delta.
    pub find_app_prefers_delta :
        b.is_delta ≡ true
        → r.delta_okay ≡ true
        → only_full fp ≡ false
        → (a : AppData) × ((find_app index r matched fp ig).0 ≡ some a) × (a.is_delta ≡ true)
    unfolding find_app pick
    find_app_prefers_delta delta okay f =
        let (a, e, d) = choose-delta _ r.delta_okay fp b fresh-In delta okay f in
        (a, record_match-fst matched (pick index r matched fp ig) ∙ e, d)
