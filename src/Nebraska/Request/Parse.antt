-- ===== src/Nebraska/Request/Parse.antt =====
-- What an accepted request looks like, for ParseRequest of nebraska/nebraska.py.
use cros_dev_util.Base.{
  ℕ, suc, ◌+◌, ◌<◌, String, ◌≡◌, refl, ap, ◌≢◌, ◌⊎◌, inl, inr, true, false, Option, none, List, [],
  ◌∷◌, map, arith, ok, >>=-eq-ok, map_result, map_result-cons, map_result-nil, length, filter_by,
  is_some, All, length-filter_by-le,
}
use cros_dev_util.Nebraska.Xml.{Element, find_all}
use cros_dev_util.Nebraska.Request.{
  RequestType, install, update, event, AppRequest, Request, has_check, parse_app, classify,
  finish_request, parse_root, check_attributes, check_version, versions, tracks, boards,
}
use cros_dev_util.Nebraska.Request.Attributes.{check_attributes_exact}

abbrev pub checks : List AppRequest → ℕ
checks apps = length (filter_by (λ (a : AppRequest). a.has_update_check) apps)

parse_app-fields :
    (rt : RequestType) (e : Element) (a : AppRequest)
    → parse_app rt e ≡ ok a
    → (a.request_type ≡ rt) × (a.has_update_check ≡ has_check e)
unfolding parse_app
parse_app-fields rt e a h = ground arith

pub record Parsed (rt : RequestType) (es : List Element) (apps : List AppRequest) : Type 0 where
  pub same_length : length apps ≡ length es
  pub same_checks : checks apps ≡ length (filter_by has_check es)
  pub typed : All (λ (a : AppRequest). a.request_type ≡ rt) apps

parse_apps :
    (rt : RequestType) (es : List Element) (apps : List AppRequest)
    → map_result (parse_app rt) es ≡ ok apps
    → Parsed rt es apps
parse_apps rt [] [] h = record { same_length = refl; same_checks = refl; typed = tt }
parse_apps rt [] (a ∷ apps) h = cc
parse_apps rt (e ∷ es) [] h = absurd (map_result-nil (parse_app rt) e es h)
parse_apps rt (e ∷ es) (a ∷ apps) h =
    let (first, others) = map_result-cons (parse_app rt) e es a apps h in
    let (kind, check) = parse_app-fields rt e a first in
    let rest = parse_apps rt es apps others in
    record {
      same_length = ap suc rest.same_length;
      same_checks = ground (arith, rest.same_checks);
      typed = (kind, rest.typed);
    }

-- All, none, or all but one of the apps have an update check, by the type of the request.
pub data Shape (apps : List AppRequest) : RequestType → Type 0 where
  all_checked : All (λ (a : AppRequest). a.has_update_check ≡ true) apps → Shape apps update
  none_checked : All (λ (a : AppRequest). a.has_update_check ≡ false) apps → Shape apps event
  one_unchecked : checks apps + 1 ≡ length apps → 0 < checks apps → Shape apps install

checks_zero :
    (apps : List AppRequest)
    → checks apps ≡ 0
    → All (λ (a : AppRequest). a.has_update_check ≡ false) apps
checks_zero [] h = tt
checks_zero (a ∷ apps) h = ground (arith, checks_zero apps)

checks-All :
    (apps : List AppRequest)
    → checks apps ≡ length apps
    → All (λ (a : AppRequest). a.has_update_check ≡ true) apps
checks-All [] h = tt
checks-All (a ∷ apps) h =
    ground
      (arith, checks-All apps, length-filter_by-le (λ (b : AppRequest). b.has_update_check) apps)

classify_cases :
    (count total : ℕ) (rt : RequestType)
    → classify count total ≡ ok rt
    → ((rt ≡ event) × (count ≡ 0))
      ⊎ ((rt ≡ install) × (count + 1 ≡ total) × (0 < count))
      ⊎ ((rt ≡ update) × (count ≡ total))
unfolding classify
classify_cases count total rt h = ground arith

shape_of :
    (apps : List AppRequest) (rt : RequestType)
    → classify (checks apps) (length apps) ≡ ok rt
    → Shape apps rt
shape_of apps rt h = elim (classify_cases (checks apps) (length apps) rt h) [
  | inl (e, zero) ↦ rw e (none_checked (checks_zero apps zero))
  | inr (inl (e, one, some_checked)) ↦ rw e (one_unchecked one some_checked)
  | inr (inr (e, same)) ↦ rw e (all_checked (checks-All apps same))
]

-- The checks across the apps of a request, with the values that the request keeps.
pub record IsConsistent (req : Request) : Type 0 where
  pub version_of : check_version req.request_type (versions req.app_requests) ≡ ok req.version
  pub track_of : check_attributes (tracks req.app_requests) false none ≡ ok req.track
  pub board_of : check_attributes (boards req.app_requests) false none ≡ ok req.board
  pub has_track : is_some req.track ≡ true
  pub has_board : is_some req.board ≡ true

module _ (timestamp : String) (rt : RequestType) (apps : List AppRequest) (req : Request) where
  finish_request-ok :
      finish_request timestamp rt apps ≡ ok req
      → (req.request_type ≡ rt) × (req.app_requests ≡ apps) × IsConsistent req
  unfolding finish_request
  finish_request-ok h = ground arith

module _ (timestamp : String) (req : Request) (stamp : req.timestamp ≡ timestamp) where
  IsConsistent-finish :
      IsConsistent req → finish_request timestamp req.request_type req.app_requests ≡ ok req
  unfolding finish_request
  IsConsistent-finish c = ground arith

-- What ParseRequest established when it returned `req` for `root`.
pub record Rooted (root : Element) (req : Request) : Type 0 where
  pub classified :
      classify (length (filter_by has_check (find_all "app" root))) (length (find_all "app" root))
      ≡ ok req.request_type
  pub parsed : map_result (parse_app req.request_type) (find_all "app" root) ≡ ok req.app_requests
  pub consistent : IsConsistent req

rooted :
    (root : Element) (req : Request) (rt : RequestType) (apps : List AppRequest)
    → classify (length (filter_by has_check (find_all "app" root))) (length (find_all "app" root))
      ≡ ok rt
    → map_result (parse_app rt) (find_all "app" root) ≡ ok apps
    → (req.request_type ≡ rt) × (req.app_requests ≡ apps) × IsConsistent req
    → Rooted root req
rooted root req rt apps hc hp (kind, same, consistent) = record {
  classified = cc;
  parsed = cc;
  consistent = consistent;
}

pub parse_root-ok :
    (timestamp : String) (root : Element) (req : Request)
    → parse_root timestamp root ≡ ok req
    → Rooted root req
unfolding parse_root
parse_root-ok timestamp root req h =
    let (rt, hc, h') = >>=-eq-ok (classify _ _) _ h in
    let (apps, hp, h'') = >>=-eq-ok (map_result (parse_app rt) _) _ h' in
    rooted root req rt apps hc hp (finish_request-ok timestamp rt apps req h'')

agree_or_none :
    (field : AppRequest → Option String) (apps : List AppRequest) (v : Option String)
    → All (λ a. (a ≡ none) ⊎ (a ≡ v)) (map field apps)
    → All (λ (a : AppRequest). (field a ≡ none) ⊎ (field a ≡ v)) apps
agree_or_none field [] v h = tt
agree_or_none field (a ∷ apps) v h = (h.0, agree_or_none field apps v h.1)

module _ (timestamp : String) (root : Element) (req : Request)
    (h : parse_root timestamp root ≡ ok req) where
  -- The apps of an accepted request stand for the app elements, one each, and whether all, none or
  -- all but one of them have an update check is what the request type says.
  pub parse_root_shape :
      (length req.app_requests ≡ length (find_all "app" root))
      × Shape req.app_requests req.request_type
      × All (λ (a : AppRequest). a.request_type ≡ req.request_type) req.app_requests
  parse_root_shape =
      let r = parse_root-ok timestamp root req h in
      let p = parse_apps req.request_type (find_all "app" root) req.app_requests r.parsed in
      (
        p.same_length,
        shape_of req.app_requests req.request_type (rw (p.same_length, p.same_checks) r.classified),
        p.typed,
      )

  -- An accepted request has a track and a board, it has at least one app, and every app that states
  -- a track or a board states the request's.
  pub parse_root_agreement :
      (req.app_requests ≢ [])
      × (req.track ≢ none)
      × (req.board ≢ none)
      × All (λ (a : AppRequest). (a.track ≡ none) ⊎ (a.track ≡ req.track)) req.app_requests
      × All (λ (a : AppRequest). (a.board ≡ none) ⊎ (a.board ≡ req.board)) req.app_requests
  parse_root_agreement =
      let c = (parse_root-ok timestamp root req h).consistent in
      let t =
        (check_attributes_exact (tracks req.app_requests) false none req.track).0 c.track_of in
      let b =
        (check_attributes_exact (boards req.app_requests) false none req.board).0 c.board_of in
      (
        λ e. ground (arith, t.origin, c.has_track, ap tracks e),
        ground (arith, c.has_track),
        ground (arith, c.has_board),
        agree_or_none _ req.app_requests req.track t.agree,
        agree_or_none _ req.app_requests req.board b.agree,
      )
