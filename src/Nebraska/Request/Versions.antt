-- ===== src/Nebraska/Request/Versions.antt =====
-- The versions that ParseRequest of nebraska/nebraska.py accepts, and the requests that it refuses.
use cros_dev_util.Base.{
  ℕ, ◌+◌, ◌<◌, String, ◌≡◌, refl, ◌≢◌, ◌⊎◌, true, false, Option, none, some, List, [], ◌∷◌, arith,
  ok, err, length, filter_by, All, invalid_request,
}
use cros_dev_util.Nebraska.Xml.{Element, find_all}
use cros_dev_util.Nebraska.Request
use cros_dev_util.Nebraska.Request.{
  RequestType, install, update, event, AppRequest, Request, has_check, parse_app, classify,
  finish_request, parse_root, check_attributes, check_version, versions, tracks, boards,
  version_zero, opt_elem,
}
use cros_dev_util.Nebraska.Request.Attributes.{check_attributes_exact}
use cros_dev_util.Nebraska.Request.Parse.{parse_root-ok}

-- In an update request every app has the request's version; in the other requests an app whose
-- version is not 0.0.0.0 has.
pub data VersionsAgree (version : Option String) (apps : List AppRequest)
    : RequestType → Type 0 where
  all_same :
      All (λ (a : AppRequest). some a.version ≡ version) apps → VersionsAgree version apps update
  zero_or_same :
      {rt : RequestType}
      → rt ≢ update
      → All
          (λ (a : AppRequest). (some a.version ≡ some version_zero) ⊎ (some a.version ≡ version))
          apps
      → VersionsAgree version apps rt

versions_in-All :
    (apps : List AppRequest) (v : Option String)
    → All (λ a. (a ≡ none) ⊎ (a ≡ v)) (versions apps)
    → All (λ (a : AppRequest). some a.version ≡ v) apps
versions_in-All [] v h = tt
versions_in-All (a ∷ apps) v h = (ground arith, versions_in-All apps v h.1)

versions_or_zero :
    (apps : List AppRequest) (v z : Option String)
    → All (λ a. (a ≡ z) ⊎ (a ≡ v)) (versions apps)
    → All (λ (a : AppRequest). (some a.version ≡ z) ⊎ (some a.version ≡ v)) apps
versions_or_zero [] v z h = tt
versions_or_zero (a ∷ apps) v z h = (h.0, versions_or_zero apps v z h.1)

check_version-ok :
    (rt : RequestType) (apps : List AppRequest) (v : Option String)
    → check_version rt (versions apps) ≡ ok v
    → VersionsAgree v apps rt
unfolding check_version
check_version-ok update apps v h =
    all_same (versions_in-All apps v ((check_attributes_exact _ true none v).0 h).agree)
check_version-ok install apps v h =
    zero_or_same (λ e. cc e)
      (versions_or_zero apps v _ ((check_attributes_exact _ false (some version_zero) v).0 h).agree)
check_version-ok event apps v h =
    zero_or_same (λ e. cc e)
      (versions_or_zero apps v _ ((check_attributes_exact _ false (some version_zero) v).0 h).agree)

-- In an accepted update request every app has the request's version; in an accepted install or
-- event request every app has the request's version or 0.0.0.0.
pub parse_root_versions :
    (timestamp : String) (root : Element) (req : Request)
    → parse_root timestamp root ≡ ok req
    → VersionsAgree req.version req.app_requests req.request_type
parse_root_versions timestamp root req h =
    check_version-ok req.request_type req.app_requests req.version
      (parse_root-ok timestamp root req h).consistent.version_of

abbrev pub element_checks : Element → ℕ
element_checks root = length (filter_by has_check (find_all "app" root))

classify-mixed :
    (count total : ℕ) → 0 < count → count + 1 < total → classify count total ≡ err invalid_request
unfolding classify
classify-mixed count total h k = ground arith

-- A request in which some, but not all, and not all but one of the apps have an update check is
-- refused as invalid.
pub parse_root_mixed :
    (timestamp : String) (root : Element)
    → 0 < element_checks root
    → element_checks root + 1 < length (find_all "app" root)
    → parse_root timestamp root ≡ err invalid_request
unfolding parse_root
parse_root_mixed timestamp root h k = rw (classify-mixed _ _ h k)

-- A request with no app is refused as invalid.
pub parse_root_no_apps :
    (timestamp : String) (root : Element)
    → find_all "app" root ≡ []
    → parse_root timestamp root ≡ err invalid_request
unfolding parse_root classify finish_request check_version check_attributes Request.unique
    Request.pop_unique
parse_root_no_apps timestamp root h = rw (h) refl
