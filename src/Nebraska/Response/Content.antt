-- ===== src/Nebraska/Response/Content.antt =====
-- What the XML of a response says, for Compile and GetXMLString of nebraska/nebraska.py.
use cros_dev_util.Base.{
  dict_get, dict_set, ℕ, String, ◌≡◌, refl, ap, ◌∙◌, Bool, true, false, ◌&&◌, Option, none, some,
  List, [], ◌∷◌, ◌++◌, map, arith, is_some, length, length-replicate, str_of_int, range_count,
  if◌then◌else◌,
}
use cros_dev_util.Nebraska.Xml.{
  Element, element, get, find, find_all, children, of_list, to_list-of_list,
}
use cros_dev_util.Nebraska.Request.{AppRequest, RequestType, install, update, event, Request}
use cros_dev_util.Nebraska.AppIndex.{AppData}
use cros_dev_util.Nebraska.Properties.{NebraskaProps, ResponseProps}
use cros_dev_util.Nebraska.Response.{
  AppResponse, new_app_response, app_responses, compile, compile_check, check_attribs, update_check,
  urls, response_xml, action_attribs, child_if,
}

abbrev pub opt_map {ℓ κ} : {A : Type ℓ} {B : Type κ} → (A → B) → Option A → Option B
opt_map f none = none
opt_map f (some a) = some (f a)

abbrev pub opt_bind {ℓ κ} : {A : Type ℓ} {B : Type κ} → Option A → (A → Option B) → Option B
opt_bind none f = none
opt_bind (some a) f = f a

module _ (a : AppResponse) where
  -- The attributes of an update check with a payload: its status is ok, it is marked as a rollback,
  -- with a firmware version, exactly if the server serves a rollback and the request allows one, and
  -- it has the end-of-life date that the server was given.
  pub check_attribs_values :
      (dict_get "status" (check_attribs a) ≡ some "ok")
      × (dict_get "_is_rollback" (check_attribs a) ≡ (
          if a.response_props.is_rollback && a.app_request.rollback_allowed
          then some "true"
          else none))
      × (dict_get "_firmware_version_4" (check_attribs a) ≡ (
          if a.response_props.is_rollback && a.app_request.rollback_allowed
          then some "5"
          else none))
      × (dict_get "_eol_date" (check_attribs a) ≡ opt_map str_of_int a.response_props.eol_date)
  unfolding check_attribs dict_get
  check_attribs_values = ground arith

  -- The postinstall action tells the client of a deadline exactly if the update is critical, and of
  -- the failure limit and the public key exactly if there is one.
  pub action_attribs_values :
      (app : AppData)
      → (dict_get "deadline" (action_attribs a app)
          ≡ (if a.critical_update then some "now" else none))
        × (dict_get "MaxFailureCountPerUrl" (action_attribs a app)
            ≡ opt_map str_of_int a.response_props.failures_per_url)
        × (dict_get "PublicKeyRsa" (action_attribs a app) ≡ app.public_key)
        × (dict_get "ChromeOSVersion" (action_attribs a app) ≡ some app.target_version)
  unfolding action_attribs dict_get
  action_attribs_values app = ground arith

  -- One URL for each that the server was told to send, none for a negative number.
  pub length-urls : length (children (urls a)) ≡ range_count a.response_props.num_urls
  unfolding urls
  length-urls = ap length (to_list-of_list _) ∙ length-replicate _ _

-- The status that the update check of an app's response has: ok with a payload, noupdate without
-- one if an update was requested, and none where no update check is sent.
abbrev pub expected_status : Option AppData → RequestType → Option String
expected_status (some app) t = some "ok"
expected_status none update = some "noupdate"
expected_status none install = none
expected_status none event = none

-- The status of the app element itself: an install app without an update check is refused.
abbrev pub expected_app_status : Option AppData → RequestType → Bool → String
expected_app_status none install false = "noupdate"
expected_app_status _ _ _ = "ok"

abbrev pub sent_status : Element → Option String
sent_status e = opt_bind (find "updatecheck" e) (get "status")

find_behind :
    (ping event_there : Bool) (tag : String) (d : List (String × String)) (check : List Element)
    → opt_bind
        (find "updatecheck" (
          element tag d
            (of_list (child_if ping "ping" ++ (child_if event_there "event" ++ check)))))
        (get "status")
      ≡ opt_bind (find "updatecheck" (element tag d (of_list check))) (get "status")
unfolding find
find_behind true true tag d check = refl
find_behind true false tag d check = refl
find_behind false true tag d check = refl
find_behind false false tag d check = refl

check_status :
    (a : AppResponse) (o : Option AppData) (t : RequestType) (d : List (String × String))
    → opt_bind
        (find "updatecheck" (element "app" d (of_list (compile_check a o t).1)))
        (get "status")
      ≡ expected_status o t
unfolding compile_check find update_check
check_status a (some app) t d = (check_attribs_values a).0
check_status a none install d = refl
check_status a none update d = unfold dict_get dict_set in ground arith
check_status a none event d = refl

app_status :
    (a : AppResponse) (o : Option AppData) (t : RequestType)
    → (compile_check a o t).0 ≡ expected_app_status o t a.app_request.has_update_check
unfolding compile_check
app_status a (some app) t = refl
app_status a none install = ground arith
app_status a none update = refl
app_status a none event = refl

-- Compile answers with the request's App ID, with a status that is "noupdate" exactly for an install
-- app that has no payload and no update check, and with an update check that says "ok" where a
-- payload was found, "noupdate" where an update found none, and is missing in the other cases.
pub compile_status :
    (a : AppResponse)
    → (get "appid" (compile a) ≡ some a.app_request.appid)
      × (get "status" (compile a)
          ≡ some (
              expected_app_status a.app_data a.app_request.request_type
                a.app_request.has_update_check))
      × (sent_status (compile a) ≡ expected_status a.app_data a.app_request.request_type)
unfolding compile dict_get
compile_status a = (
  refl,
  ap some (app_status a a.app_data a.app_request.request_type),
  find_behind a.app_request.ping (is_some a.app_request.event_type) "app" _ _
      ∙ check_status a a.app_data a.app_request.request_type _,
)

new_app_response-request :
    (r : AppRequest) (props : NebraskaProps) (rp : ResponseProps) (matched : List ℕ)
    → (new_app_response r props rp matched).0.app_request ≡ r
unfolding new_app_response
new_app_response-request r props rp matched = refl

apps_of :
    (rs : List AppRequest) (props : NebraskaProps) (rp : ResponseProps) (matched : List ℕ)
    → map (get "appid") (
        find_all "app"
          (element "response" [] (of_list (map compile (app_responses rs props rp matched)))))
      ≡ map (λ (r : AppRequest). some r.appid) rs
unfolding find_all app_responses compile new_app_response dict_get
apps_of [] props rp matched = refl
apps_of (r ∷ rs) props rp matched =
    ap (λ l. some r.appid ∷ l) (apps_of rs props rp (new_app_response r props rp matched).1)

-- The response has one app element for each app of the request, in the request's order and with the
-- request's App ID.
pub response_apps :
    (now : ℕ) (req : Request) (props : NebraskaProps) (rp : ResponseProps)
    → map (get "appid") (find_all "app" (response_xml now req props rp))
      ≡ map (λ (r : AppRequest). some r.appid) req.app_requests
unfolding response_xml find_all
response_apps now req props rp = apps_of req.app_requests props rp []

-- The statuses of the update checks in a response.
abbrev pub check_statuses : Element → List (Option String)
check_statuses response = map sent_status (find_all "app" response)

find_all-compile :
    (d : List (String × String)) (answers : List AppResponse)
    → find_all "app" (element "response" d (of_list (map compile answers))) ≡ map compile answers
unfolding find_all compile
find_all-compile d [] = refl
find_all-compile d (a ∷ answers) = ap (λ l. compile a ∷ l) (find_all-compile d answers)

app_data_off :
    (r : AppRequest) (props : NebraskaProps) (rp : ResponseProps) (matched : List ℕ)
    → rp.no_update ≡ true
    → (new_app_response r props rp matched).0.app_data ≡ none
unfolding new_app_response
app_data_off r props rp matched off = simp off refl

statuses_off :
    (rs : List AppRequest) (props : NebraskaProps) (rp : ResponseProps) (matched : List ℕ)
    → rp.no_update ≡ true
    → map sent_status (map compile (app_responses rs props rp matched))
      ≡ map (λ (r : AppRequest). expected_status none r.request_type) rs
unfolding app_responses
statuses_off [] props rp matched off = refl
statuses_off (r ∷ rs) props rp matched off = cc (
  (compile_status (new_app_response r props rp matched).0).2,
  new_app_response-request r props rp matched,
  app_data_off r props rp matched off,
  statuses_off rs props rp (new_app_response r props rp matched).1 off,
)

find_all-response :
    (now : ℕ) (req : Request) (props : NebraskaProps) (rp : ResponseProps)
    → find_all "app" (response_xml now req props rp)
      ≡ map compile (app_responses req.app_requests props rp [])
unfolding response_xml
find_all-response now req props rp =
    unfold find_all in find_all-compile [] (app_responses req.app_requests props rp [])

-- A server that is told to answer "no update" sends that status for each app of an update request,
-- and no update check at all for the apps of the other requests.
pub no_update_statuses :
    (now : ℕ) (req : Request) (props : NebraskaProps) (rp : ResponseProps)
    → rp.no_update ≡ true
    → check_statuses (response_xml now req props rp)
      ≡ map (λ (r : AppRequest). expected_status none r.request_type) req.app_requests
no_update_statuses now req props rp off =
    ap (map sent_status) (find_all-response now req props rp)
    ∙ statuses_off req.app_requests props rp [] off
