-- ===== src/Nebraska/Response.antt =====
-- Response and Response.AppResponse of nebraska/nebraska.py: the XML response to a request.
-- A time is the number of whole seconds since 2007-01-01 00:00:00, the start of Omaha's epoch.
use cros_dev_util.Base.{
  dict_get, dict_set, ℕ, ◌/◌, ◌%◌, String, Bool, true, false, ◌&&◌, not, Option, none, some, List,
  [], ◌∷◌, ◌++◌, map, ℤ, range_count, replicate, is_some, str_append, str_of_nat, str_of_int,
  if◌then◌else◌,
}
pub mod Matching
pub mod Content
use cros_dev_util.Nebraska.Xml.{Attribs, Element, element, Elements, of_list}
use cros_dev_util.Nebraska.Request.{AppRequest, RequestType, install, update, event, Request}
use cros_dev_util.Nebraska.AppIndex.{AppData, find_app}
use cros_dev_util.Nebraska.Properties.{NebraskaProps, ResponseProps}

-- The payloads' address is read only where there is a payload; it is empty for None.
pub record AppResponse : Type 0 where
  pub app_request : AppRequest
  pub response_props : ResponseProps
  pub app_data : Option AppData
  pub payloads_address : String
  pub critical_update : Bool

-- The payload and the address for a request that is not refused by `no_update`, with the set of
-- matched payloads behind the search.
unfoldable pub find_payload :
    RequestType
    → AppRequest
    → NebraskaProps
    → ResponseProps
    → List ℕ
    → Option AppData × String × List ℕ
find_payload install r props response_props matched =
    let (found, matched') = find_app props.install_app_index r matched (some true) false in
    if r.has_update_check
    then (found, props.install_payloads_address, matched')
    else (none, props.install_payloads_address, matched)
find_payload update r props response_props matched =
    let (found, matched') =
      find_app props.update_app_index r matched response_props.full_payload props.ignore_appid in
    (found, props.update_payloads_address, matched')
find_payload event r props response_props matched = (none, "", matched)

-- AppResponse(app_request, nebraska_props, response_props, matched_apps)
unfoldable pub new_app_response :
    AppRequest → NebraskaProps → ResponseProps → List ℕ → AppResponse × List ℕ
unfolding find_payload
new_app_response r props response_props matched =
    let (found, address, matched') =
      if response_props.no_update
      then (none, "", matched)
      else find_payload r.request_type r props response_props matched in
    (
      record {
        app_request = r;
        response_props = response_props;
        app_data = found;
        payloads_address = address;
        critical_update = response_props.critical_update;
      },
      matched',
    )

-- str(b).lower()
abbrev pub lower_bool : Bool → String
lower_bool true = "true"
lower_bool false = "false"

abbrev pub firmware_ver : String
firmware_ver = "5"

abbrev pub kernel_ver : String
kernel_ver = "7"

abbrev pub index_strs : List String
index_strs = "" ∷ "_0" ∷ "_1" ∷ "_2" ∷ "_3" ∷ "_4" ∷ []

-- The loop over index_strs, which sets two attributes for each.
unfoldable pub set_versions : List String → Attribs → Attribs
unfolding dict_set
set_versions [] d = d
set_versions (idx ∷ rest) d = set_versions rest (
    dict_set (str_append "_kernel_version" idx) kernel_ver
      (dict_set (str_append "_firmware_version" idx) firmware_ver d))

-- d[k] = str(v), unless v is None
abbrev pub set_int : String → Option ℤ → Attribs → Attribs
set_int k none d = d
set_int k (some n) d = dict_set k (str_of_int n) d

abbrev pub set_if : Bool → String → String → Attribs → Attribs
set_if b k v d = if b then dict_set k v d else d

abbrev pub set_str : String → Option String → Attribs → Attribs
set_str k none d = d
set_str k (some v) d = dict_set k v d

abbrev pub leaf : String → Attribs → Element
leaf tag d = element tag d Elements.nil

-- The attributes of the update check with a payload.
unfoldable pub check_attribs : AppResponse → Attribs
unfolding set_versions str_of_int
check_attribs a =
    let start : Attribs = ("status", "ok") ∷ [] in
    set_int "_eol_date" a.response_props.eol_date (
      if a.response_props.is_rollback && a.app_request.rollback_allowed
      then set_versions index_strs (dict_set "_is_rollback" "true" start)
      else start)

-- The postinstall action, with the attributes that are set behind its creation.
unfoldable pub action_attribs : AppResponse → AppData → Attribs
unfolding dict_set str_of_nat str_of_int
action_attribs a app = set_str "PublicKeyRsa" app.public_key (
    set_if a.critical_update "deadline" "now" (
      set_int "MaxFailureCountPerUrl" a.response_props.failures_per_url (
        ("ChromeOSVersion", app.target_version)
        ∷ ("ChromeVersion", "1.0.0.0")
        ∷ ("DisablePayloadBackoff", lower_bool a.response_props.disable_payload_backoff)
        ∷ ("IsDeltaPayload", lower_bool app.is_delta)
        ∷ ("MaxDaysToScatter", "14")
        ∷ ("MetadataSignatureRsa", app.metadata_signature)
        ∷ ("MetadataSize", str_of_nat app.metadata_size)
        ∷ ("sha256", app.sha256)
        ∷ ("event", "postinstall")
        ∷ [])))

unfoldable pub package_attribs : AppData → Attribs
unfolding str_of_nat
package_attribs app =
    ("fp", str_append "1." app.sha256_hex)
    ∷ ("hash_sha256", app.sha256_hex)
    ∷ ("name", app.name)
    ∷ ("required", "true")
    ∷ ("size", str_of_nat app.size)
    ∷ []

unfoldable pub urls : AppResponse → Element
urls a = element "urls" [] (
    of_list (
      replicate (range_count a.response_props.num_urls)
        (leaf "url" (("codebase", a.payloads_address) ∷ []))))

unfoldable pub manifest : AppResponse → AppData → Element
unfolding action_attribs package_attribs
manifest a app = element "manifest" (("version", app.target_version) ∷ []) (
    of_list (
      element "actions" [] (
        of_list (
          leaf "action" (("event", "update") ∷ ("run", app.name) ∷ [])
          ∷ leaf "action" (action_attribs a app)
          ∷ []))
      ∷ element "packages" [] (of_list (leaf "package" (package_attribs app) ∷ []))
      ∷ []))

-- The update check with a payload.
unfoldable pub update_check : AppResponse → AppData → Element
unfolding check_attribs urls manifest
update_check a app =
    element "updatecheck" (check_attribs a) (of_list (urls a ∷ manifest a app ∷ []))

-- What Compile puts into the app element for the update check: the element's status, and its child.
unfoldable pub compile_check : AppResponse → Option AppData → RequestType → String × List Element
unfolding update_check
compile_check a (some app) t = ("ok", update_check a app ∷ [])
compile_check a none install = (if a.app_request.has_update_check then "ok" else "noupdate", [])
compile_check a none update = (
  "ok",
  leaf "updatecheck" (set_int "_eol_date" a.response_props.eol_date (("status", "noupdate") ∷ []))
      ∷ [],
)
compile_check a none event = ("ok", [])

abbrev pub child_if : Bool → String → List Element
child_if b tag = if b then leaf tag (("status", "ok") ∷ []) ∷ [] else []

-- AppResponse.Compile
unfoldable pub compile : AppResponse → Element
unfolding compile_check
compile a =
    let (status, check) = compile_check a a.app_data a.app_request.request_type in
    element "app" (("appid", a.app_request.appid) ∷ ("status", status) ∷ []) (
      of_list (
        child_if a.app_request.ping "ping"
        ++ (child_if (is_some a.app_request.event_type) "event" ++ check)))

-- The loop of GetXMLString over the app requests.
unfoldable pub app_responses :
    List AppRequest → NebraskaProps → ResponseProps → List ℕ → List AppResponse
app_responses [] props response_props matched = []
app_responses (r ∷ rs) props response_props matched =
    let (a, matched') = new_app_response r props response_props matched in
    a ∷ app_responses rs props response_props matched'

abbrev pub seconds_per_day : ℕ
seconds_per_day = 86400

unfoldable pub daystart : ℕ → Element
daystart now = leaf "daystart" (
    ("elapsed_days", str_of_nat (now / seconds_per_day))
    ∷ ("elapsed_seconds", str_of_nat (now % seconds_per_day))
    ∷ [])

-- Response(request, nebraska_props, response_props).GetXMLString(), before it is made a string.
unfoldable pub response_xml : ℕ → Request → NebraskaProps → ResponseProps → Element
unfolding app_responses daystart
response_xml now request props response_props =
    element "response" (("protocol", "3.0") ∷ ("server", "nebraska") ∷ []) (
      of_list
        (daystart now ∷ map compile (app_responses request.app_requests props response_props [])))
