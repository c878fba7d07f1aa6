-- ===== src/Nebraska/Request.antt =====
-- Request and Request.AppRequest of nebraska/nebraska.py: an Omaha request, parsed from XML.
-- A request is built from the element tree; `fromstring` is the XML parser of the standard
-- library, and a text that it refuses is `none`.
use cros_dev_util.Base.{
  ℕ, ◌+◌, String, Bool, true, false, ◌&&◌, not, Option, none, some, List, [], ◌∷◌, map, Result, ok,
  err, invalid_request, type_error, value_error, ◌>>=◌, ◌>>◌, guard, or_raise, map_result, ℤ, pos,
  length, filter_by, is_some, opt_eq, int_of, ◌==◌, if◌then◌else◌,
}
pub mod Attributes
pub mod Parse
pub mod Versions
use cros_dev_util.Nebraska.Xml.{Element, get, find, find_all}

pub data RequestType : Type 0 where
  install update event : RequestType

-- The attributes that are never None behind the check that ends ParseApp are plain values.
pub record AppRequest : Type 0 where
  pub request_type : RequestType
  pub appid : String
  pub version : String
  pub track : Option String
  pub board : Option String
  pub ping : Bool
  pub delta_okay : Bool
  pub event_type : Option ℤ
  pub event_result : Option ℤ
  pub previous_version : Option String
  pub rollback_allowed : Bool
  pub has_update_check : Bool

pub record EventFields : Type 0 where
  pub type : Option ℤ
  pub result : Option ℤ
  pub previous : Option String

abbrev pub version_zero : String
version_zero = "0.0.0.0"

-- int(e.get(k)) with no default: int(None) is a TypeError, int('x') a ValueError.
unfoldable pub int_attr : Option String → Result ℤ
int_attr none = err type_error
int_attr (some s) = or_raise (int_of s) value_error

-- int(e.get(k, 0))
unfoldable pub int_attr_or_zero : Option String → Result ℤ
int_attr_or_zero none = ok (pos 0)
int_attr_or_zero (some s) = or_raise (int_of s) value_error

unfoldable pub parse_event : Option Element → Result EventFields
unfolding int_attr int_attr_or_zero
parse_event none = ok (record { type = none; result = none; previous = none })
parse_event (some e) = do
  t ← int_attr (get "eventtype" e)
  r ← int_attr_or_zero (get "eventresult" e)
  ok (record { type = some t; result = some r; previous = get "previousversion" e })

abbrev pub has_check : Element → Bool
has_check app = is_some (find "updatecheck" app)

abbrev pub attr_is_true : Option String → Bool
attr_is_true v = opt_eq v (some "true")

-- The `rollback_allowed` attribute of an element that may be missing.
abbrev pub rollback_attr : Option Element → Bool
rollback_attr none = false
rollback_attr (some check) = attr_is_true (get "rollback_allowed" check)

-- AppRequest(app, request_type): ParseApp.
unfoldable pub parse_app : RequestType → Element → Result AppRequest
unfolding parse_event
parse_app rt app = do
  fields ← parse_event (find "event" app)
  appid ← or_raise (get "appid" app) invalid_request
  version ← or_raise (get "version" app) invalid_request
  ok (record {
    request_type = rt;
    appid = appid;
    version = version;
    track = get "track" app;
    board = get "board" app;
    ping = is_some (find "ping" app);
    delta_okay = attr_is_true (get "delta_okay" app);
    event_type = fields.type;
    event_result = fields.result;
    previous_version = fields.previous;
    rollback_allowed = rollback_attr (find "updatecheck" app);
    has_update_check = has_check app;
  })

-- The request type from the number of update checks among `total` apps. Behind the first test
-- `count` is positive, so `count == total - 1` is `count + 1 == total`.
unfoldable pub classify : ℕ → ℕ → Result RequestType
classify count total =
    if count == 0
    then ok event
    else if count + 1 == total
    then ok install
    else if count == total
    then ok update
    else err invalid_request

abbrev pub opt_elem : Option String → List (Option String) → Bool
opt_elem v [] = false
opt_elem v (x ∷ xs) = if opt_eq v x then true else opt_elem v xs

-- set(...), as a list with no value twice
unfoldable pub unique : List (Option String) → List (Option String)
unique [] = []
unique (x ∷ xs) = x ∷ filter_by (λ y. not (opt_eq y x)) (unique xs)

-- The values of a set of attributes: none, one, or a conflict.
unfoldable pub pop_unique : Option String → List (Option String) → Result (Option String)
pop_unique ignore_value [] = ok ignore_value
pop_unique ignore_value (v ∷ []) = ok v
pop_unique ignore_value (v ∷ w ∷ rest) = err invalid_request

-- _CheckAttributesAndReturnIt, over the list of the apps' values.
unfoldable pub check_attributes :
    List (Option String) → Bool → Option String → Result (Option String)
check_attributes all_attrs in_all ignore_value =
    if in_all && opt_elem ignore_value all_attrs
    then err invalid_request
    else pop_unique ignore_value (unique (filter_by (λ x. not (opt_eq x ignore_value)) all_attrs))

unfoldable pub check_version : RequestType → List (Option String) → Result (Option String)
check_version update versions = check_attributes versions true none
check_version _ versions = check_attributes versions false (some version_zero)

pub record Request : Type 0 where
  pub version : Option String
  pub track : Option String
  pub board : Option String
  pub request_type : RequestType
  pub timestamp : String
  pub app_requests : List AppRequest

abbrev pub versions : List AppRequest → List (Option String)
versions = map (λ (a : AppRequest). some a.version)

abbrev pub tracks : List AppRequest → List (Option String)
tracks = map (λ (a : AppRequest). a.track)

abbrev pub boards : List AppRequest → List (Option String)
boards = map (λ (a : AppRequest). a.board)

-- The checks across all apps that end ParseRequest.
unfoldable pub finish_request : String → RequestType → List AppRequest → Result Request
finish_request timestamp rt apps = do
  version ← check_version rt (versions apps)
  track ← check_attributes (tracks apps) false none
  board ← check_attributes (boards apps) false none
  guard (is_some track && is_some board) invalid_request
  ok (record {
    version = version;
    track = track;
    board = board;
    request_type = rt;
    timestamp = timestamp;
    app_requests = apps;
  })

-- ParseRequest, from the root element on.
unfoldable pub parse_root : String → Element → Result Request
parse_root timestamp root = do
  let app_elements = find_all "app" root
  rt ← classify (length (filter_by has_check app_elements)) (length app_elements)
  apps ← map_result (parse_app rt) app_elements
  finish_request timestamp rt apps

-- Request(request_str), at the time that `timestamp` prints.
unfoldable pub new_request : (String → Option Element) → String → String → Result Request
new_request fromstring timestamp request_str = do
  root ← or_raise (fromstring request_str) invalid_request
  parse_root timestamp root
