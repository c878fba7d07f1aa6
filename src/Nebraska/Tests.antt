-- ===== src/Nebraska/Tests.antt =====
-- Tests of the model of nebraska/nebraska.py, and its theorems at concrete requests and payloads.
use cros_dev_util.Base.{
  dict_get, String, ◌≡◌, refl, ◌≢◌, ◌↔◌, ◌⊎◌, inl, inr, true, false, Option, none, some, List, [],
  ◌∷◌, ok, err, value_error, pos, length, All, str_eq, int_of, strip_char, is_some, if◌then◌else◌,
}
use cros_dev_util.Nebraska.Xml.{Element, element, of_list, find, find_all}
use cros_dev_util.Nebraska.Request.{
  AppRequest, Request, update, parse_app, parse_event, parse_root, classify, finish_request,
  check_version, check_attributes, unique, pop_unique, new_request,
}
use cros_dev_util.Nebraska.Request.Attributes.{Agrees, check_attributes_exact}
use cros_dev_util.Nebraska.Request.Parse.{Shape, parse_root_shape, parse_root_agreement}
use cros_dev_util.Nebraska.Request.Versions.{VersionsAgree, parse_root_versions}
use cros_dev_util.Nebraska.AppIndex.{
  AppData, find_app, pick, choose, candidates, match_app_data, match_appid, match_kind,
}
use cros_dev_util.Nebraska.AppIndex.Find.{Serves, find_app_sound, full_update, delta_update}
use cros_dev_util.Nebraska.AppIndex.Prefer.{find_app_complete, find_app_prefers_delta}
use cros_dev_util.Nebraska.Properties.{
  NebraskaProps, ResponseProps, Query, many, Kwargs, new_response_props, query_get,
  query_dict_to_dict, int_option,
}
use cros_dev_util.Nebraska.Response.{AppResponse, new_app_response, app_responses, action_attribs}
use cros_dev_util.Nebraska.Response.Matching.{
  Distinct, payloads, payloads-Distinct, Served, new_app_response-Served,
}
use cros_dev_util.Nebraska.Response.Content.{action_attribs_values}
use cros_dev_util.Nebraska.Server.{
  Nebraska, Post, read_request, parse_url, do_post, do_get, send_response, json_log,
}
use cros_dev_util.Nebraska.Server.Log.{
  accepted, run_posts, accepted_entries, request_log_complete, do_post_bad_query,
}

-- A platform app that asks for an update and accepts deltas, and a DLC that asks for none.
abbrev platform_app : Element
platform_app =
    element "app"
      (("appid", "A")
        ∷ ("version", "1.2.3")
        ∷ ("track", "stable")
        ∷ ("board", "kevin")
        ∷ ("delta_okay", "true")
        ∷ [])
      (of_list (element "ping" [] (of_list []) ∷ element "updatecheck" [] (of_list []) ∷ []))

abbrev quiet_app : Element
quiet_app = element "app" (("appid", "A_dlc") ∷ ("version", "0.0.0.0") ∷ []) (of_list [])

abbrev update_root : Element
update_root = element "request" [] (of_list (platform_app ∷ []))

abbrev install_root : Element
install_root = element "request" [] (of_list (quiet_app ∷ platform_app ∷ []))

abbrev mixed_root : Element
mixed_root = element "request" [] (of_list (quiet_app ∷ quiet_app ∷ platform_app ∷ []))

abbrev platform_request : AppRequest
platform_request = record {
  request_type = update;
  appid = "A";
  version = "1.2.3";
  track = some "stable";
  board = some "kevin";
  ping = true;
  delta_okay = true;
  event_type = none;
  event_result = none;
  previous_version = none;
  rollback_allowed = false;
  has_update_check = true;
}

abbrev update_request : Request
update_request = record {
  version = some "1.2.3";
  track = some "stable";
  board = some "kevin";
  request_type = update;
  timestamp = "now";
  app_requests = platform_request ∷ [];
}

parsed_update : parse_root "now" update_root ≡ ok update_request
unfolding parse_root parse_app parse_event classify finish_request check_version check_attributes
    unique pop_unique find_all find dict_get
parsed_update = refl

parse_root_shape_example :
    (length update_request.app_requests ≡ length (find_all "app" update_root))
    × Shape update_request.app_requests update
    × All (λ (a : AppRequest). a.request_type ≡ update) update_request.app_requests
parse_root_shape_example = parse_root_shape "now" update_root update_request parsed_update

parse_root_agreement_example :
    (update_request.app_requests ≢ [])
    × (update_request.track ≢ none)
    × (update_request.board ≢ none)
    × All
        (λ (a : AppRequest). (a.track ≡ none) ⊎ (a.track ≡ some "stable"))
        update_request.app_requests
    × All
        (λ (a : AppRequest). (a.board ≡ none) ⊎ (a.board ≡ some "kevin"))
        update_request.app_requests
parse_root_agreement_example = parse_root_agreement "now" update_root update_request parsed_update

parse_root_versions_example : VersionsAgree (some "1.2.3") update_request.app_requests update
parse_root_versions_example = parse_root_versions "now" update_root update_request parsed_update

check_attributes_exact_example :
    (check_attributes (some "1" ∷ some "0" ∷ some "1" ∷ []) false (some "0") ≡ ok (some "1"))
    ↔ Agrees (some "1" ∷ some "0" ∷ some "1" ∷ []) false (some "0") (some "1")
check_attributes_exact_example =
    check_attributes_exact (some "1" ∷ some "0" ∷ some "1" ∷ []) false (some "0") (some "1")

abbrev full_payload : AppData
full_payload = record {
  obj = 0;
  appid = "A";
  canary_appid = "";
  name = "full.bin";
  target_version = "2.0.0";
  is_delta = false;
  source_version = none;
  size = 100;
  metadata_signature = "";
  metadata_size = 10;
  public_key = none;
  sha256 = "AA==";
  sha256_hex = "00";
}

abbrev delta_payload : AppData
delta_payload = record full_payload {
  obj = 1;
  name = "delta.bin";
  is_delta = true;
  source_version = some "1.2.3";
}

abbrev index : List AppData
index = full_payload ∷ delta_payload ∷ []

found_delta : (find_app index platform_request [] none false).0 ≡ some delta_payload
unfolding find_app pick choose candidates match_app_data match_appid match_kind
found_delta = refl

found_full : (find_app index platform_request (1 ∷ []) none false).0 ≡ some full_payload
unfolding find_app pick choose candidates match_app_data match_appid match_kind
found_full = refl

find_app_sound_example :
    Serves index platform_request [] none false delta_payload
    × ((find_app index platform_request [] none false).1 ≡ 1 ∷ [])
find_app_sound_example =
    find_app_sound index platform_request [] none false delta_payload found_delta

find_app_complete_example :
    (a : AppData) × ((find_app index platform_request (1 ∷ []) none false).0 ≡ some a)
    × (a.appid ≡ "A")
find_app_complete_example =
    find_app_complete index platform_request (1 ∷ []) none false full_payload (inl refl) refl
      (full_update refl refl) refl refl refl

find_app_prefers_delta_example :
    (a : AppData) × ((find_app index platform_request [] none false).0 ≡ some a)
    × (a.is_delta ≡ true)
find_app_prefers_delta_example =
    find_app_prefers_delta index platform_request [] none false delta_payload (inr (inl refl)) refl
      (delta_update refl refl refl) refl refl refl refl

abbrev props : NebraskaProps
props = record {
  update_payloads_address = "http://host/";
  install_payloads_address = "http://host/";
  update_app_index = index;
  install_app_index = [];
  ignore_appid = false;
}

abbrev no_kwargs : Kwargs
no_kwargs = record {
  critical_update = none;
  no_update = none;
  is_rollback = none;
  failures_per_url = none;
  disable_payload_backoff = none;
  num_urls = none;
  eol_date = some (pos 18000);
  full_payload = none;
}

-- The properties of a response with an end-of-life date and nothing else.
abbrev plain_props : ResponseProps
plain_props = record {
  critical_update = false;
  no_update = false;
  is_rollback = false;
  failures_per_url = none;
  disable_payload_backoff = false;
  num_urls = pos 1;
  eol_date = some (pos 18000);
  full_payload = none;
}

plain_props_default : new_response_props no_kwargs ≡ plain_props
unfolding new_response_props
plain_props_default = refl

payloads-Distinct_example :
    Distinct
      (payloads (app_responses (platform_request ∷ platform_request ∷ []) props plain_props []))
payloads-Distinct_example =
    payloads-Distinct (platform_request ∷ platform_request ∷ []) props plain_props

new_app_response-Served_example :
    Served platform_request props plain_props []
      (new_app_response platform_request props plain_props []).0.app_data
new_app_response-Served_example = new_app_response-Served platform_request props plain_props []

abbrev answer : AppResponse
answer = record {
  app_request = platform_request;
  response_props = plain_props;
  app_data = some delta_payload;
  payloads_address = "http://host/";
  critical_update = true;
}

action_attribs_values_example :
    (dict_get "deadline" (action_attribs answer delta_payload) ≡ some "now")
    × (dict_get "MaxFailureCountPerUrl" (action_attribs answer delta_payload) ≡ none)
    × (dict_get "PublicKeyRsa" (action_attribs answer delta_payload) ≡ none)
    × (dict_get "ChromeOSVersion" (action_attribs answer delta_payload) ≡ some "2.0.0")
action_attribs_values_example = action_attribs_values answer delta_payload

-- The parsers of the standard library at a few texts.
abbrev parse_xml : String → Option Element
parse_xml s = if str_eq s "<request/>" then some update_root else none

abbrev split_url : String → String × Query
split_url url =
    if str_eq url "/update/?num_urls=x"
    then ("/update/", ("num_urls", many ("x" ∷ [])) ∷ [])
    else (url, [])

abbrev print_xml : Element → Option String
print_xml e = some "<response/>"

abbrev server : Nebraska
server = record { nebraska_props = props; response_props = plain_props; request_log = [] }

abbrev good_post : Post
good_post = record { content_length = some "10"; path = "/update/"; rfile = "<request/>" }

abbrev bad_post : Post
bad_post = record { content_length = some "10"; path = "/update/?num_urls=x"; rfile = "<request/>" }

good_post-accepted : is_some (accepted parse_xml split_url print_xml "now" good_post) ≡ true
unfolding accepted read_request parse_url query_dict_to_dict query_get int_option new_request
    parse_root parse_app parse_event classify finish_request check_version check_attributes unique
    pop_unique find_all find dict_get int_of strip_char
good_post-accepted = refl

request_log_complete_example :
    do_get parse_xml split_url print_xml
      (run_posts parse_xml split_url print_xml server ((0, "now", good_post) ∷ []))
      "/requestlog"
    ≡ send_response "application/json"
        (json_log (accepted_entries parse_xml split_url print_xml ((0, "now", good_post) ∷ [])))
unfolding parse_url
request_log_complete_example =
    request_log_complete parse_xml split_url print_xml server ((0, "now", good_post) ∷ [])
      "/requestlog" refl

do_post_bad_query_example :
    do_post parse_xml split_url print_xml 0 "now" server bad_post ≡ (err value_error, server)
unfolding parse_url read_request query_get int_of
do_post_bad_query_example =
    do_post_bad_query parse_xml split_url print_xml 0 "now" server bad_post "<request/>" "x"
      "num_urls" refl refl (inr (inr refl)) refl refl
