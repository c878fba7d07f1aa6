-- ===== src/Nebraska/Properties.antt =====
-- NebraskaProperties, ResponseProperties and QueryDictToDict of nebraska/nebraska.py: what the
-- server is started with, what one response is made with, and how a query string sets the latter.
-- A kwargs dictionary is a record with `none` for a key that it lacks; other keys are ignored.
use cros_dev_util.Base.{
  ℕ, String, Bool, false, ◌||◌, Option, none, some, List, [], ◌∷◌, Result, ok, value_error, ◌>>=◌,
  or_raise, ℤ, pos, length, str_eq, str_append, ends_with, int_of, if◌then◌else◌,
}
use cros_dev_util.Nebraska.AppIndex.{AppData, MetaFile, new_app_index, or_empty}

pub record NebraskaProps : Type 0 where
  pub update_payloads_address : String
  pub install_payloads_address : String
  pub update_app_index : List AppData
  pub install_app_index : List AppData
  pub ignore_appid : Bool

-- os.path.join(address or '', '')
unfoldable pub with_slash : Option String → String
with_slash address =
    let a = or_empty address in if str_eq a "" || ends_with "/" a then a else str_append a "/"

-- NebraskaProperties(...). The objects of the install index are made after those of the update
-- index, so their numbers follow.
module _ (b64decode : String → Result (List ℕ)) where
  unfoldable pub new_props :
      Option String
      → Option String
      → Option (Result (List MetaFile))
      → Option (Result (List MetaFile))
      → Bool
      → Result NebraskaProps
  unfolding with_slash
  new_props update_address install_address update_dir install_dir ignore_appid = do
    let update_url = with_slash update_address
    let install_url = with_slash install_address
    update_index ← new_app_index b64decode 0 update_dir
    install_index ← new_app_index b64decode (length update_index) install_dir
    ok (record {
      update_payloads_address = update_url;
      install_payloads_address = (if str_eq install_url "" then update_url else install_url);
      update_app_index = update_index;
      install_app_index = install_index;
      ignore_appid = ignore_appid;
    })

pub record Kwargs : Type 0 where
  pub critical_update : Option Bool
  pub no_update : Option Bool
  pub is_rollback : Option Bool
  pub failures_per_url : Option ℤ
  pub disable_payload_backoff : Option Bool
  pub num_urls : Option ℤ
  pub eol_date : Option ℤ
  pub full_payload : Option Bool

pub record ResponseProps : Type 0 where
  pub critical_update : Bool
  pub no_update : Bool
  pub is_rollback : Bool
  pub failures_per_url : Option ℤ
  pub disable_payload_backoff : Bool
  pub num_urls : ℤ
  pub eol_date : Option ℤ
  pub full_payload : Option Bool

-- kwargs.get(k, default)
abbrev pub get_or {ℓ} : {A : Type ℓ} → Option A → A → A
get_or none d = d
get_or (some a) d = a

-- ResponseProperties(**kwargs)
unfoldable pub new_response_props : Kwargs → ResponseProps
new_response_props k = record {
  critical_update = get_or k.critical_update false;
  no_update = get_or k.no_update false;
  is_rollback = get_or k.is_rollback false;
  failures_per_url = k.failures_per_url;
  disable_payload_backoff = get_or k.disable_payload_backoff false;
  num_urls = get_or k.num_urls (pos 1);
  eol_date = k.eol_date;
  full_payload = k.full_payload;
}

-- A value of a parsed query: a string or a list of strings.
pub data QueryValue : Type 0 where
  one : String → QueryValue
  many : List String → QueryValue

abbrev pub Query : Type 0
Query = List (String × QueryValue)

-- `if value`, with the string that is converted: the value itself, or the first of the list.
abbrev pub query_text : QueryValue → Option String
query_text (one s) = if str_eq s "" then none else some s
query_text (many []) = none
query_text (many (s ∷ rest)) = some s

unfoldable pub query_get : String → Query → Option String
query_get k [] = none
query_get k ((j, v) ∷ q) = if str_eq j k then query_text v else query_get k q

-- true_lambda, where the key is there
abbrev pub bool_option : Option String → Option Bool
bool_option none = none
bool_option (some s) = some (str_eq s "True")

-- int, where the key is there: a text that is no number raises
unfoldable pub int_option : Option String → Result (Option ℤ)
int_option none = ok none
int_option (some s) = do n ← or_raise (int_of s) value_error; ok (some n)

-- QueryDictToDict(query). No key sets `is_rollback`.
unfoldable pub query_dict_to_dict : Query → Result Kwargs
query_dict_to_dict query = do
  eol_date ← int_option (query_get "eol_date" query)
  failures_per_url ← int_option (query_get "failures_per_url" query)
  num_urls ← int_option (query_get "num_urls" query)
  ok (record {
    critical_update = bool_option (query_get "critical_update" query);
    no_update = bool_option (query_get "no_update" query);
    is_rollback = none;
    failures_per_url = failures_per_url;
    disable_payload_backoff = bool_option (query_get "disable_payload_backoff" query);
    num_urls = num_urls;
    eol_date = eol_date;
    full_payload = bool_option (query_get "full_payload" query);
  })
