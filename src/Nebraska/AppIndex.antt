-- ===== src/Nebraska/AppIndex.antt =====
-- AppIndex and AppIndex.AppData of nebraska/nebraska.py, with AppRequest.MatchAppData: the
-- payloads that the server offers, and the search for the payload that answers a request.
-- A payload has the identity `obj` of its object, since the code keeps a set of objects that
-- have no equality of their own. A metadata file is a dictionary that may lack any key.
use cros_dev_util.Base.{
  ℕ, zero, suc, ◌+◌, ◌-◌, ◌/◌, ◌%◌, String, Bool, true, false, ◌&&◌, ◌||◌, not, Option, none, some,
  List, [], ◌∷◌, Result, ok, err, key_error, ◌>>=◌, or_raise, filter_by, first_by, is_empty, elem,
  is_some, str_eq, str_length, str_take, str_drop, str_append, is_substring, ends_with, leb, ◌==◌,
  if◌then◌else◌,
}
pub mod Find
pub mod Prefer
use cros_dev_util.Nebraska.Request.{AppRequest, RequestType, install, update, event}

pub record AppData : Type 0 where
  pub obj : ℕ
  pub appid : String
  pub canary_appid : String
  pub name : String
  pub target_version : String
  pub is_delta : Bool
  pub source_version : Option String
  pub size : ℕ
  pub metadata_signature : String
  pub metadata_size : ℕ
  pub public_key : Option String
  pub sha256 : String
  pub sha256_hex : String

-- A properties file: `none` for a key that is missing; `metadata_signature` may also be null.
pub record Metadata : Type 0 where
  pub appid : Option String
  pub name : Option String
  pub target_version : Option String
  pub is_delta : Option Bool
  pub source_version : Option String
  pub size : Option ℕ
  pub metadata_signature : Option (Option String)
  pub metadata_size : Option ℕ
  pub public_key : Option String
  pub sha256_hex : Option String

abbrev pub canary_app_id : String
canary_app_id = "{90F229CE-83E2-4FAF-8479-E368A34938B1}"

-- The App ID with its beginning replaced by the canary App ID; too short an ID has none.
unfoldable pub canary_of : String → String
canary_of appid =
    if leb (str_length canary_app_id) (str_length appid)
    then str_append canary_app_id (str_drop (str_length canary_app_id) appid)
    else ""

hex_digit : ℕ → String
hex_digit n = str_take 1 (str_drop n "0123456789ABCDEF")

-- base64.b16encode
unfoldable pub b16encode : List ℕ → String
unfolding hex_digit
b16encode [] = ""
b16encode (b ∷ bs) =
    str_append (hex_digit (b / 16)) (str_append (hex_digit (b % 16)) (b16encode bs))

-- app_data[SOURCE_VERSION_KEY] if is_delta else None
unfoldable pub source_of : Bool → Option String → Result (Option String)
source_of false v = ok none
source_of true none = err key_error
source_of true (some v) = ok (some v)

-- `app_data[METADATA_SIG_KEY] or ''`
abbrev pub or_empty : Option String → String
or_empty none = ""
or_empty (some s) = s

-- `b64decode` is the standard library's decoder, with the exception that it raises.
module _ (b64decode : String → Result (List ℕ)) where
  -- AppData(app_data), for the object `obj`.
  unfoldable pub new_app_data : ℕ → Metadata → Result AppData
  unfolding source_of
  new_app_data obj m = do
    appid ← or_raise m.appid key_error
    name ← or_raise m.name key_error
    target_version ← or_raise m.target_version key_error
    is_delta ← or_raise m.is_delta key_error
    source_version ← source_of is_delta m.source_version
    size ← or_raise m.size key_error
    signature ← or_raise m.metadata_signature key_error
    metadata_size ← or_raise m.metadata_size key_error
    sha256 ← or_raise m.sha256_hex key_error
    hash ← b64decode sha256
    ok (record {
      obj = obj;
      appid = appid;
      canary_appid = canary_of appid;
      name = name;
      target_version = target_version;
      is_delta = is_delta;
      source_version = source_version;
      size = size;
      metadata_signature = or_empty signature;
      metadata_size = metadata_size;
      public_key = m.public_key;
      sha256 = sha256;
      sha256_hex = b16encode hash;
    })

-- A file of the metadata directory: its name, and what opening it and json.loads give.
pub record MetaFile : Type 0 where
  pub filename : String
  pub contents : Result Metadata

-- f[:-len('.json')]
abbrev pub stem_of : String → String
stem_of f = str_take (str_length f - 5) f

module _ (b64decode : String → Result (List ℕ)) where
  -- The loop of _Scan: the files in the order of os.listdir, the first exception ends it.
  unfoldable pub scan_files : ℕ → List MetaFile → Result (List AppData)
  scan_files obj [] = ok []
  scan_files obj (f ∷ fs) =
      let loaded = do
        m ← f.contents
        app ← new_app_data b64decode obj (record m { name = some (stem_of f.filename) })
        rest ← scan_files (suc obj) fs
        ok (app ∷ rest)
      in let others = scan_files obj fs in if ends_with ".json" f.filename then loaded else others

  -- AppIndex(directory): no directory is an empty index; os.listdir itself may fail.
  unfoldable pub new_app_index : ℕ → Option (Result (List MetaFile)) → Result (List AppData)
  unfolding scan_files
  new_app_index obj none = ok []
  new_app_index obj (some listing) = listing >>= scan_files obj

-- The App ID part of MatchAppData.
unfoldable pub match_appid : String → AppData → Bool → Bool → Bool → Bool
match_appid appid app_data partial check_against_canary ignore_appid =
    if ignore_appid || str_eq appid app_data.appid
    then true
    else if partial
    then is_substring app_data.appid appid
    else if check_against_canary
    then str_eq app_data.canary_appid appid
    else false

-- The part of MatchAppData behind the App ID: what payload the request can take.
unfoldable pub match_kind : RequestType → Bool → Bool → Bool
match_kind update delta_okay is_delta = if is_delta then delta_okay else true
match_kind install delta_okay is_delta = not is_delta
match_kind event delta_okay is_delta = false

unfoldable pub match_app_data : AppRequest → AppData → Bool → Bool → Bool → Bool
match_app_data r app_data partial check_against_canary ignore_appid =
    if match_appid r.appid app_data partial check_against_canary ignore_appid
    then match_kind r.request_type r.delta_okay app_data.is_delta
    else false

abbrev pub or_if_empty : List AppData → List AppData → List AppData
or_if_empty xs ys = if is_empty xs then ys else xs

abbrev pub exact_match : AppRequest → AppData → Bool
exact_match r a = match_app_data r a false false false

abbrev pub canary_match : AppRequest → AppData → Bool
canary_match r a = match_app_data r a false true false

abbrev pub partial_match : AppRequest → AppData → Bool
partial_match r a = match_app_data r a true false false

abbrev pub any_match : AppRequest → AppData → Bool
any_match r a = match_app_data r a false false true

-- The passes of Find, each made only if those before it found nothing.
unfoldable pub candidates : List AppData → AppRequest → Bool → List AppData
candidates index r ignore_appid =
    let exact = filter_by (exact_match r) index in
    let canary = or_if_empty exact (filter_by (canary_match r) index) in
    let partial = or_if_empty canary (filter_by (partial_match r) index) in
    if is_empty partial && ignore_appid then filter_by (any_match r) index else partial

-- `full_payload is False`, and the truth of `full_payload`.
abbrev pub only_delta : Option Bool → Bool
only_delta (some false) = true
only_delta _ = false

abbrev pub only_full : Option Bool → Bool
only_full (some true) = true
only_full _ = false

-- The choice of Find among the payloads that are left.
unfoldable pub choose : List AppData → Bool → Option Bool → Option AppData
choose fresh delta_okay full_payload =
    let full_match = first_by (λ (a : AppData). not a.is_delta) fresh in
    let delta_match = first_by (λ (a : AppData). a.is_delta) fresh in
    if only_delta full_payload && not delta_okay
    then none
    else if only_full full_payload || not delta_okay
    then full_match
    else if only_delta full_payload || is_some delta_match
    then delta_match
    else full_match

-- matched_apps.add(match), with the result of Find.
abbrev pub record_match : List ℕ → Option AppData → Option AppData × List ℕ
record_match matched none = (none, matched)
record_match matched (some a) = (some a, a.obj ∷ matched)

abbrev pub unmatched : List ℕ → List AppData → List AppData
unmatched matched = filter_by (λ (a : AppData). not (elem a.obj matched))

-- The payload that Find settles on.
unfoldable pub pick : List AppData → AppRequest → List ℕ → Option Bool → Bool → Option AppData
pick index r matched full_payload ignore_appid =
    choose (unmatched matched (candidates index r ignore_appid)) r.delta_okay full_payload

-- AppIndex.Find: the payload, and the set of the payloads matched so far.
unfoldable pub find_app :
    List AppData → AppRequest → List ℕ → Option Bool → Bool → Option AppData × List ℕ
find_app index r matched full_payload ignore_appid =
    record_match matched (pick index r matched full_payload ignore_appid)
