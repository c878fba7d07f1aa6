-- ===== src/Nebraska/Server.antt =====
-- Nebraska and NebraskaServer.NebraskaHandler of nebraska/nebraska.py: the state of the server,
-- the answer to a request, and the HTTP handlers.
-- The standard library's XML parser and URL parser are parameters, and so is the printing of the
-- response by ElementTree and minidom, which may fail. A handler returns the reply, or the exception
-- that leaves it with no reply, and the new state.
pub mod Log
use cros_dev_util.Base.{
  ℕ, zero, suc, String, Bool, true, false, Option, none, some, List, [], ◌∷◌, ◌++◌, Result, ok, err,
  ℤ, pos, negsuc, str_eq, str_take, strip_char, int_of, if◌then◌else◌,
}
use cros_dev_util.Nebraska.Xml.{Element}
use cros_dev_util.Nebraska.Request.{AppRequest, Request, new_request}
use cros_dev_util.Nebraska.Properties.{
  NebraskaProps, ResponseProps, Query, query_dict_to_dict, new_response_props,
}
use cros_dev_util.Nebraska.Response.{response_xml}

-- The dictionary that GetDict returns: the first app's, with the time of the request.
pub record LogEntry : Type 0 where
  pub app : AppRequest
  pub timestamp : String

-- Request.GetDict; `none` is the empty dictionary.
unfoldable pub get_dict : Request → Option LogEntry
get_dict req = elim req.app_requests [
  | [] ↦ none
  | app ∷ rest ↦ some (record { app = app; timestamp = req.timestamp })
]

pub record Nebraska : Type 0 where
  pub nebraska_props : NebraskaProps
  pub response_props : ResponseProps
  pub request_log : List (Option LogEntry)

-- `response_props or self._response_props`
abbrev pub props_or : Option ResponseProps → ResponseProps → ResponseProps
props_or none own = own
props_or (some p) own = p

-- GetResponseToRequest: the request is logged before the response is made; `none` is an exception of
-- the printing.
unfoldable pub get_response :
    (Element → Option String)
    → ℕ
    → Nebraska
    → Request
    → Option ResponseProps
    → Option String × Nebraska
get_response tostring now n req props = (
  tostring (response_xml now req n.nebraska_props (props_or props n.response_props)),
  record n { request_log = n.request_log ++ get_dict req ∷ [] },
)

pub data Body : Type 0 where
  xml : String → Body
  json_log : List (Option LogEntry) → Body
  plain : String → Body
  error_page : Body

pub record Reply : Type 0 where
  pub code : ℕ
  pub content_type : String
  pub body : Body

abbrev pub send_error : ℕ → Reply
send_error code = record { code = code; content_type = "text/html"; body = error_page }

abbrev pub send_response : String → Body → Reply
send_response content_type body = record { code = 200; content_type = content_type; body = body }

pub record Post : Type 0 where
  pub content_length : Option String
  pub path : String
  pub rfile : String

-- self.rfile.read(n): a negative length reads to the end.
abbrev pub read_up_to : ℤ → String → String
read_up_to (pos n) s = str_take n s
read_up_to (negsuc n) s = s

-- The header and the body; any exception is caught, and is `none`.
unfoldable pub read_request : Post → Option String
read_request p = elim p.content_length [
  | none ↦ none
  | some s ↦ elim (int_of s) [ none ↦ none | some n ↦ some (read_up_to n p.rfile) ]
]

module _ (fromstring : String → Option Element) (urlparse : String → String × Query)
    (tostring : Element → Option String) where
  -- _ParseURL
  unfoldable pub parse_url : String → String × Query
  unfolding strip_char
  parse_url url = let (path, query) = urlparse url in (strip_char b'/' path, query)

  -- The `try` block of do_POST: any exception is answered by 500.
  unfoldable pub handle_update : ℕ → String → Nebraska → String → ResponseProps → Reply × Nebraska
  handle_update now timestamp n text props = elim (new_request fromstring timestamp text) [
    | err e ↦ (send_error 500, n)
    | ok req ↦
        let (response, n') = get_response tostring now n req (some props) in
        elim response [
          | none ↦ (send_error 500, n')
          | some printed ↦ (send_response "application/xml" (xml printed), n')
        ]
  ]

  -- do_POST. QueryDictToDict stands outside the `try` block, so its exception leaves the handler.
  unfoldable pub do_post : ℕ → String → Nebraska → Post → Result Reply × Nebraska
  do_post now timestamp n p = elim (read_request p) [
    | none ↦ (ok (send_error 400), n)
    | some text ↦
        let (path, query) = parse_url p.path in
        let update = elim (query_dict_to_dict query) as (λ _. Result Reply × Nebraska) [
          | err e ↦ (err e, n)
          | ok kwargs ↦
              let (reply, n') = handle_update now timestamp n text (new_response_props kwargs) in
              (ok reply, n')
        ] in
        if str_eq path "update" then update else (ok (send_error 400), n)
  ]

  -- do_GET
  unfoldable pub do_get : Nebraska → String → Reply
  do_get n url =
      let (path, query) = parse_url url in
      if str_eq path "requestlog"
      then send_response "application/json" (json_log n.request_log)
      else if str_eq path "health_check"
      then send_response "text/plain" (plain "Nebraska is alive!")
      else send_error 400
