-- ===== src/GsCache/Answers.antt =====
-- gs_cache/gs_archive_server.py: the exceptions, the requests and the responses of its server, and
-- the checks of what a request asks for.
use cros_dev_util.Base.{
  ℕ, zero, suc, String, Bool, true, false, Option, none, some, List, [], ◌∷◌, str_eq, str_elem,
  str_append, str_take, str_drop, str_length, ends_with, dict_get, if◌then◌else◌,
}

-- The exceptions that the code raises or catches, with what it reads of them: `requests_error` is
-- requests.HTTPError, `http_error` is cherrypy.HTTPError.
pub data Raised : Type 0 where
  value_error : String → Raised
  requests_error : ℕ → String → Raised
  http_error : ℕ → String → Raised
  archive_server_error : String → Raised
  called_process_error : String → Raised
  no_such_key : String → Raised
  command_error : String → String → Raised
  key_error : String → Raised

pub data Answer {κ} (T : Type κ) : Type κ where
  raised : Raised → Answer T
  done : T → Answer T

-- Statements in sequence: nothing behind an exception runs.
infixl 6 ◌>>=◌
abbrev pub ◌>>=◌ {κ ν} : {T : Type κ} {U : Type ν} → Answer T → (T → Answer U) → Answer U
raised exn >>= rest = raised exn
done t >>= rest = rest t

abbrev pub Headers : Type 0
Headers = List (String × String)

-- d.pop(k, None), without what it returns
unfoldable pub dict_del : String → Headers → Headers
dict_del k [] = []
dict_del k ((j, v) ∷ d) = let rest = dict_del k d in if str_eq j k then rest else (j, v) ∷ rest

-- The value of a query parameter: a text, or a list where it is given more than once.
pub data Value : Type 0 where
  single : String → Value
  several : List String → Value

-- A request to a handler: the parts of its path, its query, its method and its headers.
pub record RpcRequest : Type 0 where
  pub args : List String
  pub kwargs : List (String × Value)
  pub method : String
  pub headers : Headers

pub record Response : Type 0 where
  pub status : Option ℕ
  pub headers : Headers

-- What a handler returns: nothing, a content, or a generator, which is run after it has returned.
pub data ResponseBody : Type 0 where
  nothing : ResponseBody
  content : String → ResponseBody
  generator : List String × Option Raised → ResponseBody

-- '/'.join(args)
abbrev pub join_slash : List String → String
join_slash [] = ""
join_slash (a ∷ []) = a
join_slash (a ∷ b ∷ more) = str_append a (str_append "/" (join_slash (b ∷ more)))

abbrev quoted : List String → String
quoted [] = ""
quoted (a ∷ []) = str_append "'" (str_append a "'")
quoted (a ∷ b ∷ more) = str_append "'" (str_append a (str_append "', " (quoted (b ∷ more))))

abbrev pub not_in : String → List String → String
not_in filename ext_names =
    str_append "Extension name of '"
      (str_append filename (str_append "' isn't in [" (str_append (quoted ext_names) "]")))

abbrev pub ends_with_one : String → List String → Bool
ends_with_one filename [] = false
ends_with_one filename (ext ∷ exts) =
    if ends_with ext filename then true else ends_with_one filename exts

abbrev checked_extension : String → List String → Answer String
checked_extension filename [] = done filename
checked_extension filename (ext ∷ exts) =
    if ends_with_one filename (ext ∷ exts)
    then done filename
    else raised (value_error (not_in filename (ext ∷ exts)))

unfoldable pub check_file_extension : String → List String → Answer String
check_file_extension filename ext_names =
    if str_eq filename ""
    then raised (value_error "File name is required.")
    else checked_extension filename ext_names

-- set(xs), each element at its last place.
unfoldable pub set_of : List String → List String
set_of [] = []
set_of (x ∷ xs) = let rest = set_of xs in if str_elem x rest then rest else x ∷ rest

unfoldable pub safe_get_param : List (String × Value) → String → Answer (List String)
unfolding set_of
safe_get_param all_params param_name =
    elim (dict_get param_name all_params) as (λ _. Answer (List String)) [
      | none ↦
          raised
            (http_error 400 (str_append "Parameter \"" (str_append param_name "\" is required!")))
      | some (single value) ↦ done (value ∷ [])
      | some (several values) ↦ done (set_of values)
    ]

-- The decorator: what the wrapped handler returns or raises, and the response with its status.
unfoldable pub to_cherrypy_error : Answer ResponseBody × Response → Answer ResponseBody × Response
to_cherrypy_error (done body, response) = (done body, response)
to_cherrypy_error (raised (requests_error status text), response) =
    (done (content text), record { status = some status; headers = response.headers })
to_cherrypy_error (raised (value_error message), response) =
    (raised (http_error 400 message), response)
to_cherrypy_error (raised exn, response) = (raised exn, response)

-- f.read(n) until it returns nothing; a file of k characters takes at most k + 1 reads.
abbrev pub read_times : ℕ → ℕ → String → List String
read_times zero n file = []
read_times (suc fuel) n file =
    let data_read = str_take n file in
    let rest = read_times fuel n (str_drop n file) in
    if str_eq data_read "" then [] else data_read ∷ rest

unfoldable pub read_chunks : ℕ → String → List String
read_chunks n file = read_times (suc (str_length file)) n file

abbrev pub str_concat : List String → String
str_concat [] = ""
str_concat (s ∷ ss) = str_append s (str_concat ss)
