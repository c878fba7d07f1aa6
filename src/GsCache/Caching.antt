-- ===== src/GsCache/Caching.antt =====
-- gs_cache/gs_archive_server.py: `_CachingServer`, through which the server asks the caching proxy
-- for files, and `_url_type`, which reads the proxy's address.
use cros_dev_util.Base.{
  ℕ, String, Bool, Option, none, some, List, str_eq, str_append, dict_get, if◌then◌else◌,
}
use cros_dev_util.GsCache.Paths.{splitext}
use cros_dev_util.GsCache.Answers.{Raised, requests_error, Answer, raised, done, Headers, dict_del}

pub record CachedReply : Type 0 where
  pub status : ℕ
  pub content : String

-- What is asked of Google Storage about a file.
pub record Stat : Type 0 where
  pub content_type : String
  pub content_length : String

-- The code outside the repository: `urlparse.urlunsplit` of a scheme, a netloc, a path and a query,
-- requests.get, the statuses that `raise_for_status` refuses, `iter_content`, a process that is fed
-- with a text and gives its output, `communicate` of a process, and chromite's gs.GSContext.
pub record Outside : Type 0 where
  pub urlunsplit : String → String → String → String → String
  pub get : String → Headers → CachedReply
  pub is_error_status : ℕ → Bool
  pub iter_content : ℕ → String → List String
  pub pipe : List String → String → String
  pub communicate : List String → Answer String
  pub stat : String → Answer Stat
  pub streaming_cat : String → Answer (List String × Option Raised)

-- The address of the caching server: scheme and netloc.
pub record CachingServer : Type 0 where
  pub scheme : String
  pub netloc : String

abbrev pub compressed_tar_ext : String
compressed_tar_ext = "X-Compressed-Tar-Ext"

abbrev pub read_buffer_size : ℕ
read_buffer_size = 1048576

abbrev pub url_of : Outside → CachingServer → String → String → String
url_of w server action path =
    w.urlunsplit server.scheme server.netloc (str_append action (str_append "/" path)) ""

-- No caller gives `args`: the query is empty.
unfoldable pub call : Outside → CachingServer → String → String → Headers → Answer CachedReply
call w server action path headers =
    let rsp = w.get (url_of w server action path) headers in
    if w.is_error_status rsp.status
    then raised (requests_error rsp.status rsp.content)
    else done rsp

unfoldable pub download_and_decompress_tar :
    Outside → CachingServer → String → String → Headers → Answer CachedReply
unfolding call
download_and_decompress_tar w server path ext_name headers =
    let stem = if str_eq ext_name ".tgz" then (splitext path).0 else path in
    call w server "decompress" (str_append stem ext_name) headers

-- The header is taken from the headers, which are then sent.
unfoldable pub download : Outside → CachingServer → String → Headers → Answer CachedReply
unfolding call download_and_decompress_tar dict_get
download w server path headers =
    let rest = dict_del compressed_tar_ext headers in
    let plain = call w server "download" path rest in
    elim (dict_get compressed_tar_ext headers) as (λ _. Answer CachedReply) [
      | none ↦ plain
      | some ext_name ↦
          if str_eq ext_name ""
          then plain
          else download_and_decompress_tar w server path ext_name rest
    ]

-- The scheme and the netloc of a URL, for urlparse.urlsplit; `none` is argparse's error.
unfoldable pub url_type : (String → String × String) → String → Option CachingServer
url_type urlsplit input_string =
    let (scheme', _) = urlsplit input_string in
    let whole = if str_eq scheme' "" then str_append "http://" input_string else input_string in
    let (scheme, netloc) = urlsplit whole in
    if str_eq scheme ""
    then none
    else if str_eq netloc ""
    then none
    else some (record { scheme = scheme; netloc = netloc })
