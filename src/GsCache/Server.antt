-- ===== src/GsCache/Server.antt =====
-- gs_cache/gs_archive_server.py: the handlers of `GsArchiveServer`.
use cros_dev_util.Base.{
  String, Option, none, some, List, [], ◌∷◌, str_eq, str_append, str_length, str_of_nat,
  is_substring, dict_get, dict_set, if◌then◌else◌,
}
use cros_dev_util.GsCache.Paths.{splitext, basename}
use cros_dev_util.GsCache.Answers.{
  Raised, http_error, archive_server_error, called_process_error, no_such_key, command_error,
  key_error, Answer, raised, done, ◌>>=◌, Headers, RpcRequest, Response, ResponseBody, nothing,
  content, generator, join_slash, check_file_extension, safe_get_param, to_cherrypy_error,
  read_chunks, str_concat,
}
use cros_dev_util.GsCache.Caching.{
  Outside, CachedReply, Stat, CachingServer, compressed_tar_ext, read_buffer_size,
}
use cros_dev_util.GsCache.Caching as caching

-- The response with a header set.
abbrev pub with_header : String → String → Response → Response
with_header name value response = record {
  status = response.status;
  headers = dict_set name value response.headers;
}

abbrev pub gs_path : List String → Answer String
gs_path args = do path ← check_file_extension (join_slash args) []; done (str_append "gs://" path)

abbrev listing_error : Answer String → Answer String
listing_error (raised (called_process_error output)) = raised (http_error 404 output)
listing_error (raised exn) = raised exn
listing_error (done text) = done text

unfoldable pub list_dir : Outside → RpcRequest → Response → Answer ResponseBody × Response
list_dir w request response =
    let listed : Answer ResponseBody = do
      path ← gs_path request.args
      text ← listing_error (w.communicate ("gsutil" ∷ "ls" ∷ path ∷ []))
      done (content text)
    in to_cherrypy_error (listed, response)

-- The clauses of `except` of download.
unfoldable pub gs_error : Raised → Raised
gs_error (no_such_key message) = http_error 404 message
gs_error (command_error message error) =
    let status = if is_substring "You aren't authorized to read" error then 401 else 503 in
    http_error status (str_append message (str_append ": " error))
gs_error exn = exn

abbrev pub in_gs {κ} : {T : Type κ} → Answer T → Answer T
in_gs (raised exn) = raised (gs_error exn)
in_gs (done t) = done t

unfoldable pub stat_and_content : Outside → String → String → Answer (Stat × ResponseBody)
stat_and_content w method path = do
  stat ← w.stat path
  let whole : Answer (Stat × ResponseBody) = do
    cat ← w.streaming_cat path
    done (stat, generator cat)
  if str_eq method "GET" then whole else done (stat, nothing)

abbrev pub with_stat : Answer (Stat × ResponseBody) → Response → Answer ResponseBody × Response
with_stat (raised exn) response = (raised exn, response)
with_stat (done (stat, body)) response = (
  done body,
  with_header "Content-Length" stat.content_length
      (with_header "Accept-Ranges" "bytes" (with_header "Content-Type" stat.content_type response)),
)

unfoldable pub download : Outside → RpcRequest → Response → Answer ResponseBody × Response
download w request response =
    let answer : Answer (Stat × ResponseBody) = do
      path ← gs_path request.args
      in_gs (stat_and_content w request.method path)
    in to_cherrypy_error (with_stat answer response)

abbrev pub tar_exts : List String
tar_exts = ".tar" ∷ ".tar.gz" ∷ ".tgz" ∷ ".tar.bz2" ∷ ".tar.xz" ∷ []

abbrev pub compressed_exts : List String
compressed_exts = ".tar.gz" ∷ ".tar.bz2" ∷ ".tar.xz" ∷ ".tgz" ∷ []

abbrev pub only_file : List String → Answer String
only_file (file ∷ []) = done file
only_file _ = raised (archive_server_error "Cannot extract more than one file at a time.")

-- The name of the decompressed archive, and the headers that say how to get it.
unfoldable pub decompressed_archive : String → Headers → String × Headers
decompressed_archive archive headers =
    let (archive_basename, archive_extname) = splitext archive in
    if str_eq archive_extname ".tar" then (archive, headers) else (
      if str_eq archive_extname ".tgz"
          then str_append archive_basename ".tar"
          else archive_basename,
      dict_set compressed_tar_ext archive_extname headers,
    )

-- What the generator yields when it is run.
unfoldable pub extract_file_from_tar :
    Outside → CachingServer → String → String → Headers → List String × Option Raised
extract_file_from_tar w server target_file archive headers =
    elim (caching.download w server archive headers) as (λ _. List String × Option Raised) [
      | raised exn ↦ ([], some exn)
      | done rsp ↦
          let cmd = "tar" ∷ "-O" ∷ "-x" ∷ target_file ∷ [] in
          let df = w.pipe cmd (str_concat (w.iter_content read_buffer_size rsp.content)) in
          (read_chunks read_buffer_size df, none)
    ]

unfoldable pub extract :
    Outside → CachingServer → RpcRequest → Response → Answer ResponseBody × Response
extract w server request response =
    let extracted : Answer ResponseBody = do
      archive ← check_file_extension (join_slash request.args) tar_exts
      files ← safe_get_param request.kwargs "file"
      file ← only_file files
      let (name, headers) = decompressed_archive archive request.headers
      done (generator (extract_file_from_tar w server file name headers))
    in to_cherrypy_error (extracted, response)

abbrev pub commands : List (String × List String)
commands =
    (".gz", "gzip" ∷ "-d" ∷ "-c" ∷ [])
    ∷ (".tgz", "gzip" ∷ "-d" ∷ "-c" ∷ [])
    ∷ (".xz", "xz" ∷ "-d" ∷ "-c" ∷ [])
    ∷ (".bz2", "bzip2" ∷ "-d" ∷ "-c" ∷ [])
    ∷ []

-- From the reply on: the headers are set first, and a name without a command raises.
unfoldable pub decompress_reply :
    Outside → String → Response → CachedReply → Answer ResponseBody × Response
unfolding dict_get
decompress_reply w zarchive response rsp =
    let typed =
      with_header "Accept-Ranges" "bytes"
        (with_header "Content-Type" "application/x-tar" response) in
    let extname = (splitext (basename zarchive)).1 in
    let run : List String → String =
      λ command. w.pipe command (str_concat (w.iter_content read_buffer_size rsp.content)) in
    elim (dict_get extname commands) as (λ _. Answer ResponseBody × Response) [
      | none ↦ (raised (key_error extname), typed)
      | some command ↦ (
        done (generator (read_chunks read_buffer_size (run command), none)),
        with_header "Content-Length" (str_of_nat (str_length (run command))) typed,
      )
    ]

abbrev pub after_reply :
    Outside → Response → Answer (String × CachedReply) → Answer ResponseBody × Response
after_reply w response (raised exn) = (raised exn, response)
after_reply w response (done (zarchive, rsp)) = decompress_reply w zarchive response rsp

unfoldable pub decompress :
    Outside → CachingServer → RpcRequest → Response → Answer ResponseBody × Response
decompress w server request response =
    let replied : Answer (String × CachedReply) = do
      zarchive ← check_file_extension (join_slash request.args) compressed_exts
      rsp ← caching.download w server zarchive request.headers
      done (zarchive, rsp)
    in to_cherrypy_error (after_reply w response replied)
