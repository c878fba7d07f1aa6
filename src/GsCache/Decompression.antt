-- ===== src/GsCache/Decompression.antt =====
-- How the handler `decompress` of gs_cache/gs_archive_server.py gets an archive through the caching
-- server, and what it makes of the reply.
use cros_dev_util.Base.{
  String, none, some, [], ◌∷◌, ◌≡◌, refl, ap, ◌∙◌, str_append, str_length, str_of_nat, dict_get,
  Bool-cases, inl, inr, if◌then◌else◌,
}
use cros_dev_util.GsCache.Answers.{
  Answer, raised, done, ◌>>=◌, Headers, RpcRequest, Response, ResponseBody, generator, content,
  join_slash, dict_del, to_cherrypy_error, read_chunks, str_concat,
}
use cros_dev_util.GsCache.Caching.{
  Outside, CachedReply, CachingServer, compressed_tar_ext, read_buffer_size, call, url_of,
}
use cros_dev_util.GsCache.Server.{decompress, commands, decompress_reply, after_reply, with_header}
use cros_dev_util.GsCache.Archives.{
  Compression, gz, bz2, xz, tgz, suffix, extension, program, IsNamed, splitext-basename,
  check_file_extension-In, suffix-In-compressed_exts,
}
use cros_dev_util.GsCache.Extraction.{download-none}

-- The text that the program of the compression makes of the reply.
abbrev pub unzipped : Outside → Compression → CachedReply → String
unzipped w k rsp = w.pipe (program k) (str_concat (w.iter_content read_buffer_size rsp.content))

abbrev pub unzipped_response : String → Response → Response
unzipped_response text response =
    with_header "Content-Length" (str_of_nat (str_length text)) (
      with_header "Accept-Ranges" "bytes" (with_header "Content-Type" "application/x-tar" response))

-- What `decompress` returns from the answer to its request.
abbrev pub unzipped_answer :
    Outside → Compression → Response → Answer CachedReply → Answer ResponseBody × Response
unzipped_answer w k response (raised exn) = to_cherrypy_error (raised exn, response)
unzipped_answer w k response (done rsp) =
    let text = unzipped w k rsp in
    (done (generator (read_chunks read_buffer_size text, none)), unzipped_response text response)

program-of-extension : (k : Compression) → dict_get (extension k) commands ≡ some (program k)
unfolding dict_get
program-of-extension gz = refl
program-of-extension bz2 = refl
program-of-extension xz = refl
program-of-extension tgz = refl

decompress_reply-suffix :
    (w : Outside) (k : Compression) (stem : String) (response : Response) (rsp : CachedReply)
    → IsNamed k stem
    → decompress_reply w (str_append stem (suffix k)) response rsp
      ≡ unzipped_answer w k response (done rsp)
unfolding decompress_reply
decompress_reply-suffix w k stem response rsp named =
    rw
      (
        decompress_reply,
        ap (λ ext. dict_get ext commands) (splitext-basename k stem named) ∙ program-of-extension k,
      )
      refl

answered_by :
    (w : Outside) (k : Compression) (stem : String) (response : Response)
    (answer : Answer CachedReply)
    → IsNamed k stem
    → to_cherrypy_error
        (after_reply w response (answer >>= λ rsp. done (str_append stem (suffix k), rsp)))
      ≡ unzipped_answer w k response answer
unfolding to_cherrypy_error
answered_by w k stem response (raised exn) named = refl
answered_by w k stem response (done rsp) named =
    ap to_cherrypy_error (decompress_reply-suffix w k stem response rsp named)

-- The answer of the caching server, seen through the decorator.
pub decompress-call :
    (w : Outside) (server : CachingServer) (request : RpcRequest) (response : Response)
    (k : Compression) (stem : String)
    → join_slash request.args ≡ str_append stem (suffix k)
    → IsNamed k stem
    → dict_get compressed_tar_ext request.headers ≡ none
    → decompress w server request response
      ≡ unzipped_answer w k response (
          call w server "download"
            (str_append stem (suffix k))
            (dict_del compressed_tar_ext request.headers))
unfolding decompress
decompress-call w server request response k stem name named plain =
    rw
      (
        name,
        check_file_extension-In k stem ".tar.gz" (".tar.bz2" ∷ ".tar.xz" ∷ ".tgz" ∷ [])
            (suffix-In-compressed_exts k),
        download-none w server (str_append stem (suffix k)) request.headers plain,
      )
      (answered_by w k stem response
        (call w server "download" (str_append stem (suffix k))
          (dict_del compressed_tar_ext request.headers))
        named)

-- What the client gets for the caching server's reply: its status and content where it is an error,
-- or else the decompressed content, with its length.
abbrev pub client_answer :
    Outside → Compression → Response → CachedReply → Answer ResponseBody × Response
client_answer w k response rsp =
    if w.is_error_status rsp.status
    then (
      done (content rsp.content),
      record { status = some rsp.status; headers = response.headers },
    )
    else (
      done (generator (read_chunks read_buffer_size (unzipped w k rsp), none)),
      unzipped_response (unzipped w k rsp) response,
    )

call-client_answer :
    (w : Outside) (server : CachingServer) (k : Compression) (response : Response) (path : String)
    (headers : Headers)
    → unzipped_answer w k response (call w server "download" path headers)
      ≡ client_answer w k response (w.get (url_of w server "download" path) headers)
unfolding call to_cherrypy_error
call-client_answer w server k response path headers =
    let rsp = w.get (url_of w server "download" path) headers in
    elim (Bool-cases (w.is_error_status rsp.status)) [
      | inl bad ↦ rw bad refl
      | inr good ↦ rw good refl
    ]

-- An archive that is compressed, whatever its way of compression, `decompress` asks for under this
-- very name when the request's headers do not say an extension. Where the reply is no error it
-- returns what the program for the extension makes of its content, with its length, and otherwise the
-- response has the status and the content of the reply.
pub decompress-compressed :
    (w : Outside) (server : CachingServer) (request : RpcRequest) (response : Response)
    (k : Compression) (stem : String)
    → join_slash request.args ≡ str_append stem (suffix k)
    → IsNamed k stem
    → dict_get compressed_tar_ext request.headers ≡ none
    → decompress w server request response
      ≡ client_answer w k response (
          w.get
            (url_of w server "download" (str_append stem (suffix k)))
            (dict_del compressed_tar_ext request.headers))
decompress-compressed w server request response k stem name named plain =
    decompress-call w server request response k stem name named plain
    ∙ call-client_answer w server k response (str_append stem (suffix k))
        (dict_del compressed_tar_ext request.headers)
