-- ===== src/GsCache/Extraction.antt =====
-- How the handler `extract` of gs_cache/gs_archive_server.py gets a decompressed archive through the
-- caching server.
use cros_dev_util.Base.{
  String, false, Option, none, some, List, [], ◌∷◌, ◌≡◌, refl, ap, ◌∙◌, str_eq, str_append,
  dict_get, dict_get-dict_set, dict_set, eq_refl, Bool-cases, inl, inr,
}
use cros_dev_util.GsCache.Answers.{
  Raised, Answer, raised, done, Headers, RpcRequest, Response, generator, single, join_slash,
  safe_get_param, dict_del, to_cherrypy_error, read_chunks, str_concat,
}
use cros_dev_util.GsCache.Caching.{
  Outside, CachedReply, CachingServer, compressed_tar_ext, read_buffer_size, call, url_of,
}
use cros_dev_util.GsCache.Caching as caching
use cros_dev_util.GsCache.Server.{extract, extract_file_from_tar}
use cros_dev_util.GsCache.Archives.{
  Compression, suffix, extension, IsNamed, check_file_extension-In, suffix-In-tar_exts,
  decompressed_archive-suffix, stem_and_extension, some_extension,
}

dict_del-dict_set : (k v : String) (d : Headers) → dict_del k (dict_set k v d) ≡ dict_del k d
unfolding dict_del dict_set
dict_del-dict_set k v [] = rw (eq_refl k) refl
dict_del-dict_set k v ((j, w) ∷ d) = elim (Bool-cases (str_eq j k)) [
  | inl here ↦ rw (here, eq_refl k) refl
  | inr there ↦ rw (there, there) (ap (List.◌∷◌ (j, w)) (dict_del-dict_set k v d))
]

download-some :
    (w : Outside) (server : CachingServer) (path ext : String) (headers : Headers)
    → dict_get compressed_tar_ext headers ≡ some ext
    → str_eq ext "" ≡ false
    → caching.download w server path headers
      ≡ caching.download_and_decompress_tar w server path ext (dict_del compressed_tar_ext headers)
unfolding caching.download
download-some w server path ext headers h nonempty = rw (caching.download, h, nonempty) refl

pub download-none :
    (w : Outside) (server : CachingServer) (path : String) (headers : Headers)
    → dict_get compressed_tar_ext headers ≡ none
    → caching.download w server path headers
      ≡ call w server "download" path (dict_del compressed_tar_ext headers)
unfolding caching.download
download-none w server path headers h = rw (caching.download, h) refl

-- With the header set, the archive is asked for under its own name.
download-compressed :
    (w : Outside) (server : CachingServer) (k : Compression) (stem : String) (headers : Headers)
    → IsNamed k stem
    → caching.download w server
        (str_append stem ".tar")
        (dict_set compressed_tar_ext (extension k) headers)
      ≡ call w server "decompress"
          (str_append stem (suffix k))
          (dict_del compressed_tar_ext headers)
unfolding caching.download_and_decompress_tar
download-compressed w server k stem headers named =
    let set = dict_get-dict_set compressed_tar_ext compressed_tar_ext (extension k) headers in
    download-some w server (str_append stem ".tar") (extension k)
      (dict_set compressed_tar_ext (extension k) headers) set (some_extension k)
    ∙ ap
        (λ p.
          call w server "decompress" p
            (dict_del compressed_tar_ext (dict_set compressed_tar_ext (extension k) headers)))
        (stem_and_extension k stem named)
    ∙ ap (call w server "decompress" (str_append stem (suffix k)))
        (dict_del-dict_set compressed_tar_ext (extension k) headers)

-- What the generator of `extract` yields from the answer to its request.
abbrev pub untarred : Outside → String → Answer CachedReply → List String × Option Raised
untarred w file (raised exn) = ([], some exn)
untarred w file (done rsp) =
    let cmd = "tar" ∷ "-O" ∷ "-x" ∷ file ∷ [] in
    (
      read_chunks read_buffer_size
          (w.pipe cmd (str_concat (w.iter_content read_buffer_size rsp.content))),
      none,
    )

extract_file-untarred :
    (w : Outside) (server : CachingServer) (file archive : String) (headers : Headers)
    → extract_file_from_tar w server file archive headers
      ≡ untarred w file (caching.download w server archive headers)
unfolding extract_file_from_tar
extract_file-untarred w server file archive headers = refl

-- From an archive that is compressed, whatever its way of compression, `extract` returns at once with
-- the response unchanged and a generator, which asks the caching server to decompress this very
-- archive, with the request's headers but the one that names the extension, and yields what tar
-- takes out of the answer; an error of the caching server is raised by the generator.
pub extract-compressed :
    (w : Outside) (server : CachingServer) (request : RpcRequest) (response : Response)
    (k : Compression) (stem file : String)
    → join_slash request.args ≡ str_append stem (suffix k)
    → IsNamed k stem
    → dict_get "file" request.kwargs ≡ some (single file)
    → extract w server request response ≡ (
      done (
          generator (
            untarred w file (
              call w server "decompress"
                (str_append stem (suffix k))
                (dict_del compressed_tar_ext request.headers)))),
      response,
    )
unfolding extract safe_get_param to_cherrypy_error
extract-compressed w server request response k stem file name named param =
    rw
      (
        name,
        check_file_extension-In k stem ".tar" (".tar.gz" ∷ ".tgz" ∷ ".tar.bz2" ∷ ".tar.xz" ∷ [])
            (suffix-In-tar_exts k),
        safe_get_param,
        param,
        decompressed_archive-suffix k stem request.headers named,
        extract_file-untarred w server file (str_append stem ".tar")
            (dict_set compressed_tar_ext (extension k) request.headers),
        download-compressed w server k stem request.headers named,
      )
      refl
