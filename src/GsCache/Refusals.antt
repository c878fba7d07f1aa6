-- ===== src/GsCache/Refusals.antt =====
-- What the handlers of gs_cache/gs_archive_server.py raise.
use cros_dev_util.Base.{
  String, false, List, [], ◌∷◌, ◌≡◌, refl, arith, str_eq, Bool-cases, inl, inr,
}
use cros_dev_util.GsCache.Answers.{
  value_error, requests_error, http_error, archive_server_error, called_process_error, no_such_key,
  command_error, key_error, Answer, raised, done, RpcRequest, Response, ResponseBody, join_slash,
  check_file_extension, ends_with_one, not_in, to_cherrypy_error,
}
use cros_dev_util.GsCache.Caching.{Outside, CachingServer}
use cros_dev_util.GsCache.Server.{
  list_dir, download, extract, decompress, tar_exts, compressed_exts,
}

-- Neither ValueError nor requests.HTTPError is raised.
abbrev pub IsConverted : Answer ResponseBody × Response → Type 0
IsConverted (raised (value_error message), response) = ⊥
IsConverted (raised (requests_error status text), response) = ⊥
IsConverted _ = Unit

to_cherrypy_error-IsConverted :
    (result : Answer ResponseBody × Response) → IsConverted (to_cherrypy_error result)
unfolding to_cherrypy_error
to_cherrypy_error-IsConverted (done body, response) = tt
to_cherrypy_error-IsConverted (raised (value_error _), response) = tt
to_cherrypy_error-IsConverted (raised (requests_error _ _), response) = tt
to_cherrypy_error-IsConverted (raised (http_error _ _), response) = tt
to_cherrypy_error-IsConverted (raised (archive_server_error _), response) = tt
to_cherrypy_error-IsConverted (raised (called_process_error _), response) = tt
to_cherrypy_error-IsConverted (raised (no_such_key _), response) = tt
to_cherrypy_error-IsConverted (raised (command_error _ _), response) = tt
to_cherrypy_error-IsConverted (raised (key_error _), response) = tt

-- No handler raises ValueError or requests.HTTPError, whatever the request and whatever happens
-- outside.
pub handlers-IsConverted :
    (w : Outside) (server : CachingServer) (request : RpcRequest) (response : Response)
    → IsConverted (list_dir w request response)
      × IsConverted (download w request response)
      × IsConverted (extract w server request response)
      × IsConverted (decompress w server request response)
unfolding list_dir download extract decompress
handlers-IsConverted w server request response = (
  to_cherrypy_error-IsConverted _,
  to_cherrypy_error-IsConverted _,
  to_cherrypy_error-IsConverted _,
  to_cherrypy_error-IsConverted _,
)

refused_extension :
    (name ext : String) (exts : List String)
    → ends_with_one name (ext ∷ exts) ≡ false
    → (message : String) × (check_file_extension name (ext ∷ exts) ≡ raised (value_error message))
unfolding check_file_extension
refused_extension name ext exts h = elim (Bool-cases (str_eq name "")) [
  | inl empty ↦ ("File name is required.", rw empty refl)
  | inr nonempty ↦ (not_in name (ext ∷ exts), rw (nonempty, h) refl)
]

tar-or-compressed :
    (name : String)
    → ends_with_one name tar_exts ≡ false
    → ends_with_one name compressed_exts ≡ false
tar-or-compressed name h = ground (arith, h)

-- A name that has none of the extensions of an archive is refused by `extract` and by `decompress`
-- with the status 400, and nothing else happens.
pub refused_archive :
    (w : Outside) (server : CachingServer) (request : RpcRequest) (response : Response)
    → ends_with_one (join_slash request.args) tar_exts ≡ false
    → ((message : String) × (extract w server request response
          ≡ (raised (http_error 400 message), response)))
      × ((message : String) × (decompress w server request response
            ≡ (raised (http_error 400 message), response)))
unfolding extract decompress to_cherrypy_error
refused_archive w server request response h =
    let (message, e) =
      refused_extension (join_slash request.args) ".tar"
        (".tar.gz" ∷ ".tgz" ∷ ".tar.bz2" ∷ ".tar.xz" ∷ []) h in
    let (message', e') =
      refused_extension (join_slash request.args) ".tar.gz" (".tar.bz2" ∷ ".tar.xz" ∷ ".tgz" ∷ [])
        (tar-or-compressed (join_slash request.args) h) in
    ((message, rw e refl), (message', rw e' refl))
