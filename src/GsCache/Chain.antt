-- ===== src/GsCache/Chain.antt =====
-- The whole way of a file out of a compressed archive: `extract`, `decompress` and `download` of
-- gs_cache/gs_archive_server.py, each asked for through the caching server.
use cros_dev_util.Base.{
  ℕ, String, false, none, some, List, [], ◌∷◌, ◌≡◌, refl, ap, ◌∙◌, str_append, dict_get,
}
use cros_dev_util.GsCache.Answers.{
  Answer, done, Headers, RpcRequest, Response, ResponseBody, generator, single, join_slash,
  check_file_extension, dict_del, to_cherrypy_error, read_chunks, str_concat,
}
use cros_dev_util.GsCache.Chunks.{read_chunks-All}
use cros_dev_util.GsCache.Caching.{
  Outside, CachedReply, Stat, CachingServer, compressed_tar_ext, read_buffer_size, call, url_of,
}
use cros_dev_util.GsCache.Server.{extract, decompress, stat_and_content, with_stat, with_header}
use cros_dev_util.GsCache.Server as server_of
use cros_dev_util.GsCache.Archives.{Compression, suffix, program, IsNamed, nonempty_suffix}
use cros_dev_util.GsCache.Extraction.{extract-compressed, untarred}
use cros_dev_util.GsCache.Decompression.{decompress-call, unzipped_answer, unzipped_response}

-- What a handler has returned is what the caching server answers at a URL: the chunks together,
-- with a status that is no error.
abbrev pub IsServed : Outside → String → Headers → Answer ResponseBody × Response → Type 0
IsServed w url headers result =
    (chunks : List String) (response : Response)
    → result ≡ (done (generator (chunks, none)), response)
    → w.get url headers ≡ record { status = 200; content = str_concat chunks }

call-reply :
    (w : Outside) (server : CachingServer) (action path : String) (headers : Headers)
    (rsp : CachedReply)
    → w.get (url_of w server action path) headers ≡ rsp
    → w.is_error_status rsp.status ≡ false
    → call w server action path headers ≡ done rsp
unfolding call
call-reply w server action path headers rsp e fine = rw (e, fine) refl

download-get :
    (w : Outside) (request : RpcRequest) (response : Response) (k : Compression) (stem : String)
    (stat : Stat) (chunks : List String)
    → join_slash request.args ≡ str_append stem (suffix k)
    → request.method ≡ "GET"
    → w.stat (str_append "gs://" (str_append stem (suffix k))) ≡ done stat
    → w.streaming_cat (str_append "gs://" (str_append stem (suffix k))) ≡ done (chunks, none)
    → server_of.download w request response
      ≡ with_stat (done (stat, generator (chunks, none))) response
unfolding server_of.download check_file_extension stat_and_content to_cherrypy_error
download-get w request response k stem stat chunks name method found cat =
    rw (name, nonempty_suffix k stem, found, cat, method) refl

abbrev pub ok_reply : List String → CachedReply
ok_reply chunks = record { status = 200; content = str_concat chunks }

-- What a process makes of the chunks of a reply whose content is the chunks of a file.
piped :
    (w : Outside) (cmd : List String) (file : String) (chunks : List String)
    → ((n : ℕ) (s : String) → str_concat (w.iter_content n s) ≡ s)
    → str_concat chunks ≡ file
    → w.pipe cmd (str_concat (w.iter_content read_buffer_size (str_concat chunks)))
      ≡ w.pipe cmd file
piped w cmd file chunks joined e = ap (w.pipe cmd) (joined read_buffer_size (str_concat chunks) ∙ e)

concat-read_chunks : (file : String) → str_concat (read_chunks read_buffer_size file) ≡ file
concat-read_chunks file = (read_chunks-All 1048575 file).0

-- Where the caching server answers what `decompress` and `download` return at the URLs under which
-- they are asked for a compressed archive, where the archive stands in Google Storage and the chunks
-- of every reply are together its content, `extract` returns a generator that raises nothing and
-- yields exactly what tar takes out of the decompressed content of the stored archive.
pub extract-chain :
    (w : Outside) (server : CachingServer) (k : Compression) (stem file : String)
    (asked forwarded fetched : RpcRequest) (response response' response'' : Response) (stat : Stat)
    (chunks : List String)
    → IsNamed k stem
    → join_slash asked.args ≡ str_append stem (suffix k)
    → dict_get "file" asked.kwargs ≡ some (single file)
    → join_slash forwarded.args ≡ str_append stem (suffix k)
    → dict_get compressed_tar_ext forwarded.headers ≡ none
    → join_slash fetched.args ≡ str_append stem (suffix k)
    → fetched.method ≡ "GET"
    → w.stat (str_append "gs://" (str_append stem (suffix k))) ≡ done stat
    → w.streaming_cat (str_append "gs://" (str_append stem (suffix k))) ≡ done (chunks, none)
    → ((n : ℕ) (s : String) → str_concat (w.iter_content n s) ≡ s)
    → w.is_error_status 200 ≡ false
    → IsServed w
        (url_of w server "decompress" (str_append stem (suffix k)))
        (dict_del compressed_tar_ext asked.headers)
        (decompress w server forwarded response')
    → IsServed w
        (url_of w server "download" (str_append stem (suffix k)))
        (dict_del compressed_tar_ext forwarded.headers)
        (server_of.download w fetched response'')
    → (out : List String) × (extract w server asked response
        ≡ (done (generator (out, none)), response))
      × (str_concat out
          ≡ w.pipe ("tar" ∷ "-O" ∷ "-x" ∷ file ∷ []) (w.pipe (program k) (str_concat chunks)))
extract-chain w server k stem file asked forwarded fetched response response' response'' stat chunks
      named asked_name param forwarded_name plain fetched_name method found cat joined fine unzips
      fetches =
    let archive = str_append stem (suffix k) in
    let object =
      fetches chunks _
        (download-get w fetched response'' k stem stat chunks fetched_name method found cat) in
    let downloaded =
      call-reply w server "download" archive (dict_del compressed_tar_ext forwarded.headers)
        (ok_reply chunks) object fine in
    let unzipped_file =
      w.pipe (program k) (str_concat (w.iter_content read_buffer_size (str_concat chunks))) in
    let parts = read_chunks read_buffer_size unzipped_file in
    let tar_file = unzips parts (unzipped_response unzipped_file response') (
      decompress-call w server forwarded response' k stem forwarded_name named plain
      ∙ ap (unzipped_answer w k response') downloaded) in
    let decompressed =
      call-reply w server "decompress" archive (dict_del compressed_tar_ext asked.headers)
        (ok_reply parts) tar_file fine in
    let cmd = "tar" ∷ "-O" ∷ "-x" ∷ file ∷ [] in
    let member = w.pipe cmd (str_concat (w.iter_content read_buffer_size (str_concat parts))) in
    (
      read_chunks read_buffer_size member,
      extract-compressed w server asked response k stem file asked_name named param
          ∙ ap (λ a. (done (generator (untarred w file a)), response)) decompressed,
      concat-read_chunks member
          ∙ piped w cmd unzipped_file parts joined (concat-read_chunks unzipped_file)
          ∙ ap (w.pipe cmd) (piped w (program k) (str_concat chunks) chunks joined refl),
    )
