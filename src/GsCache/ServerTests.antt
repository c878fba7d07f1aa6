-- ===== src/GsCache/ServerTests.antt =====
-- Runs of the model of gs_cache/gs_archive_server.py on a caching server with one archive.
use cros_dev_util.Base.{
  String, none, List, [], ◌∷◌, ◌≡◌, refl, sym, ap, ◌∙◌, str_eq, str_append, dict_get, dict_set,
  if◌then◌else◌, ◌==◌, ends_with, is_prefix, str_of_nat,
}
use cros_dev_util.GsCache.Paths.{str_append-nil, splitext}
use cros_dev_util.GsCache.Answers.{
  Answer, done, Headers, RpcRequest, Response, ResponseBody, generator, single,
  check_file_extension, dict_del, to_cherrypy_error, read_chunks, str_concat,
}
use cros_dev_util.GsCache.Caching.{
  Outside, CachedReply, Stat, CachingServer, call, url_of, download_and_decompress_tar,
}
use cros_dev_util.GsCache.Caching as caching
use cros_dev_util.GsCache.Server.{list_dir, extract, decompress, decompress_reply, stat_and_content}
use cros_dev_util.GsCache.Server as server_of
use cros_dev_util.GsCache.Archives.{tgz}
use cros_dev_util.GsCache.Extraction.{extract-compressed, untarred}
use cros_dev_util.GsCache.Decompression.{decompress-compressed, client_answer}
use cros_dev_util.GsCache.Chain.{extract-chain, IsServed}

abbrev cache : CachingServer
cache = record { scheme = "http"; netloc = "cache" }

abbrev one_file : Outside
one_file = record {
  urlunsplit = λ scheme netloc path query.
      str_append scheme (str_append "://" (str_append netloc (str_append "/" path)));
  get = λ url headers.
      if str_eq url "http://cache/download/b/a.tgz"
      then record { status = 200; content = "ab" }
      else if str_eq url "http://cache/decompress/b/a.tgz"
      then record { status = 200; content = "abg" }
      else record { status = 404; content = "no such file" };
  is_error_status = λ status. status == 404;
  iter_content = λ n text. text ∷ [];
  pipe = λ cmd text. str_append text (if str_eq (first cmd) "tar" then "t" else "g");
  communicate = λ cmd. done "";
  stat = λ path. done a_stat;
  streaming_cat = λ path. done ("a" ∷ "b" ∷ [], none);
}
  where
    first : List String → String
    first [] = ""
    first (a ∷ more) = a

    a_stat : Stat
    a_stat = record { content_type = "application/octet-stream"; content_length = "2" }

abbrev asked : RpcRequest
asked = record {
  args = "b" ∷ "a.tgz" ∷ [];
  kwargs = ("file", single "x") ∷ [];
  method = "GET";
  headers = [];
}

abbrev fresh : Response
fresh = record { status = none; headers = [] }

extract-compressed_example : extract one_file cache asked fresh ≡ (
  done (generator (untarred one_file "x" (call one_file cache "decompress" "b/a.tgz" []))),
  fresh,
)
unfolding dict_del dict_get
extract-compressed_example =
    extract-compressed one_file cache asked fresh tgz "b/a" "x" refl refl refl

decompress-compressed_example :
    decompress one_file cache asked fresh
    ≡ client_answer one_file tgz fresh (record { status = 200; content = "ab" })
unfolding dict_del dict_get
decompress-compressed_example =
    decompress-compressed one_file cache asked fresh tgz "b/a" refl refl refl

-- The text of a returned generator.
abbrev body_text : Answer ResponseBody × Response → String
body_text (done (generator (chunks, end)), response) = str_concat chunks
body_text _ = ""

served :
    (url text : String) (headers : Headers) (result : Answer ResponseBody × Response)
    → one_file.get url headers ≡ record { status = 200; content = text }
    → body_text result ≡ text
    → IsServed one_file url headers result
served url text headers result got e chunks response h =
    got ∙ ap (λ t. record { status = 200; content = t }) (sym e ∙ ap body_text h)

decompress_run : body_text (decompress one_file cache asked fresh) ≡ "abg"
unfolding decompress decompress_reply check_file_extension ends_with is_prefix caching.download call
    dict_get dict_set dict_del to_cherrypy_error read_chunks str_of_nat
decompress_run = refl

download_run : body_text (server_of.download one_file asked fresh) ≡ "ab"
unfolding server_of.download check_file_extension stat_and_content to_cherrypy_error dict_set
download_run = refl

extract-chain_example :
    (out : List String) × (extract one_file cache asked fresh
      ≡ (done (generator (out, none)), fresh))
    × (str_concat out ≡ "abgt")
unfolding dict_get dict_del
extract-chain_example =
    extract-chain one_file cache tgz "b/a" "x" asked asked asked fresh fresh fresh
      (record { content_type = "application/octet-stream"; content_length = "2" }) ("a" ∷ "b" ∷ [])
      refl refl refl refl refl refl refl refl refl (λ n s. str_append-nil s) refl
      (served "http://cache/decompress/b/a.tgz" "abg" [] (decompress one_file cache asked fresh)
        refl decompress_run)
      (served "http://cache/download/b/a.tgz" "ab" [] (server_of.download one_file asked fresh) refl
        download_run)

abbrev zip_asked : RpcRequest
zip_asked = record { args = "b" ∷ "a.zip" ∷ []; kwargs = []; method = "GET"; headers = [] }

-- A name that is only `.tgz` has no extension: the archive is asked for as it is.
only_tgz_run : splitext "b/.tgz" ≡ ("b/.tgz", "")
only_tgz_run = refl
