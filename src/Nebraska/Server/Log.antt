-- ===== src/Nebraska/Server/Log.antt =====
-- The request log and the replies of the handlers of nebraska/nebraska.py.
use cros_dev_util.Base.{
  ℕ, String, ◌≡◌, refl, ap, ◌∙◌, sym, Option, none, some, List, [], ◌∷◌, ◌++◌, append_assoc,
  append-nil, arith, Result, ok, err, Exn, str_eq, eq_iff, ◌⊎◌, if◌then◌else◌, value_error, int_of,
}
use cros_dev_util.Nebraska.Xml.{Element}
use cros_dev_util.Nebraska.Request.{Request, new_request}
use cros_dev_util.Nebraska.Properties.{
  Query, query_dict_to_dict, new_response_props, query_get, int_option, Kwargs,
}
use cros_dev_util.Nebraska.Response.{response_xml}
use cros_dev_util.Nebraska.Server.{
  LogEntry, get_dict, get_response, Nebraska, Reply, Post, read_request, parse_url, handle_update,
  do_post, do_get, send_response, send_error, xml, json_log,
}

query_bad :
    (q : Query) (value key : String)
    → (key ≡ "eol_date") ⊎ (key ≡ "failures_per_url") ⊎ (key ≡ "num_urls")
    → query_get key q ≡ some value
    → int_of value ≡ none
    → query_dict_to_dict q ≡ err value_error
unfolding query_dict_to_dict int_option
query_bad q value key hk hq hv = ground arith

module _ (fromstring : String → Option Element) (urlparse : String → String × Query)
    (tostring : Element → Option String) where
  -- The request that a POST carries, with its options, where it is accepted: its header, its path,
  -- its query and its XML are all good. This says nothing of the server's state.
  unfoldable pub accepted : String → Post → Option (Request × Kwargs)
  accepted timestamp p = elim (read_request p) [
    | none ↦ none
    | some text ↦
        elim (query_dict_to_dict (parse_url fromstring urlparse tostring p.path).1)
          as (λ _. Option (Request × Kwargs)) [
            | err e ↦ none
            | ok k ↦
                elim (new_request fromstring timestamp text) as (λ _. Option (Request × Kwargs)) [
                  | err e ↦ none
                  | ok req ↦
                      if str_eq (parse_url fromstring urlparse tostring p.path).0 "update"
                      then some (req, k)
                      else none
                ]
          ]
  ]

  -- What the state is behind a POST.
  abbrev pub logged : Nebraska → Option (Request × Kwargs) → Nebraska
  logged n none = n
  logged n (some (req, k)) = record n { request_log = n.request_log ++ get_dict req ∷ [] }

  -- What a POST may lead to: the condition, the reply or the exception, and the state behind it.
  pub data IsAnswered (now : ℕ) (timestamp : String) (n : Nebraska) (p : Post)
      : Result Reply → Nebraska → Type 0 where
    no_body : read_request p ≡ none → IsAnswered now timestamp n p (ok (send_error 400)) n
    other_path :
        ¬ ((parse_url fromstring urlparse tostring p.path).0 ≡ "update")
        → IsAnswered now timestamp n p (ok (send_error 400)) n
    bad_query :
        {text : String} {exn : Exn}
        → read_request p ≡ some text
        → (parse_url fromstring urlparse tostring p.path).0 ≡ "update"
        → query_dict_to_dict (parse_url fromstring urlparse tostring p.path).1 ≡ err exn
        → IsAnswered now timestamp n p (err exn) n
    bad_request :
        {text : String} {exn : Exn} {k : Kwargs}
        → (parse_url fromstring urlparse tostring p.path).0 ≡ "update"
        → read_request p ≡ some text
        → query_dict_to_dict (parse_url fromstring urlparse tostring p.path).1 ≡ ok k
        → new_request fromstring timestamp text ≡ err exn
        → IsAnswered now timestamp n p (ok (send_error 500)) n
    unprinted :
        {text : String} {req : Request} {k : Kwargs}
        → (parse_url fromstring urlparse tostring p.path).0 ≡ "update"
        → read_request p ≡ some text
        → new_request fromstring timestamp text ≡ ok req
        → query_dict_to_dict (parse_url fromstring urlparse tostring p.path).1 ≡ ok k
        → tostring (response_xml now req n.nebraska_props (new_response_props k)) ≡ none
        → IsAnswered now timestamp n p
            (ok (send_error 500))
            (record n { request_log = n.request_log ++ get_dict req ∷ [] })
    answered :
        {text printed : String} {req : Request} {k : Kwargs}
        → (parse_url fromstring urlparse tostring p.path).0 ≡ "update"
        → read_request p ≡ some text
        → new_request fromstring timestamp text ≡ ok req
        → query_dict_to_dict (parse_url fromstring urlparse tostring p.path).1 ≡ ok k
        → tostring (response_xml now req n.nebraska_props (new_response_props k)) ≡ some printed
        → IsAnswered now timestamp n p
            (ok (send_response "application/xml" (xml printed)))
            (record n { request_log = n.request_log ++ get_dict req ∷ [] })

  -- The state behind a POST.
  do_post-logged :
      (now : ℕ) (timestamp : String) (n : Nebraska) (p : Post)
      → (do_post fromstring urlparse tostring now timestamp n p).1 ≡ logged n (accepted timestamp p)
  unfolding accepted do_post handle_update get_response
  do_post-logged now timestamp n p = ground arith

  -- A POST with the time at which it comes.
  abbrev pub TimedPost : Type 0
  TimedPost = ℕ × String × Post

  -- The state behind a sequence of POSTs.
  unfoldable pub run_posts : Nebraska → List TimedPost → Nebraska
  run_posts n [] = n
  run_posts n ((now, timestamp, p) ∷ rest) =
      run_posts (do_post fromstring urlparse tostring now timestamp n p).1 rest

  abbrev entries_of : Option (Request × Kwargs) → List (Option LogEntry)
  entries_of none = []
  entries_of (some (req, k)) = get_dict req ∷ []

  -- The entries that the accepted ones among the POSTs leave, in the order in which they come.
  unfoldable pub accepted_entries : List TimedPost → List (Option LogEntry)
  accepted_entries [] = []
  accepted_entries ((now, timestamp, p) ∷ rest) =
      entries_of (accepted timestamp p) ++ accepted_entries rest

  logged-log :
      (n : Nebraska) (o : Option (Request × Kwargs))
      → (logged n o).request_log ≡ n.request_log ++ entries_of o
  logged-log n none = sym (append-nil n.request_log)
  logged-log n (some (req, k)) = refl

  run_posts-log :
      (n : Nebraska) (ps : List TimedPost)
      → (run_posts n ps).request_log ≡ n.request_log ++ accepted_entries ps
  unfolding run_posts accepted_entries
  run_posts-log n [] = sym (append-nil n.request_log)
  run_posts-log n ((now, timestamp, p) ∷ rest) =
      run_posts-log (do_post fromstring urlparse tostring now timestamp n p).1 rest
      ∙ ap (λ (s : Nebraska). s.request_log ++ accepted_entries rest)
          (do_post-logged now timestamp n p)
      ∙ ap (λ l. l ++ accepted_entries rest) (logged-log n (accepted timestamp p))
      ∙ append_assoc n.request_log (entries_of (accepted timestamp p)) (accepted_entries rest)

  -- Whatever POSTs came before, a GET of the request log returns the log that the server had, with
  -- the entries of the accepted POSTs behind it in the order in which they came.
  pub request_log_complete :
      (n : Nebraska) (ps : List TimedPost) (url : String)
      → (parse_url fromstring urlparse tostring url).0 ≡ "requestlog"
      → do_get fromstring urlparse tostring (run_posts n ps) url
        ≡ send_response "application/json" (json_log (n.request_log ++ accepted_entries ps))
  unfolding do_get
  request_log_complete n ps url h =
      rw (h) (ap (λ l. send_response "application/json" (json_log l)) (run_posts-log n ps))

  -- An update query whose number of URLs, end-of-life date or failure limit is no number gets no
  -- reply: the ValueError leaves the handler, and the state stays as it is.
  pub do_post_bad_query :
      (now : ℕ) (timestamp : String) (n : Nebraska) (p : Post) (text value key : String)
      → read_request p ≡ some text
      → (parse_url fromstring urlparse tostring p.path).0 ≡ "update"
      → (key ≡ "eol_date") ⊎ (key ≡ "failures_per_url") ⊎ (key ≡ "num_urls")
      → query_get key (parse_url fromstring urlparse tostring p.path).1 ≡ some value
      → int_of value ≡ none
      → do_post fromstring urlparse tostring now timestamp n p ≡ (err value_error, n)
  unfolding do_post
  do_post_bad_query now timestamp n p text value key hr hu hk hq hv =
      let (path, query) = parse_url fromstring urlparse tostring p.path in
      ground (arith, hr, hu, eq_iff path "update", query_bad query value key hk hq hv)
