-- ===== src/FromUpstream/Mails.antt =====
-- The handlers of contrib/fromupstream.py for mails, and the handlers of all locations.
use cros_dev_util.Base.{
  ℕ, String, Option, none, some, List, [], ◌∷◌, ◌≡◌, refl, ap, str_eq, str_append, is_some,
  if◌then◌else◌,
}
use cros_dev_util.FromUpstream.Session.{
  WebAnswer, page, http_failed, no_connection, patches, ssl_failed, rpc_failed, ConfigAnswer,
  address, no_address, bad_config, attribute_error, Outside, PickOptions, Session, GitCall,
  system_exit, Action, ◌>>=◌, ◌>>◌, return, raise, found, git_returncode, or_else, default_changeid,
  set_source_line, get,
}
use cros_dev_util.FromUpstream.Pick.{
  probed, opened, configured, first_known, Location, patchwork, msgid, upstream, fromgit, gitfetch,
  join_texts, patchwork_urls, archive_urls, reset_replaced, probe, note_patch, pick_patchwork,
  match_patchwork, first_patch, match_msgid, handler,
}
use cros_dev_util.FromUpstream.Frames.{Ends, bind_Ends, changes, Quiet, Refused}
use cros_dev_util.FromUpstream.Handlers.{
  tag_of, IsNoted, IsTitled, Stays, then_Ended, if_Stays, found-Stays, pick-IsTitled,
  match_upstream-IsNoted, match_fromgit-IsNoted, match_gitfetch-IsNoted,
}

module _ (w : Outside) (opts : PickOptions) (before : List GitCall)
    (tag source_line : Option String) where
  default_changeid-IsTitled :
      (title id : Option String) (s : Session)
      → IsTitled title tt s
      → Ends (IsTitled title) (Refused before) (default_changeid id s)
  default_changeid-IsTitled title none s h = h
  default_changeid-IsTitled title (some id) s h = h

  probe-Ends :
      (Q : Session → Type 0) (urls : List String) (message last : String) (s : Session)
      → changes s.calls ≡ before
      → Q s
      → Ends (λ _. Q) (Refused before) (probe w opts urls message last s)
  probe-Ends Q [] message last s e q = q
  probe-Ends Q (url ∷ urls) message last s e q =
      let alt = str_append url message in
      elim (w.urlopen s.calls alt)
        as (λ a.
          Ends (λ _. Q) (Refused before) (probed w opts alt (probe w opts urls message alt) a s)) [
            | page contents ↦ q
            | http_failed ↦ probe-Ends Q urls message alt s e q
            | no_connection ↦ e
          ]

  note_patch-IsTitled :
      (url patch_id message : String) (source : Option String) (s : Session)
      → changes s.calls ≡ before
      → s.source_line ≡ source
      → s.tag ≡ tag
      → Ends (IsTitled tag) (Refused before) (note_patch w opts url patch_id message source s)
  unfolding note_patch
  note_patch-IsTitled url patch_id message (some given) s quiet e t = (t, ap is_some e)
  note_patch-IsTitled url patch_id message none s quiet e t =
      bind_Ends (λ _ s'. s'.tag ≡ tag) (IsTitled tag) (Refused before)
        (probe w opts archive_urls message "")
        (λ alt_url. set_source_line (
          join_texts (
            "(am from " ∷ url ∷ "/patch/" ∷ patch_id ∷ "/)\n(also found at " ∷ alt_url ∷ ")" ∷ [])))
        s (probe-Ends (λ s'. s'.tag ≡ tag) archive_urls message "" s quiet t)
        (λ alt_url s' t'. (t', refl))

  first_patch-Stays :
      (urls : List String) (message : String) (s : Session)
      → Quiet before tag source_line s
      → Stays w opts before tag source_line (first_patch w opts urls message s)
  unfolding first_patch
  first_patch-Stays [] message s q = q
  first_patch-Stays (url ∷ urls) message s q =
      elim (w.patch_list s.calls (str_append url "/xmlrpc/") message)
        as (λ res.
          Stays w opts before tag source_line
            (first_known w opts url (first_patch w opts urls message) res s)) [
              | patches (patch_id ∷ _) ↦ q
              | patches [] ↦ first_patch-Stays urls message s q
              | ssl_failed ↦ first_patch-Stays urls message s q
              | rpc_failed ↦ q.same_changes
            ]

  opened-Stays :
      (a : WebAnswer) (s : Session)
      → Quiet before tag source_line s
      → Stays w opts before tag source_line (opened w opts a s)
  opened-Stays (page contents) s q = q
  opened-Stays http_failed s q = q.same_changes
  opened-Stays no_connection s q = q.same_changes

  configured-Stays :
      (a : ConfigAnswer) (s : Session)
      → Quiet before tag source_line s
      → Stays w opts before tag source_line (configured w opts a s)
  configured-Stays (address url) s q = q
  configured-Stays no_address s q = q.same_changes
  configured-Stays bad_config s q = q.same_changes

  header-Stays :
      (header : Option String) (s : Session)
      → Quiet before tag source_line s
      → Stays w opts before tag source_line (found attribute_error header s)
  header-Stays none s q = q.same_changes
  header-Stays (some header) s q = q

module _ (w : Outside) (opts : PickOptions) (before : List GitCall)
    (tag source_line : Option String) where
  -- From the contents of the patch on.
  patch-IsNoted :
      (url patch_id message contents : String) (s : Session)
      → Quiet before tag source_line s
      → Ends (IsNoted tag) (Refused before) (
          (note_patch w opts url patch_id message s.source_line
              >> (default_changeid (w.changeid_of_message_id message)
                  >> (reset_replaced w opts
                      >> git_returncode w ("am" ∷ "-3" ∷ []) (some contents))))
            s)
  patch-IsNoted url patch_id message contents s q =
      let am : Action ℕ =
        reset_replaced w opts >> git_returncode w ("am" ∷ "-3" ∷ []) (some contents) in
      let id = w.changeid_of_message_id message in
      bind_Ends (IsTitled tag) (IsNoted tag) (Refused before)
        (note_patch w opts url patch_id message s.source_line) (λ _. default_changeid id >> am) s
        (note_patch-IsTitled w opts before tag source_line url patch_id message s.source_line s
          q.same_changes refl q.same_tag)
        (λ _ s1 h.
          bind_Ends (IsTitled tag) (IsNoted tag) (Refused before) (default_changeid id) (λ _. am) s1
            (default_changeid-IsTitled w opts before tag source_line tag id s1 h)
            (λ _ s2 h2. pick-IsTitled w opts before tag ("am" ∷ "-3" ∷ []) (some contents) s2 h2))

module _ (w : Outside) (opts : PickOptions) (before : List GitCall)
    (tag source_line : Option String) where
  pick_patchwork-IsNoted :
      (url patch_id : String) (s : Session)
      → Quiet before tag source_line s
      → Ends
          (IsNoted (or_else tag "FROMLIST: "))
          (Refused before)
          (pick_patchwork w opts url patch_id s)
  unfolding pick_patchwork
  pick_patchwork-IsNoted url patch_id s q =
      let title = or_else tag "FROMLIST: " in
      let s1 : Session = record s { tag = or_else s.tag "FROMLIST: " } in
      let q1 : Quiet before title source_line s1 = record {
        same_changes = q.same_changes;
        same_tag = ap (λ t. or_else t "FROMLIST: ") q.same_tag;
        same_source = q.same_source;
      } in
      let answer = w.urlopen s1.calls (join_texts (url ∷ "/patch/" ∷ patch_id ∷ "/mbox" ∷ [])) in
      let check : String → Action (Unit {0}) =
        λ contents. if str_eq contents "" then raise system_exit else return tt in
      let message : String → String = λ header. w.strip_brackets header in
      let noted : String → String → Action ℕ = λ contents header.
        get (λ s'. s'.source_line) >>= λ source.
        note_patch w opts url patch_id (message header) source
        >> (default_changeid (w.changeid_of_message_id (message header))
            >> (reset_replaced w opts >> git_returncode w ("am" ∷ "-3" ∷ []) (some contents))) in
      let whole : String → Action ℕ =
        λ contents. found attribute_error (w.message_id contents) >>= noted contents in
      then_Ended w opts before title source_line title (opened w opts answer)
        (λ contents. check contents >>= λ _. whole contents) s1
        (opened-Stays w opts before title source_line answer s1 q1)
        (λ contents s2 q2.
          then_Ended w opts before title source_line title (check contents) (λ _. whole contents) s2
            (if_Stays w opts before title source_line (str_eq contents "") (raise system_exit)
              (return tt) s2 q2.same_changes q2)
            (λ _ s3 q3.
              then_Ended w opts before title source_line title
                (found attribute_error (w.message_id contents)) (noted contents) s3
                (header-Stays w opts before title source_line (w.message_id contents) s3 q3)
                (λ header s4 q4.
                  patch-IsNoted w opts before title source_line url patch_id (message header)
                    contents s4 q4)))

  match_patchwork-IsNoted :
      (project : Option String) (patch_id : String) (s : Session)
      → Quiet before tag source_line s
      → Ends
          (IsNoted (or_else tag "FROMLIST: "))
          (Refused before)
          (match_patchwork w opts project patch_id s)
  unfolding match_patchwork
  match_patchwork-IsNoted project patch_id s q =
      then_Ended w opts before tag source_line (or_else tag "FROMLIST: ")
        (configured w opts (w.get_pw_url project)) (λ url. pick_patchwork w opts url patch_id) s
        (configured-Stays w opts before tag source_line (w.get_pw_url project) s q)
        (λ url s1 q1. pick_patchwork-IsNoted url patch_id s1 q1)

  match_msgid-IsNoted :
      (message : String) (s : Session)
      → Quiet before tag source_line s
      → Ends (IsNoted (or_else tag "FROMLIST: ")) (Refused before) (match_msgid w opts message s)
  unfolding match_msgid
  match_msgid-IsNoted message s q =
      let title = or_else tag "FROMLIST: " in
      let bracketed = join_texts ("<" ∷ message ∷ ">" ∷ []) in
      then_Ended w opts before tag source_line title (first_patch w opts patchwork_urls bracketed)
        (λ patch. found system_exit patch >>= λ known. pick_patchwork w opts known.0 known.1) s
        (first_patch-Stays w opts before tag source_line patchwork_urls bracketed s q)
        (λ patch s1 q1.
          then_Ended w opts before tag source_line title (found system_exit patch)
            (λ known. pick_patchwork w opts known.0 known.1) s1
            (found-Stays w opts before tag source_line patch s1 q1)
            (λ known s2 q2. pick_patchwork-IsNoted known.0 known.1 s2 q2))

-- A handler that returns leaves a source line, and the user's tag or the one of the location. A
-- handler that exits, or raises an error of the web, of the mail's header or of the configuration,
-- has run no git command that changes the branch. It raises no TypeError.
pub handler-IsNoted :
    (w : Outside) (opts : PickOptions) (place : Location) (s : Session)
    → Ends
        (IsNoted (or_else s.tag (tag_of place)))
        (Refused (changes s.calls))
        (handler w opts place s)
unfolding handler
handler-IsNoted w opts place s =
    let q : Quiet (changes s.calls) s.tag s.source_line s = record {
      same_changes = refl;
      same_tag = refl;
      same_source = refl;
    } in
    elim place
      as (λ p.
        Ends (IsNoted (or_else s.tag (tag_of p))) (Refused (changes s.calls))
          (handler w opts p s)) [
            | patchwork project patch_id ↦
                match_patchwork-IsNoted w opts (changes s.calls) s.tag s.source_line project
                  patch_id s q
            | msgid message ↦
                match_msgid-IsNoted w opts (changes s.calls) s.tag s.source_line message s q
            | upstream commit ↦
                match_upstream-IsNoted w opts (changes s.calls) s.tag s.source_line commit s q
            | fromgit remote branch commit ↦
                match_fromgit-IsNoted w opts (changes s.calls) s.tag s.source_line remote branch
                  commit s q
            | gitfetch remote branch commit ↦
                match_gitfetch-IsNoted w opts (changes s.calls) s.tag s.source_line remote branch
                  commit s q
          ]
