-- ===== src/FromUpstream/Pick.antt =====
-- contrib/fromupstream.py: the handlers of the locations.
use cros_dev_util.Base.{
  ℕ, String, Bool, true, false, Option, none, some, List, [], ◌∷◌, str_eq, str_elem, is_some,
  str_append, if◌then◌else◌,
}
use cros_dev_util.FromUpstream.Session.{
  WebAnswer, page, http_failed, no_connection, RpcAnswer, patches, ssl_failed, rpc_failed,
  ConfigAnswer, address, no_address, bad_config, attribute_error, url_error, rpc_error,
  config_error, Outside, PickOptions, Action, ◌>>=◌, ◌>>◌, return, raise, found, system_exit,
  run_git, git_returncode, try_git, default_tag, default_changeid, set_source_line, get,
}

-- The places after the scheme of a location.
pub data Location : Type 0 where
  patchwork : Option String → String → Location
  msgid : String → Location
  upstream : String → Location
  fromgit : String → String → String → Location
  gitfetch : String → String → String → Location

abbrev pub join_texts : List String → String
join_texts [] = ""
join_texts (s ∷ ss) = str_append s (join_texts ss)

abbrev pub upstream_urls : List String
upstream_urls =
    "git://git.kernel.org/pub/scm/linux/kernel/git/torvalds/linux.git"
    ∷ "https://git.kernel.org/pub/scm/linux/kernel/git/torvalds/linux.git"
    ∷ "https://kernel.googlesource.com/pub/scm/linux/kernel/git/torvalds/linux.git"
    ∷ "git://git.kernel.org/pub/scm/linux/kernel/git/firmware/linux-firmware.git"
    ∷ "https://git.kernel.org/pub/scm/linux/kernel/git/firmware/linux-firmware.git"
    ∷ "https://kernel.googlesource.com/pub/scm/linux/kernel/git/firmware/linux-firmware.git"
    ∷ "git://w1.fi/srv/git/hostap.git" ∷ "git://git.kernel.org/pub/scm/bluetooth/bluez.git"
    ∷ "https://github.com/andersson/qrtr.git" ∷ []

abbrev pub patchwork_urls : List String
patchwork_urls =
    "https://lore.kernel.org/patchwork" ∷ "https://patchwork.kernel.org"
    ∷ "https://patchwork.ozlabs.org" ∷ "https://patchwork.freedesktop.org"
    ∷ "https://patchwork.linux-mips.org" ∷ []

-- The archives in which a message is looked for, each before the Message-Id.
abbrev pub archive_urls : List String
archive_urls =
    "https://lore.kernel.org/r/" ∷ "https://marc.info/?i=" ∷ "https://public-inbox.org/git/" ∷ []

module _ (w : Outside) (opts : PickOptions) where
  abbrev pub is_upstream : List String → Option String → Bool
  is_upstream urls none = false
  is_upstream urls (some url) = str_elem (w.rstrip_slash url) urls

  unfoldable pub first_remote : List String → List String → Action (Option String)
  first_remote urls [] = return none
  first_remote urls (remote ∷ remotes) =
      let rest = first_remote urls remotes in
      do
        url ← try_git w ("remote" ∷ "get-url" ∷ remote ∷ [])
        if is_upstream urls url then return (some remote) else rest

  unfoldable pub find_upstream_remote : List String → Action (Option String)
  find_upstream_remote urls = do
    remotes ← run_git w ("remote" ∷ []) none
    first_remote urls (w.splitlines remotes)

  -- Whether the commit is in one of the branches of the remote.
  unfoldable pub is_in_branch : String → String → List String → Action Bool
  is_in_branch commit remote [] = return false
  is_in_branch commit remote (branch ∷ branches) =
      let rest = is_in_branch commit remote branches in
      do
        answer ←
            try_git w (
              "merge-base"
              ∷ "--is-ancestor"
              ∷ commit
              ∷ join_texts (remote ∷ "/" ∷ branch ∷ [])
              ∷ [])
        if is_some answer then return true else rest

  -- `if args['replace']: ...`
  unfoldable pub reset_replaced : Action (Unit {0})
  reset_replaced =
      if opts.replace
      then (do done ← run_git w ("reset" ∷ "--hard" ∷ "HEAD~1" ∷ []) none; return tt)
      else return tt

  -- The commit that is picked: its hash where it goes into the source line.
  unfoldable pub note_source : String → (String → String) → Option String → Action String
  note_source commit line (some given) = return commit
  note_source commit line none = do
    hash ← run_git w ("rev-parse" ∷ commit ∷ []) none
    set_source_line (line hash)
    return hash

  -- The end that the handlers of git locations share.
  unfoldable pub cherry_pick : String → (String → String) → String → Action ℕ
  cherry_pick commit line tag = do
    source ← get (λ s. s.source_line)
    picked ← note_source commit line source
    default_tag tag
    reset_replaced
    git_returncode w ("cherry-pick" ∷ picked ∷ []) none

  unfoldable pub match_upstream : String → Action ℕ
  match_upstream commit = do
    remote ← find_upstream_remote upstream_urls
    name ← found system_exit remote
    is_in ←
        (if str_eq name ""
          then raise system_exit
          else is_in_branch commit name ("main" ∷ "master" ∷ []))
    (if is_in then return tt else raise system_exit)
    cherry_pick commit (λ hash. join_texts ("(cherry picked from commit " ∷ hash ∷ ")" ∷ []))
        "UPSTREAM: "

  abbrev pub from_line : String → String → String → String
  from_line url branch hash =
      join_texts ("(cherry picked from commit " ∷ hash ∷ "\n " ∷ url ∷ " " ∷ branch ∷ ")" ∷ [])

  unfoldable pub match_fromgit : String → String → String → Action ℕ
  match_fromgit remote branch commit = do
    answer ←
        try_git w
          ("merge-base" ∷ "--is-ancestor" ∷ commit ∷ join_texts (remote ∷ "/" ∷ branch ∷ []) ∷ [])
    is_in ← found system_exit answer
    url ← run_git w ("remote" ∷ "get-url" ∷ remote ∷ []) none
    cherry_pick commit (from_line url branch) "FROMGIT: "

  -- _match_gitfetch and _match_gitweb differ in the form of the location only.
  unfoldable pub match_gitfetch : String → String → String → Action ℕ
  match_gitfetch remote branch commit = do
    answer ← try_git w ("fetch" ∷ remote ∷ branch ∷ [])
    is_in ← found system_exit answer
    cherry_pick commit (from_line remote branch) "FROMGIT: "

  abbrev pub probed : String → Action String → WebAnswer → Action String
  probed alt rest (page contents) = return alt
  probed alt rest http_failed = rest
  probed alt rest no_connection = raise url_error

  -- The first archive that has the message, or the last of them.
  abbrev pub probe : List String → String → String → Action String
  probe [] message_id last = return last
  probe (url ∷ urls) message_id last =
      let alt = str_append url message_id in
      let rest = probe urls message_id alt in
      do answer ← get (λ s. w.urlopen s.calls alt); probed alt rest answer

  unfoldable pub note_patch : String → String → String → Option String → Action (Unit {0})
  note_patch url patch_id message_id (some given) = return tt
  note_patch url patch_id message_id none = do
    alt_url ← probe archive_urls message_id ""
    set_source_line (
        join_texts
          ("(am from " ∷ url ∷ "/patch/" ∷ patch_id ∷ "/)\n(also found at " ∷ alt_url ∷ ")" ∷ []))

  abbrev pub opened : WebAnswer → Action String
  opened (page contents) = return contents
  opened http_failed = raise system_exit
  opened no_connection = raise url_error

  unfoldable pub pick_patchwork : String → String → Action ℕ
  pick_patchwork url patch_id = do
    default_tag "FROMLIST: "
    answer ← get (λ s. w.urlopen s.calls (join_texts (url ∷ "/patch/" ∷ patch_id ∷ "/mbox" ∷ [])))
    patch_contents ← opened answer
    (if str_eq patch_contents "" then raise system_exit else return tt)
    header ← found attribute_error (w.message_id patch_contents)
    let message_id = w.strip_brackets header
    source ← get (λ s. s.source_line)
    note_patch url patch_id message_id source
    default_changeid (w.changeid_of_message_id message_id)
    reset_replaced
    git_returncode w ("am" ∷ "-3" ∷ []) (some patch_contents)

  -- _get_pw_url
  abbrev pub configured : ConfigAnswer → Action String
  configured (address url) = return url
  configured no_address = raise system_exit
  configured bad_config = raise config_error

  unfoldable pub match_patchwork : Option String → String → Action ℕ
  match_patchwork pw_project patch_id = do
    url ← configured (w.get_pw_url pw_project)
    pick_patchwork url patch_id

  abbrev pub first_known :
      String → Action (Option (String × String)) → RpcAnswer → Action (Option (String × String))
  first_known url rest (patches (patch_id ∷ _)) = return (some (url, patch_id))
  first_known url rest (patches []) = rest
  first_known url rest ssl_failed = rest
  first_known url rest rpc_failed = raise rpc_error

  -- The first server that knows the message, with the number of its patch.
  unfoldable pub first_patch : List String → String → Action (Option (String × String))
  first_patch [] message = return none
  first_patch (url ∷ urls) message =
      let rest = first_patch urls message in
      do
        res ← get (λ s. w.patch_list s.calls (str_append url "/xmlrpc/") message)
        first_known url rest res

  unfoldable pub match_msgid : String → Action ℕ
  match_msgid message = do
    patch ← first_patch patchwork_urls (join_texts ("<" ∷ message ∷ ">" ∷ []))
    known ← found system_exit patch
    pick_patchwork known.0 known.1

  unfoldable pub handler : Location → Action ℕ
  handler (patchwork project patch_id) = match_patchwork project patch_id
  handler (msgid message) = match_msgid message
  handler (upstream commit) = match_upstream commit
  handler (fromgit remote branch commit) = match_fromgit remote branch commit
  handler (gitfetch remote branch commit) = match_gitfetch remote branch commit
