-- ===== src/FromUpstream/Tests.antt =====
-- Runs of the model of contrib/fromupstream.py in a repository with one upstream remote.
use cros_dev_util.Base.{
  ℕ, String, true, false, Option, none, some, List, [], ◌∷◌, ◌≡◌, refl, str_eq, if◌then◌else◌, map,
}
use cros_dev_util.FromUpstream.Session.{
  http_failed, ssl_failed, no_address, Outside, PickOptions, Session, GitCall, git_call, stopped,
  GitAnswer, output, Ending, run_git, git_returncode, try_git,
}
use cros_dev_util.FromUpstream.Pick.{
  upstream, handler, match_upstream, find_upstream_remote, first_remote, is_in_branch, cherry_pick,
  note_source, reset_replaced,
}
use cros_dev_util.FromUpstream.Run.{
  Lines, run_location, run_locations, note_commit, title_commit, signoff_args,
}
use cros_dev_util.FromUpstream.Frames.{Ends, Refused, changes}
use cros_dev_util.FromUpstream.Handlers.{IsNoted}
use cros_dev_util.FromUpstream.Mails.{handler-IsNoted}
use cros_dev_util.FromUpstream.Conflicts.{IsTyped}
use cros_dev_util.FromUpstream.Titles.{IsPicked, run_location-IsPicked}

abbrev linux_url : String
linux_url = "git://git.kernel.org/pub/scm/linux/kernel/git/torvalds/linux.git"

abbrev first_word : List String → String
first_word [] = ""
first_word (word ∷ words) = word

abbrev git_answer : List GitCall → List String → Option String → GitAnswer
git_answer calls argv stdin =
    let word = first_word argv in
    if str_eq word "remote"
    then output linux_url
    else if str_eq word "rev-parse"
    then output "beef"
    else if str_eq word "show"
    then output "A title"
    else output ""

abbrev repository : Outside
repository = record {
  git = git_answer;
  urlopen = λ calls url. http_failed;
  patch_list = λ calls url message. ssl_failed;
  path_exists = λ calls path. false;
  get_pw_url = λ project. no_address;
  message_id = λ mail. none;
  strip_brackets = λ text. text;
  patience = 3;
  splitlines = λ text. text ∷ [];
  rstrip_slash = λ text. text;
  split_status = λ line. none;
  join_path = λ parts. first_word parts;
  changeid_of_message_id = λ message. none;
  remove_changeid = λ message. message;
  link_changeid = λ message. none;
  replace_changeid = λ id message. message;
  add_cq_depends = λ depends message. message;
}

abbrev replacing : PickOptions
replacing = record { replace = true; signoff = false }

abbrev start : Session
start = record { source_line = none; tag = none; changeid = none; calls = [] }

abbrev some_lines : Lines
some_lines = record { bug_lines = "b:1" ∷ []; test_lines = "boot" ∷ []; cq_depends = [] }

handler-IsNoted_example :
    Ends
      (IsNoted (some "UPSTREAM: "))
      (Refused [])
      (handler repository replacing (upstream "c0ffee") start)
handler-IsNoted_example = handler-IsNoted repository replacing (upstream "c0ffee") start

run_location-IsPicked_example :
    Ends
      (λ _. IsPicked repository replacing "UPSTREAM: " (upstream "c0ffee") start)
      IsTyped
      (run_location repository replacing some_lines (some (upstream "c0ffee")) start)
run_location-IsPicked_example =
    run_location-IsPicked repository replacing some_lines (upstream "c0ffee") start

-- The second location of a run that replaces resets the commit of the first.
abbrev changing : Ending ℕ × Session → List (List String)
changing (ending, s) = map arguments (changes s.calls)
  where
    arguments : GitCall → List String
    arguments stopped = []
    arguments (git_call argv stdin) = argv

replace_run :
    changing (
      run_locations repository replacing
        (λ location. some (upstream location))
        some_lines
        start
        ("c0ffee" ∷ "beef" ∷ [])
        start)
    ≡ ("commit" ∷ "--amend" ∷ "-F" ∷ "-" ∷ [])
      ∷ ("commit" ∷ "--amend" ∷ "-F" ∷ "-" ∷ [])
      ∷ ("cherry-pick" ∷ "beef" ∷ [])
      ∷ ("reset" ∷ "--hard" ∷ "HEAD~1" ∷ [])
      ∷ ("commit" ∷ "--amend" ∷ "-F" ∷ "-" ∷ [])
      ∷ ("commit" ∷ "--amend" ∷ "-F" ∷ "-" ∷ [])
      ∷ ("cherry-pick" ∷ "beef" ∷ [])
      ∷ ("reset" ∷ "--hard" ∷ "HEAD~1" ∷ [])
      ∷ []
unfolding run_locations run_location handler match_upstream find_upstream_remote first_remote
    is_in_branch cherry_pick note_source reset_replaced run_git git_returncode try_git note_commit
    title_commit signoff_args
replace_run = refl
