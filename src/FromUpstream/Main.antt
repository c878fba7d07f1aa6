-- ===== src/FromUpstream/Main.antt =====
-- contrib/fromupstream.py: the lines of the commit messages, from the command line or from the
-- replaced commit, and main.
use cros_dev_util.Base.{
  ℕ, zero, suc, String, false, ◌||◌, Option, none, some, List, [], ◌∷◌, ◌++◌, ◌≡◌, map, is_empty, ℤ,
  str_eq, str_of_int, str_append, str_length, str_drop, if◌then◌else◌, Bool-cases, inl, inr,
}
use cros_dev_util.FromUpstream.Session.{
  Outside, PickOptions, Session, system_exit, Action, ◌>>=◌, ◌>>◌, return, raise, run_git,
  default_changeid,
}
use cros_dev_util.FromUpstream.Pick.{Location, join_texts}
use cros_dev_util.FromUpstream.Run.{Lines, show_head, run_locations}
use cros_dev_util.FromUpstream.Frames.{Ends, bind_Ends, if_Ends, git_Ends}
use cros_dev_util.FromUpstream.Conflicts.{IsTyped, typed}
use cros_dev_util.FromUpstream.Titles.{run_locations-IsTyped}

-- The options of the command line that become lines.
pub record LineOptions : Type 0 where
  pub bug : Option String
  pub test : List String
  pub crbug : List ℤ
  pub buganizer : List ℤ
  pub cqdepend : Option String

-- What the code uses of textwrap, str and re: `fill` of a text with the indent of its further lines,
-- the lines of a text, a text without commas and spaces at its ends, and what a commit message has.
pub record Texts : Type 0 where
  pub fill : String → String → String
  pub split_newlines : String → List String
  pub strip_comma : String → String
  pub first_changeid : String → Option String
  pub cq_depends_of : String → List String
  pub bugs_of : String → List String
  pub tests_of : String → List String

abbrev pub spaces : ℕ → String
spaces zero = ""
spaces (suc n) = str_append " " (spaces n)

-- A list of the one text that is given, if it is not empty.
abbrev pub given_line : Option String → List String
given_line none = []
given_line (some line) = if str_eq line "" then [] else line ∷ []

abbrev pub join_numbers : List String → String
join_numbers [] = ""
join_numbers (a ∷ []) = a
join_numbers (a ∷ b ∷ more) = join_texts (a ∷ ", " ∷ join_numbers (b ∷ more) ∷ [])

-- The lines that are given, or else those of the replaced commit.
abbrev pub lines_or : List String → List String → List String
lines_or [] old = old
lines_or (line ∷ lines) old = line ∷ lines

module _ (w : Outside) (texts : Texts) (opts : PickOptions) where
  -- _wrap_commit_line
  unfoldable pub wrap_commit_line : String → String → String
  wrap_commit_line prefix content =
      str_drop (str_length prefix)
        (texts.fill (str_append prefix content) (spaces (str_length prefix)))

  abbrev pub numbered_lines : String → List ℤ → List String
  numbered_lines prefix [] = []
  numbered_lines prefix (n ∷ ns) = map texts.strip_comma (
      texts.split_newlines (
        wrap_commit_line "BUG="
          (join_numbers (map (λ k. str_append prefix (str_of_int k)) (n ∷ ns)))))

  unfoldable pub given_bug_lines : LineOptions → List String
  given_bug_lines given =
      given_line given.bug
      ++ (numbered_lines "b:" given.buganizer ++ numbered_lines "chromium:" given.crbug)

  unfoldable pub given_lines : LineOptions → Lines
  given_lines given = record {
    bug_lines = given_bug_lines given;
    test_lines = map (wrap_commit_line "TEST=") given.test;
    cq_depends = given_line given.cqdepend;
  }

  -- The lines that are missing are those of the commit that is replaced.
  unfoldable pub replaced_lines : Lines → Action Lines
  replaced_lines lines = do
    old_commit_message ← run_git w show_head none
    default_changeid (texts.first_changeid old_commit_message)
    return (record {
      bug_lines = lines_or lines.bug_lines (texts.bugs_of old_commit_message);
      test_lines = lines_or lines.test_lines (texts.tests_of old_commit_message);
      cq_depends = lines_or lines.cq_depends (texts.cq_depends_of old_commit_message);
    })

  -- parser.error exits.
  unfoldable pub all_lines : LineOptions → Action Lines
  all_lines given = do
    lines ←
        (if opts.replace then replaced_lines (given_lines given) else return (given_lines given))
    if is_empty lines.bug_lines || is_empty lines.test_lines
        then raise system_exit
        else return lines

  unfoldable pub fromupstream : (String → Option Location) → LineOptions → List String → Action ℕ
  fromupstream match_location given locations = do
    lines ← all_lines given
    λ s. run_locations w opts match_location lines s locations s

  -- There is a BUG line and a TEST line.
  abbrev pub IsFull : Lines → Type 0
  IsFull lines = (is_empty lines.bug_lines ≡ false) × (is_empty lines.test_lines ≡ false)

  replaced_lines-IsTyped :
      (lines : Lines) (s : Session) → Ends (λ _ s'. Unit {0}) IsTyped (replaced_lines lines s)
  unfolding replaced_lines
  replaced_lines-IsTyped lines s =
      let whole : String → Lines = λ message. record {
        bug_lines = lines_or lines.bug_lines (texts.bugs_of message);
        test_lines = lines_or lines.test_lines (texts.tests_of message);
        cq_depends = lines_or lines.cq_depends (texts.cq_depends_of message);
      } in
      bind_Ends (λ _ s'. Unit {0}) (λ _ s'. Unit {0}) IsTyped (run_git w show_head none)
        (λ message. default_changeid (texts.first_changeid message) >> return (whole message)) s
        (typed (λ _ s'. Unit {0}) [] (run_git w show_head none s)
          (git_Ends w [] (λ s'. Unit {0}) show_head none s tt))
        (λ message s1 h.
          bind_Ends (λ _ s'. Unit {0}) (λ _ s'. Unit {0}) IsTyped
            (default_changeid (texts.first_changeid message)) (λ _. return (whole message)) s1
            (set_changeid-IsTyped (texts.first_changeid message) s1) (λ _ s2 h2. tt))
    where
      set_changeid-IsTyped :
          (id : Option String) (s1 : Session)
          → Ends (λ _ s'. Unit {0}) IsTyped (default_changeid id s1)
      set_changeid-IsTyped none s1 = tt
      set_changeid-IsTyped (some id) s1 = tt

  IsFull-lines :
      (lines : Lines) (s : Session)
      → Ends
          (λ lines' s'. IsFull lines')
          IsTyped
          ((if is_empty lines.bug_lines || is_empty lines.test_lines
              then raise system_exit
              else return lines)
            s)
  IsFull-lines lines s = elim (Bool-cases (is_empty lines.bug_lines)) [
    | inl no_bug ↦ rw no_bug tt
    | inr bugs ↦ elim (Bool-cases (is_empty lines.test_lines)) [
      | inl no_test ↦ rw (bugs, no_test) tt
      | inr tests ↦ rw (bugs, tests) (bugs, tests)
    ]
  ]

  -- The lines that main goes on with have a BUG line and a TEST line.
  pub all_lines-IsFull :
      (given : LineOptions) (s : Session)
      → Ends (λ lines s'. IsFull lines) IsTyped (all_lines given s)
  unfolding all_lines
  all_lines-IsFull given s =
      let first : Action Lines =
        if opts.replace then replaced_lines (given_lines given) else return (given_lines given) in
      bind_Ends (λ _ s'. Unit {0}) (λ lines s'. IsFull lines) IsTyped first
        (λ lines.
          if is_empty lines.bug_lines || is_empty lines.test_lines
          then raise system_exit
          else return lines)
        s
        (if_Ends (Ends (λ _ s'. Unit {0}) IsTyped) opts.replace (replaced_lines (given_lines given))
          (return (given_lines given)) s (replaced_lines-IsTyped (given_lines given) s) tt)
        (λ lines s1 h. IsFull-lines lines s1)

  -- main returns 0 or raises, and never a TypeError.
  pub fromupstream-IsTyped :
      (match_location : String → Option Location) (given : LineOptions) (locations : List String)
      (s : Session)
      → Ends (λ ret s'. ret ≡ 0) IsTyped (fromupstream match_location given locations s)
  unfolding fromupstream
  fromupstream-IsTyped match_location given locations s =
      bind_Ends (λ lines s'. IsFull lines) (λ ret s'. ret ≡ 0) IsTyped (all_lines given)
        (λ lines s'. run_locations w opts match_location lines s' locations s') s
        (all_lines-IsFull given s)
        (λ lines s1 h. run_locations-IsTyped w opts lines match_location s1 locations s1)
