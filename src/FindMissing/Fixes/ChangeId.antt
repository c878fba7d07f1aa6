-- ===== src/FindMissing/Fixes/ChangeId.antt =====
-- get_change_id of contrib/findmissing/missing.py: which Gerrit Change-Id an upstream sha gets.
-- `get_status` of gerrit_interface is a parameter: `none` is the HTTPError for an unknown change.
use cros_dev_util.Base.{
  String, Bool, false, ◌&&◌, ◌||◌, not, Option, none, some, List, [], ◌∷◌, str_eq, if◌then◌else◌,
}

-- A row of the query: the change and branch of chrome_fixes, and those of stable_fixes.
pub record Candidate : Type 0 where
  pub chrome_change : Option String
  pub chrome_branch : Option String
  pub stable_change : Option String
  pub stable_branch : Option String

-- The variables change_id and status; both are None at first.
pub record Choice : Type 0 where
  pub change_id : Option String
  pub status : Option String

abbrev pub no_choice : Choice
no_choice = record { change_id = none; status = none }

abbrev pub is_abandoned : String → Bool
is_abandoned s = str_eq s "ABANDONED"

-- `status != 'ABANDONED'` where the status may be None, and `status and ...`.
abbrev pub is_abandoned? : Option String → Bool
is_abandoned? none = false
is_abandoned? (some s) = is_abandoned s

abbrev pub settled : Option String → Bool
settled none = false
settled (some s) = not (str_eq s "") && not (is_abandoned s)

-- The choice behind `if not change_id or _status != ABANDONED`.
abbrev pub pick_change : Option String → Bool → Choice → Choice → Choice
pick_change none live new old = new
pick_change (some c) live new old = if str_eq c "" || live then new else old

unfoldable pub take_change : String → String → Choice → Choice
take_change change found choice =
    pick_change choice.change_id (not (is_abandoned found))
      (record { change_id = some change; status = some found }) choice

-- `if change_id and branch`: neither is NULL or empty.
abbrev pub offered : Option String → Option String → Option (String × String)
offered (some change) (some branch) =
    if str_eq change "" || str_eq branch "" then none else some (change, branch)
offered _ _ = none

-- A try block, with the answer of Gerrit: an HTTPError leaves the choice. The Boolean is the test
-- of the `break` in the first block.
abbrev pub answered : String → Option String → Choice → Choice × Bool
answered change none choice = (choice, false)
answered change (some found) choice =
    let choice' = take_change change found choice in (choice', not (is_abandoned? choice'.status))

module _ (get_status : String → String → Option String) where
  unfoldable pub try_change : Option (String × String) → Choice → Choice × Bool
  try_change none choice = (choice, false)
  try_change (some (change, branch)) choice = answered change (get_status change branch) choice

  -- The loop over the rows of the query.
  unfoldable pub choose_change : List Candidate → Choice → Choice
  unfolding try_change
  choose_change [] choice = choice
  choose_change (row ∷ rows) choice =
      let (chosen, stop) = try_change (offered row.chrome_change row.chrome_branch) choice in
      let both = (try_change (offered row.stable_change row.stable_branch) chosen).0 in
      let rest = choose_change rows both in
      if stop then chosen else if settled both.status then both else rest

  unfoldable pub get_change_id : List Candidate → Option String
  unfolding choose_change
  get_change_id rows = (choose_change rows no_choice).change_id
