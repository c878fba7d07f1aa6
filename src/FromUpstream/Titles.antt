-- ===== src/FromUpstream/Titles.antt =====
-- The commit that main of contrib/fromupstream.py leaves for a location.
use cros_dev_util.Base.{
  ℕ, String, Bool, true, false, Option, none, some, List, [], ◌∷◌, ◌≡◌, refl, ◌∙◌, ◌==◌,
  if◌then◌else◌,
}
use cros_dev_util.FromUpstream.Session.{
  Outside, PickOptions, Session, Raise, Ending, raised, returned, ◌>>=◌, ◌>>◌, return, or_else,
}
use cros_dev_util.FromUpstream.Pick.{Location, handler}
use cros_dev_util.FromUpstream.Run.{Lines, backport, note_commit, title_commit, run_location}
use cros_dev_util.FromUpstream.Frames.{Ends, bind_Ends, changes}
use cros_dev_util.FromUpstream.Handlers.{IsTitled, IsNoted, tag_of}
use cros_dev_util.FromUpstream.Mails.{handler-IsNoted}
use cros_dev_util.FromUpstream.Conflicts.{IsTyped, typed, backported}
use cros_dev_util.FromUpstream.Commits.{IsCommitted, backport-Titled, commits-IsCommitted}
use cros_dev_util.FromUpstream.Run.{run_locations, restored}

-- The tag of the commit of a pick with this return code.
abbrev pub title_of : ℕ → String → String
title_of ret tag = if ret == 0 then tag else backported tag

-- What the location leaves: the pick has ended with some return code, and the commit has its tag.
abbrev pub IsPicked : Outside → PickOptions → String → Location → Session → Session → Type 0
IsPicked w opts tag place s s' =
    (ret : ℕ) × (picked : Session) × (handler w opts place s ≡ (returned ret, picked))
    × IsCommitted (title_of ret tag) s'

-- The user's tag, or else the location's.
abbrev pub given_tag : Option String → String → String
given_tag none default = default
given_tag (some tag) default = tag

given_or_else :
    (tag : Option String) (default : String) → or_else tag default ≡ some (given_tag tag default)
given_or_else none default = refl
given_or_else (some tag) default = refl

with_result :
    {T : Type 0} (Q : T → Session → Type 0) (X : Raise → Session → Type 0)
    (p q : Ending T × Session)
    → q ≡ p
    → Ends Q X p
    → Ends (λ t s'. Q t s' × (q ≡ (returned t, s'))) X p
with_result Q X (returned t, s') q e h = (h, e)
with_result Q X (raised exn, s') q e h = h

forget :
    {T : Type 0} (Q : T → Session → Type 0) (X : Raise → Session → Type 0) (p : Ending T × Session)
    → Ends Q X p
    → Ends (λ t s'. Unit {0}) X p
forget Q X (returned t, s') h = tt
forget Q X (raised exn, s') h = h

module _ (w : Outside) (opts : PickOptions) (lines : Lines) where
  after_pick :
      (picked : Bool) (tag : String) (s : Session)
      → IsTitled (some tag) tt s
      → Ends
          (λ _. IsCommitted (if picked then tag else backported tag))
          IsTyped
          (((if picked then return "" else backport w opts) >>= λ conflicts.
              note_commit w opts lines conflicts >> title_commit w opts lines)
            s)
  after_pick true tag s h = commits-IsCommitted w opts tag lines "" s h
  after_pick false tag s h =
      bind_Ends (λ _. IsTitled (some (backported tag)) tt) (λ _. IsCommitted (backported tag))
        IsTyped (backport w opts)
        (λ conflicts. note_commit w opts lines conflicts >> title_commit w opts lines) s
        (backport-Titled w opts tag s h)
        (λ conflicts s1 h1. commits-IsCommitted w opts (backported tag) lines conflicts s1 h1)

  -- Where the work on a location returns, the pick has ended with some return code and the last call
  -- is a commit whose message begins with the user's tag, or else the location's, turned into a
  -- BACKPORT exactly if that code is not zero. It never ends in a TypeError.
  pub run_location-IsPicked :
      (place : Location) (s : Session)
      → Ends
          (λ _. IsPicked w opts (given_tag s.tag (tag_of place)) place s)
          IsTyped
          (run_location w opts lines (some place) s)
  unfolding run_location
  run_location-IsPicked place s =
      let tag = given_tag s.tag (tag_of place) in
      let noted = IsNoted (or_else s.tag (tag_of place)) in
      let picked : ℕ → Session → Type 0 =
        λ ret s'. noted ret s' × (handler w opts place s ≡ (returned ret, s')) in
      let result = handler w opts place s in
      bind_Ends picked (λ _. IsPicked w opts tag place s) IsTyped (handler w opts place)
        (λ ret. (if ret == 0 then return "" else backport w opts) >>= λ conflicts.
          note_commit w opts lines conflicts >> title_commit w opts lines)
        s
        (with_result noted IsTyped result result refl
          (typed noted (changes s.calls) result (handler-IsNoted w opts place s)))
        (λ ret s1 h.
          ended ret s1 h.1
            (((if ret == 0 then return "" else backport w opts) >>= λ conflicts.
                note_commit w opts lines conflicts >> title_commit w opts lines)
              s1)
            (after_pick (ret == 0) tag s1 (h.0.0 ∙ given_or_else s.tag (tag_of place), h.0.1)))
    where
      ended :
          (ret : ℕ) (s1 : Session) (e : handler w opts place s ≡ (returned ret, s1))
          (p : Ending (Unit {0}) × Session)
          → Ends (λ _. IsCommitted (title_of ret (given_tag s.tag (tag_of place)))) IsTyped p
          → Ends (λ _. IsPicked w opts (given_tag s.tag (tag_of place)) place s) IsTyped p
      ended ret s1 e (returned _, s') h = (ret, s1, e, h)
      ended ret s1 e (raised exn, s') h = h

  place_IsTyped :
      (location : Option Location) (s : Session)
      → Ends (λ _ s'. Unit {0}) IsTyped (run_location w opts lines location s)
  unfolding run_location
  place_IsTyped none s = tt
  place_IsTyped (some place) s =
      forget (λ _. IsPicked w opts (given_tag s.tag (tag_of place)) place s) IsTyped
        (run_location w opts lines (some place) s) (run_location-IsPicked place s)

  -- The loop over the locations returns 0 or raises, and never a TypeError.
  pub run_locations-IsTyped :
      (match_location : String → Option Location) (user : Session) (locations : List String)
      (s : Session)
      → Ends
          (λ ret s'. ret ≡ 0)
          IsTyped
          (run_locations w opts match_location lines user locations s)
  unfolding run_locations
  run_locations-IsTyped match_location user [] s = refl
  run_locations-IsTyped match_location user (location ∷ locations) s =
      bind_Ends (λ _ s'. Unit {0}) (λ ret s'. ret ≡ 0) IsTyped
        (run_location w opts lines (match_location location))
        (λ _. run_locations w opts match_location lines user locations) (restored w opts user s)
        (place_IsTyped (match_location location) (restored w opts user s))
        (λ _ s1 h. run_locations-IsTyped match_location user locations s1)
