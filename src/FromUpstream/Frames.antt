-- ===== src/FromUpstream/Frames.antt =====
-- How the actions of contrib/fromupstream.py end, and which of its git commands change the
-- repository.
use cros_dev_util.Base.{
  ℕ, String, Bool, true, false, Option, none, some, List, [], ◌∷◌, ◌≡◌, str_elem, filter_by,
  if◌then◌else◌,
}
use cros_dev_util.FromUpstream.Session.{
  Outside, Session, GitCall, git_call, stopped, output, failed, Raise, system_exit,
  called_process_error, attribute_error, url_error, rpc_error, config_error, Ending, raised,
  returned, Action, ◌>>=◌, run_git, git_returncode, try_git, asked,
}

-- What holds where an action returns, and where it raises.
abbrev pub Ends :
    {T : Type 0} → (T → Session → Type 0) → (Raise → Session → Type 0) → Ending T × Session → Type 0
Ends Q X (returned t, s) = Q t s
Ends Q X (raised e, s) = X e s

module _ {T U : Type 0} (Q : T → Session → Type 0) (Q' : U → Session → Type 0)
    (X : Raise → Session → Type 0) where
  pub bind_Ends :
      (first : Action T) (rest : T → Action U) (s : Session)
      → Ends Q X (first s)
      → ((t : T) (s' : Session) → Q t s' → Ends Q' X (rest t s'))
      → Ends Q' X ((first >>= rest) s)
  bind_Ends first rest s h k = go (first s) h
    where
      go :
          (p : Ending T × Session)
          → Ends Q X p
          → Ends Q' X (
              let (ending, s') = p in
              elim ending [ returned t ↦ rest t s' | raised e ↦ (raised e, s') ])
      go (returned t, s') q = k t s' q
      go (raised e, s') x = x

pub if_Ends :
    {T : Type 0} (P : Ending T × Session → Type 0) (b : Bool) (act alt : Action T) (s : Session)
    → P (act s)
    → P (alt s)
    → P ((if b then act else alt) s)
if_Ends P true act alt s h k = h
if_Ends P false act alt s h k = k

-- Whether a git command changes the repository's branch.
abbrev pub is_change : GitCall → Bool
is_change (git_call (name ∷ args) stdin) =
    str_elem name ("reset" ∷ "cherry-pick" ∷ "am" ∷ "commit" ∷ [])
is_change (git_call [] stdin) = false
is_change stopped = false

abbrev pub changes : List GitCall → List GitCall
changes calls = filter_by is_change calls

-- The calls so far have made these changes only, and the arguments are these.
pub record Quiet (before : List GitCall) (tag source_line : Option String) (s : Session)
    : Type 0 where
  pub same_changes : changes s.calls ≡ before
  pub same_tag : s.tag ≡ tag
  pub same_source : s.source_line ≡ source_line

-- Before any change: an exit, or an error of the web, of a mail or of the configuration.
abbrev pub Refused : List GitCall → Raise → Session → Type 0
Refused before system_exit s = changes s.calls ≡ before
Refused before (called_process_error code) s = Unit
Refused before attribute_error s = changes s.calls ≡ before
Refused before url_error s = changes s.calls ≡ before
Refused before rpc_error s = changes s.calls ≡ before
Refused before config_error s = changes s.calls ≡ before
Refused before _ s = ⊥

-- What a git command leaves behind, whatever git answers.
module _ (w : Outside) (before : List GitCall) (Q : Session → Type 0) (argv : List String)
    (stdin : Option String) (s : Session) (q : Q (asked argv stdin s)) where
  pub git_Ends : Ends (λ _. Q) (Refused before) (run_git w argv stdin s)
  unfolding run_git
  git_Ends =
      elim (w.git s.calls argv stdin)
        as (λ a.
          Ends (λ _. Q) (Refused before)
            (elim a as (λ _. Ending String × Session) [
              | output text ↦ (returned text, asked argv stdin s)
              | failed code ↦ (raised (called_process_error code), asked argv stdin s)
            ])) [ output text ↦ q | failed code ↦ tt ]

  pub git_returncode-Ends : Ends (λ _. Q) (Refused before) (git_returncode w argv stdin s)
  unfolding git_returncode
  git_returncode-Ends =
      elim (w.git s.calls argv stdin)
        as (λ a.
          Ends (λ _. Q) (Refused before)
            (elim a as (λ _. Ending ℕ × Session) [
              | output text ↦ (returned 0, asked argv stdin s)
              | failed code ↦ (returned code, asked argv stdin s)
            ])) [ output text ↦ q | failed code ↦ q ]

module _ (w : Outside) {before : List GitCall} {tag source_line : Option String} where
  asked-Quiet :
      (argv : List String) (stdin : Option String) (s : Session)
      → is_change (git_call argv stdin) ≡ false
      → Quiet before tag source_line s
      → Quiet before tag source_line (asked argv stdin s)
  asked-Quiet argv stdin s reads q = record {
    same_changes = rw reads q.same_changes;
    same_tag = q.same_tag;
    same_source = q.same_source;
  }

  pub git-Quiet :
      (argv : List String) (stdin : Option String) (s : Session)
      → is_change (git_call argv stdin) ≡ false
      → Quiet before tag source_line s
      → Ends (λ _. Quiet before tag source_line) (Refused before) (run_git w argv stdin s)
  git-Quiet argv stdin s reads q =
      git_Ends w before (Quiet before tag source_line) argv stdin s
        (asked-Quiet argv stdin s reads q)

  pub try_git-Quiet :
      (argv : List String) (s : Session)
      → is_change (git_call argv none) ≡ false
      → Quiet before tag source_line s
      → Ends (λ _. Quiet before tag source_line) (Refused before) (try_git w argv s)
  unfolding try_git
  try_git-Quiet argv s reads q =
      elim (w.git s.calls argv none)
        as (λ a.
          Ends (λ _. Quiet before tag source_line) (Refused before)
            (elim a as (λ _. Ending (Option String) × Session) [
              | output text ↦ (returned (some text), asked argv none s)
              | failed code ↦ (returned none, asked argv none s)
            ])) [
              | output text ↦ asked-Quiet argv none s reads q
              | failed code ↦ asked-Quiet argv none s reads q
            ]
