-- ===== src/FromUpstream/Session.antt =====
-- contrib/fromupstream.py: its arguments that change from location to location, the git commands it
-- runs, and what it meets outside.
use cros_dev_util.Base.{ℕ, String, Bool, Option, none, some, List, ◌∷◌}

-- What the program does: a git command with its input, and the stop in which the user resolves a
-- conflict.
pub data GitCall : Type 0 where
  git_call : List String → Option String → GitCall
  stopped : GitCall

-- A git command ends with its output, or with a return code other than zero.
pub data GitAnswer : Type 0 where
  output : String → GitAnswer
  failed : ℕ → GitAnswer

pub data Raise : Type 0 where
  system_exit type_error value_error attribute_error killed : Raise
  url_error rpc_error config_error : Raise
  called_process_error : ℕ → Raise

pub data Ending (T : Type 0) : Type 0 where
  raised : Raise → Ending T
  returned : T → Ending T

-- What urlopen and the reading of its page end with: the page, an HTTPError, or a URLError or another
-- error of the connection.
pub data WebAnswer : Type 0 where
  page : String → WebAnswer
  http_failed no_connection : WebAnswer

-- What patch_list ends with: the numbers of the patches, a certificate that cannot be verified, or
-- another error of xmlrpc or of the connection.
pub data RpcAnswer : Type 0 where
  patches : List String → RpcAnswer
  ssl_failed rpc_failed : RpcAnswer

-- What .pwclientrc says: an address, nothing, or an error of configparser.
pub data ConfigAnswer : Type 0 where
  address : String → ConfigAnswer
  no_address bad_config : ConfigAnswer

-- args['source_line'], args['tag'] and args['changeid'], and the calls so far, the newest first.
pub record Session : Type 0 where
  pub source_line : Option String
  pub tag : Option String
  pub changeid : Option String
  pub calls : List GitCall

-- The options that do not change.
pub record PickOptions : Type 0 where
  pub replace : Bool
  pub signoff : Bool

-- git and the web, which may answer differently behind each call, the address of a project in
-- .pwclientrc, the header Message-Id of a mail without spaces around it, if it has one, the files in
-- .git, the number of times that the user restarts the job without a new commit, and the functions of
-- Python's re and str.
pub record Outside : Type 0 where
  pub git : List GitCall → List String → Option String → GitAnswer
  pub urlopen : List GitCall → String → WebAnswer
  pub patch_list : List GitCall → String → String → RpcAnswer
  pub path_exists : List GitCall → String → Bool
  pub get_pw_url : Option String → ConfigAnswer
  pub message_id : String → Option String
  pub strip_brackets : String → String
  pub patience : ℕ
  pub splitlines : String → List String
  pub rstrip_slash : String → String
  pub split_status : String → Option (String × String)
  pub join_path : List String → String
  pub changeid_of_message_id : String → Option String
  pub remove_changeid : String → String
  pub link_changeid : String → Option String
  pub replace_changeid : String → String → String
  pub add_cq_depends : List String → String → String

abbrev pub Action : Type 0 → Type 0
Action T = Session → Ending T × Session

infixl 6 ◌>>=◌ ◌>>◌
abbrev pub ◌>>=◌ : {T U : Type 0} → Action T → (T → Action U) → Action U
◌>>=◌ first rest s =
    let (ending, s') = first s in elim ending [ returned t ↦ rest t s' | raised e ↦ (raised e, s') ]

abbrev pub ◌>>◌ : {T U : Type 0} → Action T → Action U → Action U
first >> rest = first >>= λ _. rest

module _ {T : Type 0} where
  abbrev pub return : T → Action T
  return t s = (returned t, s)

  abbrev pub raise : Raise → Action T
  raise e s = (raised e, s)

  -- What must be there: `some` or the exception.
  abbrev pub found : Raise → Option T → Action T
  found e none = raise e
  found e (some t) = return t

abbrev pub asked : List String → Option String → Session → Session
asked argv stdin s = record s { calls = git_call argv stdin ∷ s.calls }

-- _git
unfoldable pub run_git : Outside → List String → Option String → Action String
run_git w argv stdin s = elim (w.git s.calls argv stdin) as (λ _. Ending String × Session) [
  | output text ↦ (returned text, asked argv stdin s)
  | failed code ↦ (raised (called_process_error code), asked argv stdin s)
]

-- _git_returncode
unfoldable pub git_returncode : Outside → List String → Option String → Action ℕ
git_returncode w argv stdin s = elim (w.git s.calls argv stdin) as (λ _. Ending ℕ × Session) [
  | output text ↦ (returned 0, asked argv stdin s)
  | failed code ↦ (returned code, asked argv stdin s)
]

-- The output of a command in a `try` statement, `none` for its CalledProcessError.
unfoldable pub try_git : Outside → List String → Action (Option String)
try_git w argv s = elim (w.git s.calls argv none) as (λ _. Ending (Option String) × Session) [
  | output text ↦ (returned (some text), asked argv none s)
  | failed code ↦ (returned none, asked argv none s)
]

-- `if args[...] is None: args[...] = ...`
abbrev pub or_else : Option String → String → Option String
or_else none default = some default
or_else (some s) default = some s

abbrev pub default_tag : String → Action (Unit {0})
default_tag tag s = (returned tt, record s { tag = or_else s.tag tag })

abbrev pub default_changeid : Option String → Action (Unit {0})
default_changeid none s = (returned tt, s)
default_changeid (some id) s = (returned tt, record s { changeid = or_else s.changeid id })

abbrev pub set_source_line : String → Action (Unit {0})
set_source_line line s = (returned tt, record s { source_line = some line })

abbrev pub set_tag : String → Action (Unit {0})
set_tag tag s = (returned tt, record s { tag = some tag })

abbrev pub set_changeid : Option String → Action (Unit {0})
set_changeid id s = (returned tt, record s { changeid = id })

-- What an action reads of the session.
abbrev pub get : {T : Type 0} → (Session → T) → Action T
get field s = (returned (field s), s)
