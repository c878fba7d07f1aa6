-- ===== src/NewVariant/State.antt =====
-- The state of contrib/variant/new_variant.py: the variant_status that it works on, the yaml file
-- that keeps it between runs, and what the program does to the world outside.
use Prim.Native.String.{◌++◌ as str_join}
use cros_dev_util.Base.{
  String, Bool, ◌||◌, Option, none, some, List, [], ◌∷◌, Exn, Result, err, ok, io_error, key_error,
  dict_get, dict_set, is_prefix, ends_with, str_eq, if◌then◌else◌,
}

-- A map status.commits[step]: a key that it lacks is `none`.
pub record CommitData : Type 0 where
  pub branch_name : Option String
  pub dir : Option String
  pub change_id : Option String
  pub gerrit : Option String
  pub cl_number : Option String
  pub cq_depend : Option String
  pub needs_re_upload : Bool

-- What the module of a reference board defines; `none` is an attribute that it leaves out, or None.
pub record BoardModule : Type 0 where
  pub base : String
  pub coreboot_base : Option String
  pub coreboot_dir : String
  pub coreboot_reference : Option String
  pub cb_config_dir : Option String
  pub emerge_cmd : String
  pub emerge_pkgs : List String
  pub fitimage_dir : Option String
  pub fitimage_outputs_dir : Option String
  pub fitimage_pkg : Option String
  pub fitimage_cmd : Option String
  pub fsp : Option String
  pub private_yaml_dir : Option String
  pub step_list : List String
  pub workon_pkgs : List String
  pub config_workon_pkgs : List String
  pub config_emerge_pkgs : List String
  pub coreboot_push_list : List String
  pub repo_upload_list : List String
  pub depends : List (String × List String)

-- variant_status. The attributes that get_status copies unchanged from the board's module are
-- those of `config`.
pub record VariantStatus : Type 0 where
  pub board : String
  pub variant : String
  pub bug : String
  pub branch : String
  pub coreboot_base : String
  pub coreboot_reference : String
  pub config : BoardModule
  pub step : Option String
  pub commits : List (String × CommitData)
  pub my_loc : String

-- What the program does: a step that it begins, a process with its working directory and the
-- variables that it adds to the environment, the start and stop of work on packages.
pub data Event : Type 0 where
  began : String → Event
  ran : List String → Option String → List (String × String) → Event
  workon_started workon_stopped : List String → Event

-- The newest event comes first.
pub record Machine : Type 0 where
  pub status : VariantStatus
  pub yaml_file : Option VariantStatus
  pub events : List Event

-- A function of the program: what it returns or raises, and the state behind it.
abbrev pub Action : Type 0 → Type 0
Action T = Machine → Result T × Machine

infixl 6 ◌>>=◌ ◌>>◌
abbrev pub ◌>>=◌ : {T U : Type 0} → Action T → (T → Action U) → Action U
◌>>=◌ first rest m = let (r, m') = first m in elim r [ ok t ↦ rest t m' | err exn ↦ (err exn, m') ]

abbrev pub ◌>>◌ : {T U : Type 0} → Action T → Action U → Action U
first >> rest = first >>= λ _. rest

module _ {T : Type 0} where
  abbrev pub return : T → Action T
  return t m = (ok t, m)

  abbrev pub raise : Exn → Action T
  raise exn m = (err exn, m)

  abbrev pub found : Exn → Option T → Action T
  found exn none = raise exn
  found exn (some t) = return t

abbrev pub get_status_field : {T : Type 0} → (VariantStatus → T) → Action T
get_status_field field m = (ok (field m.status), m)

abbrev pub log_event : Event → Action (Unit {0})
log_event event m = (ok tt, record m { events = event ∷ m.events })

-- status.commits[key]
abbrev pub get_commit : String → Action CommitData
get_commit key m = found key_error (dict_get key m.status.commits) m

-- status.commits[key] = commit
abbrev pub set_commits : List (String × CommitData) → Machine → Machine
set_commits commits m = record m { status = record m.status { commits = commits } }

abbrev pub put_commit : String → CommitData → Action (Unit {0})
put_commit key commit m = (ok tt, set_commits (dict_set key commit m.status.commits) m)

-- variant_status.save, load and rm: load and rm raise where the file does not exist.
unfoldable pub save : Action (Unit {0})
save m = (ok tt, record m { yaml_file = some m.status })

unfoldable pub load : Action (Unit {0})
load m = elim m.yaml_file as (λ _. Result (Unit {0}) × Machine) [
  | none ↦ (err io_error, m)
  | some saved ↦ (ok tt, record m { status = saved })
]

unfoldable pub rm : Action (Unit {0})
rm m = elim m.yaml_file as (λ _. Result (Unit {0}) × Machine) [
  | none ↦ (err io_error, m)
  | some saved ↦ (ok tt, record m { yaml_file = none })
]

abbrev pub str_concat : List String → String
str_concat [] = ""
str_concat (s ∷ ss) = str_join s (str_concat ss)

-- os.path.join(a, b)
unfoldable pub path_join : String → String → String
path_join a b =
    if is_prefix "/" b
    then b
    else if str_eq a "" || ends_with "/" a
    then str_join a b
    else str_concat (a ∷ "/" ∷ b ∷ [])
