-- ===== src/NewVariant/Typing.antt =====
-- A check of the steps of a board, without running them: which commits and which CLs are recorded
-- before each step of contrib/variant/new_variant.py, and whether the step finds what it reads.
use cros_dev_util.Base.{
  String, Bool, true, false, ◌&&◌, ◌||◌, not, Option, none, some, List, [], ◌∷◌, str_eq, str_elem,
  if◌then◌else◌, is_empty,
}
use cros_dev_util.NewVariant.State.{BoardModule}

-- The steps whose entry of status.commits has the data of a git commit, and those with a CL.
pub record Context : Type 0 where
  pub git : List String
  pub cls : List String

abbrev pub no_commits : Context
no_commits = record { git = []; cls = [] }

abbrev pub all_in : List String → List String → Bool
all_in [] known = true
all_in (k ∷ keys) known = str_elem k known && all_in keys known

-- Every key has a commit to which a line can be added, and all that it depends on has a CL.
abbrev pub depends_known : List (String × List String) → Context → Bool
depends_known [] c = true
depends_known ((key, dependencies) ∷ depends) c =
    (str_elem key c.git && all_in dependencies c.cls) && depends_known depends c

abbrev pub with_git : String → Context → Context
with_git key c = record c { git = key ∷ c.git }

-- A step that records a git commit records it once.
abbrev pub add_git : String → Context → Option Context
add_git key c = if str_elem key c.cls then none else some (with_git key c)

abbrev pub with_cl : String → Context → Context
with_cl key c = record c { cls = key ∷ c.cls }

abbrev pub add_cls : List String → Context → Context
add_cls [] c = c
add_cls (key ∷ keys) c = add_cls keys (with_cl key c)

-- Steps that change no entry of status.commits.
abbrev pub quiet_steps : List String
quiet_steps =
    "project_config" ∷ "gen_fit" ∷ "commit_fit" ∷ "ec_buildall" ∷ "build_config" ∷ "emerge" ∷ []

-- Steps that record a commit under their own name.
abbrev pub recording_steps : List String
recording_steps =
    "fw_build_config" ∷ "cb_variant" ∷ "cb_config" ∷ "cras_config" ∷ "ec_image" ∷ "add_pub_yaml"
    ∷ "add_priv_yaml" ∷ []

-- What is still read behind a step, if the step finds what it reads.
unfoldable pub context_after : BoardModule → String → Context → Option Context
context_after config step c =
    if str_elem step quiet_steps
    then some c
    else if str_elem step recording_steps
    then add_git step c
    else if str_eq step "add_fit"
    then add_git "commit_fit" c
    else if str_eq step "push"
    then (if all_in config.coreboot_push_list c.git
        then some (add_cls config.coreboot_push_list c)
        else none)
    else if str_eq step "upload"
    then (if all_in config.repo_upload_list c.git
        then some (add_cls config.repo_upload_list c)
        else none)
    else if str_eq step "find"
    then (if str_elem "cb_variant" c.git
          && (str_elem "cb_variant" c.cls && not (str_elem "find" c.git))
        then some (with_cl "find" c)
        else none)
    else if str_eq step "calc_cq_depend"
    then (if depends_known config.depends c then some c else none)
    else if str_eq step "add_cq_depend" || str_eq step "re_upload"
    then some no_commits
    else none

-- The steps in order, with the clean-up as the last one.
unfoldable pub check_steps : BoardModule → Context → List String → Bool
unfolding context_after
check_steps config c [] = false
check_steps config c (step ∷ steps) =
    let rest = elim (context_after config step c) as (λ _. Bool) [
      | none ↦ false
      | some c' ↦ check_steps config c' steps
    ] in
    if str_eq step "clean_up" then is_empty steps else rest

-- No step twice.
unfoldable pub all_once : List String → Bool
all_once [] = true
all_once (s ∷ ss) = not (str_elem s ss) && all_once ss

unfoldable pub check_board : BoardModule → Bool
unfolding check_steps all_once
check_board config = check_steps config no_commits config.step_list && all_once config.step_list
