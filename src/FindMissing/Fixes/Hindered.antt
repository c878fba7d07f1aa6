-- ===== src/FindMissing/Fixes/Hindered.antt =====
-- The fixes for which insert_fix_gerrit of contrib/findmissing/missing.py files no change.
use cros_dev_util.Base.{
  ◌≡◌, refl, ◌∙◌, ap, sym, String, Bool, true, false, ◌&&◌, not, Option, none, some, Bool-cases,
  inl, inr, In, All, str_eq, eq_refl, first_by-some,
}
use cros_dev_util.FindMissing.Fixes.{Status, opened, merged, abandoned, conflict, Row}
use cros_dev_util.FindMissing.Fixes.World.{
  FixesTable, CommitTable, linux_chrome, Commit, Db, World, Env, find_duplicate, merged_shas,
  same_patch,
}
use cros_dev_util.FindMissing.Fixes.Create.{
  insert_known, insert_status, insert_by_patch_id, get_cherrypick_status, insert_fix_gerrit,
}
use cros_dev_util.FindMissing.Fixes.Limit.{insert-calls, insert_known-calls}
use cros_dev_util.FindMissing.Fixes.Queries.{same_patch-In, merged_shas-In, not_empty}

-- Why a fix is not to be filed for a branch.
pub data IsHindered (env : Env) (db : Db) (branch fixedby : String) (w : World) : Type 0 where
  queued :
      (row : Row) (patch : String)
      → In row w.chrome_rows
      → row.branch ≡ branch
      → In (row.fixedby_upstream_sha, patch) db.linux_upstream
      → In (fixedby, patch) db.linux_upstream
      → str_eq row.fixedby_upstream_sha fixedby ≡ false
      → IsHindered env db branch fixedby w
  merged_patch :
      (commit : Commit) (upstream other : String)
      → In commit (db.commits linux_chrome)
      → commit.branch ≡ branch
      → commit.upstream_sha ≡ some upstream
      → In (upstream, fixedby) db.upstream_fixes
      → In (other, commit.patch_id) db.linux_upstream
      → All
          (λ row.
            (str_eq commit.sha row.kernel_sha && str_eq fixedby row.fixedby_upstream_sha) ≡ false)
          w.chrome_rows
      → IsHindered env db branch fixedby w
  log_fails : env.applied branch fixedby ≡ none → IsHindered env db branch fixedby w
  already_applied : env.applied branch fixedby ≡ some true → IsHindered env db branch fixedby w
  pick_conflict :
      env.applied branch fixedby ≡ some false
      → env.pick_fails branch fixedby ≡ true
      → IsHindered env db branch fixedby w
  diff_fails :
      env.applied branch fixedby ≡ some false
      → env.diff branch fixedby ≡ none
      → IsHindered env db branch fixedby w
  no_difference :
      env.applied branch fixedby ≡ some false
      → env.diff branch fixedby ≡ some false
      → IsHindered env db branch fixedby w

-- insert_by_patch_id says that the fix is dealt with.
insert_known-some :
    (env : Env) (db : Db) (branch fixedby : String) (w : World) (found : Option Row) (row : Row)
    → found ≡ some row
    → (insert_known env db branch fixedby w found).0 ≡ true
insert_known-some env db branch fixedby w found row e = rw e refl

insert_by_patch_id-queued :
    (env : Env) (db : Db) (branch fixedby patch : String) (w : World) (row : Row)
    → In row w.chrome_rows
    → row.branch ≡ branch
    → In (row.fixedby_upstream_sha, patch) db.linux_upstream
    → In (fixedby, patch) db.linux_upstream
    → str_eq row.fixedby_upstream_sha fixedby ≡ false
    → (insert_by_patch_id env db branch fixedby w).0 ≡ true
unfolding insert_by_patch_id find_duplicate
insert_by_patch_id-queued env db branch fixedby patch w row m b mr mf other =
    let (found, e) =
      first_by-some
        (λ row. same_patch db row.fixedby_upstream_sha fixedby && str_eq row.branch branch)
        w.chrome_rows row m
        (rw (same_patch-In db row.fixedby_upstream_sha fixedby patch mr mf other, b, eq_refl branch)
          refl) in
    insert_known-some env db branch fixedby w _ found e

insert_known-merged :
    (env : Env) (db : Db) (branch fixedby sha : String) (w : World) (found : Option Row)
    → In sha (merged_shas db w branch fixedby)
    → (insert_known env db branch fixedby w found).0 ≡ true
insert_known-merged env db branch fixedby sha w none m =
    ap not (not_empty sha (merged_shas db w branch fixedby) m)
insert_known-merged env db branch fixedby sha w (some row) m = refl

-- No change, and no call of Gerrit.
abbrev Quiet : World → Bool × World → Type 0
Quiet w (new, w') = (new ≡ false) × (w'.calls ≡ w.calls)

insert_fix_gerrit-known :
    (env : Env) (db : Db) (table : CommitTable) (fixes : FixesTable)
    (branch kernel_sha fixedby : String) (w : World)
    → (insert_by_patch_id env db branch fixedby w).0 ≡ true
    → Quiet w (insert_fix_gerrit env db table fixes branch kernel_sha fixedby w)
unfolding insert_fix_gerrit insert_by_patch_id
insert_fix_gerrit-known env db table fixes branch kernel_sha fixedby w h =
    rw h (refl, insert_known-calls env db branch fixedby w (find_duplicate db w branch fixedby))

insert_status-Quiet :
    (env : Env) (db : Db) (table : CommitTable) (fixes : FixesTable)
    (branch kernel_sha fixedby : String) (w : World) (status : Status)
    → ¬ (status ≡ opened)
    → Quiet w (insert_status env db table fixes branch kernel_sha fixedby w status)
insert_status-Quiet env db table fixes branch kernel_sha fixedby w opened h = absurd (h refl)
insert_status-Quiet env db table fixes branch kernel_sha fixedby w merged h =
    (refl, insert-calls env fixes _ w)
insert_status-Quiet env db table fixes branch kernel_sha fixedby w conflict h =
    (refl, insert-calls env fixes _ w)
insert_status-Quiet env db table fixes branch kernel_sha fixedby w abandoned h =
    (refl, insert-calls env fixes _ w)

insert_fix_gerrit-unpicked :
    (env : Env) (db : Db) (table : CommitTable) (fixes : FixesTable)
    (branch kernel_sha fixedby : String) (w : World)
    → ¬ (get_cherrypick_status env branch fixedby ≡ opened)
    → Quiet w (insert_fix_gerrit env db table fixes branch kernel_sha fixedby w)
unfolding insert_fix_gerrit insert_by_patch_id
insert_fix_gerrit-unpicked env db table fixes branch kernel_sha fixedby w h =
    let r = insert_known env db branch fixedby w (find_duplicate db w branch fixedby) in
    let kept = insert_known-calls env db branch fixedby w (find_duplicate db w branch fixedby) in
    elim (Bool-cases r.0) [
      | inl known ↦ rw known (refl, kept)
      | inr away ↦ rw away (
          let (new, calls) =
            insert_status-Quiet env db table fixes branch kernel_sha fixedby r.1
              (get_cherrypick_status env branch fixedby) h in
          (new, calls ∙ kept))
    ]

module _ (env : Env) (branch sha : String) where
  status-log_fails : env.applied branch sha ≡ none → get_cherrypick_status env branch sha ≡ conflict
  unfolding get_cherrypick_status
  status-log_fails e = rw (get_cherrypick_status, e) refl

  status-already_applied :
      env.applied branch sha ≡ some true → get_cherrypick_status env branch sha ≡ merged
  unfolding get_cherrypick_status
  status-already_applied e = rw (get_cherrypick_status, e) refl

  status-pick_conflict :
      env.applied branch sha ≡ some false
      → env.pick_fails branch sha ≡ true
      → get_cherrypick_status env branch sha ≡ conflict
  unfolding get_cherrypick_status
  status-pick_conflict e p = rw (get_cherrypick_status, e, p) refl

  -- Where the commit is picked or not.
  status-diff :
      (other : Status)
      → ¬ (other ≡ opened)
      → env.applied branch sha ≡ some false
      → (env.pick_fails branch sha ≡ false → get_cherrypick_status env branch sha ≡ other)
      → ¬ (get_cherrypick_status env branch sha ≡ opened)
  status-diff other differs e clean h = elim (Bool-cases (env.pick_fails branch sha)) [
    | inl fails ↦ absurd (cc (sym (status-pick_conflict e fails) ∙ h))
    | inr picks ↦ differs (sym (clean picks) ∙ h)
  ]

  status-diff_fails :
      env.applied branch sha ≡ some false
      → env.diff branch sha ≡ none
      → ¬ (get_cherrypick_status env branch sha ≡ opened)
  unfolding get_cherrypick_status
  status-diff_fails e d =
      status-diff conflict (λ h. cc) e (λ p. rw (get_cherrypick_status, e, p, d) refl)

  status-no_difference :
      env.applied branch sha ≡ some false
      → env.diff branch sha ≡ some false
      → ¬ (get_cherrypick_status env branch sha ≡ opened)
  unfolding get_cherrypick_status
  status-no_difference e d =
      status-diff merged (λ h. cc) e (λ p. rw (get_cherrypick_status, e, p, d) refl)

-- For a fix that a row of the branch in chrome_fixes has under another upstream sha with the same
-- patch, or whose fixed upstream commit a commit of the branch in linux_chrome is, one with the
-- patch of some upstream commit and without a row for the fix, or that git finds to be applied, in
-- conflict or without a difference, or on which git log or git diff fails, insert_fix_gerrit creates
-- no change and does not call Gerrit's create_change.
pub insert_fix_gerrit-IsHindered :
    (env : Env) (db : Db) (table : CommitTable) (fixes : FixesTable)
    (branch kernel_sha fixedby : String) (w : World)
    → IsHindered env db branch fixedby w
    → ((insert_fix_gerrit env db table fixes branch kernel_sha fixedby w).0 ≡ false)
      × ((insert_fix_gerrit env db table fixes branch kernel_sha fixedby w).1.calls ≡ w.calls)
unfolding insert_by_patch_id find_duplicate
insert_fix_gerrit-IsHindered env db table fixes branch kernel_sha fixedby w
      (queued row patch m b mr mf other) =
    insert_fix_gerrit-known env db table fixes branch kernel_sha fixedby w
      (insert_by_patch_id-queued env db branch fixedby patch w row m b mr mf other)
insert_fix_gerrit-IsHindered env db table fixes branch kernel_sha fixedby w
      (merged_patch commit upstream other m b u mf mp free) =
    insert_fix_gerrit-known env db table fixes branch kernel_sha fixedby w (
      insert_known-merged env db branch fixedby commit.sha w (find_duplicate db w branch fixedby)
        (merged_shas-In db branch fixedby upstream other w commit m b u mf mp free))
insert_fix_gerrit-IsHindered env db table fixes branch kernel_sha fixedby w (log_fails e) =
    insert_fix_gerrit-unpicked env db table fixes branch kernel_sha fixedby w
      (λ h. cc (sym (status-log_fails env branch fixedby e) ∙ h))
insert_fix_gerrit-IsHindered env db table fixes branch kernel_sha fixedby w (already_applied e) =
    insert_fix_gerrit-unpicked env db table fixes branch kernel_sha fixedby w
      (λ h. cc (sym (status-already_applied env branch fixedby e) ∙ h))
insert_fix_gerrit-IsHindered env db table fixes branch kernel_sha fixedby w (pick_conflict e p) =
    insert_fix_gerrit-unpicked env db table fixes branch kernel_sha fixedby w
      (λ h. cc (sym (status-pick_conflict env branch fixedby e p) ∙ h))
insert_fix_gerrit-IsHindered env db table fixes branch kernel_sha fixedby w (diff_fails e d) =
    insert_fix_gerrit-unpicked env db table fixes branch kernel_sha fixedby w
      (status-diff_fails env branch fixedby e d)
insert_fix_gerrit-IsHindered env db table fixes branch kernel_sha fixedby w (no_difference e d) =
    insert_fix_gerrit-unpicked env db table fixes branch kernel_sha fixedby w
      (status-no_difference env branch fixedby e d)
