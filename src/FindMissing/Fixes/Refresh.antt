-- ===== src/FindMissing/Fixes/Refresh.antt =====
-- The changes that fixup_unmerged_patches creates.
use cros_dev_util.Base.{
  not, str_eq, ℕ, suc, ◌+◌, ◌≤◌, ◌≡◌, refl, String, Bool, true, false, ◌&&◌, Option, none, some,
  List, [], ◌∷◌, arith, Bool-cases, inl, inr, filter_by, length,
}
use cros_dev_util.FindMissing.Fixes.{
  opened, merged, conflict, status_eq, Row, update_change_merged, update_conflict_to_open,
}
use cros_dev_util.FindMissing.Fixes.World.{FixesTable, Db, World, rows_of, Env}
use cros_dev_util.FindMissing.Fixes.Create.{truthy, file_change, get_cherrypick_status}
use cros_dev_util.FindMissing.Fixes.Update.{
  reopen_row, merged_reason, abandon_old, fixup_row, fixup_rows, fixup_unmerged_patches,
}
use cros_dev_util.FindMissing.Fixes.Limit.{created, set_rows-calls}

-- The rows in conflict.
abbrev pub conflicts : List Row → ℕ
conflicts rows = length (filter_by (λ row. status_eq row.status conflict) rows)

created-reopen_row :
    (fixes : FixesTable) (row : Row) (answer : Option String) (w : World)
    → (reopen_row fixes row answer w).calls ≡ w.calls
unfolding update_conflict_to_open
created-reopen_row fixes row none w = refl
created-reopen_row fixes row (some change) w = elim (Bool-cases (truthy (some change))) [
  | inl h ↦ rw h (set_rows-calls fixes _ w)
  | inr h ↦ rw h refl
]

created-abandon_old :
    (branch : String) (change : Option String) (w : World)
    → created (abandon_old branch change w).calls ≡ created w.calls
unfolding created
created-abandon_old branch none w = refl
created-abandon_old branch (some change) w = elim (Bool-cases (truthy (some change))) [
  | inl h ↦ rw h refl
  | inr h ↦ rw h refl
]

created-file_change :
    (env : Env) (db : Db) (kernel_sha fixedby branch : String) (w : World)
    → created (file_change env db kernel_sha fixedby branch w).1.calls ≤ suc (created w.calls)
unfolding created file_change
created-file_change env db kernel_sha fixedby branch w = ground arith

-- One more for a row in conflict.
abbrev one_if : Bool → ℕ
one_if true = 1
one_if false = 0

fixup_row-created :
    (env : Env) (db : Db) (fixes : FixesTable) (branch : String) (row : Row) (w : World)
    → created (fixup_row env db fixes branch row w).calls
      ≤ created w.calls + one_if (status_eq row.status conflict)
unfolding fixup_row
fixup_row-created env db fixes branch row w =
    let found = get_cherrypick_status env branch row.fixedby_upstream_sha in
    let filed = file_change env db row.kernel_sha row.fixedby_upstream_sha branch w in
    elim (Bool-cases (status_eq row.status conflict && status_eq found opened)) [
      | inl h ↦
          rw (h, created-reopen_row fixes row filed.0 filed.1)
            (ground (
              arith,
              h,
              created-file_change env db row.kernel_sha row.fixedby_upstream_sha branch w,
            ))
      | inr h ↦ elim (Bool-cases (status_eq found merged)) [
        | inl m ↦
            let old = abandon_old branch row.fix_change_id w in
            rw
              (
                h,
                m,
                set_rows-calls fixes
                    (update_change_merged (env.now old) row.kernel_sha row.fixedby_upstream_sha
                      (some merged_reason) (rows_of fixes old))
                    old,
              )
              (omega (arith, created-abandon_old branch row.fix_change_id w))
        | inr m ↦ rw (h, m) (omega arith)
      ]
    ]

fixup_rows-created :
    (env : Env) (db : Db) (fixes : FixesTable) (branch : String) (rows : List Row) (w : World)
    → created (fixup_rows env db fixes branch rows w).calls ≤ created w.calls + conflicts rows
unfolding fixup_rows
fixup_rows-created env db fixes branch [] w = omega arith
fixup_rows-created env db fixes branch (row ∷ rows) w =
    let w' = fixup_row env db fixes branch row w in
    ground (
      arith,
      fixup_rows-created env db fixes branch rows w',
      fixup_row-created env db fixes branch row w,
    )

conflicts-unmerged :
    (branch : String) (rows : List Row)
    → conflicts
        (filter_by (λ row. not (status_eq row.status merged) && str_eq row.branch branch) rows)
      ≤ conflicts (filter_by (λ row. str_eq row.branch branch) rows)
conflicts-unmerged branch [] = omega arith
conflicts-unmerged branch (row ∷ rows) = ground (arith, conflicts-unmerged branch rows)

-- fixup_unmerged_patches creates at most one change for each row of the branch that is in conflict.
pub fixup_unmerged_patches_limit :
    (env : Env) (db : Db) (fixes : FixesTable) (branch : String) (w : World)
    → created (fixup_unmerged_patches env db fixes branch w).calls
      ≤ created w.calls + conflicts (filter_by (λ row. str_eq row.branch branch) (rows_of fixes w))
unfolding fixup_unmerged_patches
fixup_unmerged_patches_limit env db fixes branch w =
    let rows =
      filter_by (λ row. not (status_eq row.status merged) && str_eq row.branch branch)
        (rows_of fixes w) in
    omega (
      arith,
      fixup_rows-created env db fixes branch rows w,
      conflicts-unmerged branch (rows_of fixes w),
    )
