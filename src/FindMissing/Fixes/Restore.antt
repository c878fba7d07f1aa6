-- ===== src/FindMissing/Fixes/Restore.antt =====
-- Abandoning and restoring a row of a fixes table, and the UPDATE of the fixes that were applied.
use cros_dev_util.Base.{
  String, Bool, true, false, ◌&&◌, not, Option, none, some, List, [], ◌∷◌, ok, ◌≡◌, refl, ap, ◌∙◌,
  subst, ◌⊎◌, inl, inr, Bool-cases, In, filter_by-In, filter_by, str_elem, str_eq, eq_iff, arith,
}
use cros_dev_util.FindMissing.Fixes.{
  Status, opened, merged, abandoned, conflict, status_eq, Row, has_key, update_where, is_active,
  update_change_abandoned, get_fix_status_and_changeid, restored_status, update_change_restored,
}
use cros_dev_util.FindMissing.Fixes.World.{
  FixesTable, stable_fixes, chrome_fixes, Db, World, rows_of, set_rows, Env,
}
use cros_dev_util.FindMissing.Fixes.Update.{is_applied, mark_merged, merge_applied}

-- A row whose status is not lost by abandoning it: an open one with a change, or one without a change
-- that has its initial status.
pub data IsKept (row : Row) : Type 0 where
  with_change :
      (change : String)
      → row.fix_change_id ≡ some change
      → str_eq change "" ≡ false
      → row.status ≡ opened
      → IsKept row
  without_change : row.fix_change_id ≡ none → row.status ≡ row.initial_status → IsKept row

IsKept-status : (row : Row) → IsKept row → row.status ≡ restored_status row
IsKept-status row (with_change change c nonempty s) = s ∙ rw (c, nonempty) refl
IsKept-status row (without_change c s) = s ∙ rw c refl

-- Two updates in sequence that act on each row as one does.
update_where-update_where :
    (t1 t2 t3 : Row → Bool) (c1 c2 c3 : Row → Row) (rows : List Row)
    → ((row : Row)
        → In row rows
        → t3 row ≡ true
        → (t1 row ≡ true) × (t2 (c1 row) ≡ true) × (c2 (c1 row) ≡ c3 row))
    → ((row : Row) → t3 row ≡ false → (t1 row ≡ false) × (t2 row ≡ false))
    → update_where t2 c2 (update_where t1 c1 rows) ≡ update_where t3 c3 rows
update_where-update_where t1 t2 t3 c1 c2 c3 [] hit miss = refl
update_where-update_where t1 t2 t3 c1 c2 c3 (row ∷ rows) hit miss =
    let rest = update_where-update_where t1 t2 t3 c1 c2 c3 rows (λ r m. hit r (inr m)) miss in
    elim (Bool-cases (t3 row)) [
      | inl e ↦ let (a, b, c) = hit row (inl refl) e in rw (e, a, b, c) (ap (λ l. c3 row ∷ l) rest)
      | inr e ↦ let (a, b) = miss row e in rw (e, a, b) (ap (λ l. row ∷ l) rest)
    ]

-- An update that a filter does not see the effect of.
filter_by-update_where :
    (p t : Row → Bool) (c : Row → Row) (rows : List Row)
    → ((row : Row) → p (c row) ≡ p row)
    → filter_by p (update_where t c rows) ≡ update_where t c (filter_by p rows)
filter_by-update_where p t c [] h = refl
filter_by-update_where p t c (row ∷ rows) h =
    ground (arith, h row, filter_by-update_where p t c rows h)

module _ (now kernel_sha fixedby : String) (why why' : Option String) (rows : List Row)
    (row : Row) where
  abbrev one_key : Row → Bool
  one_key r =
      str_elem r.kernel_sha (kernel_sha ∷ fixedby ∷ [])
      && str_elem r.fixedby_upstream_sha (kernel_sha ∷ fixedby ∷ [])

  has_key-one_key : (r : Row) → has_key kernel_sha fixedby r ≡ true → one_key r ≡ true
  has_key-one_key r h = ground (
    arith,
    h,
    eq_iff kernel_sha r.kernel_sha,
    eq_iff fixedby r.fixedby_upstream_sha,
    eq_iff r.kernel_sha kernel_sha,
    eq_iff r.fixedby_upstream_sha fixedby,
  )

  module _ (alone : get_fix_status_and_changeid rows (kernel_sha ∷ fixedby ∷ []) true ≡ row ∷ [])
      (key : has_key kernel_sha fixedby row ≡ true) (active : is_active row ≡ true) where
    abbrev abandon : Row → Row
    abandon r = record r { status = abandoned; close_time = some now; reason = why }

    abbrev reopen : Row → Row
    reopen r = record r { close_time = none; reason = why' }

    only_row : (r : Row) → In r rows → has_key kernel_sha fixedby r ≡ true → r ≡ row
    unfolding get_fix_status_and_changeid
    only_row r m h =
        elim (subst (In r) alone (filter_by-In one_key rows r m (has_key-one_key r h))) [
          | inl e ↦ e
          | inr n ↦ absurd n
        ]

    first_row :
        get_fix_status_and_changeid
          (update_change_abandoned now kernel_sha fixedby why rows)
          (kernel_sha ∷ fixedby ∷ [])
          true
        ≡ abandon row ∷ []
    unfolding get_fix_status_and_changeid update_change_abandoned
    first_row =
        filter_by-update_where one_key (λ r. has_key kernel_sha fixedby r && is_active r) abandon
          rows (λ r. refl)
        ∙ ap (update_where (λ r. has_key kernel_sha fixedby r && is_active r) abandon) alone
        ∙ rw (key, active) refl

    -- An abandoned row that is restored has its status again, if it is the only one with a key made
    -- of these shas, and was open with a change, or had no change and its initial status, open or in
    -- conflict; the other rows are as before.
    pub update_change_restored-update_change_abandoned :
        IsKept row
        → update_change_restored kernel_sha fixedby why'
            (update_change_abandoned now kernel_sha fixedby why rows)
          ≡ ok (
              update_where
                (has_key kernel_sha fixedby)
                (λ r. record r { close_time = none; reason = why' })
                rows)
    unfolding update_change_restored
    update_change_restored-update_change_abandoned kept = rw first_row (
        ap ok (
          unfold update_change_abandoned in
          update_where-update_where (λ r. has_key kernel_sha fixedby r && is_active r)
            (λ r. has_key kernel_sha fixedby r && status_eq r.status abandoned)
            (has_key kernel_sha fixedby) abandon
            (λ r. record r { status = restored_status row; close_time = none; reason = why' })
            reopen rows
            (λ r m h.
              let e = only_row r m h in
              ((rw (e, key, active) refl), (rw h refl), rw (e, ← IsKept-status row kept) refl))
            (λ r h. (rw h refl, rw h refl))))

-- A row behind an update was changed by it or does not pass its test.
Updated : (Row → Bool) → (Row → Row) → List Row → Row → Type 0
Updated test change rows row = ((r : Row) × (test r ≡ true) × (row ≡ change r)) ⊎ (test row ≡ false)

In-update_where :
    (test : Row → Bool) (change : Row → Row) (rows : List Row) (row : Row)
    → In row (update_where test change rows)
    → Updated test change rows row
unfolding Updated
In-update_where test change [] row m = absurd m
In-update_where test change (r ∷ rows) row m = elim (Bool-cases (test r)) [
  | inl h ↦ elim (rw h at m) as (λ _. Updated test change (r ∷ rows) row) [
    | inl e ↦ inl (r, h, e)
    | inr rest ↦ In-update_where test change rows row rest
  ]
  | inr h ↦ elim (rw h at m) as (λ _. Updated test change (r ∷ rows) row) [
    | inl e ↦ inr (rw e h)
    | inr rest ↦ In-update_where test change rows row rest
  ]
]

mark_merged-merged : (now : String) (r row : Row) → row ≡ mark_merged now r → row.status ≡ merged
mark_merged-merged now r row e = ap (λ x. x.status) e

status_eq-merged : (s : Status) → status_eq s merged ≡ true → s ≡ merged
status_eq-merged opened h = cc
status_eq-merged merged h = refl
status_eq-merged abandoned h = cc
status_eq-merged conflict h = cc

rows_of-set_rows :
    (fixes : FixesTable) (rows : List Row) (w : World)
    → rows_of fixes (set_rows fixes rows w) ≡ rows
rows_of-set_rows stable_fixes rows w = refl
rows_of-set_rows chrome_fixes rows w = refl

-- Where MySQL does the UPDATE, each row of the branch whose fix is in linux_chrome is merged.
pub merge_applied_all :
    (env : Env) (db : Db) (fixes : FixesTable) (branch : String) (w : World) (row : Row)
    → env.update_fails fixes w ≡ false
    → In row (rows_of fixes (merge_applied env db fixes branch w))
    → str_eq row.branch branch ≡ true
    → is_applied db branch row ≡ true
    → row.status ≡ merged
unfolding merge_applied Updated
merge_applied_all env db fixes branch w row runs m b a =
    let test : Row → Bool =
      λ r. str_eq r.branch branch && (is_applied db branch r && not (status_eq r.status merged)) in
    let rows' = update_where test (mark_merged (env.now w)) (rows_of fixes w) in
    let m' : In row rows' = subst (In row) (rows_of-set_rows fixes rows' w) (rw runs at m) in
    elim (In-update_where test (mark_merged (env.now w)) (rows_of fixes w) row m') [
      | inl (r, _, e) ↦ mark_merged-merged (env.now w) r row e
      | inr t ↦ status_eq-merged row.status (ground (arith, t, b, a))
    ]
