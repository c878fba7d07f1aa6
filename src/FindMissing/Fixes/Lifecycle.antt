-- ===== src/FindMissing/Fixes/Lifecycle.antt =====
-- The life of a row of a fixes table under cloudsql_interface.py.
use cros_dev_util.Base.{
  String, Bool, true, false, ◌&&◌, ◌||◌, Option, none, List, [], ◌∷◌, ok, ◌≡◌, refl, subst, inl,
  inr, >>=-eq-ok, ok-injective, or_raise, Bool-cases, first_by,
}
use cros_dev_util.FindMissing.Fixes.{
  Status, opened, merged, abandoned, conflict, status_eq, Row, has_key, update_where, is_active,
  update_change_abandoned, get_fix_status_and_changeid, update_change_restored,
  update_change_merged, dispatch, update_change_status, get_fixes_table_primary_key,
}

-- The row keeps its key, and it stays merged where it was.
abbrev pub KeptRow : Row → Row → Type 0
KeptRow row row' =
    (row'.kernel_sha ≡ row.kernel_sha)
    × (row'.fixedby_upstream_sha ≡ row.fixedby_upstream_sha)
    × (row.status ≡ merged → row'.status ≡ merged)

-- The same for the rows of a table, in their order.
pub Kept : List Row → List Row → Type 0
Kept [] [] = Unit
Kept (row ∷ rows) (row' ∷ rows') = KeptRow row row' × Kept rows rows'
Kept _ _ = ⊥

update_where-Kept :
    (test : Row → Bool) (change : Row → Row) (rows : List Row)
    → ((row : Row) → test row ≡ true → KeptRow row (change row))
    → Kept rows (update_where test change rows)
unfolding Kept
update_where-Kept test change [] h = tt
update_where-Kept test change (row ∷ rows) h = elim (Bool-cases (test row)) [
  | inl e ↦ rw e (h row e, update_where-Kept test change rows h)
  | inr e ↦ rw e ((refl, refl, λ m. m), update_where-Kept test change rows h)
]

active_not_merged : (row : Row) → is_active row ≡ true → row.status ≡ merged → ⊥
active_not_merged row h m =
    cc (subst (λ s. (status_eq s opened || status_eq s conflict) ≡ true) m h)

abandoned_not_merged : (row : Row) → status_eq row.status abandoned ≡ true → row.status ≡ merged → ⊥
abandoned_not_merged row h m = cc (subst (λ s. status_eq s abandoned ≡ true) m h)

and_right : (a b : Bool) → (a && b) ≡ true → b ≡ true
and_right true b h = h
and_right false b h = cc

update_change_restored-Kept :
    (kernel_sha fixedby : String) (why : Option String) (rows rows' : List Row)
    → update_change_restored kernel_sha fixedby why rows ≡ ok rows'
    → Kept rows rows'
unfolding update_change_restored
update_change_restored-Kept kernel_sha fixedby why rows rows' h =
    let (row, _, e) =
      >>=-eq-ok
        (or_raise
          (first_by (λ row. true)
            (get_fix_status_and_changeid rows (kernel_sha ∷ fixedby ∷ []) true))
          _)
        _ h in
    subst (Kept rows) (ok-injective e) (
      update_where-Kept (λ row. has_key kernel_sha fixedby row && status_eq row.status abandoned) _
        rows
        (λ r t. (
          refl,
          refl,
          λ m. absurd (
              abandoned_not_merged r
                (and_right (has_key kernel_sha fixedby r) (status_eq r.status abandoned) t) m),
        )))

dispatch-Kept :
    (now : String) (key : String × String) (status : Status) (rows rows' : List Row)
    → dispatch now key status rows ≡ ok rows'
    → Kept rows rows'
unfolding update_change_abandoned update_change_merged
dispatch-Kept now (kernel_sha, fixedby) opened rows rows' h =
    update_change_restored-Kept kernel_sha fixedby none rows rows' h
dispatch-Kept now (kernel_sha, fixedby) abandoned rows rows' h =
    subst (Kept rows) (ok-injective h) (
      update_where-Kept (λ row. has_key kernel_sha fixedby row && is_active row) _ rows
        (λ r t. (
          refl,
          refl,
          λ m.
              absurd
                (active_not_merged r (and_right (has_key kernel_sha fixedby r) (is_active r) t) m),
        )))
dispatch-Kept now (kernel_sha, fixedby) merged rows rows' h =
    subst (Kept rows) (ok-injective h)
      (update_where-Kept (has_key kernel_sha fixedby) _ rows (λ r t. (refl, refl, λ m. refl)))
dispatch-Kept now (kernel_sha, fixedby) conflict rows rows' h = cc

-- update_change_status, whatever the status and where it raises nothing, keeps the rows of the
-- table, their order and their keys, and a row that is merged stays merged.
pub update_change_status-Kept :
    (now change : String) (status : Status) (rows rows' : List Row)
    → update_change_status now change status rows ≡ ok rows'
    → Kept rows rows'
unfolding update_change_status
update_change_status-Kept now change status rows rows' h =
    let (key, _, e) = >>=-eq-ok (get_fixes_table_primary_key rows change) _ h in
    dispatch-Kept now key status rows rows' e
