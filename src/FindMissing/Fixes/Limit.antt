-- ===== src/FindMissing/Fixes/Limit.antt =====
-- How many changes create_new_fixes_in_branch creates.
use Prim.Native.Nat.{max}
use cros_dev_util.Base.{
  ℕ, suc, ◌+◌, ◌≤◌, ◌≡◌, refl, ◌∙◌, ap, subst, String, Bool, true, false, Option, none, some, List,
  [], ◌∷◌, arith, if◌then◌else◌, leb, Bool-cases, inl, inr,
}
use cros_dev_util.FindMissing.Fixes.ChangeId.{get_change_id}
use cros_dev_util.FindMissing.Fixes.{Status, opened, merged, abandoned, conflict, Row}
use cros_dev_util.FindMissing.Fixes.World.{
  change_candidates, FixesTable, stable_fixes, chrome_fixes, CommitTable, Db, Call, create_call,
  abandon_call, World, set_rows, Env, insert, insert_merged, find_duplicate, merged_shas,
}
use cros_dev_util.FindMissing.Fixes.Create.{
  insert_known, insert_status, insert_by_patch_id, get_cherrypick_status, truthy, file_change,
  insert_fix_gerrit, create_loop, missing_fixes, create_new_fixes_in_branch,
}

-- The changes that were created: the calls that Gerrit answered with a Change-Id.
unfoldable pub created : List Call → ℕ
created [] = 0
created (create_call k f b known answer ∷ calls) =
    let rest = created calls in if truthy answer then suc rest else rest
created (abandon_call c b r ∷ calls) = created calls

pub set_rows-calls :
    (table : FixesTable) (rows : List Row) (w : World) → (set_rows table rows w).calls ≡ w.calls
set_rows-calls stable_fixes rows w = refl
set_rows-calls chrome_fixes rows w = refl

pub insert-calls :
    (env : Env) (table : FixesTable) (row : Row) (w : World)
    → (insert env table row w).calls ≡ w.calls
insert-calls env stable_fixes row w =
    elim (Bool-cases (env.rejects stable_fixes w.stable_rows row)) [ inl h ↦ rw h | inr h ↦ rw h ]
insert-calls env chrome_fixes row w =
    elim (Bool-cases (env.rejects chrome_fixes w.chrome_rows row)) [ inl h ↦ rw h | inr h ↦ rw h ]

insert_merged-calls :
    (env : Env) (branch fixedby : String) (shas : List String) (w : World)
    → (insert_merged env branch fixedby shas w).calls ≡ w.calls
insert_merged-calls env branch fixedby [] w = refl
insert_merged-calls env branch fixedby (sha ∷ shas) w =
    insert_merged-calls env branch fixedby shas _ ∙ insert-calls env chrome_fixes _ w

pub insert_known-calls :
    (env : Env) (db : Db) (branch fixedby : String) (w : World) (found : Option Row)
    → (insert_known env db branch fixedby w found).1.calls ≡ w.calls
insert_known-calls env db branch fixedby w none =
    insert_merged-calls env branch fixedby (merged_shas db w branch fixedby) w
insert_known-calls env db branch fixedby w (some row) = insert-calls env chrome_fixes _ w

-- What one row does to the count of created changes.
abbrev Counts : World → Bool × World → Type 0
Counts w (new, w') = created w'.calls ≡ (if new then suc (created w.calls) else created w.calls)

insert_status-Counts :
    (env : Env) (db : Db) (table : CommitTable) (fixes : FixesTable)
    (branch kernel_sha fixedby : String) (w : World) (status : Status)
    → Counts w (insert_status env db table fixes branch kernel_sha fixedby w status)
unfolding created file_change
insert_status-Counts env db table fixes branch kernel_sha fixedby w merged =
    ap created (insert-calls env fixes _ w)
insert_status-Counts env db table fixes branch kernel_sha fixedby w conflict =
    ap created (insert-calls env fixes _ w)
insert_status-Counts env db table fixes branch kernel_sha fixedby w abandoned =
    ap created (insert-calls env fixes _ w)
insert_status-Counts env db table fixes branch kernel_sha fixedby w opened =
    let known = get_change_id env.get_status (change_candidates db w fixedby) in
    elim (Bool-cases (truthy (env.create_change w.calls kernel_sha fixedby branch known))) [
      | inl h ↦ rw h (ap created (insert-calls env fixes _ _) ∙ rw h refl)
      | inr h ↦ rw h (rw h refl)
    ]

Counts-from : (w w' : World) (r : Bool × World) → w'.calls ≡ w.calls → Counts w' r → Counts w r
Counts-from w w' (new, after) e h =
    subst (λ calls. created after.calls ≡ (if new then suc (created calls) else created calls)) e h

insert_fix_gerrit-Counts :
    (env : Env) (db : Db) (table : CommitTable) (fixes : FixesTable)
    (branch kernel_sha fixedby : String) (w : World)
    → Counts w (insert_fix_gerrit env db table fixes branch kernel_sha fixedby w)
unfolding insert_fix_gerrit insert_by_patch_id
insert_fix_gerrit-Counts env db table fixes branch kernel_sha fixedby w =
    let r = insert_known env db branch fixedby w (find_duplicate db w branch fixedby) in
    let kept = insert_known-calls env db branch fixedby w (find_duplicate db w branch fixedby) in
    elim (Bool-cases r.0) [
      | inl h ↦ rw h (ap created kept)
      | inr h ↦ rw h (
          Counts-from w r.1
            (insert_status env db table fixes branch kernel_sha fixedby r.1
              (get_cherrypick_status env branch fixedby))
            kept
            (insert_status-Counts env db table fixes branch kernel_sha fixedby r.1
              (get_cherrypick_status env branch fixedby)))
    ]

-- A count that has reached at most the limit, or one more than before, and fits the calls.
abbrev Bounded : ℕ → ℕ → World → ℕ × World → Type 0
Bounded limit count w (n, after) =
    (n ≤ max limit (count + 1)) × (created after.calls + count ≡ created w.calls + n)

-- One row of the loop, given what the rest of the loop does.
Bounded-step :
    (limit count : ℕ) (w w' : World) (new : Bool) (rest : ℕ × World)
    → Counts w (new, w')
    → Bounded limit (if new then suc count else count) w' rest
    → Bounded limit count w (
        if leb limit (if new then suc count else count)
        then ((if new then suc count else count), w')
        else rest)
Bounded-step limit count w w' true (n, after) h (b, e) = elim (Bool-cases (leb limit (suc count))) [
  | inl stop ↦ rw stop (omega arith, omega (arith, h))
  | inr go ↦ rw go (ground (arith, b, go), omega (arith, h, e))
]
Bounded-step limit count w w' false (n, after) h (b, e) = elim (Bool-cases (leb limit count)) [
  | inl stop ↦ rw stop (omega arith, omega (arith, h))
  | inr go ↦ rw go (b, omega (arith, h, e))
]

create_loop-Bounded :
    (env : Env) (db : Db) (table : CommitTable) (fixes : FixesTable) (branch : String)
    (limit count : ℕ) (rows : List (String × String)) (w : World)
    → Bounded limit count w (create_loop env db table fixes branch limit count rows w)
unfolding create_loop
create_loop-Bounded env db table fixes branch limit count [] w = (omega arith, refl)
create_loop-Bounded env db table fixes branch limit count ((kernel_sha, fixedby) ∷ rows) w =
    let r = insert_fix_gerrit env db table fixes branch kernel_sha fixedby w in
    let count' = if r.0 then suc count else count in
    Bounded-step limit count w r.1 r.0 (create_loop env db table fixes branch limit count' rows r.1)
      (insert_fix_gerrit-Counts env db table fixes branch kernel_sha fixedby w)
      (create_loop-Bounded env db table fixes branch limit count' rows r.1)

-- create_new_fixes_in_branch creates as many changes as it counts: at most the limit, or one where
-- the limit is 0.
pub create_new_fixes_in_branch_limit :
    (env : Env) (db : Db) (table : CommitTable) (fixes : FixesTable) (branch : String) (limit : ℕ)
    (w : World)
    → (let (n, after) = create_new_fixes_in_branch env db table fixes branch limit w in
        (n ≤ max limit 1) × (created after.calls ≡ created w.calls + n))
unfolding create_new_fixes_in_branch
create_new_fixes_in_branch_limit env db table fixes branch limit w =
    let (b, e) =
      create_loop-Bounded env db table fixes branch limit 0 (missing_fixes db table fixes branch w)
        w in
    (b, omega (arith, e))
