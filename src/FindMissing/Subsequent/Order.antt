-- ===== src/FindMissing/Subsequent/Order.antt =====
-- The list that get_subsequent_fixes makes of the shas that its loop found.
use Prim.Native.Nat.{max}
use cros_dev_util.Base.{
  ◌∙◌, ℕ, zero, suc, ◌+◌, String, ◌≡◌, refl, sym, subst, ◌↔◌, ◌⊎◌, inl, inr, false, some, List, [],
  ◌∷◌, arith, In, str_elem, str_elem-In, In-str_elem, dict_set, dict_get, eq_iff, length,
  Bool-cases, is_empty, Once,
}
use cros_dev_util.FindMissing.Subsequent.{
  Table, Fixes, fixes_for_shas, note_fixes, keys, unseen, collect, insert_by_level, sort_by_level,
  level_or_zero, get_subsequent_fixes,
}
use cros_dev_util.FindMissing.Subsequent.Keys.{keys-dict_set}
use cros_dev_util.FindMissing.Subsequent.Reach.{Reach, Known-start, unknown-le, collect_total}

-- A sorted dictionary has the same keys, each once.
keys-insert_by_level :
    (k : String) (entry : String × ℕ) (d : Fixes)
    → In k (keys (insert_by_level entry d)) ↔ ((k ≡ entry.0) ⊎ In k (keys d))
unfolding insert_by_level
keys-insert_by_level k entry [] = ((λ m. m), (λ m. m))
keys-insert_by_level k entry (other ∷ d) = ground (arith, keys-insert_by_level k entry d)

keys-sort_by_level : (k : String) (d : Fixes) → In k (keys (sort_by_level d)) ↔ In k (keys d)
unfolding sort_by_level
keys-sort_by_level k [] = ((λ m. m), (λ m. m))
keys-sort_by_level k (entry ∷ d) =
    ground (arith, keys-sort_by_level k d, keys-insert_by_level k entry (sort_by_level d))

not_In-str_elem : (s : String) (xs : List String) → ¬ (In s xs) → str_elem s xs ≡ false
not_In-str_elem s xs h = ground (arith, str_elem-In s xs)

keys-insert_by_level-Once :
    (entry : String × ℕ) (d : Fixes)
    → str_elem entry.0 (keys d) ≡ false
    → Once (keys d)
    → Once (keys (insert_by_level entry d))
unfolding insert_by_level
keys-insert_by_level-Once entry [] h o = (refl, tt)
keys-insert_by_level-Once entry (other ∷ d) h o =
    let away = not_In-str_elem other.0 (keys (insert_by_level entry d)) (λ m. ground (
      arith,
      (keys-insert_by_level other.0 entry d).0 m,
      In-str_elem other.0 (keys d),
      eq_iff entry.0 other.0,
      h,
      o,
    )) in
    ground (arith, h, o, away, keys-insert_by_level-Once entry d)

keys-sort_by_level-Once : (d : Fixes) → Once (keys d) → Once (keys (sort_by_level d))
unfolding sort_by_level
keys-sort_by_level-Once [] o = o
keys-sort_by_level-Once (entry ∷ d) o =
    keys-insert_by_level-Once entry (sort_by_level d)
      (not_In-str_elem entry.0 (keys (sort_by_level d))
        (λ m. cc (sym o.0 ∙ In-str_elem entry.0 (keys d) ((keys-sort_by_level entry.0 d).0 m))))
      (keys-sort_by_level-Once d o.1)

keys-dict_set-Once : (k : String) (v : ℕ) (d : Fixes) → Once (keys d) → Once (keys (dict_set k v d))
unfolding dict_set
keys-dict_set-Once k v [] o = (refl, tt)
keys-dict_set-Once k v ((j, w) ∷ d) o = ground (
  arith,
  o,
  eq_iff j k,
  keys-dict_set-Once k v d,
  keys-dict_set j k v d,
  str_elem-In j (keys (dict_set k v d)),
  In-str_elem j (keys d),
)

keys-note_fixes-Once :
    (n : ℕ) (shas : List String) (d : Fixes) → Once (keys d) → Once (keys (note_fixes n shas d))
unfolding note_fixes
keys-note_fixes-Once n [] d o = o
keys-note_fixes-Once n (s ∷ shas) d o =
    let level = max (level_or_zero (dict_get s d)) n in
    keys-note_fixes-Once n shas (dict_set s level d) (keys-dict_set-Once s level d o)

collect-Once :
    (table : Table) (fuel n : ℕ) (fixes : Fixes) (new : List String) (d : Fixes)
    → Once (keys fixes)
    → collect table fuel n fixes new ≡ some d
    → Once (keys d)
unfolding collect
collect-Once table zero n fixes new d o h = cc
collect-Once table (suc fuel) n fixes new d o h = elim (Bool-cases (is_empty new)) [
  | inl done ↦ subst (λ x. Once (keys x)) (cc (rw done at h)) o
  | inr more ↦
      let found = fixes_for_shas table new in
      collect-Once table fuel (suc n) (note_fixes (suc n) found fixes) (unseen (keys fixes) found) d
        (keys-note_fixes-Once (suc n) found fixes o) (rw more at h)
]

-- get_subsequent_fixes returns, for every table, cyclic ones included, a list in which each sha
-- that the start leads to stands exactly once, and no other.
pub get_subsequent_fixes-Reach :
    (table : Table) (start : String)
    → (shas : List String) × (get_subsequent_fixes table start ≡ some shas)
      × Once shas
      × ((k : String) → In k shas ↔ Reach table start k)
unfolding get_subsequent_fixes
get_subsequent_fixes-Reach table start =
    let (d, e, mem) =
      collect_total table start (length table + 2) 0 ((start, 0) ∷ []) (start ∷ []) (omega arith)
        (inr (omega (arith, unknown-le table (start ∷ [])))) (Known-start table start) in
    (
      keys (sort_by_level d),
      rw e,
      keys-sort_by_level-Once d
          (collect-Once table (length table + 2) 0 ((start, 0) ∷ []) (start ∷ []) d (refl, tt) e),
      λ k. (
        (λ m. (mem k).0 ((keys-sort_by_level k d).0 m)),
        (λ r. (keys-sort_by_level k d).1 ((mem k).1 r)),
      ),
    )
