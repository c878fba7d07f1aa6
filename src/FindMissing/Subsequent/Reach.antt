-- ===== src/FindMissing/Subsequent/Reach.antt =====
-- The loop of get_subsequent_fixes: what it knows, and why it ends.
use cros_dev_util.Base.{
  ℕ, zero, suc, ◌+◌, ◌≤◌, String, ◌≡◌, refl, ap, sym, subst, ◌↔◌, ◌⊎◌, inl, inr, true, false,
  Option, some, List, [], ◌∷◌, arith, In, str_elem, str_elem-In, In-str_elem, length, Bool-cases,
  is_empty, if◌then◌else◌,
}
use cros_dev_util.FindMissing.Subsequent.{
  Table, Fixes, fixes_for_shas, note_fixes, keys, unseen, collect,
}
use cros_dev_util.FindMissing.Subsequent.Keys.{
  fixes_for_shas_sound, fixes_for_shas_complete, keys-note_fixes, unseen_sound, unseen_complete,
}

-- The fixes of `start`, the fixes of those, and so on, as the table has them.
pub data Reach (table : Table) (start : String) : String → Type 0 where
  here : Reach table start start
  next : (a b : String) → Reach table start a → In (a, b) table → Reach table start b

-- What holds of the dictionary and of the new shas before each iteration.
abbrev pub Known : Table → String → Fixes → List String → Type 0
Known table start fixes new =
    In start (keys fixes)
    × ((k : String) → In k (keys fixes) → Reach table start k)
    × ((k : String) → In k new → In k (keys fixes))
    × ((k b : String) → In k (keys fixes) → In (k, b) table → In k new ⊎ In b (keys fixes))

reached :
    (table : Table) (start : String) (fixes : Fixes) (new : List String)
    → Known table start fixes new
    → (k : String) → In k (fixes_for_shas table new) ⊎ In k (keys fixes)
    → Reach table start k
reached table start fixes new (s, sound, inside, closed) k (inl m) =
    let (u, row, e) = fixes_for_shas_sound table new k m in
    next u k (sound u (inside u (str_elem-In u new e))) row
reached table start fixes new (s, sound, inside, closed) k (inr m) = sound k m

pub Known-start :
    (table : Table) (start : String) → Known table start ((start, 0) ∷ []) (start ∷ [])
Known-start table start = (
  inl refl,
  (λ k. elim [ inl e ↦ subst (Reach table start) (sym e) here | inr m ↦ absurd m ]),
  (λ k m. m),
  λ k b m row. inl m,
)

pub Known-next :
    (table : Table) (start : String) (n : ℕ) (fixes : Fixes) (new : List String)
    → Known table start fixes new
    → Known table start
        (note_fixes n (fixes_for_shas table new) fixes)
        (unseen (keys fixes) (fixes_for_shas table new))
Known-next table start n fixes new (s, sound, inside, closed) =
    let found = fixes_for_shas table new in
    let after = note_fixes n found fixes in
    let known : (k : String) → In k (keys after) ↔ (In k found ⊎ In k (keys fixes)) =
      λ k. keys-note_fixes k n found fixes in
    let old : (k b : String) → In k (keys fixes) → In (k, b) table → In b (keys after) =
      λ k b m row. elim (closed k b m row) [
        | inl isnew ↦
            (known b).1 (inl (fixes_for_shas_complete table new k b row (In-str_elem k new isnew)))
        | inr isold ↦ (known b).1 (inr isold)
      ] in
    (
      (known start).1 (inr s),
      (λ k m. reached table start fixes new (s, sound, inside, closed) k ((known k).0 m)),
      (λ k m. (known k).1 (inl (unseen_sound (keys fixes) found k m).0)),
      λ k b m row. elim (Bool-cases (str_elem k (keys fixes))) [
        | inl seen ↦ inr (old k b (str_elem-In k (keys fixes) seen) row)
        | inr fresh ↦ elim ((known k).0 m) [
          | inl m' ↦ inl (unseen_complete (keys fixes) found k m' fresh)
          | inr m' ↦ inr (old k b m' row)
        ]
      ],
    )

-- How many rows have a fixing sha that is not known.
pub unknown : Table → List String → ℕ
unknown [] seen = 0
unknown ((u, f) ∷ rows) seen =
    let rest = unknown rows seen in if str_elem f seen then rest else suc rest

pub unknown-le : (table : Table) (seen : List String) → unknown table seen ≤ length table
unfolding unknown
unknown-le [] seen = omega arith
unknown-le ((u, f) ∷ rows) seen = ground (arith, unknown-le rows seen)

-- `more` knows what `seen` does.
abbrev Grows : List String → List String → Type 0
Grows seen more = (k : String) → str_elem k seen ≡ true → str_elem k more ≡ true

unknown_mono :
    (table : Table) (seen more : List String)
    → Grows seen more
    → unknown table more ≤ unknown table seen
unfolding unknown
unknown_mono [] seen more g = omega arith
unknown_mono ((u, f) ∷ rows) seen more g = ground (arith, unknown_mono rows seen more g, g f)

unknown_less :
    (table : Table) (seen more : List String) (u f : String)
    → Grows seen more
    → In (u, f) table
    → str_elem f seen ≡ false
    → str_elem f more ≡ true
    → suc (unknown table more) ≤ unknown table seen
unfolding unknown
unknown_less [] seen more u f g m old new = absurd m
unknown_less ((v, h) ∷ rows) seen more u f g (inl e) old new =
    let e' : f ≡ h = ap (λ p. p.1) e in
    ground (
      arith,
      unknown_mono rows seen more g,
      g h,
      subst (λ x. str_elem x seen ≡ false) e' old,
      subst (λ x. str_elem x more ≡ true) e' new,
    )
unknown_less ((v, h) ∷ rows) seen more u f g (inr m) old new =
    ground (arith, unknown_less rows seen more u f g m old new, g h)

is_empty-In : (xs : List String) → is_empty xs ≡ false → (x : String) × In x xs
is_empty-In [] h = cc
is_empty-In (x ∷ xs) h = (x, inl refl)

empty-In : (xs : List String) (x : String) → is_empty xs ≡ true → ¬ (In x xs)
empty-In [] x h m = m
empty-In (y ∷ xs) x h m = cc

-- While an iteration finds new shas, the rows with an unknown fixing sha become fewer.
unknown_falls :
    (table : Table) (n : ℕ) (fixes : Fixes) (new : List String)
    → is_empty (unseen (keys fixes) (fixes_for_shas table new)) ≡ false
    → suc (unknown table (keys (note_fixes n (fixes_for_shas table new) fixes)))
      ≤ unknown table (keys fixes)
unknown_falls table n fixes new h =
    let found = fixes_for_shas table new in
    let after = note_fixes n found fixes in
    let (f, m) = is_empty-In (unseen (keys fixes) found) h in
    let (isfound, fresh) = unseen_sound (keys fixes) found f m in
    let (u, row, _) = fixes_for_shas_sound table new f isfound in
    unknown_less table (keys fixes) (keys after) u f
      (λ k e.
        In-str_elem k (keys after)
          ((keys-note_fixes k n found fixes).1 (inr (str_elem-In k (keys fixes) e))))
      row fresh (In-str_elem f (keys after) ((keys-note_fixes f n found fixes).1 (inl isfound)))

-- What the fuel has to be.
abbrev Enough : Table → ℕ → Fixes → List String → Type 0
Enough table fuel fixes new = (is_empty new ≡ true) ⊎ (unknown table (keys fixes) + 2 ≤ fuel)

-- The result of `collect`: its keys are the shas that `start` leads to.
abbrev Collected : Table → String → Option Fixes → Type 0
Collected table start result =
    (fixes : Fixes) × (result ≡ some fixes)
    × ((k : String) → In k (keys fixes) ↔ Reach table start k)

Known-closed :
    (table : Table) (start : String) (fixes : Fixes) (new : List String)
    → Known table start fixes new
    → is_empty new ≡ true
    → (k : String) → Reach table start k
    → In k (keys fixes)
Known-closed table start fixes new known h _ here = known.0
Known-closed table start fixes new known h _ (next a b r row) =
    elim (known.3 a b (Known-closed table start fixes new known h a r) row) [
      | inl m ↦ absurd (empty-In new a h m)
      | inr m ↦ m
    ]

pub collect_total :
    (table : Table) (start : String) (fuel n : ℕ) (fixes : Fixes) (new : List String)
    → 1 ≤ fuel
    → Enough table fuel fixes new
    → Known table start fixes new
    → Collected table start (collect table fuel n fixes new)
unfolding collect
collect_total table start zero n fixes new h enough known = absurd (omega arith)
collect_total table start (suc fuel) n fixes new h enough known = elim (Bool-cases (is_empty new)) [
  | inl done ↦ (fixes, rw done, λ k. (known.1 k, Known-closed table start fixes new known done k))
  | inr more ↦
      let found = fixes_for_shas table new in
      let enough' : unknown table (keys fixes) + 2 ≤ suc fuel = ground (arith, enough, more) in
      let next_enough : Enough table fuel (note_fixes (suc n) found fixes)
          (unseen (keys fixes) found) =
        elim (Bool-cases (is_empty (unseen (keys fixes) found))) [
          | inl e ↦ inl e
          | inr e ↦ inr (omega (arith, unknown_falls table (suc n) fixes new e))
        ] in
      let (d, e, mem) =
        collect_total table start fuel (suc n) (note_fixes (suc n) found fixes)
          (unseen (keys fixes) found) (omega (arith, enough')) next_enough
          (Known-next table start (suc n) fixes new known) in
      (d, rw more e, mem)
]
