-- ===== src/FindMissing/Fixes/Queries.antt =====
-- What the queries of insert_by_patch_id of contrib/findmissing/missing.py find.
use cros_dev_util.Base.{
  ◌≡◌, refl, ap, String, Bool, true, false, ◌&&◌, some, List, [], ◌∷◌, ◌++◌, arith, inl, inr, In,
  All, is_empty, str_eq, eq_refl, map, filter_by-In, subst,
}
use cros_dev_util.FindMissing.Fixes.{Row}
use cros_dev_util.FindMissing.Fixes.World.{
  linux_chrome, Commit, Db, World, merged_shas, patch_ids, str_any, same_patch, concat_map,
  is_tracked,
}

In-map : {A B : Type 0} → (f : A → B) (a : A) (xs : List A) → In a xs → In (f a) (map f xs)
In-map f a [] m = m
In-map f a (x ∷ xs) (inl e) = inl (ap f e)
In-map f a (x ∷ xs) (inr m) = inr (In-map f a xs m)

In-append : {A : Type 0} → (a : A) (xs ys : List A) → In a xs → In a (xs ++ ys)
In-append a [] ys m = absurd m
In-append a (x ∷ xs) ys (inl e) = inl e
In-append a (x ∷ xs) ys (inr m) = inr (In-append a xs ys m)

append-In : {A : Type 0} → (a : A) (xs ys : List A) → In a ys → In a (xs ++ ys)
append-In a [] ys m = m
append-In a (x ∷ xs) ys m = inr (append-In a xs ys m)

In-concat_map :
    {A B : Type 0}
    → (f : A → List B) (a : A) (b : B) (xs : List A) → In a xs
    → In b (f a)
    → In b (concat_map f xs)
In-concat_map f a b [] m n = absurd m
In-concat_map f a b (x ∷ xs) (inl e) n =
    In-append b (f x) (concat_map f xs) (subst (λ a'. In b (f a')) e n)
In-concat_map f a b (x ∷ xs) (inr m) n =
    append-In b (f x) (concat_map f xs) (In-concat_map f a b xs m n)

In-patch_ids :
    (sha patch : String) (upstream : List (String × String))
    → In (sha, patch) upstream
    → In patch (patch_ids upstream sha)
In-patch_ids sha patch upstream m =
    In-map (λ (row : String × String). row.1) (sha, patch) _
      (filter_by-In (λ row. str_eq row.0 sha) upstream (sha, patch) m (eq_refl sha))

str_any-In :
    (p : String → Bool) (x : String) (xs : List String) → In x xs → p x ≡ true → str_any p xs ≡ true
str_any-In p x [] m h = absurd m
str_any-In p x (y ∷ xs) (inl e) h = rw (subst (λ z. p z ≡ true) e h) refl
str_any-In p x (y ∷ xs) (inr m) h = ground (arith, str_any-In p x xs m h)

pub same_patch-In :
    (db : Db) (a b patch : String)
    → In (a, patch) db.linux_upstream
    → In (b, patch) db.linux_upstream
    → str_eq a b ≡ false
    → same_patch db a b ≡ true
same_patch-In db a b patch ma mb other =
    rw
      (
        other,
        str_any-In (λ p. str_any (str_eq p) (patch_ids db.linux_upstream b)) patch
            (patch_ids db.linux_upstream a) (In-patch_ids a patch db.linux_upstream ma)
            (str_any-In (str_eq patch) patch (patch_ids db.linux_upstream b)
              (In-patch_ids b patch db.linux_upstream mb) (eq_refl patch)),
      )
      refl

not_tracked :
    (branch sha fixedby : String) (rows : List Row)
    → All
        (λ row. (str_eq sha row.kernel_sha && str_eq fixedby row.fixedby_upstream_sha) ≡ false)
        rows
    → is_tracked rows branch sha fixedby ≡ false
not_tracked branch sha fixedby [] h = refl
not_tracked branch sha fixedby (row ∷ rows) h =
    ground (arith, h.0, not_tracked branch sha fixedby rows h.1)

pub not_empty : {A : Type 0} → (a : A) (xs : List A) → In a xs → is_empty xs ≡ false
not_empty a [] m = absurd m
not_empty a (x ∷ xs) m = refl

pub merged_shas-In :
    (db : Db) (branch fixedby upstream other : String) (w : World) (commit : Commit)
    → In commit (db.commits linux_chrome)
    → commit.branch ≡ branch
    → commit.upstream_sha ≡ some upstream
    → In (upstream, fixedby) db.upstream_fixes
    → In (other, commit.patch_id) db.linux_upstream
    → All
        (λ row.
          (str_eq commit.sha row.kernel_sha && str_eq fixedby row.fixedby_upstream_sha) ≡ false)
        w.chrome_rows
    → In commit.sha (merged_shas db w branch fixedby)
unfolding merged_shas
merged_shas-In db branch fixedby upstream other w commit m b u mf mp free =
    In-concat_map _ commit commit.sha _
      (filter_by-In _ (db.commits linux_chrome) commit m
        (rw (b, eq_refl branch, not_tracked branch commit.sha fixedby w.chrome_rows free) refl))
      (In-concat_map _ (other, commit.patch_id) commit.sha _
        (filter_by-In _ db.linux_upstream (other, commit.patch_id) mp (eq_refl commit.patch_id))
        (In-map (λ _. commit.sha) (upstream, fixedby) _
          (filter_by-In _ db.upstream_fixes (upstream, fixedby) mf
            (rw (u, eq_refl upstream, eq_refl fixedby) refl))))
