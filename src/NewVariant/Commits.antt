-- ===== src/NewVariant/Commits.antt =====
-- What status.commits has recorded, by the context of a step.
use cros_dev_util.Base.{
  String, Bool, true, false, ◌&&◌, not, Option, none, some, List, [], ◌∷◌, ◌≡◌, refl, sym, ◌∙◌,
  subst, inl, inr, arith, is_some, dict_get, dict_set, dict_get-dict_set, str_eq, eq_iff, str_elem,
  if◌then◌else◌, Bool-cases, Option-cases, All,
}
use cros_dev_util.NewVariant.State.{CommitData}
use cros_dev_util.NewVariant.Upload.{is_uploaded}
use cros_dev_util.NewVariant.Typing.{Context, no_commits, with_cl}

abbrev pub Commits : Type 0
Commits = List (String × CommitData)

-- The data of a git commit: its branch, its directory and its Change-Id.
abbrev pub has_git : CommitData → Bool
has_git c = is_some c.branch_name && (is_some c.dir && is_some c.change_id)

-- A commit with a directory has a branch, and only such a commit is flagged for re-upload.
abbrev pub tidy : CommitData → Bool
tidy c = if is_some c.dir then is_some c.branch_name else not c.needs_re_upload

abbrev pub passes : (CommitData → Bool) → Option CommitData → Bool
passes p none = false
passes p (some c) = p c

-- The entry `key` is there and passes the test.
abbrev pub has_entry : (CommitData → Bool) → String → Commits → Bool
has_entry p key d = passes p (dict_get key d)

abbrev pub AllTidy : Commits → Type 0
AllTidy d = All (λ (e : String × CommitData). tidy e.1 ≡ true) d

-- status.commits has what the context says.
pub record Holds (c : Context) (d : Commits) : Type 0 where
  pub git_known : (k : String) → str_elem k c.git ≡ true → has_entry has_git k d ≡ true
  pub cl_known : (k : String) → str_elem k c.cls ≡ true → has_entry is_uploaded k d ≡ true
  pub all_tidy : AllTidy d

pub AllTidy-dict_set :
    (key : String) (c : CommitData) (d : Commits)
    → tidy c ≡ true
    → AllTidy d
    → AllTidy (dict_set key c d)
unfolding dict_set
AllTidy-dict_set key c [] t h = (t, tt)
AllTidy-dict_set key c ((k, v) ∷ d) t h = ground (arith, t, h, AllTidy-dict_set key c d)

pub tidy-dict_get :
    (key : String) (c : CommitData) (d : Commits)
    → AllTidy d
    → dict_get key d ≡ some c
    → tidy c ≡ true
unfolding dict_get
tidy-dict_get key c [] h e = cc
tidy-dict_get key c ((k, v) ∷ d) h e = ground (arith, h, tidy-dict_get key c d)

-- An entry behind a write.
pub has_entry-dict_set :
    (p : CommitData → Bool) (key k : String) (c : CommitData) (d : Commits)
    → has_entry p k (dict_set key c d) ≡ (if str_eq key k then p c else has_entry p k d)
has_entry-dict_set p key k c d = elim (Bool-cases (str_eq key k)) [
  | inl h ↦ rw (dict_get-dict_set key k c d, h) refl
  | inr h ↦ rw (dict_get-dict_set key k c d, h) refl
]

pub entry_of :
    (p : CommitData → Bool) (key : String) (d : Commits)
    → has_entry p key d ≡ true
    → (c : CommitData) × (dict_get key d ≡ some c) × (p c ≡ true)
entry_of p key d h = elim (Option-cases (dict_get key d)) [
  | inl e ↦ cc (rw e at h)
  | inr (c, e) ↦ (c, e, rw e at h)
]

-- Changing an entry that is there in what neither test reads.
pub Holds-dict_set :
    (ctx : Context) (key : String) (old c : CommitData) (d : Commits)
    → dict_get key d ≡ some old
    → (has_git old ≡ true → has_git c ≡ true)
    → (is_uploaded old ≡ true → is_uploaded c ≡ true)
    → tidy c ≡ true
    → Holds ctx d
    → Holds ctx (dict_set key c d)
Holds-dict_set ctx key old c d e g u t h = record {
  git_known = λ k m. keeps has_git g k (h.git_known k m);
  cl_known = λ k m. keeps is_uploaded u k (h.cl_known k m);
  all_tidy = AllTidy-dict_set key c d t h.all_tidy;
}
  where
    keeps :
        (p : CommitData → Bool)
        → (p old ≡ true → p c ≡ true)
        → (k : String) → has_entry p k d ≡ true
        → has_entry p k (dict_set key c d) ≡ true
    keeps p f k m = elim (Bool-cases (str_eq key k)) [
      | inl same ↦
          rw (has_entry-dict_set p key k c d, same)
            (f (
              subst (λ o. passes p o ≡ true) e
                (subst (λ x. has_entry p x d ≡ true) (sym ((eq_iff key k).0 same)) m)))
      | inr other ↦ rw (has_entry-dict_set p key k c d, other) m
    ]

-- What the context says without a CL.
pub Holds-fewer :
    (key : String) (ctx : Context) (d : Commits) → Holds (with_cl key ctx) d → Holds ctx d
Holds-fewer key ctx d h = record {
  git_known = h.git_known;
  cl_known = λ k m. h.cl_known k (ground (arith, m));
  all_tidy = h.all_tidy;
}

pub Holds-nothing : (ctx : Context) (d : Commits) → Holds ctx d → Holds no_commits d
Holds-nothing ctx d h = record {
  git_known = λ k m. cc;
  cl_known = λ k m. cc;
  all_tidy = h.all_tidy;
}

-- A CL for a commit.
pub Holds-with_cl :
    (ctx : Context) (key : String) (old c : CommitData) (d : Commits)
    → dict_get key d ≡ some old
    → (has_git old ≡ true → has_git c ≡ true)
    → is_uploaded c ≡ true
    → tidy c ≡ true
    → Holds ctx d
    → Holds (with_cl key ctx) (dict_set key c d)
Holds-with_cl ctx key old c d e g u t h =
    let changed = Holds-dict_set ctx key old c d e g (λ _. u) t h in
    record {
      git_known = changed.git_known;
      cl_known = λ k m. elim (Bool-cases (str_eq key k)) [
        | inl same ↦ rw (has_entry-dict_set is_uploaded key k c d, same) u
        | inr other ↦ changed.cl_known k (ground (arith, m, other, eq_iff k key, eq_iff key k))
      ];
      all_tidy = changed.all_tidy;
    }

pub Holds-already :
    (ctx : Context) (key : String) (d : Commits)
    → has_entry is_uploaded key d ≡ true
    → Holds ctx d
    → Holds (with_cl key ctx) d
Holds-already ctx key d u h = record {
  git_known = h.git_known;
  cl_known = λ k m. elim (Bool-cases (str_eq key k)) [
    | inl same ↦ subst (λ x. has_entry is_uploaded x d ≡ true) ((eq_iff key k).0 same) u
    | inr other ↦ h.cl_known k (ground (arith, m, other, eq_iff k key, eq_iff key k))
  ];
  all_tidy = h.all_tidy;
}

-- An entry for a key that the context has no git commit of.
pub Holds-new_cl :
    (ctx : Context) (key : String) (c : CommitData) (d : Commits)
    → str_elem key ctx.git ≡ false
    → is_uploaded c ≡ true
    → tidy c ≡ true
    → Holds ctx d
    → Holds (with_cl key ctx) (dict_set key c d)
Holds-new_cl ctx key c d new u t h = record {
  git_known = λ k m. elim (Bool-cases (str_eq key k)) [
    | inl same ↦
        cc (sym new ∙ subst (λ x. str_elem x ctx.git ≡ true) (sym ((eq_iff key k).0 same)) m)
    | inr other ↦ rw (has_entry-dict_set has_git key k c d, other) (h.git_known k m)
  ];
  cl_known = λ k m.
      rw (has_entry-dict_set is_uploaded key k c d)
        (ground (arith, eq_iff k key, eq_iff key k, u, h.cl_known k, m));
  all_tidy = AllTidy-dict_set key c d t h.all_tidy;
}
