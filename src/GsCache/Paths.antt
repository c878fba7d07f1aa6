-- ===== src/GsCache/Paths.antt =====
-- What gs_cache/gs_archive_server.py uses of os.path: `splitext` and `basename` of a path whose
-- separator is a slash.
use cros_dev_util.Base.{
  suc, ◌+◌, ◌-◌, Char, code, String, Bool, true, false, ◌&&◌, ◌||◌, not, ◌≡◌, refl, sym, ap, ◌∙◌,
  arith, leb, ◌==◌, if◌then◌else◌, str_append, str_length, str_drop, is_prefix, ends_with, char_eq,
  Bool-cases, inl, inr,
}
use Prim.Native.String.append

abbrev pub has_slash : String → Bool
has_slash String.[] = false
has_slash (String.◌∷◌ c s) = code c == b'/' || has_slash s

-- os.path.basename(p)
abbrev pub basename : String → String
basename String.[] = String.[]
basename (String.◌∷◌ c s) =
    let rest = basename s in
    if has_slash s then rest else if code c == b'/' then s else String.◌∷◌ c s

abbrev with_char : Char → Bool → String × String → String × String
with_char c slash (stem, String.[]) =
    if code c == b'.' && not slash
    then (String.[], String.◌∷◌ c stem)
    else (String.◌∷◌ c stem, String.[])
with_char c slash (stem, String.◌∷◌ d ext) = (String.◌∷◌ c stem, String.◌∷◌ d ext)

-- The path before the last dot of its last component, and the path from there on.
abbrev pub split_dot : String → String × String
split_dot String.[] = (String.[], String.[])
split_dot (String.◌∷◌ c s) = with_char c (has_slash s) (split_dot s)

-- Whether the last component has a character other than a dot.
abbrev pub has_name : String → Bool
has_name String.[] = false
has_name (String.◌∷◌ c s) =
    has_name s || (not (has_slash s) && (not (code c == b'/') && not (code c == b'.')))

-- os.path.splitext(p): dots at the start of the last component begin no extension.
abbrev pub splitext : String → String × String
splitext p = let (stem, ext) = split_dot p in if has_name stem then (stem, ext) else (p, String.[])

pub str_append-nil : (s : String) → str_append s "" ≡ s
str_append-nil String.[] = append.nil ""
str_append-nil (String.◌∷◌ c s) = append.cons c s "" ∙ ap (String.◌∷◌ c) (str_append-nil s)

pub str_append_assoc :
    (s t u : String) → str_append (str_append s t) u ≡ str_append s (str_append t u)
str_append_assoc String.[] t u =
    ap (λ r. str_append r u) (append.nil t) ∙ sym (append.nil (str_append t u))
str_append_assoc (String.◌∷◌ c s) t u =
    ap (λ r. str_append r u) (append.cons c s t)
    ∙ append.cons c (str_append s t) u
    ∙ ap (String.◌∷◌ c) (str_append_assoc s t u)
    ∙ sym (append.cons c s (str_append t u))

has_slash-append : (s t : String) → has_slash t ≡ false → has_slash (str_append s t) ≡ has_slash s
has_slash-append String.[] t h = ap has_slash (append.nil t) ∙ h
has_slash-append (String.◌∷◌ c s) t h =
    ap has_slash (append.cons c s t) ∙ ap (λ b. code c == b'/' || b) (has_slash-append s t h)

pub has_name-append : (s t : String) → has_name t ≡ true → has_name (str_append s t) ≡ true
has_name-append String.[] t h = ap has_name (append.nil t) ∙ h
has_name-append (String.◌∷◌ c s) t h = rw (append.cons c s t, has_name-append s t h) refl

split_dot-append :
    (s t stem : String) (c : Char) (ext : String)
    → split_dot t ≡ (stem, String.◌∷◌ c ext)
    → split_dot (str_append s t) ≡ (str_append s stem, String.◌∷◌ c ext)
split_dot-append String.[] t stem c ext h =
    ap split_dot (append.nil t) ∙ h ∙ ap (λ u. (u, String.◌∷◌ c ext)) (sym (append.nil stem))
split_dot-append (String.◌∷◌ d s) t stem c ext h =
    ap split_dot (append.cons d s t)
    ∙ ap (with_char d (has_slash (str_append s t))) (split_dot-append s t stem c ext h)
    ∙ ap (λ u. (u, String.◌∷◌ c ext)) (sym (append.cons d s stem))

-- A name with an extension behind it is split there.
pub splitext-append :
    (s t stem : String) (c : Char) (ext : String)
    → split_dot t ≡ (stem, String.◌∷◌ c ext)
    → has_name (str_append s stem) ≡ true
    → splitext (str_append s t) ≡ (str_append s stem, String.◌∷◌ c ext)
splitext-append s t stem c ext h named = rw (split_dot-append s t stem c ext h, named) refl

pub basename-append :
    (s t : String)
    → has_slash t ≡ false
    → basename t ≡ t
    → basename (str_append s t) ≡ str_append (basename s) t
basename-append String.[] t h e = ap basename (append.nil t) ∙ e ∙ sym (append.nil t)
basename-append (String.◌∷◌ c s) t h e =
    let whole = append.cons c s t in
    let slash = has_slash-append s t h in
    let rest = basename-append s t h e in
    elim (Bool-cases (has_slash s)) [
      | inl some_slash ↦ rw (whole, slash, some_slash) rest
      | inr no_slash ↦ elim (Bool-cases (code c == b'/')) [
        | inl here ↦ rw (whole, slash, no_slash, here) refl
        | inr there ↦ rw (whole, slash, no_slash, there) (sym whole)
      ]
    ]

pub has_name-basename : (s : String) → has_name (basename s) ≡ has_name s
has_name-basename String.[] = refl
has_name-basename (String.◌∷◌ c s) = ground (arith, has_name-basename s)

str_length-append : (s t : String) → str_length (str_append s t) ≡ str_length s + str_length t
str_length-append String.[] t = ap str_length (append.nil t) ∙ omega arith
str_length-append (String.◌∷◌ c s) t =
    ap str_length (append.cons c s t) ∙ ap suc (str_length-append s t) ∙ omega arith

str_drop-append : (s t : String) → str_drop (str_length s) (str_append s t) ≡ t
str_drop-append String.[] t = append.nil t
str_drop-append (String.◌∷◌ c s) t =
    ap (str_drop (suc (str_length s))) (append.cons c s t) ∙ str_drop-append s t

is_prefix_refl : (s : String) → is_prefix s s ≡ true
unfolding is_prefix char_eq
is_prefix_refl String.[] = refl
is_prefix_refl (String.◌∷◌ c s) = ground (arith, is_prefix_refl s)

pub ends_with-append : (s t : String) → ends_with t (str_append s t) ≡ true
unfolding ends_with
ends_with-append s t =
    let n = str_length s in
    let k = str_length t in
    let fits : leb k (n + k) ≡ true = ground arith in
    let from : n + k - k ≡ n = omega arith in
    rw (str_length-append s t, fits, from, str_drop-append s t) (is_prefix_refl t)
