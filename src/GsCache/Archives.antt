-- ===== src/GsCache/Archives.antt =====
-- The names of compressed archives, as gs_cache/gs_archive_server.py checks and splits them.
use cros_dev_util.Base.{
  String, true, false, List, [], ◌∷◌, ◌≡◌, refl, sym, ap, ◌∙◌, arith, str_eq, str_append, ends_with,
  In, dict_set, if◌then◌else◌, eq_iff, Bool-cases, inl, inr,
}
use cros_dev_util.GsCache.Paths.{
  splitext, basename, has_name, splitext-append, ends_with-append, basename-append,
  has_name-basename, has_name-append, str_append-nil, str_append_assoc,
}
use cros_dev_util.GsCache.Answers.{done, Headers, check_file_extension, ends_with_one}
use cros_dev_util.GsCache.Caching.{compressed_tar_ext}
use cros_dev_util.GsCache.Server.{decompressed_archive, tar_exts, compressed_exts}

-- The ways in which an archive is compressed.
pub data Compression : Type 0 where
  gz bz2 xz tgz : Compression

abbrev pub suffix : Compression → String
suffix gz = ".tar.gz"
suffix bz2 = ".tar.bz2"
suffix xz = ".tar.xz"
suffix tgz = ".tgz"

-- What the decompressed archive has in place of a `.tgz`, and the extension.
abbrev pub extension : Compression → String
extension gz = ".gz"
extension bz2 = ".bz2"
extension xz = ".xz"
extension tgz = ".tgz"

abbrev inner : Compression → String
inner tgz = ""
inner _ = ".tar"

-- The program that decompresses.
abbrev pub program : Compression → List String
program gz = "gzip" ∷ "-d" ∷ "-c" ∷ []
program bz2 = "bzip2" ∷ "-d" ∷ "-c" ∷ []
program xz = "xz" ∷ "-d" ∷ "-c" ∷ []
program tgz = "gzip" ∷ "-d" ∷ "-c" ∷ []

-- The archive's name is more than dots: only `.tgz` needs it.
abbrev pub IsNamed : Compression → String → Type 0
IsNamed tgz stem = has_name stem ≡ true
IsNamed _ stem = Unit {0}

named_inner :
    (k : Compression) (stem : String) → IsNamed k stem → has_name (str_append stem (inner k)) ≡ true
named_inner gz stem named = has_name-append stem ".tar" refl
named_inner bz2 stem named = has_name-append stem ".tar" refl
named_inner xz stem named = has_name-append stem ".tar" refl
named_inner tgz stem named = ap has_name (str_append-nil stem) ∙ named

-- The name of an archive and its extension.
pub splitext-suffix :
    (k : Compression) (stem : String)
    → IsNamed k stem
    → splitext (str_append stem (suffix k)) ≡ (str_append stem (inner k), extension k)
splitext-suffix gz stem named =
    splitext-append stem ".tar.gz" ".tar" "." "gz" refl (named_inner gz stem named)
splitext-suffix bz2 stem named =
    splitext-append stem ".tar.bz2" ".tar" "." "bz2" refl (named_inner bz2 stem named)
splitext-suffix xz stem named =
    splitext-append stem ".tar.xz" ".tar" "." "xz" refl (named_inner xz stem named)
splitext-suffix tgz stem named =
    splitext-append stem ".tgz" "" "." "tgz" refl (named_inner tgz stem named)

basename-suffix :
    (k : Compression) (stem : String)
    → basename (str_append stem (suffix k)) ≡ str_append (basename stem) (suffix k)
basename-suffix gz stem = basename-append stem ".tar.gz" refl refl
basename-suffix bz2 stem = basename-append stem ".tar.bz2" refl refl
basename-suffix xz stem = basename-append stem ".tar.xz" refl refl
basename-suffix tgz stem = basename-append stem ".tgz" refl refl

basename-IsNamed : (k : Compression) (stem : String) → IsNamed k stem → IsNamed k (basename stem)
basename-IsNamed gz stem named = tt
basename-IsNamed bz2 stem named = tt
basename-IsNamed xz stem named = tt
basename-IsNamed tgz stem named = has_name-basename stem ∙ named

pub splitext-basename :
    (k : Compression) (stem : String)
    → IsNamed k stem
    → (splitext (basename (str_append stem (suffix k)))).1 ≡ extension k
splitext-basename k stem named =
    ap (λ p. (splitext p).1) (basename-suffix k stem)
    ∙ ap (λ u. u.1) (splitext-suffix k (basename stem) (basename-IsNamed k stem named))

ends_with-suffix :
    (k : Compression) (stem : String) → ends_with (suffix k) (str_append stem (suffix k)) ≡ true
ends_with-suffix k stem = ends_with-append stem (suffix k)

suffix_of_nothing : (k : Compression) → ends_with (suffix k) "" ≡ false
unfolding ends_with
suffix_of_nothing gz = refl
suffix_of_nothing bz2 = refl
suffix_of_nothing xz = refl
suffix_of_nothing tgz = refl

pub nonempty_suffix :
    (k : Compression) (stem : String) → str_eq (str_append stem (suffix k)) "" ≡ false
nonempty_suffix k stem = elim (Bool-cases (str_eq (str_append stem (suffix k)) "")) [
  | inl empty ↦
      let same = ap (ends_with (suffix k)) ((eq_iff (str_append stem (suffix k)) "").0 empty) in
      cc (same, ends_with-suffix k stem, suffix_of_nothing k)
  | inr nonempty ↦ nonempty
]

ends_with_one-In :
    (s ext : String) (exts : List String)
    → In ext exts
    → ends_with ext s ≡ true
    → ends_with_one s exts ≡ true
ends_with_one-In s ext [] i h = absurd i
ends_with_one-In s ext (e ∷ exts) (inl here) h = rw (ap (λ x. ends_with x s) (sym here) ∙ h) refl
ends_with_one-In s ext (e ∷ exts) (inr there) h =
    ground (arith, ends_with_one-In s ext exts there h)

pub check_file_extension-In :
    (k : Compression) (stem ext : String) (exts : List String)
    → In (suffix k) (ext ∷ exts)
    → check_file_extension (str_append stem (suffix k)) (ext ∷ exts)
      ≡ done (str_append stem (suffix k))
unfolding check_file_extension
check_file_extension-In k stem ext exts i =
    rw
      (
        nonempty_suffix k stem,
        ends_with_one-In (str_append stem (suffix k)) (suffix k) (ext ∷ exts) i
            (ends_with-suffix k stem),
      )
      refl

pub suffix-In-tar_exts : (k : Compression) → In (suffix k) tar_exts
suffix-In-tar_exts gz = inr (inl refl)
suffix-In-tar_exts bz2 = inr (inr (inr (inl refl)))
suffix-In-tar_exts xz = inr (inr (inr (inr (inl refl))))
suffix-In-tar_exts tgz = inr (inr (inl refl))

pub suffix-In-compressed_exts : (k : Compression) → In (suffix k) compressed_exts
suffix-In-compressed_exts gz = inl refl
suffix-In-compressed_exts bz2 = inr (inl refl)
suffix-In-compressed_exts xz = inr (inr (inl refl))
suffix-In-compressed_exts tgz = inr (inr (inr (inl refl)))

pub decompressed_archive-suffix :
    (k : Compression) (stem : String) (headers : Headers)
    → IsNamed k stem
    → decompressed_archive (str_append stem (suffix k)) headers
      ≡ (str_append stem ".tar", dict_set compressed_tar_ext (extension k) headers)
unfolding decompressed_archive
decompressed_archive-suffix gz stem headers named = rw (splitext-suffix gz stem named) refl
decompressed_archive-suffix bz2 stem headers named = rw (splitext-suffix bz2 stem named) refl
decompressed_archive-suffix xz stem headers named = rw (splitext-suffix xz stem named) refl
decompressed_archive-suffix tgz stem headers named =
    rw (splitext-suffix tgz stem named, str_append-nil stem) refl

pub stem_and_extension :
    (k : Compression) (stem : String)
    → IsNamed k stem
    → str_append
        (if str_eq (extension k) ".tgz"
          then (splitext (str_append stem ".tar")).0
          else str_append stem ".tar")
        (extension k)
      ≡ str_append stem (suffix k)
stem_and_extension gz stem named = str_append_assoc stem ".tar" ".gz"
stem_and_extension bz2 stem named = str_append_assoc stem ".tar" ".bz2"
stem_and_extension xz stem named = str_append_assoc stem ".tar" ".xz"
stem_and_extension tgz stem named =
    let split =
      splitext-append stem ".tar" "" "." "tar" refl (ap has_name (str_append-nil stem) ∙ named) in
    ap (λ u. str_append u.0 ".tgz") split ∙ ap (λ u. str_append u ".tgz") (str_append-nil stem)

pub some_extension : (k : Compression) → str_eq (extension k) "" ≡ false
some_extension gz = refl
some_extension bz2 = refl
some_extension xz = refl
some_extension tgz = refl
