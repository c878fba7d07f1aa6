-- ===== src/GsCache/Chunks.antt =====
-- The chunks in which gs_cache/gs_archive_server.py reads and yields a file.
use cros_dev_util.Base.{
  ℕ, zero, suc, ◌≤◌, ◌<◌, String, false, ◌≡◌, refl, ap, ◌∙◌, arith, str_eq, str_append, str_length,
  str_take, str_drop, All, eq_iff, Bool-cases, inl, inr, Char,
}
use Prim.Native.String.append
use cros_dev_util.GsCache.Answers.{read_times, read_chunks, str_concat}

take_and_drop : (n : ℕ) (s : String) → str_append (str_take n s) (str_drop n s) ≡ s
take_and_drop zero s = append.nil s
take_and_drop (suc n) String.[] = append.nil ""
take_and_drop (suc n) (String.◌∷◌ c s) =
    append.cons c (str_take n s) (str_drop n s) ∙ ap (String.◌∷◌ c) (take_and_drop n s)

length-drop-le : (n : ℕ) (s : String) → str_length (str_drop n s) ≤ str_length s
length-drop-le zero s = omega arith
length-drop-le (suc n) String.[] = omega arith
length-drop-le (suc n) (String.◌∷◌ c s) = omega (arith, length-drop-le n s)

length-take-le : (n : ℕ) (s : String) → str_length (str_take n s) ≤ n
length-take-le zero s = omega arith
length-take-le (suc n) String.[] = omega arith
length-take-le (suc n) (String.◌∷◌ c s) = omega (arith, length-take-le n s)

cons-nonempty : (c : Char) (s : String) → str_eq (String.◌∷◌ c s) "" ≡ false
cons-nonempty c s = elim (Bool-cases (str_eq (String.◌∷◌ c s) "")) [
  | inl empty ↦ absurd (omega (arith, ap str_length ((eq_iff (String.◌∷◌ c s) "").0 empty)))
  | inr nonempty ↦ nonempty
]

read_times-concat :
    (fuel n : ℕ) (s : String) → str_length s < fuel → str_concat (read_times fuel (suc n) s) ≡ s
read_times-concat zero n s h = absurd (omega arith)
read_times-concat (suc fuel) n String.[] h = refl
read_times-concat (suc fuel) n (String.◌∷◌ c s) h =
    let le = length-drop-le n s in
    let rest = read_times-concat fuel n (str_drop n s) (omega arith) in
    rw (cons-nonempty c (str_take n s)) (
      append.cons c (str_take n s) _
      ∙ ap (λ r. String.◌∷◌ c (str_append (str_take n s) r)) rest
      ∙ ap (String.◌∷◌ c) (take_and_drop n s))

abbrev pub IsChunk : ℕ → String → Type 0
IsChunk n s = (0 < str_length s) × (str_length s ≤ n)

read_times-IsChunk : (fuel n : ℕ) (s : String) → All (IsChunk (suc n)) (read_times fuel (suc n) s)
read_times-IsChunk zero n s = tt
read_times-IsChunk (suc fuel) n String.[] = tt
read_times-IsChunk (suc fuel) n (String.◌∷◌ c s) =
    rw (cons-nonempty c (str_take n s))
      ((omega arith, omega (arith, length-take-le n s)), read_times-IsChunk fuel n (str_drop n s))

-- Reading a file in parts of a positive size, until a read gives nothing, yields parts that are
-- together the whole file, none of them empty or longer than that size.
pub read_chunks-All :
    (n : ℕ) (file : String)
    → (str_concat (read_chunks (suc n) file) ≡ file)
      × All (IsChunk (suc n)) (read_chunks (suc n) file)
unfolding read_chunks
read_chunks-All n file = (
  read_times-concat (suc (str_length file)) n file (omega arith),
  read_times-IsChunk (suc (str_length file)) n file,
)
