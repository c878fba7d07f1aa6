-- ===== src/GsCache/TarList.antt =====
-- gs_cache/tarfile_utils.py: the members of a tar archive from the lines of `tar tvR`.
use cros_dev_util.Base.{
  ℕ, zero, suc, ◌+◌, ◌-◌, ◌*◌, ◌/◌, leb, ◌==◌, Char, code, String, Bool, ◌||◌, Option, none, some,
  List, [], ◌∷◌, ◌++◌, Result, ok, err, Exn, value_error, or_raise, ◌>>=◌, ℤ, pos, negsuc, neg_ℕ,
  int_of, length, drop, if◌then◌else◌,
}

-- m - n
infix 40 ◌-ℤ◌
abbrev pub minus : ℕ → ℕ → ℤ
minus m n = if leb n m then pos (m - n) else negsuc (n - suc m)

abbrev pub ◌-ℤ◌ : ℤ → ℤ → ℤ
pos m -ℤ pos n = minus m n
pos m -ℤ negsuc n = pos (m + suc n)
negsuc m -ℤ pos n = negsuc (m + n)
negsuc m -ℤ negsuc n = minus n m

-- The smallest multiple of 512 from `number` on: (number + 511) & -512.
unfoldable pub round_up_to_512 : ℤ → ℤ
round_up_to_512 (pos n) = pos ((n + 511) / 512 * 512)
round_up_to_512 (negsuc n) = neg_ℕ (suc n / 512 * 512)

-- block_num << 9
unfoldable pub block_to_bytes : ℤ → ℤ
block_to_bytes (pos n) = pos (n * 512)
block_to_bytes (negsuc n) = neg_ℕ (suc n * 512)

-- One line of `tar tvR`.
pub record TarListCommandResult : Type 0 where
  pub block : String
  pub block_num : String
  pub mode : String
  pub ownership : String
  pub size_str : String
  pub date : String
  pub hour : String
  pub min : String
  pub filename : String

-- [ \t:]
abbrev pub is_separator : Char → Bool
is_separator c = code c == b' ' || (code c == b'\t' || code c == b':')

-- What stands before the first separator.
unfoldable pub field_of : String → String
field_of String.[] = String.[]
field_of (String.◌∷◌ c s) =
    let rest = field_of s in if is_separator c then String.[] else String.◌∷◌ c rest

unfoldable pub skip_separators : String → String
skip_separators String.[] = String.[]
skip_separators (String.◌∷◌ c s) =
    let rest = skip_separators s in if is_separator c then rest else String.◌∷◌ c s

-- What stands behind the first separators; `none` if there is no separator.
unfoldable pub behind_field : String → Option String
unfolding skip_separators
behind_field String.[] = none
behind_field (String.◌∷◌ c s) =
    let rest = behind_field s in if is_separator c then some (skip_separators s) else rest

-- re.split('[ \t:]+', s, maxsplit=n)
unfoldable pub split_fields : ℕ → String → List String
unfolding field_of behind_field
split_fields zero s = s ∷ []
split_fields (suc n) s =
    let more : String → List String = λ rest. field_of s ∷ split_fields n rest in
    elim (behind_field s) as (λ _. List String) [ none ↦ s ∷ [] | some rest ↦ more rest ]

abbrev pub end_with : Char → String → String
end_with c String.[] = if code c == b'\n' then String.[] else String.◌∷◌ c String.[]
end_with c (String.◌∷◌ d s) = String.◌∷◌ c (String.◌∷◌ d s)

-- line.rstrip('\n')
unfoldable pub strip_newlines : String → String
strip_newlines String.[] = String.[]
strip_newlines (String.◌∷◌ c s) = end_with c (strip_newlines s)

abbrev pub field_names : List String
field_names =
    "block" ∷ "block_num" ∷ "mode" ∷ "ownership" ∷ "size_str" ∷ "date" ∷ "hour" ∷ "min" ∷ "filename"
    ∷ []

-- The fields that are missing have their names.
abbrev pub fill : List String → List String
fill fields = fields ++ drop (length fields) field_names

-- _make: there are nine fields.
abbrev pub make : List String → TarListCommandResult
make (block ∷ block_num ∷ mode ∷ ownership ∷ size_str ∷ date ∷ hour ∷ min ∷ filename ∷ _) = record {
  block = block;
  block_num = block_num;
  mode = mode;
  ownership = ownership;
  size_str = size_str;
  date = date;
  hour = hour;
  min = min;
  filename = filename;
}
make _ = record {
  block = "block";
  block_num = "block_num";
  mode = "mode";
  ownership = "ownership";
  size_str = "size_str";
  date = "date";
  hour = "hour";
  min = "min";
  filename = "filename";
}

unfoldable pub command_result : String → TarListCommandResult
unfolding split_fields strip_newlines
command_result line = make (fill (split_fields 8 (strip_newlines line)))

pub record TarMemberInfo : Type 0 where
  pub filename : String
  pub record_start : ℤ
  pub record_size : ℤ
  pub content_start : ℤ
  pub size : ℤ

-- int(s)
abbrev pub int_or_raise : String → Result ℤ
int_or_raise s = or_raise (int_of s) value_error

unfoldable pub record_start_of : TarListCommandResult → Result ℤ
unfolding block_to_bytes
record_start_of file = do block ← int_or_raise file.block_num; ok (block_to_bytes block)

unfoldable pub size_of : TarListCommandResult → Result ℤ
size_of file = int_or_raise file.size_str

unfoldable pub get_prev_content_start : ℤ → TarListCommandResult → Result ℤ
unfolding size_of round_up_to_512
get_prev_content_start cur_record_start prev_file = do
  size ← size_of prev_file
  ok (cur_record_start -ℤ round_up_to_512 size)

-- The body of the loop of list_tar_members.
unfoldable pub member_before : TarListCommandResult → TarListCommandResult → Result TarMemberInfo
unfolding record_start_of get_prev_content_start
member_before prev_file cur_file = do
  cur_start ← record_start_of cur_file
  content_start ← get_prev_content_start cur_start prev_file
  prev_start ← record_start_of prev_file
  size ← size_of prev_file
  ok (record {
    filename = prev_file.filename;
    record_start = prev_start;
    record_size = cur_start -ℤ prev_start;
    content_start = content_start;
    size = size;
  })

-- What a generator yields, and the exception that ends it.
abbrev pub Generated : Type 0 → Type 0
Generated T = List T × Option Exn

abbrev pub yield_then : {T : Type 0} → Result T → Generated T → Generated T
yield_then (err exn) rest = ([], some exn)
yield_then (ok t) (ts, end) = (t ∷ ts, end)

unfoldable pub members_behind : TarListCommandResult → List String → Generated TarMemberInfo
unfolding command_result member_before
members_behind prev_file [] = ([], none)
members_behind prev_file (line ∷ lines) =
    let cur_file = command_result line in
    yield_then (member_before prev_file cur_file) (members_behind cur_file lines)

-- readline at the end of the output returns the empty text.
unfoldable pub list_tar_members : List String → Generated TarMemberInfo
unfolding members_behind
list_tar_members [] = members_behind (command_result "") []
list_tar_members (line ∷ lines) = members_behind (command_result line) lines
