-- ===== src/Netboot/Reader.antt =====
-- A reader of the settings block that host/netboot_firmware_settings.py writes, stated from the
-- format: a signature, a count, and for each setting its code, its length and its value padded with
-- NUL bytes to a multiple of four bytes, all numbers in four bytes with the lowest first.
use cros_dev_util.Base.{
  ℕ, zero, suc, Bool, false, ◌+◌, ◌-◌, ◌*◌, ◌%◌, true, Option, none, some, List, [], ◌∷◌, map,
  length, take, drop, leb, ◌==◌, if◌then◌else◌,
}
use cros_dev_util.Netboot.{Bytes, Name, tftp_server_ip, kernel_args, bootfile, argsfile, Settings}

unfoldable pub read_int : Bytes → Option (ℕ × Bytes)
read_int (a ∷ b ∷ c ∷ d ∷ rest) = some (a + 256 * b + 65536 * c + 16777216 * d, rest)
read_int _ = none

abbrev pub Entry : Type 0
Entry = ℕ × Bytes

-- The next multiple of four.
abbrev pub round_up : ℕ → ℕ
round_up n = if n % 4 == 0 then n else n + (4 - n % 4)

abbrev pub all_nul : Bytes → Bool
all_nul [] = true
all_nul (b ∷ bs) = let rest = all_nul bs in if b == 0 then rest else false

unfoldable pub take_value : ℕ → ℕ → Bytes → Option (Entry × Bytes)
take_value c n s =
    if leb (round_up n) (length s)
    then (if all_nul (take (round_up n - n) (drop n s))
        then some ((c, take n s), drop (round_up n) s)
        else none)
    else none

unfoldable pub read_entry : Bytes → Option (Entry × Bytes)
read_entry s = elim (read_int s) [
  | none ↦ none
  | some (c, s') ↦ elim (read_int s') [ none ↦ none | some (n, s'') ↦ take_value c n s'' ]
]

unfoldable pub read_entries : ℕ → Bytes → Option (List Entry × Bytes)
read_entries zero s = some ([], s)
read_entries (suc n) s = elim (read_entry s) [
  | none ↦ none
  | some (e, s') ↦ elim (read_entries n s') [ none ↦ none | some (es, rest) ↦ some (e ∷ es, rest) ]
]

unfoldable pub strip_prefix : Bytes → Bytes → Option Bytes
strip_prefix [] s = some s
strip_prefix (b ∷ bs) [] = none
strip_prefix (b ∷ bs) (c ∷ s) = let rest = strip_prefix bs s in if b == c then rest else none

-- The letters of "netboot", and a NUL.
abbrev pub magic : Bytes
magic = 110 ∷ 101 ∷ 116 ∷ 98 ∷ 111 ∷ 111 ∷ 116 ∷ 0 ∷ []

-- The settings in the block at the front of `s`, and what follows it.
unfoldable pub read_settings : Bytes → Option (List Entry × Bytes)
read_settings s = elim (strip_prefix magic s) [
  | none ↦ none
  | some s' ↦ elim (read_int s') [ none ↦ none | some (n, s'') ↦ read_entries n s'' ]
]

-- The codes of the format.
abbrev pub attribute_code : Name → ℕ
attribute_code tftp_server_ip = 1
attribute_code kernel_args = 2
attribute_code bootfile = 3
attribute_code argsfile = 4

abbrev pub content_of : Option Bytes → Bytes
content_of none = []
content_of (some v) = v

-- What the block says of the settings, in the order in which they are walked.
abbrev pub entries_of : List Name → Settings → List Entry
entries_of names settings = map (λ name. (attribute_code name, content_of (settings name))) names
