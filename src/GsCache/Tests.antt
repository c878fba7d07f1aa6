-- ===== src/GsCache/Tests.antt =====
-- Runs of the models of gs_cache on concrete archives and requests.
use cros_dev_util.Base.{
  ℕ, String, List, [], ◌∷◌, ◌≡◌, refl, none, negsuc, int_of, ◌==◌, if◌then◌else◌,
}
use cros_dev_util.GsCache.TarList.{
  TarListCommandResult, command_result, list_tar_members, round_up_to_512, split_fields,
  strip_newlines, field_of, behind_field, skip_separators,
}
use cros_dev_util.GsCache.TarLine.{command_result-line, line}
use cros_dev_util.GsCache.TarLayout.{Entry, layout, list_tar_members-layout}

abbrev listing : List String
listing =
    "block 0: -rw-r--r-- user/group 12 2018-01-01 10:30 a.txt\n"
    ∷ "block 2: -rw-r--r-- user/group 513 2018-01-01 10:30 dir/b file\n"
    ∷ "block 5: ** Block of NULs **\n" ∷ []

abbrev entries : List Entry
entries =
    record { name = "a.txt"; header = 1; size = 12 }
    ∷ record { name = "dir/b file"; header = 1; size = 513 }
    ∷ []

list_tar_members-layout_example : list_tar_members listing ≡ (layout 0 entries, none)
unfolding command_result split_fields strip_newlines field_of behind_field skip_separators int_of
list_tar_members-layout_example = list_tar_members-layout entries listing (
  record { block_read = refl; size_read = refl; name_read = refl },
  (record { block_read = refl; size_read = refl; name_read = refl }, refl),
)

abbrev b_file : TarListCommandResult
b_file = record {
  block = "block";
  block_num = "2";
  mode = "-rw-r--r--";
  ownership = "user/group";
  size_str = "513";
  date = "2018-01-01";
  hour = "10";
  min = "30";
  filename = "dir/b file";
}

abbrev b_gap : ℕ → String
b_gap n = if n == 1 then ": " else if n == 6 then ":" else " "

line_run : line b_file b_gap ≡ "block 2: -rw-r--r-- user/group 513 2018-01-01 10:30 dir/b file\n"
line_run = refl

command_result-line_example : command_result (line b_file b_gap) ≡ b_file
unfolding command_result strip_newlines
command_result-line_example = command_result-line b_file b_gap refl refl refl

round_up_run : round_up_to_512 (negsuc 512) ≡ negsuc 511
unfolding round_up_to_512
round_up_run = refl
