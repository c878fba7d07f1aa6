-- ===== src/NewVariant/Kconfig.antt =====
-- contrib/variant/kconfig.py: add_to_kconfig and add_to_kconfig_name on the lines of the files.
use cros_dev_util.Base.{
  String, Bool, true, false, ◌&&◌, ◌||◌, not, List, [], ◌∷◌, ◌++◌, map, ◌≡◌, refl, ap, ◌∙◌, arith,
  Result, ok, err, value_error, str_eq, if◌then◌else◌,
}
use cros_dev_util.NewVariant.State.{str_concat}

-- The line of an option.
abbrev default_line : String → String → String
default_line name board = str_concat ("\tdefault \"" ∷ name ∷ "\" if " ∷ board ∷ [])

abbrev add_if : Bool → String → List String → List String
add_if true line lines = line ∷ lines
add_if false line lines = lines

-- The loop of add_to_kconfig with its two flags.
unfoldable pub kconfig_lines : String → String → Bool → Bool → List String → List String
kconfig_lines part dir in_part in_dir [] = []
kconfig_lines part dir in_part in_dir (line ∷ lines) =
    let part_now = in_part || str_eq line "config MAINBOARD_PART_NUMBER" in
    let dir_now = in_dir || str_eq line "config VARIANT_DIR" in
    let blank = str_eq line "" in
    let rest = line ∷ kconfig_lines part dir (part_now && not blank) (dir_now && not blank) lines in
    add_if (blank && part_now) part (add_if (blank && dir_now) dir rest)

-- str.rstrip, str.upper, str.lower and str.capitalize are parameters.
module _ (upper lower capitalize : String → String) where
  abbrev pub board_name : String → String
  board_name variant = str_concat ("BOARD_GOOGLE_" ∷ upper variant ∷ [])

  abbrev pub part_line : String → String
  part_line variant = default_line (capitalize (lower variant)) (board_name variant)

  abbrev pub dir_line : String → String
  dir_line variant = default_line (lower variant) (board_name variant)

  -- The section of a variant in Kconfig.name.
  abbrev config_section : String → List String → List String
  config_section variant selects =
      ""
      ∷ str_concat ("config BOARD_GOOGLE_" ∷ upper variant ∷ [])
      ∷ str_concat ("\tbool \"-> " ∷ capitalize (lower variant) ∷ "\"" ∷ [])
      ∷ selects

module _ (rstrip upper lower capitalize : String → String) where
  unfoldable pub add_to_kconfig : String → List String → List String
  unfolding kconfig_lines
  add_to_kconfig variant lines =
      kconfig_lines (part_line upper lower capitalize variant)
        (dir_line upper lower capitalize variant) false false (map rstrip lines)

  unfoldable pub add_to_kconfig_name : String → String → List String → Result (List String)
  add_to_kconfig_name baseboard variant lines =
      let with_section : List String → Result (List String) =
        λ selects. ok (map rstrip lines ++ config_section upper lower capitalize variant selects) in
      if str_eq baseboard "hatch"
      then with_section
          ("\tselect BOARD_GOOGLE_BASEBOARD_HATCH" ∷ "\tselect BOARD_ROMSIZE_KB_16384" ∷ [])
      else if str_eq baseboard "volteer"
      then with_section ("\tselect BOARD_GOOGLE_BASEBOARD_VOLTEER" ∷ [])
      else if str_eq baseboard "trembyle"
      then with_section ("\tselect BOARD_GOOGLE_BASEBOARD_TREMBYLE" ∷ [])
      else if str_eq baseboard "dalboz"
      then with_section ("\tselect BOARD_GOOGLE_BASEBOARD_DALBOZ" ∷ [])
      else if str_eq baseboard "waddledee"
      then with_section
          ("\tselect BOARD_GOOGLE_BASEBOARD_DEDEDE" ∷ "\tselect BASEBOARD_DEDEDE_LAPTOP" ∷ [])
      else if str_eq baseboard "waddledoo"
      then with_section (
          "\tselect BOARD_GOOGLE_BASEBOARD_DEDEDE" ∷ "\tselect BASEBOARD_DEDEDE_LAPTOP"
          ∷ "\tselect DRIVERS_GENERIC_MAX98357A" ∷ "\tselect DRIVERS_I2C_DA7219" ∷ [])
      else if str_eq baseboard "puff"
      then with_section ("\tselect BOARD_GOOGLE_BASEBOARD_PUFF" ∷ [])
      else err value_error

-- A Kconfig file in pieces: a line outside of the two sections, and either section with the lines
-- between its first one and the blank line that ends it.
pub data Piece : Type 0 where
  outside : String → Piece
  part_section dir_section : List String → Piece

-- The lines of the pieces, with `part` and `dir` at the end of the sections.
abbrev pub lines_of : List String → List String → List Piece → List String
lines_of part dir [] = []
lines_of part dir (outside line ∷ pieces) = line ∷ lines_of part dir pieces
lines_of part dir (part_section body ∷ pieces) =
    "config MAINBOARD_PART_NUMBER" ∷ (body ++ (part ++ "" ∷ lines_of part dir pieces))
lines_of part dir (dir_section body ∷ pieces) =
    "config VARIANT_DIR" ∷ (body ++ (dir ++ "" ∷ lines_of part dir pieces))

abbrev is_first : String → Bool
is_first line = str_eq line "config MAINBOARD_PART_NUMBER" || str_eq line "config VARIANT_DIR"

-- Lines that neither begin nor end a section.
abbrev pub is_body : List String → Bool
is_body [] = true
is_body (line ∷ lines) = not (is_first line) && (not (str_eq line "") && is_body lines)

abbrev pub is_piece : Piece → Bool
is_piece (outside line) = not (is_first line)
is_piece (part_section body) = is_body body
is_piece (dir_section body) = is_body body

abbrev pub all_pieces : List Piece → Bool
all_pieces [] = true
all_pieces (piece ∷ pieces) = is_piece piece && all_pieces pieces

module _ (part dir : String) where
  kconfig_lines-body :
      (in_part in_dir : Bool) (body rest : List String)
      → is_body body ≡ true
      → kconfig_lines part dir in_part in_dir (body ++ rest)
        ≡ body ++ kconfig_lines part dir in_part in_dir rest
  unfolding kconfig_lines
  kconfig_lines-body in_part in_dir [] rest h = refl
  kconfig_lines-body in_part in_dir (line ∷ body) rest h =
      ground (arith, h, kconfig_lines-body in_part in_dir body rest)

  kconfig_lines-outside :
      (line : String) (rest : List String)
      → not (is_first line) ≡ true
      → kconfig_lines part dir false false (line ∷ rest)
        ≡ line ∷ kconfig_lines part dir false false rest
  unfolding kconfig_lines
  kconfig_lines-outside line rest h = ground (arith, h)

  kconfig_lines-lines_of :
      (pieces : List Piece)
      → all_pieces pieces ≡ true
      → kconfig_lines part dir false false (lines_of [] [] pieces)
        ≡ lines_of (part ∷ []) (dir ∷ []) pieces
  unfolding kconfig_lines
  kconfig_lines-lines_of [] h = refl
  kconfig_lines-lines_of (outside line ∷ pieces) h =
      kconfig_lines-outside line (lines_of [] [] pieces) (ground (arith, h))
      ∙ ap (λ rest. line ∷ rest) (kconfig_lines-lines_of pieces (ground (arith, h)))
  kconfig_lines-lines_of (part_section body ∷ pieces) h =
      ap (λ rest. "config MAINBOARD_PART_NUMBER" ∷ rest)
        (kconfig_lines-body true false body ("" ∷ lines_of [] [] pieces) (ground (arith, h))
          ∙ ap (λ rest. body ++ (part ∷ "" ∷ rest))
              (kconfig_lines-lines_of pieces (ground (arith, h))))
  kconfig_lines-lines_of (dir_section body ∷ pieces) h =
      ap (λ rest. "config VARIANT_DIR" ∷ rest)
        (kconfig_lines-body false true body ("" ∷ lines_of [] [] pieces) (ground (arith, h))
          ∙ ap (λ rest. body ++ (dir ∷ "" ∷ rest))
              (kconfig_lines-lines_of pieces (ground (arith, h))))

module _ (rstrip upper lower capitalize : String → String) where
  -- Of a file whose stripped lines are pieces, each section of interest ended by a blank line,
  -- add_to_kconfig writes the stripped lines in their order, and the line of the variant before the
  -- blank line of each such section; it adds nothing else.
  pub add_to_kconfig-lines_of :
      (variant : String) (lines : List String) (pieces : List Piece)
      → map rstrip lines ≡ lines_of [] [] pieces
      → all_pieces pieces ≡ true
      → add_to_kconfig rstrip upper lower capitalize variant lines
        ≡ lines_of
            (part_line upper lower capitalize variant ∷ [])
            (dir_line upper lower capitalize variant ∷ [])
            pieces
  unfolding add_to_kconfig
  add_to_kconfig-lines_of variant lines pieces stripped h = rw stripped (
      kconfig_lines-lines_of (part_line upper lower capitalize variant)
        (dir_line upper lower capitalize variant) pieces h)
