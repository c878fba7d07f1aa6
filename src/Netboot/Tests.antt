-- ===== src/Netboot/Tests.antt =====
-- Tests of the model of host/netboot_firmware_settings.py, and its theorems at a small image.
use cros_dev_util.Base.{
  ℕ, map, String, ◌≡◌, refl, inl, Option, none, some, List, [], ◌∷◌, ◌++◌, arith, Result, ok,
  replicate, dict_get, dict_set, str_eq, if◌then◌else◌,
}
use cros_dev_util.Netboot.{
  Bytes, bytes_of, Area, Image, set_item, get_item, new_image, add_areas, settings_of, pack_int,
  pad_len, pack_attribute, pack_attributes, pack_settings, configure, Name, tftp_server_ip,
  kernel_args, bootfile, argsfile, Options, Settings, no_settings, set_setting,
}
use cros_dev_util.Netboot.Reader.{attribute_code, read_settings, entries_of}
use cros_dev_util.Netboot.Format.{read_settings-pack_settings}
use cros_dev_util.Netboot.Made.{stated}
use cros_dev_util.Netboot.Areas.{Written, set_item-Written, set_item_others}
use cros_dev_util.Netboot.Configure.{configure_readable}

abbrev shared : Area
shared = record { name = "SHARED_DATA"; offset = 4; size = 90 }

abbrev header_area : Area
header_area = record { name = "HEADER"; offset = 1; size = 3 }

abbrev input : Bytes
input = replicate 100 7

abbrev decode_areas : Bytes → String → Option (List Area)
decode_areas d name = if str_eq name "FMAP" then none else some (shared ∷ header_area ∷ [])

abbrev image : Image
image = record {
  areas = ("SHARED_DATA", shared) ∷ ("HEADER", header_area) ∷ [];
  image_data = input;
}

image_read : new_image decode_areas input ≡ ok image
unfolding new_image add_areas dict_set
image_read = refl

abbrev order : List Name
order = bootfile ∷ kernel_args ∷ argsfile ∷ tftp_server_ip ∷ []

abbrev options : Options
options = record {
  tftpserverip = none;
  bootfile_path = some (bytes_of "vm");
  argsfile_path = none;
  board = some (bytes_of "kevin");
  omahaserver = none;
  extra_args = bytes_of "a" ∷ bytes_of "b" ∷ [];
}

abbrev settings : Settings
settings =
    set_setting bootfile (bytes_of "vm" ++ 0 ∷ [])
      (set_setting kernel_args (bytes_of "cros_board=kevin a b" ++ 0 ∷ []) no_settings)

abbrev local_ip : Bytes → Result Bytes
local_ip text = ok (127 ∷ 0 ∷ 0 ∷ 1 ∷ [])

settings_made : settings_of local_ip options ≡ ok settings
unfolding settings_of
settings_made = refl

abbrev block : Bytes
block =
    bytes_of "netboot"
    ++ 0
      ∷ 4
      ∷ 0
      ∷ 0
      ∷ 0
      ∷ 3
      ∷ 0
      ∷ 0
      ∷ 0
      ∷ 3
      ∷ 0
      ∷ 0
      ∷ 0
      ∷ b'v'
      ∷ b'm'
      ∷ 0
      ∷ 0
      ∷ 2
      ∷ 0
      ∷ 0
      ∷ 0
      ∷ 21
      ∷ 0
      ∷ 0
      ∷ 0
      ∷ (bytes_of "cros_board=kevin a b"
          ++ 0 ∷ 0 ∷ 0 ∷ 0 ∷ 4 ∷ 0 ∷ 0 ∷ 0 ∷ 0 ∷ 0 ∷ 0 ∷ 0 ∷ 1 ∷ 0 ∷ 0 ∷ 0 ∷ 0 ∷ 0 ∷ 0 ∷ 0 ∷ [])

block_packed : pack_settings order settings ≡ ok block
unfolding pack_settings pack_attributes pack_attribute pack_int pad_len
block_packed = refl

read_settings-pack_settings_example :
    read_settings (block ++ 9 ∷ []) ≡ some (entries_of order settings, 9 ∷ [])
read_settings-pack_settings_example =
    read_settings-pack_settings order settings block (9 ∷ []) block_packed

set_item-Written_example :
    (image' : Image) × (set_item image "HEADER" (1 ∷ []) ≡ ok image')
    × Written image image' "HEADER" header_area (1 ∷ [])
unfolding dict_get
set_item-Written_example =
    set_item-Written image "HEADER" header_area (1 ∷ []) refl (omega arith) (omega arith)

abbrev written : Image
written = record image { image_data = 7 ∷ 1 ∷ 0 ∷ 0 ∷ replicate 96 7 }

set_item_others_example : get_item written "SHARED_DATA" ≡ get_item image "SHARED_DATA"
unfolding dict_get set_item
set_item_others_example =
    set_item_others image "HEADER" header_area (1 ∷ []) refl (omega arith) (omega arith) written
      "SHARED_DATA" shared refl refl (inl (omega arith))

abbrev output : Image
output = record image { image_data = replicate 4 7 ++ (block ++ (replicate 18 0 ++ replicate 6 7)) }

configured : configure local_ip decode_areas order options input ≡ ok output
unfolding configure new_image add_areas dict_set dict_get settings_of pack_settings pack_attributes
    pack_attribute pack_int pad_len set_item
configured = refl

configure_readable_example :
    (content : Bytes) × (padding : ℕ) × (get_item output "SHARED_DATA" ≡ ok content)
    × (read_settings content
        ≡ some (
          map (λ name. (attribute_code name, stated local_ip options name)) order,
          replicate padding 0,
        ))
unfolding dict_get
configure_readable_example =
    configure_readable local_ip decode_areas order options input image output shared image_read refl
      (omega arith) configured
