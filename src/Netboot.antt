-- ===== src/Netboot.antt =====
-- host/netboot_firmware_settings.py: the netboot settings of a firmware image.
-- A Python 2 string is the list of its bytes. `fmap_decode` of the fmap module and
-- socket.inet_pton are parameters; the order in which a dict is walked is an argument.
pub mod Reader
pub mod Format
pub mod Packable
pub mod Made
pub mod Areas
pub mod Configure
pub mod Tests
use cros_dev_util.Base.{
  ℕ, zero, suc, ◌+◌, ◌-◌, ◌*◌, ◌/◌, ◌%◌, ◌^◌, String, Bool, true, false, Option, none, some, List,
  [], ◌∷◌, ◌++◌, map, Result, ok, err, key_error, value_error, struct_error, ◌>>=◌, ◌>>◌, guard,
  or_raise, length, take, drop, replicate, dict_get, dict_set, code, leb, ltb, is_empty,
  if◌then◌else◌,
}

abbrev pub Bytes : Type 0
Bytes = List ℕ

-- The bytes of an ASCII literal.
abbrev pub bytes_of : String → Bytes
bytes_of String.[] = []
bytes_of (String.◌∷◌ c s) = code c ∷ bytes_of s

pub record Area : Type 0 where
  pub name : String
  pub offset : ℕ
  pub size : ℕ

abbrev pub Areas : Type 0
Areas = List (String × Area)

pub record Image : Type 0 where
  pub areas : Areas
  pub image_data : Bytes

-- The loop that fills `self.areas`: of two areas with one name the later one stays.
unfoldable pub add_areas : List Area → Areas → Areas
add_areas [] d = d
add_areas (a ∷ rest) d = add_areas rest (dict_set a.name a d)

-- Image(data): the FMAP of cros_bundle_firmware, or else the one of coreboot; the second
-- struct.error is not caught.
unfoldable pub new_image : (Bytes → String → Option (List Area)) → Bytes → Result Image
new_image fmap_decode data' =
    let flash = do
      found ← or_raise (fmap_decode data' "FLASH") struct_error
      ok (record { areas = add_areas found []; image_data = data' })
    in elim (fmap_decode data' "FMAP") as (λ _. Result Image) [
      | none ↦ flash
      | some found ↦ ok (record { areas = add_areas found []; image_data = data' })
    ]

-- value.ljust(n, '\0')
unfoldable pub ljust : ℕ → Bytes → Bytes
ljust n value = value ++ replicate (n - length value) 0

-- image[key] = value
unfoldable pub set_item : Image → String → Bytes → Result Image
unfolding ljust
set_item image key value = do
  area ← or_raise (dict_get key image.areas) key_error
  guard (leb (length value) area.size) value_error
  ok (record image {
    image_data =
        take area.offset image.image_data
        ++ (ljust area.size value ++ drop (area.offset + area.size) image.image_data);
  })

-- image[key]
unfoldable pub get_item : Image → String → Result Bytes
get_item image key = do
  area ← or_raise (dict_get key image.areas) key_error
  ok (take area.size (drop area.offset image.image_data))

-- struct.pack('<I', n): four bytes, the lowest first
unfoldable pub pack_int : ℕ → Result Bytes
pack_int n =
    if ltb n (2 ^ 32)
    then ok (n % 256 ∷ n / 256 % 256 ∷ n / 65536 % 256 ∷ n / 16777216 % 256 ∷ [])
    else err struct_error

unfoldable pub pad_len : ℕ → ℕ
pad_len value_len = (value_len + 3) / 4 * 4 - value_len

-- Attribute.value and Setting.pack: None is an empty string.
abbrev pub value_of : Option Bytes → Bytes
value_of none = []
value_of (some v) = v

-- Attribute.pack
unfoldable pub pack_attribute : ℕ → Option Bytes → Result Bytes
pack_attribute attr_code setting = do
  let value = value_of setting
  packed_code ← pack_int attr_code
  packed_len ← pack_int (length value)
  ok (packed_code ++ (packed_len ++ (value ++ replicate (pad_len (length value)) 0)))

pub data Name : Type 0 where
  tftp_server_ip kernel_args bootfile argsfile : Name

abbrev pub code_of : Name → ℕ
code_of tftp_server_ip = 1
code_of kernel_args = 2
code_of bootfile = 3
code_of argsfile = 4

-- Settings.attributes
abbrev pub Settings : Type 0
Settings = Name → Option Bytes

abbrev pub same_name : Name → Name → Bool
same_name tftp_server_ip tftp_server_ip = true
same_name kernel_args kernel_args = true
same_name bootfile bootfile = true
same_name argsfile argsfile = true
same_name _ _ = false

-- Settings(), and settings[name] = value
abbrev pub no_settings : Settings
no_settings name = none

abbrev pub set_setting : Name → Bytes → Settings → Settings
set_setting name value settings other = if same_name name other then some value else settings other

abbrev pub signature : Bytes
signature = bytes_of "netboot" ++ 0 ∷ []

-- The loop of Settings.pack over the attributes.
unfoldable pub pack_attributes : List Name → Settings → Result Bytes
pack_attributes [] settings = ok []
pack_attributes (name ∷ names) settings = do
  attribute ← pack_attribute (code_of name) (settings name)
  rest ← pack_attributes names settings
  ok (attribute ++ rest)

-- Settings.pack, where the dict is walked in the order `names`.
unfoldable pub pack_settings : List Name → Settings → Result Bytes
pack_settings names settings = do
  count ← pack_int (length names)
  attributes ← pack_attributes names settings
  ok (signature ++ (count ++ attributes))

pub record Options : Type 0 where
  pub tftpserverip : Option Bytes
  pub bootfile_path : Option Bytes
  pub argsfile_path : Option Bytes
  pub board : Option Bytes
  pub omahaserver : Option Bytes
  pub extra_args : List Bytes

-- `if options.x`: None and the empty string are false.
abbrev pub given : Option Bytes → Bool
given none = false
given (some v) = if is_empty v then false else true

-- ' '.join(args)
unfoldable pub join_spaces : List Bytes → Bytes
join_spaces [] = []
join_spaces (a ∷ []) = a
join_spaces (a ∷ b ∷ rest) = a ++ (b' ' ∷ join_spaces (b ∷ rest))

abbrev pub optional_arg : String → Option Bytes → Bytes
optional_arg prefix v = if given v then bytes_of prefix ++ (value_of v ++ b' ' ∷ []) else []

-- The kernel command line of main, with its NUL.
unfoldable pub kernel_args_of : Options → Bytes
unfolding join_spaces
kernel_args_of o =
    optional_arg "cros_board=" o.board
    ++ (optional_arg "omahaserver=" o.omahaserver ++ (join_spaces o.extra_args ++ 0 ∷ []))

-- settings[name] = Setting(value + '\0'), if the option is given
abbrev pub set_path : Name → Option Bytes → Settings → Settings
set_path name v settings =
    if given v then set_setting name (value_of v ++ 0 ∷ []) settings else settings

module _ (inet_pton : Bytes → Result Bytes) where
  -- settings['tftp_server_ip'] = IpAddress(...), if the option is given
  unfoldable pub ip_settings : Options → Result Settings
  ip_settings o =
      let with_ip = do
        ip ← inet_pton (value_of o.tftpserverip)
        ok (set_setting tftp_server_ip ip no_settings)
      in if given o.tftpserverip then with_ip else ok no_settings

  -- The settings that main makes of its options.
  unfoldable pub settings_of : Options → Result Settings
  unfolding ip_settings kernel_args_of
  settings_of o = do
    s ← ip_settings o
    ok (
        set_path argsfile o.argsfile_path
          (set_path bootfile o.bootfile_path (set_setting kernel_args (kernel_args_of o) s)))

  -- main, from the bytes of the input file to those of the output file.
  unfoldable pub configure :
      (Bytes → String → Option (List Area)) → List Name → Options → Bytes → Result Image
  configure fmap_decode names o input = do
    image ← new_image fmap_decode input
    settings ← settings_of o
    packed ← pack_settings names settings
    set_item image "SHARED_DATA" packed
