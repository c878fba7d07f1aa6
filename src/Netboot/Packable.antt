-- ===== src/Netboot/Packable.antt =====
-- Packing the settings of host/netboot_firmware_settings.py does not fail on values that have a length
-- of four bytes.
use cros_dev_util.Base.{
  ℕ, ◌/◌, ◌%◌, ◌^◌, ◌<◌, ◌≡◌, refl, Option, List, [], ◌∷◌, ◌++◌, arith, ok, length, replicate, All,
}
use cros_dev_util.Netboot.{
  Bytes, pack_int, pad_len, pack_attribute, value_of, Name, tftp_server_ip, kernel_args, bootfile,
  argsfile, code_of, Settings, signature, pack_attributes, pack_settings,
}

pack_int_total : (n : ℕ) → n < 2 ^ 32 → (p : Bytes) × (pack_int n ≡ ok p)
unfolding pack_int
pack_int_total n h =
    (n % 256 ∷ n / 256 % 256 ∷ n / 65536 % 256 ∷ n / 16777216 % 256 ∷ [], ground arith)

code_of_small : (name : Name) → code_of name < 2 ^ 32
code_of_small tftp_server_ip = omega arith
code_of_small kernel_args = omega arith
code_of_small bootfile = omega arith
code_of_small argsfile = omega arith

pack_attribute_total :
    (c : ℕ) (v : Option Bytes)
    → c < 2 ^ 32
    → length (value_of v) < 2 ^ 32
    → (p : Bytes) × (pack_attribute c v ≡ ok p)
unfolding pack_attribute
pack_attribute_total c v hc hv =
    let (pc, ec) = pack_int_total c hc in
    let (pl, el) = pack_int_total (length (value_of v)) hv in
    (pc ++ (pl ++ (value_of v ++ replicate (pad_len (length (value_of v))) 0)), rw (ec, el) refl)

pack_attributes_total :
    (names : List Name) (settings : Settings)
    → All (λ name. length (value_of (settings name)) < 2 ^ 32) names
    → (p : Bytes) × (pack_attributes names settings ≡ ok p)
unfolding pack_attributes
pack_attributes_total [] settings h = ([], refl)
pack_attributes_total (name ∷ names) settings h =
    let (a, ea) = pack_attribute_total (code_of name) (settings name) (code_of_small name) h.0 in
    let (rest, er) = pack_attributes_total names settings h.1 in (a ++ rest, rw (ea, er) refl)

-- Settings whose values are shorter than 2^32 bytes can be packed.
pub pack_settings_total :
    (names : List Name) (settings : Settings)
    → length names < 2 ^ 32
    → All (λ name. length (value_of (settings name)) < 2 ^ 32) names
    → (p : Bytes) × (pack_settings names settings ≡ ok p)
unfolding pack_settings
pack_settings_total names settings hn h =
    let (n, en) = pack_int_total (length names) hn in
    let (body, eb) = pack_attributes_total names settings h in
    (signature ++ (n ++ body), rw (en, eb) refl)
