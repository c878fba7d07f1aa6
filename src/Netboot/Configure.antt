-- ===== src/Netboot/Configure.antt =====
-- The run of host/netboot_firmware_settings.py from the input image to the output image.
use cros_dev_util.Base.{
  ℕ, refl, [], ◌∷◌, map, ap, ◌-◌, ◌≤◌, String, ◌≡◌, sym, ◌∙◌, inl, inr, subst, Option, some, List,
  ◌++◌, arith, Result, ok, >>=-eq-ok, ok-injective, length, replicate, dict_get, leb, Bool-cases,
}
use cros_dev_util.Netboot.{
  Bytes, Area, Image, ljust, set_item, get_item, new_image, settings_of, pack_settings, configure,
  Name, Options, Settings,
}
use cros_dev_util.Netboot.Reader.{Entry, attribute_code, content_of, read_settings}
use cros_dev_util.Netboot.Format.{read_settings-pack_settings}
use cros_dev_util.Netboot.Made.{stated, settings_of-stated}
use cros_dev_util.Netboot.Areas.{Inside, set_item-Written, set_item_too_large}

map_ext :
    {A B : Type 0} → (f g : A → B) → ((a : A) → f a ≡ g a) → (xs : List A) → map f xs ≡ map g xs
map_ext f g h [] = refl
map_ext f g h (x ∷ xs) = rw (h x, map_ext f g h xs) refl

-- What was written fitted.
set_item_fits :
    (image image' : Image) (key : String) (area : Area) (value : Bytes)
    → dict_get key image.areas ≡ some area
    → set_item image key value ≡ ok image'
    → length value ≤ area.size
set_item_fits image image' key area value known h =
    elim (Bool-cases (leb (length value) area.size)) [
      | inl small ↦ ground arith
      | inr large ↦
          absurd (cc (sym h ∙ set_item_too_large image key area value known (ground arith)))
    ]

set_item_content :
    (image image' : Image) (key : String) (area : Area) (value : Bytes)
    → dict_get key image.areas ≡ some area
    → Inside image area
    → set_item image key value ≡ ok image'
    → get_item image' key ≡ ok (value ++ replicate (area.size - length value) 0)
unfolding ljust
set_item_content image image' key area value known inside h =
    let fits = set_item_fits image image' key area value known h in
    let (written, e, w) = set_item-Written image key area value known inside fits in
    subst (λ i. get_item i key ≡ ok (value ++ replicate (area.size - length value) 0))
      (ok-injective (sym e ∙ h)) w.content

module _ (inet_pton : Bytes → Result Bytes) (fmap_decode : Bytes → String → Option (List Area))
    (names : List Name) (o : Options) (input : Bytes) (image image' : Image) (area : Area) where
  configure_packed :
      new_image fmap_decode input ≡ ok image
      → configure inet_pton fmap_decode names o input ≡ ok image'
      → (settings : Settings) × (packed : Bytes) × (settings_of inet_pton o ≡ ok settings)
        × (pack_settings names settings ≡ ok packed)
        × (set_item image "SHARED_DATA" packed ≡ ok image')
  unfolding configure
  configure_packed hi h =
      let (settings, hs, h') = >>=-eq-ok (settings_of inet_pton o) _ (rw hi at h) in
      let (packed, hp, h'') = >>=-eq-ok (pack_settings names settings) _ h' in
      (settings, packed, hs, hp, h'')

  -- If the run succeeds on an image whose shared data area lies inside it, then that area of the output
  -- image reads as a settings block, which has for each setting its code and the content that the
  -- options state, padded with NUL bytes.
  pub configure_readable :
      new_image fmap_decode input ≡ ok image
      → dict_get "SHARED_DATA" image.areas ≡ some area
      → Inside image area
      → configure inet_pton fmap_decode names o input ≡ ok image'
      → (content : Bytes) × (padding : ℕ) × (get_item image' "SHARED_DATA" ≡ ok content)
        × (read_settings content
            ≡ some (
              map (λ name. (attribute_code name, stated inet_pton o name)) names,
              replicate padding 0,
            ))
  configure_readable hi known inside h =
      let (settings, packed, hs, hp, hset) = configure_packed hi h in
      let rest = replicate (area.size - length packed) 0 in
      (
        packed ++ rest,
        area.size - length packed,
        set_item_content image image' "SHARED_DATA" area packed known inside hset,
        read_settings-pack_settings names settings packed rest hp
            ∙ ap (λ (entries : List Entry). some (entries, rest))
                (map_ext (λ name. (attribute_code name, content_of (settings name)))
                  (λ name. (attribute_code name, stated inet_pton o name))
                  (λ name.
                    ap (λ (b : Bytes). (attribute_code name, b))
                      (settings_of-stated inet_pton o settings name hs))
                  names),
      )
