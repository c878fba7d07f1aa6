-- ===== src/Netboot/Made.antt =====
-- The settings that main of host/netboot_firmware_settings.py makes of its options, one by one.
use cros_dev_util.Base.{
  ◌≡◌, refl, ap, ◌∙◌, sym, String, true, false, Option, none, some, List, [], ◌∷◌, ◌++◌,
  append_assoc, Result, ok, err, >>=-eq-ok, ok-injective, subst, if◌then◌else◌, ◌>>=◌,
}
use cros_dev_util.Netboot.{
  Bytes, bytes_of, Name, tftp_server_ip, kernel_args, bootfile, argsfile, Options, Settings,
  no_settings, set_setting, same_name, set_path, given, join_spaces, optional_arg, kernel_args_of,
  ip_settings, settings_of, value_of,
}
use cros_dev_util.Netboot.Reader.{content_of}

-- Words with a space between them, and a NUL.
abbrev pub spaced : List Bytes → Bytes
spaced [] = 0 ∷ []
spaced (word ∷ words) = elim words as (λ _. Bytes) [
  | [] ↦ word ++ 0 ∷ []
  | _ ∷ _ ↦ word ++ 32 ∷ spaced words
]

-- An argument for the kernel, and the space behind it.
abbrev pub argument : String → Option Bytes → Bytes
argument key none = []
argument key (some []) = []
argument key (some (c ∷ text)) = bytes_of key ++ ((c ∷ text) ++ 32 ∷ [])

-- A path with its NUL.
abbrev pub path_text : Option Bytes → Bytes
path_text none = []
path_text (some []) = []
path_text (some (c ∷ text)) = (c ∷ text) ++ 0 ∷ []

abbrev pub bytes_or_none : Result Bytes → Bytes
bytes_or_none (ok b) = b
bytes_or_none (err e) = []

module _ (inet_pton : Bytes → Result Bytes) where
  abbrev pub address : Option Bytes → Bytes
  address none = []
  address (some []) = []
  address (some (c ∷ text)) = bytes_or_none (inet_pton (c ∷ text))

  -- The content of each setting, in terms of the options.
  abbrev pub stated : Options → Name → Bytes
  stated o tftp_server_ip = address o.tftpserverip
  stated o kernel_args =
      argument "cros_board=" o.board
      ++ (argument "omahaserver=" o.omahaserver ++ spaced o.extra_args)
  stated o bootfile = path_text o.bootfile_path
  stated o argsfile = path_text o.argsfile_path

spaced-join_spaces : (words : List Bytes) → join_spaces words ++ 0 ∷ [] ≡ spaced words
unfolding join_spaces
spaced-join_spaces [] = refl
spaced-join_spaces (word ∷ []) = refl
spaced-join_spaces (word ∷ next ∷ words) =
    append_assoc word (32 ∷ join_spaces (next ∷ words)) (0 ∷ [])
    ∙ ap (λ rest. word ++ 32 ∷ rest) (spaced-join_spaces (next ∷ words))

argument-optional_arg : (key : String) (v : Option Bytes) → optional_arg key v ≡ argument key v
argument-optional_arg key none = refl
argument-optional_arg key (some []) = refl
argument-optional_arg key (some (c ∷ text)) = refl

set_path-other :
    (name other : Name) (v : Option Bytes) (s : Settings)
    → same_name name other ≡ false
    → set_path name v s other ≡ s other
set_path-other name other none s h = refl
set_path-other name other (some []) s h = refl
set_path-other name other (some (c ∷ text)) s h = rw h refl

set_path-text :
    (name : Name) (v : Option Bytes) (s : Settings)
    → same_name name name ≡ true
    → s name ≡ none
    → content_of (set_path name v s name) ≡ path_text v
set_path-text name none s h e = ap content_of e
set_path-text name (some []) s h e = ap content_of e
set_path-text name (some (c ∷ text)) s h e = rw h refl

module _ (inet_pton : Bytes → Result Bytes) where
  abbrev ip_of : Option Bytes → Result Settings
  ip_of v =
      let with_ip : Result Settings =
        inet_pton (value_of v) >>= λ ip. ok (set_setting tftp_server_ip ip no_settings) in
      if given v then with_ip else ok no_settings

  abbrev OnlyIp : Option Bytes → Settings → Type 0
  OnlyIp v s =
      (content_of (s tftp_server_ip) ≡ address inet_pton v)
      × (s bootfile ≡ none)
      × (s argsfile ≡ none)

  ip_of-OnlyIp : (v : Option Bytes) (s : Settings) → ip_of v ≡ ok s → OnlyIp v s
  ip_of-OnlyIp none s h = subst (OnlyIp none) (ok-injective h) (refl, refl, refl)
  ip_of-OnlyIp (some []) s h = subst (OnlyIp (some [])) (ok-injective h) (refl, refl, refl)
  ip_of-OnlyIp (some (c ∷ text)) s h =
      let (ip, e, h') = >>=-eq-ok (inet_pton (c ∷ text)) _ h in
      subst (OnlyIp (some (c ∷ text))) (ok-injective h') (sym (ap bytes_or_none e), refl, refl)

  -- Each setting has the content that is stated of the options.
  pub settings_of-stated :
      (o : Options) (settings : Settings) (name : Name)
      → settings_of inet_pton o ≡ ok settings
      → content_of (settings name) ≡ stated inet_pton o name
  unfolding settings_of ip_settings kernel_args_of
  settings_of-stated o settings name h =
      let (s, hs, h') = >>=-eq-ok (ip_of o.tftpserverip) _ h in
      let (ip, boot, args) = ip_of-OnlyIp o.tftpserverip s hs in
      let with_args : Settings = set_setting kernel_args (kernel_args_of o) s in
      let with_boot : Settings = set_path bootfile o.bootfile_path with_args in
      subst (λ (made : Settings). content_of (made name) ≡ stated inet_pton o name)
        (ok-injective h')
        (elim name
          as (λ name.
            content_of (set_path argsfile o.argsfile_path with_boot name)
            ≡ stated inet_pton o name) [
              | tftp_server_ip ↦
                  ap content_of (
                    set_path-other argsfile tftp_server_ip o.argsfile_path with_boot refl
                    ∙ set_path-other bootfile tftp_server_ip o.bootfile_path with_args refl)
                  ∙ ip
              | kernel_args ↦
                  ap content_of (
                    set_path-other argsfile kernel_args o.argsfile_path with_boot refl
                    ∙ set_path-other bootfile kernel_args o.bootfile_path with_args refl)
                  ∙ rw
                      (
                        argument-optional_arg "cros_board=" o.board,
                        argument-optional_arg "omahaserver=" o.omahaserver,
                        spaced-join_spaces o.extra_args,
                      )
                      refl
              | bootfile ↦
                  ap content_of (set_path-other argsfile bootfile o.argsfile_path with_boot refl)
                  ∙ set_path-text bootfile o.bootfile_path with_args refl boot
              | argsfile ↦
                  set_path-text argsfile o.argsfile_path with_boot refl
                    (set_path-other bootfile argsfile o.bootfile_path with_args refl ∙ args)
            ])
