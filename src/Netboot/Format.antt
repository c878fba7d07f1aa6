-- ===== src/Netboot/Format.antt =====
-- The settings block that host/netboot_firmware_settings.py packs is read back by the reader of
-- Netboot/Reader.
use cros_dev_util.Base.{
  ℕ, zero, suc, ◌+◌, ◌-◌, ◌≡◌, refl, ap, ◌∙◌, true, Option, none, some, List, [], ◌∷◌, ◌++◌,
  append_assoc, arith, ok, >>=-eq-ok, ok-injective, subst, length, length-append, length-replicate,
  take, drop, take-append, drop-append, replicate, leb,
}
use cros_dev_util.Netboot.{
  Bytes, pack_int, pad_len, pack_attribute, value_of, Name, tftp_server_ip, kernel_args, bootfile,
  argsfile, code_of, Settings, signature, pack_attributes, pack_settings,
}
use cros_dev_util.Netboot.Reader.{
  read_int, Entry, round_up, all_nul, take_value, read_entry, read_entries, strip_prefix,
  read_settings, attribute_code, content_of, entries_of,
}

read_int-pack_int :
    (n : ℕ) (packed rest : Bytes)
    → pack_int n ≡ ok packed
    → read_int (packed ++ rest) ≡ some (n, rest)
unfolding read_int pack_int
read_int-pack_int n packed rest h = ground arith

padded_length : (v : Bytes) (p : ℕ) → length (v ++ replicate p 0) ≡ length v + p
padded_length v p = length-append v (replicate p 0) ∙ ap (λ n. length v + n) (length-replicate p 0)

drop_padded : (v rest : Bytes) (p : ℕ) → drop (length v + p) (v ++ (replicate p 0 ++ rest)) ≡ rest
drop_padded v rest p =
    rw (← padded_length v p, ← append_assoc v (replicate p 0) rest)
      (drop-append (v ++ replicate p 0) rest)

fits_padded :
    (v rest : Bytes) (p : ℕ) → leb (length v + p) (length (v ++ (replicate p 0 ++ rest))) ≡ true
fits_padded v rest p = ground (
  arith,
  length-append v (replicate p 0 ++ rest),
  length-append (replicate p 0) rest,
  length-replicate {A = ℕ} p 0,
)

pad_len-round_up : (n : ℕ) → n + pad_len n ≡ round_up n
unfolding pad_len
pad_len-round_up n = ground arith

pad_len-rest : (n : ℕ) → round_up n - n ≡ pad_len n
pad_len-rest n = omega (arith, pad_len-round_up n)

all_nul-replicate : (p : ℕ) → all_nul (replicate p 0) ≡ true
all_nul-replicate zero = refl
all_nul-replicate (suc p) = all_nul-replicate p

padding_read :
    (v rest : Bytes) (p : ℕ)
    → take p (drop (length v) (v ++ (replicate p 0 ++ rest))) ≡ replicate p 0
padding_read v rest p =
    ap (take p) (drop-append v (replicate p 0 ++ rest))
    ∙ subst (λ n. take n (replicate p 0 ++ rest) ≡ replicate p 0) (length-replicate p 0)
        (take-append (replicate p 0) rest)

take_value-padded :
    (c : ℕ) (v rest : Bytes)
    → take_value c (length v) (v ++ (replicate (pad_len (length v)) 0 ++ rest))
      ≡ some ((c, v), rest)
unfolding take_value
take_value-padded c v rest =
    rw
      (
        pad_len-rest (length v),
        ← pad_len-round_up (length v),
        fits_padded v rest (pad_len (length v)),
        padding_read v rest (pad_len (length v)),
        all_nul-replicate (pad_len (length v)),
        take-append v (replicate (pad_len (length v)) 0 ++ rest),
        drop_padded v rest (pad_len (length v)),
      )
      refl

read_parts :
    (c : ℕ) (v packed_code packed_len rest : Bytes)
    → pack_int c ≡ ok packed_code
    → pack_int (length v) ≡ ok packed_len
    → read_entry ((packed_code ++ (packed_len ++ (v ++ replicate (pad_len (length v)) 0))) ++ rest)
      ≡ some ((c, v), rest)
unfolding read_entry
read_parts c v packed_code packed_len rest hc hl =
    rw
      (
        append_assoc packed_code (packed_len ++ (v ++ replicate (pad_len (length v)) 0)) rest,
        append_assoc packed_len (v ++ replicate (pad_len (length v)) 0) rest,
        append_assoc v (replicate (pad_len (length v)) 0) rest,
      )
      (ground (
        arith,
        read_int-pack_int c packed_code
            (packed_len ++ (v ++ (replicate (pad_len (length v)) 0 ++ rest))) hc,
        read_int-pack_int (length v) packed_len (v ++ (replicate (pad_len (length v)) 0 ++ rest))
            hl,
        take_value-padded c v rest,
      ))

read_entry-pack_attribute :
    (c : ℕ) (v : Option Bytes) (packed rest : Bytes)
    → pack_attribute c v ≡ ok packed
    → read_entry (packed ++ rest) ≡ some ((c, value_of v), rest)
unfolding pack_attribute
read_entry-pack_attribute c v packed rest h =
    let (pc, hc, h') = >>=-eq-ok (pack_int c) _ h in
    let (pl, hl, h'') = >>=-eq-ok (pack_int (length (value_of v))) _ h' in
    subst (λ p. read_entry (p ++ rest) ≡ some ((c, value_of v), rest)) (ok-injective h'')
      (read_parts c (value_of v) pc pl rest hc hl)

entry_known :
    (name : Name) (v : Option Bytes)
    → ◌≡◌ {A = Entry} (code_of name, value_of v) (attribute_code name, content_of v)
entry_known tftp_server_ip none = refl
entry_known tftp_server_ip (some v) = refl
entry_known kernel_args none = refl
entry_known kernel_args (some v) = refl
entry_known bootfile none = refl
entry_known bootfile (some v) = refl
entry_known argsfile none = refl
entry_known argsfile (some v) = refl

read_known :
    (name : Name) (v : Option Bytes) (packed rest : Bytes)
    → pack_attribute (code_of name) v ≡ ok packed
    → read_entry (packed ++ rest) ≡ some ((attribute_code name, content_of v), rest)
read_known name v packed rest h =
    read_entry-pack_attribute (code_of name) v packed rest h
    ∙ ap (λ (e : Entry). some (e, rest)) (entry_known name v)

read_entries-pack_attributes :
    (names : List Name) (settings : Settings) (packed rest : Bytes)
    → pack_attributes names settings ≡ ok packed
    → read_entries (length names) (packed ++ rest) ≡ some (entries_of names settings, rest)
unfolding read_entries pack_attributes
read_entries-pack_attributes [] settings packed rest h = rw (← ok-injective h) refl
read_entries-pack_attributes (name ∷ names) settings packed rest h =
    let (a, ha, h') = >>=-eq-ok (pack_attribute (code_of name) (settings name)) _ h in
    let (as', hs, h'') = >>=-eq-ok (pack_attributes names settings) _ h' in
    subst
      (λ p.
        read_entries (suc (length names)) (p ++ rest)
        ≡ some
            ((attribute_code name, content_of (settings name)) ∷ entries_of names settings, rest))
      (ok-injective h'')
      (rw (append_assoc a as' rest) (
        ground (
          arith,
          read_known name (settings name) a (as' ++ rest) ha,
          read_entries-pack_attributes names settings as' rest hs,
        )))

strip_prefix-append : (p s : Bytes) → strip_prefix p (p ++ s) ≡ some s
unfolding strip_prefix
strip_prefix-append [] s = refl
strip_prefix-append (b ∷ p) s = ground (arith, strip_prefix-append p s)

-- Whatever the order in which the settings are walked, a reader of the packed block gets back the
-- code and the value of each, and what follows the block.
pub read_settings-pack_settings :
    (names : List Name) (settings : Settings) (packed rest : Bytes)
    → pack_settings names settings ≡ ok packed
    → read_settings (packed ++ rest) ≡ some (entries_of names settings, rest)
unfolding pack_settings read_settings
read_settings-pack_settings names settings packed rest h =
    let (n, hn, h') = >>=-eq-ok (pack_int (length names)) _ h in
    let (body, hb, h'') = >>=-eq-ok (pack_attributes names settings) _ h' in
    subst (λ p. read_settings (p ++ rest) ≡ some (entries_of names settings, rest))
      (ok-injective h'')
      (rw (append_assoc n body rest) (
        ground (
          arith,
          strip_prefix-append signature (n ++ (body ++ rest)),
          read_int-pack_int (length names) n (body ++ rest) hn,
          read_entries-pack_attributes names settings body rest hb,
        )))
