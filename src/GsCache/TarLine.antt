-- ===== src/GsCache/TarLine.antt =====
-- Lines of `tar tvR`, written and read again by gs_cache/tarfile_utils.py.
use cros_dev_util.Base.{
  ℕ, suc, Char, String, Bool, true, false, ◌&&◌, not, some, List, [], ◌∷◌, ◌≡◌, refl, sym, ap, ◌∙◌,
  subst, arith, length, str_append,
}
use cros_dev_util.GsCache.TarList.{
  is_separator, field_of, skip_separators, behind_field, split_fields, strip_newlines, end_with,
  TarListCommandResult, command_result, make, fill,
}
use Prim.Native.String.append

and_parts : (a b : Bool) → a && b ≡ true → (a ≡ true) × (b ≡ true)
and_parts true b h = (refl, h)
and_parts false b h = (h, cc h)

not-true : (a : Bool) → not a ≡ true → a ≡ false
not-true true h = cc h
not-true false h = refl

abbrev all_chars : (Char → Bool) → String → Bool
all_chars p String.[] = true
all_chars p (String.◌∷◌ c s) = p c && all_chars p s

-- A text that begins with a character other than a separator.
abbrev pub begins_field : String → Bool
begins_field String.[] = false
begins_field (String.◌∷◌ c s) = not (is_separator c)

abbrev is_field : String → Bool
is_field s = begins_field s && all_chars (λ c. not (is_separator c)) s

-- One separator or more.
abbrev is_gap : String → Bool
is_gap String.[] = false
is_gap (String.◌∷◌ c s) = is_separator c && all_chars is_separator s

-- Fields with what separates them from the next, and the name.
abbrev pub line_of : List (String × String) → String → String
line_of [] name = name
line_of ((field, gap) ∷ parts) name = str_append field (str_append gap (line_of parts name))

abbrev pub are_parts : List (String × String) → Bool
are_parts [] = true
are_parts ((field, gap) ∷ parts) = is_field field && (is_gap gap && are_parts parts)

abbrev pub fields_of : List (String × String) → String → List String
fields_of [] name = name ∷ []
fields_of ((field, gap) ∷ parts) name = field ∷ fields_of parts name

begins_field-append : (s t : String) → begins_field s ≡ true → begins_field (str_append s t) ≡ true
begins_field-append String.[] t h = cc h
begins_field-append (String.◌∷◌ c s) t h = rw (append.cons c s t) h

skip_separators-field : (s : String) → begins_field s ≡ true → skip_separators s ≡ s
unfolding skip_separators
skip_separators-field String.[] h = refl
skip_separators-field (String.◌∷◌ c s) h = ground (arith, h)

skip_separators-gap :
    (gap s : String)
    → all_chars is_separator gap ≡ true
    → skip_separators (str_append gap s) ≡ skip_separators s
unfolding skip_separators
skip_separators-gap String.[] s h = ap skip_separators (append.nil s)
skip_separators-gap (String.◌∷◌ c gap) s h =
    let (sep, seps) = and_parts (is_separator c) (all_chars is_separator gap) h in
    rw (append.cons c gap s, sep) (skip_separators-gap gap s seps)

abbrev not_separator : Char → Bool
not_separator c = not (is_separator c)

field_of-append :
    (field : String) (c : Char) (s : String)
    → all_chars not_separator field ≡ true
    → is_separator c ≡ true
    → field_of (str_append field (String.◌∷◌ c s)) ≡ field
unfolding field_of
field_of-append String.[] c s h sep = ap field_of (append.nil (String.◌∷◌ c s)) ∙ rw sep refl
field_of-append (String.◌∷◌ d field) c s h sep =
    let (here, there) = and_parts (not_separator d) (all_chars not_separator field) h in
    rw (append.cons d field (String.◌∷◌ c s), not-true (is_separator d) here)
      (ap (String.◌∷◌ d) (field_of-append field c s there sep))

behind_field-append :
    (field : String) (c : Char) (s : String)
    → all_chars not_separator field ≡ true
    → is_separator c ≡ true
    → behind_field (str_append field (String.◌∷◌ c s)) ≡ some (skip_separators s)
unfolding behind_field
behind_field-append String.[] c s h sep =
    ap behind_field (append.nil (String.◌∷◌ c s)) ∙ rw sep refl
behind_field-append (String.◌∷◌ d field) c s h sep =
    let (here, there) = and_parts (not_separator d) (all_chars not_separator field) h in
    rw (append.cons d field (String.◌∷◌ c s), not-true (is_separator d) here)
      (behind_field-append field c s there sep)

line_of-begins :
    (parts : List (String × String)) (name : String)
    → are_parts parts ≡ true
    → begins_field name ≡ true
    → begins_field (line_of parts name) ≡ true
line_of-begins [] name h b = b
line_of-begins ((field, gap) ∷ parts) name h b =
    let (is_f, _) = and_parts (is_field field) _ h in
    begins_field-append field (str_append gap (line_of parts name))
      ((and_parts (begins_field field) _ is_f).0)

split_fields-some :
    (n : ℕ) (s rest : String)
    → behind_field s ≡ some rest
    → split_fields (suc n) s ≡ field_of s ∷ split_fields n rest
unfolding split_fields
split_fields-some n s rest h = rw (h, split_fields) refl

split_fields-part :
    (n : ℕ) (field gap rest : String)
    → is_field field ≡ true
    → is_gap gap ≡ true
    → begins_field rest ≡ true
    → split_fields (suc n) (str_append field (str_append gap rest)) ≡ field ∷ split_fields n rest
unfolding split_fields
split_fields-part n field String.[] rest is_f is_g b = cc is_g
split_fields-part n field (String.◌∷◌ c gap) rest is_f is_g b =
    let (_, chars) = and_parts (begins_field field) (all_chars not_separator field) is_f in
    let (sep, seps) = and_parts (is_separator c) (all_chars is_separator gap) is_g in
    let s = str_append gap rest in
    let behind = skip_separators-gap gap rest seps ∙ skip_separators-field rest b in
    ap (λ t. split_fields (suc n) (str_append field t)) (append.cons c gap rest)
    ∙ split_fields-some n (str_append field (String.◌∷◌ c s)) (skip_separators s)
        (behind_field-append field c s chars sep)
    ∙ ap (λ f. f ∷ split_fields n (skip_separators s)) (field_of-append field c s chars sep)
    ∙ ap (λ r. field ∷ split_fields n r) behind

split_fields-line_of :
    (parts : List (String × String)) (name : String)
    → are_parts parts ≡ true
    → begins_field name ≡ true
    → split_fields (length parts) (line_of parts name) ≡ fields_of parts name
unfolding split_fields
split_fields-line_of [] name h b = refl
split_fields-line_of ((field, gap) ∷ parts) name h b =
    let (is_f, more) = and_parts (is_field field) _ h in
    let (is_g, are) = and_parts (is_gap gap) (are_parts parts) more in
    split_fields-part (length parts) field gap (line_of parts name) is_f is_g
      (line_of-begins parts name are b)
    ∙ ap (List.◌∷◌ field) (split_fields-line_of parts name are b)

strip_newlines-newline : (s : String) → strip_newlines (str_append s "\n") ≡ strip_newlines s
unfolding strip_newlines
strip_newlines-newline String.[] = refl
strip_newlines-newline (String.◌∷◌ c s) =
    rw (append.cons c s "\n") (ap (end_with c) (strip_newlines-newline s))

abbrev is_some_text : String → Bool
is_some_text String.[] = false
is_some_text (String.◌∷◌ c s) = true

abbrev IsStripped : String → Type 0
IsStripped s = (is_some_text s ≡ true) × (strip_newlines s ≡ s)

end_with-some_text : (c : Char) (s : String) → is_some_text s ≡ true → end_with c s ≡ String.◌∷◌ c s
end_with-some_text c String.[] h = cc h
end_with-some_text c (String.◌∷◌ d s) h = refl

append-IsStripped : (s t : String) → IsStripped t → IsStripped (str_append s t)
unfolding strip_newlines
append-IsStripped String.[] t h = subst IsStripped (sym (append.nil t)) h
append-IsStripped (String.◌∷◌ c s) t h =
    let (some_text, stripped) = append-IsStripped s t h in
    subst IsStripped (sym (append.cons c s t))
      (refl, ap (end_with c) stripped ∙ end_with-some_text c (str_append s t) some_text)

begins_field-some_text : (s : String) → begins_field s ≡ true → is_some_text s ≡ true
begins_field-some_text String.[] h = h
begins_field-some_text (String.◌∷◌ c s) h = refl

line_of-IsStripped :
    (parts : List (String × String)) (name : String)
    → IsStripped name
    → IsStripped (line_of parts name)
line_of-IsStripped [] name h = h
line_of-IsStripped ((field, gap) ∷ parts) name h =
    append-IsStripped field (str_append gap (line_of parts name))
      (append-IsStripped gap (line_of parts name) (line_of-IsStripped parts name h))

-- The fields of a line, each with what stands behind it.
abbrev pub parts_of : TarListCommandResult → (ℕ → String) → List (String × String)
parts_of file gap =
    (file.block, gap 0)
    ∷ (file.block_num, gap 1)
    ∷ (file.mode, gap 2)
    ∷ (file.ownership, gap 3)
    ∷ (file.size_str, gap 4)
    ∷ (file.date, gap 5)
    ∷ (file.hour, gap 6)
    ∷ (file.min, gap 7)
    ∷ []

-- A line that tar writes, with any separators between its fields.
abbrev pub line : TarListCommandResult → (ℕ → String) → String
line file gap = str_append (line_of (parts_of file gap) file.filename) "\n"

-- A line of eight fields without separators, each followed by one separator or more, and of a name
-- that begins with no separator and ends in no newline, is read back as these fields and this name.
-- The name may hold separators.
pub command_result-line :
    (file : TarListCommandResult) (gap : ℕ → String)
    → are_parts (parts_of file gap) ≡ true
    → begins_field file.filename ≡ true
    → strip_newlines file.filename ≡ file.filename
    → command_result (line file gap) ≡ file
unfolding command_result
command_result-line file gap are begins stripped =
    let parts = parts_of file gap in
    let kept =
      line_of-IsStripped parts file.filename
        (begins_field-some_text file.filename begins, stripped) in
    ap (λ s. make (fill (split_fields 8 s)))
      (strip_newlines-newline (line_of parts file.filename) ∙ kept.1)
    ∙ ap (λ fields. make (fill fields)) (split_fields-line_of parts file.filename are begins)
