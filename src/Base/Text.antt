-- ===== src/Base/Text.antt =====
-- What the code uses of Python's `str`: prefixes, substrings, slices, `strip`, `str(n)`, `int(s)`.
use Prim.Native.Nat.{ℕ, zero, suc, ◌+◌, ◌-◌, ◌*◌, ◌/◌, ◌%◌}
use Prim.Native.Char.{Char, code}
use Prim.Native.String.{String}
use Prim.Native.String.{◌++◌ as str_join}
use mathlib.Core.Bool.{Bool, true, false, ◌&&◌, ◌||◌}
use mathlib.Core.Option.{Option, none, some}
use cros_dev_util.Base.Tests.{◌==◌, leb, if◌then◌else◌}
use cros_dev_util.Base.Int.{ℤ, pos, negsuc, neg_ℕ}

unfoldable pub char_eq : Char → Char → Bool
char_eq c d = code c == code d

infixl 65 ◌+s◌
abbrev ◌+s◌ : String → String → String
◌+s◌ = str_join

-- s + t
abbrev pub str_append : String → String → String
str_append = str_join

-- len(s)
abbrev pub str_length : String → ℕ
str_length String.[] = 0
str_length (String.◌∷◌ c s) = suc (str_length s)

-- s[:n]
abbrev pub str_take : ℕ → String → String
str_take zero s = String.[]
str_take (suc n) String.[] = String.[]
str_take (suc n) (String.◌∷◌ c s) = String.◌∷◌ c (str_take n s)

-- s[n:]
abbrev pub str_drop : ℕ → String → String
str_drop zero s = s
str_drop (suc n) String.[] = String.[]
str_drop (suc n) (String.◌∷◌ c s) = str_drop n s

-- t.startswith(s)
unfoldable pub is_prefix : String → String → Bool
unfolding char_eq
is_prefix String.[] t = true
is_prefix (String.◌∷◌ c s) String.[] = false
is_prefix (String.◌∷◌ c s) (String.◌∷◌ d t) = char_eq c d && is_prefix s t

-- s in t
unfoldable pub is_substring : String → String → Bool
unfolding is_prefix
is_substring s String.[] = is_prefix s String.[]
is_substring s (String.◌∷◌ d t) = is_prefix s (String.◌∷◌ d t) || is_substring s t

-- t.endswith(s)
unfoldable pub ends_with : String → String → Bool
unfolding is_prefix
ends_with s t =
    leb (str_length s) (str_length t) && is_prefix s (str_drop (str_length t - str_length s) t)

digit : ℕ → Char
digit zero = "0"
digit (suc zero) = "1"
digit (suc (suc zero)) = "2"
digit (suc (suc (suc zero))) = "3"
digit (suc (suc (suc (suc zero)))) = "4"
digit (suc (suc (suc (suc (suc zero))))) = "5"
digit (suc (suc (suc (suc (suc (suc zero)))))) = "6"
digit (suc (suc (suc (suc (suc (suc (suc zero))))))) = "7"
digit (suc (suc (suc (suc (suc (suc (suc (suc zero)))))))) = "8"
digit _ = "9"

emit : ℕ → ℕ → String → String
emit zero n out = out
emit (suc fuel) n out =
    let rest = emit fuel (n / 10) (String.◌∷◌ (digit (n % 10)) out) in if n == 0 then out else rest

-- str(n): a positive n has at most n decimal digits.
unfoldable pub str_of_nat : ℕ → String
unfolding digit emit
str_of_nat n = if n == 0 then "0" else emit n n ""

unfoldable pub str_of_int : ℤ → String
unfolding str_of_nat
str_of_int (pos n) = str_of_nat n
str_of_int (negsuc n) = "-" +s str_of_nat (suc n)

is_space : Char → Bool
is_space c = code c == 32 || (leb 9 (code c) && leb (code c) 13)

is_digit : Char → Bool
is_digit c = leb 48 (code c) && leb (code c) 57

all_spaces : String → Bool
all_spaces String.[] = true
all_spaces (String.◌∷◌ c s) = is_space c && all_spaces s

-- The digits after the first, and the spaces behind them.
scan_digits : ℕ → String → Option ℕ
scan_digits n String.[] = some n
scan_digits n (String.◌∷◌ c s) =
    let rest = scan_digits (n * 10 + (code c - 48)) s in
    if is_digit c then rest else if is_space c && all_spaces s then some n else none

unsigned_of : String → Option ℕ
unsigned_of String.[] = none
unsigned_of (String.◌∷◌ c s) = if is_digit c then scan_digits (code c - 48) s else none

int_map : (ℕ → ℤ) → Option ℕ → Option ℤ
int_map f none = none
int_map f (some n) = some (f n)

signed_of : String → Option ℤ
signed_of String.[] = none
signed_of (String.◌∷◌ c s) =
    if code c == b'-'
    then int_map neg_ℕ (unsigned_of s)
    else if code c == b'+'
    then int_map pos (unsigned_of s)
    else int_map pos (unsigned_of (String.◌∷◌ c s))

skip_spaces : String → String
skip_spaces String.[] = String.[]
skip_spaces (String.◌∷◌ c s) =
    let rest = skip_spaces s in if is_space c then rest else String.◌∷◌ c s

-- int(s) for a text of ASCII characters; `none` is its ValueError.
unfoldable pub int_of : String → Option ℤ
unfolding is_space is_digit all_spaces scan_digits unsigned_of int_map signed_of skip_spaces
int_of s = signed_of (skip_spaces s)

strip_left : ℕ → String → String
strip_left k String.[] = String.[]
strip_left k (String.◌∷◌ c s) =
    let rest = strip_left k s in if code c == k then rest else String.◌∷◌ c s

is_nil : String → Bool
is_nil String.[] = true
is_nil (String.◌∷◌ c s) = false

strip_right : ℕ → String → String
strip_right k String.[] = String.[]
strip_right k (String.◌∷◌ c s) =
    let rest = strip_right k s in
    if code c == k && is_nil rest then String.[] else String.◌∷◌ c rest

-- s.strip(c), for the character with code `k`
unfoldable pub strip_char : ℕ → String → String
unfolding strip_left is_nil strip_right
strip_char k s = strip_right k (strip_left k s)
