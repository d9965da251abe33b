-- ===== src/Shared/Texts.antt =====
-- What the program uses of Go's `strings`, over native texts.
use Prim.Native.Char.{Char, code}
use Prim.Native.Nat.{ℕ, zero, suc, ◌-◌, ◌/◌, ◌%◌}
use mathlib.Core.Path.{◌≡◌, refl}
use Prim.Native.String
use Prim.Native.String.{String}
use mathlib.Core.Bool.{Bool, ◌&&◌, ◌||◌}
use mathlib.Core.List.{List, [], ◌∷◌}
use text.Mathlib.Text.{◌==◌ as text_eq}
use package.kubedrill.Shared.Tests.{leb, nat_eq, if◌then◌else◌}

-- Two texts end to end.
infixr 66 ◌⧺◌
abbrev pub ◌⧺◌ : String → String → String
s ⧺ t = String.◌++◌ s t

-- `strings.Join`
unfoldable pub join : String → List String → String
join sep [] = ""
join sep (s ∷ []) = s
join sep (s ∷ t ∷ r) = s ⧺ sep ⧺ join sep (t ∷ r)

unfoldable pub map_chars : (Char → Char) → String → String
map_chars f String.[] = String.[]
map_chars f (String.◌∷◌ c s) = String.◌∷◌ (f c) (map_chars f s)

abbrev nth_char : ℕ → String → Char → Char
nth_char n String.[] d = d
nth_char zero (String.◌∷◌ c s) d = c
nth_char (suc n) (String.◌∷◌ c s) d = nth_char n s d

-- `unicode.ToLower` where the result is an ASCII letter: of A to Z, of the Kelvin sign and of the
-- dotted capital I. The other letters outside ASCII are left as they are.
unfoldable pub lower_char : Char → Char
lower_char c =
    if leb b'A' (code c) && leb (code c) b'Z'
    then nth_char (code c - b'A') "abcdefghijklmnopqrstuvwxyz" c
    else if nat_eq (code c) 0x212a
    then "k"
    else if nat_eq (code c) 0x130
    then "i"
    else c

-- `strings.ToLower`
unfoldable pub to_lower : String → String
unfolding map_chars lower_char
to_lower = map_chars lower_char

-- Simple case folding to a lower-case ASCII letter, of the Kelvin sign and the long s too.
unfoldable pub fold_char : Char → Char
fold_char c =
    if leb b'A' (code c) && leb (code c) b'Z'
    then nth_char (code c - b'A') "abcdefghijklmnopqrstuvwxyz" c
    else if nat_eq (code c) 0x212a
    then "k"
    else if nat_eq (code c) 0x17f
    then "s"
    else c

-- `strings.EqualFold(s, t)` at an ASCII text `t`
unfoldable pub equal_fold : String → String → Bool
unfolding map_chars fold_char
equal_fold s t = text_eq (map_chars fold_char s) (map_chars fold_char t)

-- `strconv.Quote`, the `%q` of `fmt`: exact on ASCII texts. Of the others it would also escape what
-- does not print.
abbrev hex_digit : ℕ → Char
hex_digit n = nth_char n "0123456789abcdef" "0"

unfoldable pub quote_char : Char → String
quote_char c =
    let n = code c in
    if nat_eq n b'"'
    then "\\\""
    else if nat_eq n 92
    then "\\\\"
    else if nat_eq n 7
    then "\\a"
    else if nat_eq n 8
    then "\\b"
    else if nat_eq n 9
    then "\\t"
    else if nat_eq n 10
    then "\\n"
    else if nat_eq n 11
    then "\\v"
    else if nat_eq n 12
    then "\\f"
    else if nat_eq n 13
    then "\\r"
    else if leb n 31 || nat_eq n 127
    then "\\x" ⧺ String.◌∷◌ (hex_digit (n / 16)) (String.◌∷◌ (hex_digit (n % 16)) String.[])
    else String.◌∷◌ c String.[]

unfoldable pub quote_chars : String → String
unfolding quote_char
quote_chars String.[] = String.[]
quote_chars (String.◌∷◌ c s) = quote_char c ⧺ quote_chars s

unfoldable pub quote : String → String
unfolding quote_chars
quote s = "\"" ⧺ quote_chars s ⧺ "\""

quote_test : quote "a\"b" ≡ "\"a\\\"b\""
unfolding quote
quote_test = refl
