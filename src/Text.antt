-- ===== src/Text.antt =====
-- What the program takes from the packages strings and strconv, and the tests on texts of
-- shared/util.go.
pub mod Affix
pub mod Truth
use Prim.Native.Char.{Char, code}
use Prim.Native.String.{String}
use text.Mathlib.Text.{◌==◌ as str_eq}
use lxd_pkg_ubuntu.Prelude.{
  ℕ, ◌+◌, ◌*◌, ◌-◌, ◌^◌, Bool, true, false, ◌&&◌, ◌||◌, if◌then◌else◌, ◌==◌, leb, ltb, List, [],
  ◌∷◌, Option, none, some, map,
}

abbrev pub codes : String → List ℕ
codes String.[] = []
codes (String.◌∷◌ c s) = code c ∷ codes s

unfoldable pub add_char : Char → List String → List String
add_char c [] = String.◌∷◌ c String.[] ∷ []
add_char c (w ∷ ws) = String.◌∷◌ c w ∷ ws

-- `strings.Split(s, sep)`, for a separator of one character.
unfoldable pub split : ℕ → String → List String
unfolding add_char
split sep String.[] = String.[] ∷ []
split sep (String.◌∷◌ c s) =
    let rest = split sep s in if code c == sep then String.[] ∷ rest else add_char c rest

-- The decimal digits of a text, read on from a number.
unfoldable pub digits : List ℕ → ℕ → Option ℕ
digits [] n = some n
digits (c ∷ cs) n =
    let rest = digits cs (n * 10 + (c - 48)) in if leb 48 c && leb c 57 then rest else none

unfoldable pub number : List ℕ → Option ℕ
unfolding digits
number [] = none
number cs = digits cs 0

abbrev below : ℕ → Option ℕ → Option ℕ
below limit none = none
below limit (some n) = if ltb n limit then some n else none

-- `-n`, as a bit pattern, down to -2^63.
abbrev negated : Option ℕ → Option ℕ
negated none = none
negated (some n) = if n == 0 then some 0 else if leb n (2 ^ 63) then some (2 ^ 64 - n) else none

unfoldable pub parse_codes : List ℕ → Option ℕ
unfolding number
parse_codes [] = none
parse_codes (c ∷ cs) =
    if c == 43
    then below (2 ^ 63) (number cs)
    else if c == 45
    then negated (number cs)
    else below (2 ^ 63) (number (c ∷ cs))

-- `strconv.ParseUint(s, 10, 32)`; `none` is its error.
unfoldable pub parse_uint32 : List ℕ → Option ℕ
unfolding number
parse_uint32 cs = below (2 ^ 32) (number cs)

-- `strconv.ParseInt(s, 10, 64)`; `none` is its error.
unfoldable pub parse_int : String → Option ℕ
unfolding parse_codes
parse_int s = parse_codes (codes s)

-- `strings.ToLower`, on the letters that become one of ASCII: its capitals, and two others. Capitals of
-- other alphabets stay as they are here.
abbrev pub lower_code : ℕ → ℕ
lower_code c =
    if leb 65 c && leb c 90 then c + 32 else if c == 304 then 105 else if c == 8490 then 107 else c

unfoldable pub same_codes : List ℕ → List ℕ → Bool
same_codes [] [] = true
same_codes (x ∷ xs) (y ∷ ys) = x == y && same_codes xs ys
same_codes _ _ = false

-- `shared.IsTrue`
unfoldable pub is_true : String → Bool
unfolding same_codes
is_true value =
    let name = map lower_code (codes value) in
    same_codes name (codes "true")
    || same_codes name (codes "1")
    || same_codes name (codes "yes")
    || same_codes name (codes "on")

-- `shared.StringInSlice`
unfoldable pub string_in_slice : String → List String → Bool
string_in_slice key [] = false
string_in_slice key (entry ∷ list) = str_eq entry key || string_in_slice key list

-- `shared.IntInSlice`
unfoldable pub int_in_slice : ℕ → List ℕ → Bool
int_in_slice key [] = false
int_in_slice key (entry ∷ list) = entry == key || int_in_slice key list

-- `strings.HasPrefix`, `strings.HasSuffix` and `strings.TrimSuffix`, on the codes of texts.
unfoldable pub has_prefix : List ℕ → List ℕ → Bool
has_prefix s [] = true
has_prefix [] (p ∷ ps) = false
has_prefix (c ∷ cs) (p ∷ ps) = c == p && has_prefix cs ps

unfoldable pub has_suffix : List ℕ → List ℕ → Bool
unfolding same_codes
has_suffix [] suffix = same_codes [] suffix
has_suffix (c ∷ cs) suffix = same_codes (c ∷ cs) suffix || has_suffix cs suffix

unfoldable pub trim_suffix : List ℕ → List ℕ → List ℕ
unfolding same_codes
trim_suffix [] suffix = []
trim_suffix (c ∷ cs) suffix =
    let rest = trim_suffix cs suffix in if same_codes (c ∷ cs) suffix then [] else c ∷ rest

-- `strings.SplitN(s, sep, 2)`, for a separator of one character: the two parts, or `none` if there is
-- only one.
unfoldable pub cut : ℕ → List ℕ → Option (List ℕ × List ℕ)
cut sep [] = none
cut sep (c ∷ cs) =
    let rest = cut sep cs in
    if c == sep
    then some ([], cs)
    else elim rest [ none ↦ none | some parts ↦ some (c ∷ parts.0, parts.1) ]

-- `strings.Split(s, sep)`, again on codes.
unfoldable pub fields : ℕ → List ℕ → List (List ℕ)
fields sep [] = [] ∷ []
fields sep (c ∷ cs) =
    let rest = fields sep cs in
    if c == sep then [] ∷ rest else elim rest [ [] ↦ (c ∷ []) ∷ [] | w ∷ ws ↦ (c ∷ w) ∷ ws ]

abbrev blank : ℕ → Bool
blank c = c == 32 || c == 9

-- `strings.TrimLeft` and `strings.Trim`, of blanks and tabs.
unfoldable pub trim_left : List ℕ → List ℕ
trim_left [] = []
trim_left (c ∷ cs) = let rest = trim_left cs in if blank c then rest else c ∷ cs

unfoldable pub reverse_onto : List ℕ → List ℕ → List ℕ
reverse_onto [] acc = acc
reverse_onto (c ∷ cs) acc = reverse_onto cs (c ∷ acc)

abbrev pub reverse : List ℕ → List ℕ
reverse cs = reverse_onto cs []

unfoldable pub trim : List ℕ → List ℕ
trim cs = reverse (trim_left (reverse (trim_left cs)))

-- `unicode.IsSpace`
abbrev pub is_space : ℕ → Bool
is_space c =
    (leb 9 c && leb c 13)
    || c == 32
    || c == 133
    || c == 160
    || c == 5760
    || (leb 8192 c && leb c 8202)
    || c == 8232
    || c == 8233
    || c == 8239
    || c == 8287
    || c == 12_288

unfoldable pub trim_space_left : List ℕ → List ℕ
trim_space_left [] = []
trim_space_left (c ∷ cs) = let rest = trim_space_left cs in if is_space c then rest else c ∷ cs

-- `strings.TrimSpace`
unfoldable pub trim_space : List ℕ → List ℕ
trim_space cs = reverse (trim_space_left (reverse (trim_space_left cs)))
