-- ===== src/Validation/ByteSize.antt =====
-- Sizes with a unit (`ParseByteSizeString`, shared/util.go), on the codes of texts.
pub mod Units
use lxd_pkg_ubuntu.Prelude.{
  not, zero, suc, ℕ, ◌*◌, ◌^◌, ◌%◌, Bool, true, false, ◌&&◌, if◌then◌else◌, ◌==◌, ltb, leb, List,
  [], ◌∷◌, length, Option, none, some, Result, ok, err, ◌>>=◌,
}
use lxd_pkg_ubuntu.Prelude.Int64.{lt64, mul64}
use lxd_pkg_ubuntu.Text.{codes, same_codes, has_suffix, parse_codes, reverse}
use lxd_pkg_ubuntu.Validation.{Error, bad_size}

-- `unicode.IsNumber`, on a byte of ASCII. A text with other characters is an error in any case.
abbrev pub digit : ℕ → Bool
digit c = leb 48 c && leb c 57

abbrev digit_first : List ℕ → Bool
digit_first [] = false
digit_first (c ∷ cs) = digit c

-- `suffixLen`, from the reversed text.
unfoldable pub suffix_len : List ℕ → List ℕ → Option ℕ
suffix_len input [] = some 0
suffix_len input (c ∷ before) =
    if digit c
    then some 0
    else if c == 66 && digit_first before
    then some 1
    else if has_suffix input (codes " bytes")
    then some 6
    else if ltb (length input) 3
    then none
    else some 2

-- The first `n` codes and the others.
unfoldable pub halves : ℕ → List ℕ → List ℕ × List ℕ
halves zero cs = ([], cs)
halves (suc n) [] = ([], [])
halves (suc n) (c ∷ cs) = let (front, back) = halves n cs in (c ∷ front, back)

unfoldable pub multiplicator : List ℕ → Option ℕ
unfolding same_codes
multiplicator suffix =
    if same_codes suffix (codes "kB")
    then some 1024
    else if same_codes suffix (codes "MB")
    then some (1024 ^ 2)
    else if same_codes suffix (codes "GB")
    then some (1024 ^ 3)
    else if same_codes suffix (codes "TB")
    then some (1024 ^ 4)
    else if same_codes suffix (codes "PB")
    then some (1024 ^ 5)
    else if same_codes suffix (codes "EB")
    then some (1024 ^ 6)
    else none

abbrev size_or : Option ℕ → Result Error ℕ
size_or none = err bad_size
size_or (some n) = ok n

-- The value and the unit; `rev` is the reversed text.
unfoldable pub with_suffix : List ℕ → ℕ → Result Error ℕ
unfolding halves multiplicator
with_suffix rev n =
    let parts = halves n rev in
    size_or (parse_codes (reverse parts.1)) >>= λ value_int.
    if lt64 value_int 0
    then err bad_size
    else if not (n == 2)
    then ok value_int
    else (size_or (multiplicator (reverse parts.0)) >>= λ m. ok (mul64 value_int m))

unfoldable pub parse_byte_size_string : List ℕ → Result Error ℕ
unfolding suffix_len with_suffix
parse_byte_size_string [] = ok 0
parse_byte_size_string (c ∷ cs) =
    size_or (suffix_len (c ∷ cs) (reverse (c ∷ cs))) >>= λ n. with_suffix (reverse (c ∷ cs)) n
