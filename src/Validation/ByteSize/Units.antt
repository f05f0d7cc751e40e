-- ===== src/Validation/ByteSize/Units.antt =====
-- What ParseByteSizeString makes of a number with a unit.
use lxd_pkg_ubuntu.Prelude.{
  ℕ, ◌^◌, ◌<◌, ◌≡◌, ◌∙◌, ap, refl, sym, arith, false, List, [], ◌∷◌, ◌++◌, length-append,
  append_assoc, append-nil, some, ok,
}
use lxd_pkg_ubuntu.Prelude.Int64.{mul64, lt64}
use lxd_pkg_ubuntu.Text.Affix.{has_suffix-last}
use lxd_pkg_ubuntu.Text.{
  codes, same_codes, has_suffix, number, digits, parse_codes, reverse, reverse_onto,
}
use lxd_pkg_ubuntu.Validation.ByteSize.{
  digit, suffix_len, halves, multiplicator, with_suffix, parse_byte_size_string,
}

reverse_onto-append :
    (xs ys acc : List ℕ) → reverse_onto (xs ++ ys) acc ≡ reverse_onto ys (reverse_onto xs acc)
unfolding reverse_onto
reverse_onto-append [] ys acc = refl
reverse_onto-append (x ∷ xs) ys acc = reverse_onto-append xs ys (x ∷ acc)

reverse_twice :
    (xs acc ys : List ℕ) → reverse_onto (reverse_onto xs acc) ys ≡ reverse_onto acc (xs ++ ys)
unfolding reverse_onto
reverse_twice [] acc ys = refl
reverse_twice (x ∷ xs) acc ys = reverse_twice xs (x ∷ acc) ys

reverse-reverse : (xs : List ℕ) → reverse (reverse xs) ≡ xs
unfolding reverse_onto
reverse-reverse xs = reverse_twice xs [] [] ∙ append-nil xs

-- A unit does not begin with a digit.
unit-digit : (l m : ℕ) → multiplicator (l ∷ 66 ∷ []) ≡ some m → digit l ≡ false
unfolding multiplicator same_codes
unit-digit l m h = ground (arith, h)

parse-number : (cs : List ℕ) (n : ℕ) → number cs ≡ some n → n < 2 ^ 63 → parse_codes cs ≡ some n
unfolding parse_codes number digits
parse-number [] n h w = cc h
parse-number (c ∷ cs) n h w = ground (arith, h, w)

-- The reversed text: the unit in front.
reverse-unit : (cs : List ℕ) (l : ℕ) → reverse (cs ++ l ∷ 66 ∷ []) ≡ 66 ∷ l ∷ reverse cs
unfolding reverse_onto
reverse-unit cs l = reverse_onto-append cs (l ∷ 66 ∷ []) []

suffix_len-unit :
    (c : ℕ) (cs : List ℕ) (l m : ℕ)
    → multiplicator (l ∷ 66 ∷ []) ≡ some m
    → suffix_len (c ∷ cs ++ l ∷ 66 ∷ []) (66 ∷ l ∷ reverse (c ∷ cs)) ≡ some 2
unfolding suffix_len
suffix_len-unit c cs l m h =
    let no_digit = unit-digit l m h in
    let words : has_suffix (c ∷ cs ++ l ∷ 66 ∷ []) (codes " bytes") ≡ false =
      ap (λ t. has_suffix t (codes " bytes")) (sym (append_assoc (c ∷ cs) (l ∷ []) (66 ∷ [])))
      ∙ has_suffix-last (c ∷ cs ++ l ∷ []) (codes " byte") 66 115 (omega arith) in
    let long = length-append (c ∷ cs) (l ∷ 66 ∷ []) in ground (arith, no_digit, words, long)

nothing_read : (n : ℕ) → number [] ≡ some n → ⊥
unfolding number
nothing_read n h = cc h

not_negative : (n : ℕ) → n < 2 ^ 63 → lt64 n 0 ≡ false
unfolding lt64
not_negative n w = ground arith

unit_back : (l : ℕ) → reverse (66 ∷ l ∷ []) ≡ l ∷ 66 ∷ []
unfolding reverse_onto
unit_back l = refl

with_suffix-unit :
    (cs : List ℕ) (n l m : ℕ)
    → parse_codes cs ≡ some n
    → n < 2 ^ 63
    → multiplicator (l ∷ 66 ∷ []) ≡ some m
    → with_suffix (66 ∷ l ∷ reverse cs) 2 ≡ ok (mul64 n m)
unfolding with_suffix halves
with_suffix-unit cs n l m read w u =
    rw (reverse-reverse cs, read, not_negative n w, unit_back l, u) refl

-- A number below 2^63 that a unit follows is read as their product, as an int64: where the product is
-- 2^63 or more, it wraps.
pub parse_byte_size_string-unit :
    (cs : List ℕ) (n l m : ℕ)
    → number cs ≡ some n
    → n < 2 ^ 63
    → multiplicator (l ∷ 66 ∷ []) ≡ some m
    → parse_byte_size_string (cs ++ l ∷ 66 ∷ []) ≡ ok (mul64 n m)
unfolding parse_byte_size_string
parse_byte_size_string-unit [] n l m h w u = elim (nothing_read n h) [ ]
parse_byte_size_string-unit (c ∷ cs) n l m h w u =
    rw (reverse-unit (c ∷ cs) l, suffix_len-unit c cs l m u)
      (with_suffix-unit (c ∷ cs) n l m (parse-number (c ∷ cs) n h w) w u)
