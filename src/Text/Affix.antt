-- ===== src/Text/Affix.antt =====
-- Suffixes of texts, and texts that are cut at a separator.
use lxd_pkg_ubuntu.Prelude.{
  ℕ, ◌≡◌, ◌≢◌, refl, arith, true, false, ◌==◌, any, List, [], ◌∷◌, ◌++◌, length, length-append,
  none, some, inl, inr, Bool-cases,
}
use lxd_pkg_ubuntu.Text.{same_codes, has_suffix, trim_suffix, cut}

same_codes-last :
    (xs ys : List ℕ) (a b : ℕ) → a ≢ b → same_codes (xs ++ a ∷ []) (ys ++ b ∷ []) ≡ false
unfolding same_codes
same_codes-last [] [] a b h = ground (arith, h)
same_codes-last [] (y ∷ []) a b h = ground arith
same_codes-last [] (y ∷ z ∷ ys) a b h = ground arith
same_codes-last (x ∷ []) [] a b h = ground arith
same_codes-last (x ∷ w ∷ xs) [] a b h = ground arith
same_codes-last (x ∷ xs) (y ∷ ys) a b h =
    let rest = same_codes-last xs ys a b h in ground (arith, rest)

pub has_suffix-last :
    (xs ys : List ℕ) (a b : ℕ) → a ≢ b → has_suffix (xs ++ a ∷ []) (ys ++ b ∷ []) ≡ false
unfolding has_suffix same_codes
has_suffix-last [] [] a b h = ground (arith, h)
has_suffix-last [] (y ∷ []) a b h = ground arith
has_suffix-last [] (y ∷ z ∷ ys) a b h = ground arith
has_suffix-last (x ∷ xs) ys a b h =
    let here = same_codes-last (x ∷ xs) ys a b h in
    let rest = has_suffix-last xs ys a b h in cc (here, rest)

pub same_codes_refl : (s : List ℕ) → same_codes s s ≡ true
unfolding same_codes
same_codes_refl [] = refl
same_codes_refl (c ∷ cs) = let rest = same_codes_refl cs in ground (arith, rest)

pub same_codes-length : (s t : List ℕ) → same_codes s t ≡ true → length s ≡ length t
unfolding same_codes
same_codes-length [] [] h = refl
same_codes-length [] (d ∷ ds) h = cc h
same_codes-length (c ∷ cs) [] h = cc h
same_codes-length (c ∷ cs) (d ∷ ds) h =
    let rest = same_codes-length cs ds (ground (arith, h)) in omega (arith, rest)

longer : (c : ℕ) (xs s : List ℕ) → same_codes (c ∷ xs ++ s) s ≡ false
longer c xs s = elim (Bool-cases (same_codes (c ∷ xs ++ s) s)) [
  | inl y ↦ absurd (omega (arith, same_codes-length (c ∷ xs ++ s) s y, length-append xs s))
  | inr n ↦ n
]

pub has_suffix-append : (xs : List ℕ) (c : ℕ) (s : List ℕ) → has_suffix (xs ++ c ∷ s) (c ∷ s) ≡ true
unfolding has_suffix
has_suffix-append [] c s = let same = same_codes_refl (c ∷ s) in cc same
has_suffix-append (x ∷ xs) c s =
    let rest = has_suffix-append xs c s in let not_yet = longer x xs (c ∷ s) in cc (rest, not_yet)

pub trim_suffix-append : (xs : List ℕ) (c : ℕ) (s : List ℕ) → trim_suffix (xs ++ c ∷ s) (c ∷ s) ≡ xs
unfolding trim_suffix
trim_suffix-append [] c s = let same = same_codes_refl (c ∷ s) in cc same
trim_suffix-append (x ∷ xs) c s =
    let rest = trim_suffix-append xs c s in let not_yet = longer x xs (c ∷ s) in cc (rest, not_yet)

-- A text is cut at its first separator.
module _ (sep : ℕ) where
  pub cut-none : (s : List ℕ) → any (λ c. c == sep) s ≡ false → cut sep s ≡ none
  unfolding cut
  cut-none [] h = refl
  cut-none (c ∷ cs) h = let rest = cut-none cs (ground (arith, h)) in ground (arith, h, rest)

  pub cut-append :
      (s t : List ℕ) → any (λ c. c == sep) s ≡ false → cut sep (s ++ (sep ∷ t)) ≡ some (s, t)
  unfolding cut
  cut-append [] t h = ground arith
  cut-append (c ∷ cs) t h =
      let rest = cut-append cs t (ground (arith, h)) in ground (arith, h, rest)

-- Texts that compare as the same are the same.
pub same_codes_eq : (s t : List ℕ) → same_codes s t ≡ true → s ≡ t
unfolding same_codes
same_codes_eq [] [] h = refl
same_codes_eq [] (d ∷ ds) h = cc h
same_codes_eq (c ∷ cs) [] h = cc h
same_codes_eq (c ∷ cs) (d ∷ ds) h =
    let head : c ≡ d = ground (arith, h) in
    let tail = same_codes_eq cs ds (ground (arith, h)) in cc (head, tail)
