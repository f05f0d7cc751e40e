-- ===== src/Text/Truth.antt =====
-- The texts that stand for yes (IsTrue of shared/util.go).
use Prim.Native.String.{String}
use lxd_pkg_ubuntu.Prelude.{◌≡◌, inl, inr, arith, true, map, Bool-cases}
use lxd_pkg_ubuntu.Text.{codes, lower_code, same_codes, is_true}
use lxd_pkg_ubuntu.Text.Affix.{same_codes_refl, same_codes_eq}

-- One of the words "true", "1", "yes" and "on", whether in capitals or not.
pub data IsYes (value : String) : Type 0 where
  word_true : map lower_code (codes value) ≡ codes "true" → IsYes value
  one : map lower_code (codes value) ≡ codes "1" → IsYes value
  yes : map lower_code (codes value) ≡ codes "yes" → IsYes value
  on : map lower_code (codes value) ≡ codes "on" → IsYes value

pub is_true-IsYes : (value : String) → is_true value ≡ true → IsYes value
unfolding is_true
is_true-IsYes value h =
    let word = map lower_code (codes value) in
    elim (Bool-cases (same_codes word (codes "true"))) [
      | inl y ↦ word_true (same_codes_eq word (codes "true") y)
      | inr a ↦ elim (Bool-cases (same_codes word (codes "1"))) [
        | inl y ↦ one (same_codes_eq word (codes "1") y)
        | inr b ↦ elim (Bool-cases (same_codes word (codes "yes"))) [
          | inl y ↦ yes (same_codes_eq word (codes "yes") y)
          | inr c ↦ on (same_codes_eq word (codes "on") (ground (arith, h, a, b, c)))
        ]
      ]
    ]

pub IsYes-is_true : (value : String) → IsYes value → is_true value ≡ true
unfolding is_true
IsYes-is_true value (word_true e) =
    let same = same_codes_refl (codes "true") in rw e (ground (arith, same))
IsYes-is_true value (one e) = let same = same_codes_refl (codes "1") in rw e (ground (arith, same))
IsYes-is_true value (yes e) =
    let same = same_codes_refl (codes "yes") in rw e (ground (arith, same))
IsYes-is_true value (on e) = let same = same_codes_refl (codes "on") in rw e (ground (arith, same))
