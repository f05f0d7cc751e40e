-- ===== src/Client/Filter.antt =====
-- The abbreviated keys of the filters of `lxc list`.
use lxd_pkg_ubuntu.Prelude.{
  ℕ, suc, ◌≡◌, ◌↔◌, ◌∙◌, ap, refl, arith, true, List, [], ◌∷◌, ◌++◌, length,
}
use lxd_pkg_ubuntu.Text.{fields, has_prefix}
use lxd_pkg_ubuntu.Client.{all_prefixes, dot_prefix_match}

-- One text continues another.
abbrev pub Continues : (full short : List ℕ) → Type 0
Continues full short = (rest : List ℕ) × (full ≡ short ++ rest)

-- There are as many parts, and each continues the one at its place.
pub data Abbreviates : (shorts fulls : List (List ℕ)) → Type 0 where
  end : Abbreviates [] []
  part :
      (s f : List ℕ) (ss fs : List (List ℕ))
      → Continues f s
      → Abbreviates ss fs
      → Abbreviates (s ∷ ss) (f ∷ fs)

prefix→continues : (f s : List ℕ) → has_prefix f s ≡ true → Continues f s
unfolding has_prefix
prefix→continues f [] h = (f, refl)
prefix→continues [] (c ∷ s) h = absurd (ground (arith, h))
prefix→continues (d ∷ f) (c ∷ s) h =
    let (rest, e) = prefix→continues f s (ground (arith, h)) in
    let same : d ≡ c = ground (arith, h) in (rest, cc (e, same))

continues→prefix : (s rest : List ℕ) → has_prefix (s ++ rest) s ≡ true
unfolding has_prefix
continues→prefix [] rest = refl
continues→prefix (c ∷ s) rest = let more = continues→prefix s rest in ground (arith, more)

parts→abbreviates :
    (fs ss : List (List ℕ)) → length fs ≡ length ss → all_prefixes fs ss ≡ true → Abbreviates ss fs
unfolding all_prefixes
parts→abbreviates [] [] l h = end
parts→abbreviates [] (s ∷ ss) l h = absurd (ground (arith, l))
parts→abbreviates (f ∷ fs) [] l h = absurd (ground (arith, l))
parts→abbreviates (f ∷ fs) (s ∷ ss) l h =
    part s f ss fs (prefix→continues f s (ground (arith, h)))
      (parts→abbreviates fs ss (omega arith) (ground (arith, h)))

abbreviates→parts :
    (fs ss : List (List ℕ))
    → Abbreviates ss fs
    → (length fs ≡ length ss) × (all_prefixes fs ss ≡ true)
unfolding all_prefixes
abbreviates→parts _ _ end = (refl, refl)
abbreviates→parts _ _ (part s f ss fs c a) =
    let (l, h) = abbreviates→parts fs ss a in
    let (rest, e) = c in
    let first : has_prefix f s ≡ true = ap (λ x. has_prefix x s) e ∙ continues→prefix s rest in
    (ap suc l, ground (arith, first, h))

-- `dotPrefixMatch` says yes exactly if the two texts have the same number of parts between dots and each
-- part of the full one continues the part of the short one at its place.
pub dot_prefix_match_exact :
    (short full : List ℕ)
    → (dot_prefix_match short full ≡ true) ↔ Abbreviates (fields 46 short) (fields 46 full)
unfolding dot_prefix_match
dot_prefix_match_exact short full = (
  λ h. parts→abbreviates (fields 46 full) (fields 46 short) (ground (arith, h)) (ground (arith, h)),
  λ a. let (l, h) = abbreviates→parts (fields 46 full) (fields 46 short) a in ground (arith, l, h),
)
