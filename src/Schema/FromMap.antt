-- ===== src/Schema/FromMap.antt =====
-- The updates of a schema that NewFromMap makes.
use lxd_pkg_ubuntu.Prelude.{
  ℕ, suc, ◌≡◌, inl, inr, refl, sym, subst, arith, ◌==◌, List, [], ◌∷◌, length, some, Option-cases,
  ok, Bool-cases, Result-cases,
}
use lxd_pkg_ubuntu.Schema.{collect, sort_ints, versions_of, update_of, updates_from_map}
use lxd_pkg_ubuntu.Schema.Rows.{from}

-- The updates stand in the map under the numbers from `next` on.
abbrev pub Numbered : {U : Type 0} → List (ℕ × U) → ℕ → List U → Type 0
Numbered m next [] = Unit
Numbered m next (u ∷ us) = (update_of next m ≡ some u) × Numbered m (suc next) us

-- The versions are the numbers of those updates.
abbrev Collected : {U : Type 0} → List (ℕ × U) → ℕ → List ℕ → List U → Type 0
Collected m next versions us = (versions ≡ from next (length us)) × Numbered m next us

collect-Collected :
    {U : Type 0} (m : List (ℕ × U)) (next : ℕ) (versions : List ℕ) (us : List U)
    → collect m next versions ≡ ok us
    → Collected m next versions us
unfolding collect
collect-Collected m next [] us h =
    let none_left : [] ≡ us = cc h in subst (Collected m next []) none_left (refl, tt)
collect-Collected m next (v ∷ vs) us h = elim (Bool-cases (v == next)) [
  | inl y ↦ elim (Option-cases (update_of v m)) [
    | inl missing ↦ cc (h, y, missing)
    | inr (u, here) ↦ elim (Result-cases (collect m (suc next) vs)) [
      | inl (rest, k) ↦
          let (numbers, there) = collect-Collected m (suc next) vs rest k in
          let same : v ≡ next = ground (arith, y) in
          let whole : us ≡ u ∷ rest = cc (h, y, here, k) in
          subst (Collected m next (v ∷ vs)) (sym whole)
            (cc (same, numbers), (cc (here, same), there))
      | inr (e, k) ↦ cc (h, y, here, k)
    ]
  ]
  | inr n ↦ cc (h, n)
]

-- When NewFromMap accepts a map, its versions are the numbers from 1 on, each once, and the n-th
-- update of the schema is the one that the map has under n.
pub updates_from_map-Numbered :
    {U : Type 0} (m : List (ℕ × U)) (us : List U)
    → updates_from_map m ≡ ok us
    → (sort_ints (versions_of m) ≡ from 1 (length us)) × Numbered m 1 us
unfolding updates_from_map
updates_from_map-Numbered m us h = collect-Collected m 1 (sort_ints (versions_of m)) us h
