-- ===== src/Idmap/IdSet/Append.antt =====
-- `Append` refuses an entry that conflicts with the set, and keeps the set valid otherwise.
use lxd_pkg_ubuntu.Prelude.{
  ◌≡◌, ◌⊎◌, inl, inr, refl, sym, subst, ◌∙◌, true, false, ◌&&◌, ◌||◌, arith,
}
use lxd_pkg_ubuntu.Prelude.{
  List, [], ◌∷◌, ◌++◌, All, All-append, All-Memᴰ, any, any-false, any-true, ok, err, Bool-cases,
}
use mathlib.Core.List.Memᴰ
use mathlib.Core.List.{Memᴰ}
use lxd_pkg_ubuntu.Idmap.Entry.{IdmapEntry, same_kind, intersects, conflicting_id_mapping}
use lxd_pkg_ubuntu.Idmap.Entry.Bounds.{IsBounded, overlaps}
use lxd_pkg_ubuntu.Idmap.Entry.Overlap.{Clear, intersects_exact}
use lxd_pkg_ubuntu.Idmap.IdSet.{IdmapSet, append_entry, set_intersects}
use lxd_pkg_ubuntu.Idmap.IdSet.Consistent.{Agree, Agree-refl, Agree-symm, IsConsistent}
use lxd_pkg_ubuntu.Idmap.IdSet.Apart.{kept-Agree}
use lxd_pkg_ubuntu.Idmap.IdSet.Pieces.{IsValid}

module _ (m : IdmapSet) (e : IdmapEntry) where
  append_ok :
      (m' : IdmapSet)
      → append_entry m e ≡ ok m'
      → (set_intersects m.idmap e ≡ false) × (m'.idmap ≡ m.idmap ++ e ∷ [])
  unfolding append_entry
  append_ok m' h = elim (Bool-cases (set_intersects m.idmap e)) [
    | inl y ↦ absurd (ground arith)
    | inr n ↦ (n, ground arith)
  ]

  Agree-last :
      IsConsistent m.idmap → All (λ x. Agree e x) m.idmap → IsConsistent (m.idmap ++ e ∷ [])
  Agree-last c a = record {
    agree = λ x y p q. pick x y (Memᴰ.append_cases m.idmap p) (Memᴰ.append_cases m.idmap q);
  }
    where
      pick :
          (x y : IdmapEntry)
          → Memᴰ x m.idmap ⊎ Memᴰ x (e ∷ [])
          → Memᴰ y m.idmap ⊎ Memᴰ y (e ∷ [])
          → Agree x y
      pick x y (inl p) (inl q) = c.agree x y p q
      pick x y (inl p) (inr q) =
          subst (λ t. Agree x t) (sym (Memᴰ.eq_of_singleton q))
            (Agree-symm (All-Memᴰ (λ z. Agree e z) m.idmap a p))
      pick x y (inr p) (inl q) =
          subst (λ t. Agree t y) (sym (Memᴰ.eq_of_singleton p))
            (All-Memᴰ (λ z. Agree e z) m.idmap a q)
      pick x y (inr p) (inr q) =
          subst (λ t. Agree t y) (sym (Memᴰ.eq_of_singleton p))
            (subst (λ t. Agree e t) (sym (Memᴰ.eq_of_singleton q)) (Agree-refl e))

All-Agree :
    (e : IdmapEntry) (l : List IdmapEntry)
    → IsBounded e
    → All IsBounded l
    → All (λ x. Clear e x) l
    → All (λ x. intersects e x ≡ false) l
    → All (λ x. Agree e x) l
All-Agree e [] be b c h = tt
All-Agree e (x ∷ l) be b c h = (kept-Agree x e b.0 be c.0 h.0, All-Agree e l be b.1 c.1 h.1)

-- `Append` on a valid set: it either gives a valid set with the entry at the end, or reports the
-- conflict with an entry of the set whose ranges meet those of the new one.
pub append_entry-IsValid :
    (m : IdmapSet) (e : IdmapEntry)
    → IsValid m
    → IsBounded e
    → All (λ x. Clear e x) m.idmap
    → ((m' : IdmapSet) × (append_entry m e ≡ ok m') × (m'.idmap ≡ m.idmap ++ e ∷ []) × IsValid m')
      ⊎ ((append_entry m e ≡ err conflicting_id_mapping)
          × ((x : IdmapEntry) × Memᴰ x m.idmap
              × ((same_kind e x
                    && (overlaps e.hostid e.maprange x.hostid x.maprange
                        || overlaps e.nsid e.maprange x.nsid x.maprange))
                  ≡ true)))
unfolding append_entry set_intersects
append_entry-IsValid m e v be c = elim (Bool-cases (any (λ x. intersects e x) m.idmap)) [
  | inl y ↦
      let (x, mem, h) = any-true (λ x. intersects e x) m.idmap y in
      inr (
        rw y,
        (
          x,
          mem,
          sym (
                intersects_exact e x be (All-Memᴰ IsBounded m.idmap v.bounded mem)
                  (All-Memᴰ (λ x. Clear e x) m.idmap c mem))
              ∙ h,
        ),
      )
  | inr n ↦ inl (
    record { idmap = m.idmap ++ e ∷ [] },
    rw n,
    refl,
    record {
      bounded = All-append IsBounded m.idmap (e ∷ []) v.bounded (be, tt);
      consistent =
          Agree-last m e v.consistent
            (All-Agree e m.idmap be v.bounded c (any-false (λ x. intersects e x) m.idmap n));
    },
  )
]
