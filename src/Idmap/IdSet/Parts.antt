-- ===== src/Idmap/IdSet/Parts.antt =====
-- The parts into which `AddSafe` splits an entry, and what a search finds in them.
use lxd_pkg_ubuntu.Prelude.{ℕ, ◌+◌, ◌≡◌, refl, Bool, true, false, ◌&&◌, arith}
use lxd_pkg_ubuntu.Prelude.{
  if◌then◌else◌, Option, none, some, List, [], ◌∷◌, ◌++◌, ltb, leb, Bool-cases, inl, inr, sym, ◌∙◌,
  ap,
}
use lxd_pkg_ubuntu.Prelude.Int64.{add64, sub64, lt64}
use lxd_pkg_ubuntu.Idmap.Entry.{IdmapEntry, same_kind, intersects, hostids_intersect}
use lxd_pkg_ubuntu.Idmap.Entry.Bounds.{IsBounded, overlaps}
use lxd_pkg_ubuntu.Idmap.Entry.Overlap.{Clear, intersects_exact, hostids_intersect_lem}
use lxd_pkg_ubuntu.Idmap.IdSet.{into_ns, lower, upper, append_positive, split_entry}
use lxd_pkg_ubuntu.Idmap.IdSet.Lookup.{
  Kind, user, group, is_of, hits, image, find, or_else, find-append, or_else-none,
}

-- An entry of both kinds is only split by an entry of both kinds.
abbrev pub FitsKinds : IdmapEntry → IdmapEntry → Type 0
FitsKinds i e = e.isuid ≡ true → e.isgid ≡ true → (i.isuid ≡ true) × (i.isgid ≡ true)

-- What `AddSafe` wants of an entry of the set, beside the new entry.
pub record Separable (i e : IdmapEntry) : Type 0 where
  pub bounded : IsBounded e
  pub clear : Clear e i
  pub fits : FitsKinds i e

-- The new entry's share of the search.
abbrev pub hit : IdmapEntry → Kind → ℕ → Bool
hit i k id = hits into_ns k i id

-- An entry that meets the new one in the namespace alone: the case in which `AddSafe` splits.
pub record Splits (i e : IdmapEntry) : Type 0 where
  pub kinds : same_kind e i ≡ true
  pub ns_meet : overlaps e.nsid e.maprange i.nsid i.maprange ≡ true
  pub hosts_apart : overlaps e.hostid e.maprange i.hostid i.maprange ≡ false

module _ (i e : IdmapEntry) (bi : IsBounded i) (s : Separable i e) where
  pub kept_apart :
      (k : Kind) (id : ℕ) → intersects e i ≡ false → hit i k id ≡ true → hits into_ns k e id ≡ false
  kept_apart user id h x = ground (arith, intersects_exact e i s.bounded bi s.clear)
  kept_apart group id h x = ground (arith, intersects_exact e i s.bounded bi s.clear)

  pub meets : intersects e i ≡ true → hostids_intersect e i ≡ false → Splits i e
  meets h c = record {
    kinds =
        ground (
          arith,
          intersects_exact e i s.bounded bi s.clear,
          hostids_intersect_lem e i s.bounded bi,
        );
    ns_meet =
        ground (
          arith,
          intersects_exact e i s.bounded bi s.clear,
          hostids_intersect_lem e i s.bounded bi,
        );
    hosts_apart =
        ground (
          arith,
          intersects_exact e i s.bounded bi s.clear,
          hostids_intersect_lem e i s.bounded bi,
        );
  }

-- The search in a list to which `x` has been appended if it holds an id.
find-append_positive :
    (k : Kind) (id : ℕ) (r : List IdmapEntry) (x : IdmapEntry)
    → find into_ns k id (append_positive r x)
      ≡ or_else
          (find into_ns k id r)
          (if lt64 0 x.maprange && hits into_ns k x id then some (image into_ns x id) else none)
unfolding append_positive
find-append_positive k id r x = elim (Bool-cases (lt64 0 x.maprange)) [
  | inl p ↦ rw p (
      find-append into_ns k id r (x ∷ [])
      ∙ ap (or_else (find into_ns k id r)) (unfold find in refl))
  | inr n ↦ rw n (sym (or_else-none (find into_ns k id r)))
]

-- The ids of `e` below the new entry, and those above it.
abbrev pub below_share : IdmapEntry → IdmapEntry → Kind → ℕ → Bool
below_share i e k id = is_of k e && (leb e.nsid id && ltb id i.nsid)

abbrev pub above_share : IdmapEntry → IdmapEntry → Kind → ℕ → Bool
above_share i e k id = is_of k e && (leb (i.nsid + i.maprange) id && ltb id (e.nsid + e.maprange))

module _ (i e : IdmapEntry) (bi : IsBounded i) (be : IsBounded e) where
  pub lower_share :
      (k : Kind) (id : ℕ)
      → (lt64 0 (lower e i).maprange && hits into_ns k (lower e i) id) ≡ below_share i e k id
  unfolding lt64 sub64
  lower_share user id = ground arith
  lower_share group id = ground arith

  module _ (meet : overlaps e.nsid e.maprange i.nsid i.maprange ≡ true) where
    pub upper_share :
        (k : Kind) (id : ℕ)
        → (lt64 0 (upper e i).maprange && hits into_ns k (upper e i) id) ≡ above_share i e k id
    unfolding lt64 sub64 add64
    upper_share user id = ground arith
    upper_share group id = ground arith

    pub image-upper :
        (k : Kind) (id : ℕ)
        → above_share i e k id ≡ true
        → image into_ns (upper e i) id ≡ image into_ns e id
    unfolding sub64 add64
    image-upper k id h = ground arith

-- The search in one entry, and in the three parts that take its place.
abbrev pub single : IdmapEntry → Kind → ℕ → Option ℕ
single e k id = if hits into_ns k e id then some (image into_ns e id) else none

abbrev below : IdmapEntry → IdmapEntry → Kind → ℕ → Option ℕ
below i e k id = if below_share i e k id then some (image into_ns e id) else none

abbrev above : IdmapEntry → IdmapEntry → Kind → ℕ → Option ℕ
above i e k id = if above_share i e k id then some (image into_ns e id) else none

pub find-single : (k : Kind) (id : ℕ) (e : IdmapEntry) → find into_ns k id (e ∷ []) ≡ single e k id
unfolding find
find-single k id e = refl

pub or_else_assoc : (x y z : Option ℕ) → or_else (or_else x y) z ≡ or_else x (or_else y z)
or_else_assoc none y z = refl
or_else_assoc (some v) y z = refl

module _ (i e : IdmapEntry) (bi : IsBounded i) (s : Separable i e) (m : Splits i e) where
  pub parts :
      (k : Kind) (id : ℕ)
      → or_else (or_else (below i e k id) (single i k id)) (above i e k id)
        ≡ (if hit i k id then some (image into_ns i id) else single e k id)
  parts user id = ground (arith, m.kinds, m.ns_meet, s.fits)
  parts group id = ground (arith, m.kinds, m.ns_meet, s.fits)

  find-lower :
      (k : Kind) (id : ℕ) (r : List IdmapEntry)
      → find into_ns k id (append_positive r (lower e i))
        ≡ or_else (find into_ns k id r) (below i e k id)
  find-lower k id r =
      find-append_positive k id r (lower e i) ∙ rw (lower_share i e bi s.bounded k id)

  find-upper :
      (k : Kind) (id : ℕ) (r : List IdmapEntry)
      → find into_ns k id (append_positive r (upper e i))
        ≡ or_else (find into_ns k id r) (above i e k id)
  find-upper k id r =
      find-append_positive k id r (upper e i)
      ∙ rw (upper_share i e bi s.bounded m.ns_meet k id)
          (ground (arith, image-upper i e bi s.bounded m.ns_meet k id))

  pub find-split_entry :
      (k : Kind) (id : ℕ) (r : List IdmapEntry)
      → find into_ns k id (split_entry r e i)
        ≡ or_else
            (find into_ns k id r)
            (if hit i k id then some (image into_ns i id) else single e k id)
  unfolding split_entry
  find-split_entry k id r =
      rw
        (
          find-upper k id (append_positive r (lower e i) ++ i ∷ []),
          find-append into_ns k id (append_positive r (lower e i)) (i ∷ []),
          find-lower k id r,
          find-single k id i,
        )
        (rw (← parts k id) (
          ap (λ t. or_else t (above i e k id))
            (or_else_assoc (find into_ns k id r) (below i e k id) (single i k id))
          ∙ or_else_assoc (find into_ns k id r) (or_else (below i e k id) (single i k id))
              (above i e k id)))
