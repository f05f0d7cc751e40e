-- ===== src/Allocation/Sorted.antt =====
-- Sorting the host ids of the containers (`sort.Sort(mapentries)`) keeps them, and puts ranges
-- that do not overlap one after the other.
use lxd_pkg_ubuntu.Prelude.{
  ℕ, ◌+◌, ◌^◌, ◌≤◌, ◌<◌, ◌≡◌, refl, Bool, true, false, if◌then◌else◌, arith, List, [], ◌∷◌, All,
}
use lxd_pkg_ubuntu.Prelude.Int64.{lt64, lt64_small}
use lxd_pkg_ubuntu.Allocation.Search.{Used, insert_used, sort_used}
use lxd_pkg_ubuntu.Allocation.Scan.{Apart, Spread}

split_at :
    (P : List Used → Type 0) (b : Bool) {x y : List Used}
    → (b ≡ true → P x)
    → (b ≡ false → P y)
    → P (if b then x else y)
split_at P true t f = t refl
split_at P false t f = f refl

-- What an entry is before the search: not empty, and within the numbers.
abbrev pub IsRange : Used → Type 0
IsRange u = (0 < u.maprange) × (u.hostid + u.maprange < 2 ^ 34)

-- No two of the containers share a host id.
abbrev pub Disjoint : List Used → Type 0
Disjoint [] = Unit
Disjoint (u ∷ us) = All (Apart u.hostid u.maprange) us × Disjoint us

insert-All :
    (P : Used → Type 0) (u : Used) (us : List Used) → P u → All P us → All P (insert_used u us)
unfolding insert_used
insert-All P u [] p ps = (p, tt)
insert-All P u (x ∷ xs) p ps =
    split_at (All P) (lt64 u.hostid x.hostid) (λ y. (p, ps)) (λ n. (ps.0, insert-All P u xs p ps.1))

insert-All_back :
    (P : Used → Type 0) (u : Used) (us : List Used) → All P (insert_used u us) → P u × All P us
unfolding insert_used
insert-All_back P u [] h = h
insert-All_back P u (x ∷ xs) h =
    split_at (λ l. All P l → P u × All P (x ∷ xs)) (lt64 u.hostid x.hostid) (λ y k. k)
      (λ n k. let (p, ps) = insert-All_back P u xs k.1 in (p, (k.0, ps))) h

pub sort-All : (P : Used → Type 0) (us : List Used) → All P us → All P (sort_used us)
unfolding sort_used
sort-All P [] h = tt
sort-All P (x ∷ xs) h = insert-All P x (sort_used xs) h.0 (sort-All P xs h.1)

pub sort-All_back : (P : Used → Type 0) (us : List Used) → All P (sort_used us) → All P us
unfolding sort_used
sort-All_back P [] h = tt
sort-All_back P (x ∷ xs) h =
    let (p, ps) = insert-All_back P x (sort_used xs) h in (p, sort-All_back P xs ps)

insert-Spread :
    (lo : ℕ) (u : Used) (us : List Used)
    → lo ≤ u.hostid
    → IsRange u
    → All IsRange us
    → All (Apart u.hostid u.maprange) us
    → Spread lo us
    → Spread lo (insert_used u us)
unfolding insert_used
insert-Spread lo u [] h r rs gaps s = (h, r.1, r.0, tt)
insert-Spread lo u (x ∷ xs) h r rs gaps s =
    split_at (Spread lo) (lt64 u.hostid x.hostid)
      (λ y.
        let before : u.hostid < x.hostid =
          ground (arith, y, lt64_small u.hostid x.hostid (omega arith) (omega arith)) in
        (h, r.1, r.0, (ground (arith, before, gaps.0, s.1, s.2, r), s.1, s.2, s.3)))
      (λ n.
        let after : x.hostid ≤ u.hostid =
          ground (arith, n, lt64_small u.hostid x.hostid (omega arith) (omega arith)) in
        (
          s.0,
          s.1,
          s.2,
          insert-Spread (x.hostid + x.maprange) u xs (ground (arith, after, gaps.0, s.1, s.2, r)) r
              rs.1 gaps.1 s.3,
        ))

pub sort-Spread : (us : List Used) → All IsRange us → Disjoint us → Spread 0 (sort_used us)
unfolding sort_used
sort-Spread [] rs ds = tt
sort-Spread (u ∷ us) rs ds =
    insert-Spread 0 u (sort_used us) (omega arith) rs.0 (sort-All IsRange us rs.1)
      (sort-All (Apart u.hostid u.maprange) us ds.0) (sort-Spread us rs.1 ds.1)
