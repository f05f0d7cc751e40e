-- ===== src/Allocation/Disjoint.antt =====
-- The host ids that the search gives are no other container's.
use lxd_pkg_ubuntu.Prelude.{
  ℕ, ◌^◌, ◌<◌, ◌≡◌, inl, inr, refl, subst, arith, List, All, Result, ok, Bool-cases,
}
use lxd_pkg_ubuntu.Prelude.Int64.{add64, lt64, add64_small}
use lxd_pkg_ubuntu.Idmap.Entry.{IdmapEntry}
use lxd_pkg_ubuntu.Allocation.{Error}
use lxd_pkg_ubuntu.Allocation.Search.{Used, sort_used, Scanned, gap, past, scan, settle, allocate}
use lxd_pkg_ubuntu.Allocation.Scan.{Apart, where_to, scan_lem}
use lxd_pkg_ubuntu.Allocation.Sorted.{IsRange, Disjoint, sort-All_back, sort-Spread}

one_offset : {r : Result Error ℕ} {o p : ℕ} → r ≡ ok o → r ≡ ok p → o ≡ p
one_offset e f = cc (e, f)

settle_where :
    (host : IdmapEntry) (size : ℕ) (r : Scanned) (offset : ℕ)
    → settle host size r ≡ ok offset
    → where_to r ≡ offset
unfolding settle
settle_where host size (gap o) offset e = one_offset refl e
settle_where host size (past o) offset e =
    elim (Bool-cases (lt64 (add64 o size) (add64 host.hostid host.maprange))) [
      | inl y ↦ cc (e, y)
      | inr n ↦ cc (e, n)
    ]

allocate_where :
    (host : IdmapEntry) (size : ℕ) (used : List Used) (offset : ℕ)
    → allocate host size used ≡ ok offset
    → where_to (scan size (add64 host.hostid 65_536) used) ≡ offset
unfolding allocate
allocate_where host size used offset e =
    settle_where host size (scan size (add64 host.hostid 65_536) used) offset e

-- When the other isolated containers use nonempty ranges of ids below 2 ^ 34, no two of them
-- overlapping, every search that succeeds gives a range of host ids that meets none of theirs.
pub allocate-Disjoint :
    (host : IdmapEntry) (size : ℕ) (used : List Used) (offset : ℕ)
    → host.hostid < 2 ^ 33
    → size < 2 ^ 34
    → All IsRange used
    → Disjoint used
    → allocate host size (sort_used used) ≡ ok offset
    → All (Apart offset size) used
allocate-Disjoint host size used offset wh ws rs ds e =
    let start = add64_small host.hostid 65_536 (omega arith) (omega arith) in
    let apart =
      scan_lem size ws (add64 host.hostid 65_536) (sort_used used) (omega arith)
        (sort-Spread used rs ds) in
    sort-All_back (Apart offset size) used (
      subst (λ o. All (Apart o size) (sort_used used))
        (allocate_where host size (sort_used used) offset e) apart)
