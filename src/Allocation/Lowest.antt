-- ===== src/Allocation/Lowest.antt =====
-- The search finds the lowest range of free host ids.
use lxd_pkg_ubuntu.Prelude.{
  ℕ, ◌+◌, ◌^◌, ◌≤◌, ◌<◌, ◌≡◌, refl, sym, subst, arith, List, [], ◌∷◌, All, ok,
}
use lxd_pkg_ubuntu.Prelude.Int64.{add64, lt64, add64_small, lt64_small}
use lxd_pkg_ubuntu.Idmap.Entry.{IdmapEntry}
use lxd_pkg_ubuntu.Allocation.Search.{
  Used, sort_used, end_of, Scanned, gap, past, scan_rest, scan, settle, allocate, settle,
}
use lxd_pkg_ubuntu.Allocation.Scan.{
  Apart, Spread, pick, where_to, end_of_lem, scan_rest_step, gap_test, below_test,
}
use lxd_pkg_ubuntu.Allocation.Sorted.{IsRange, Disjoint, sort-All, sort-Spread}

module _ (size o : ℕ) (w : size < 2 ^ 34) where
  scan_rest_least :
      (prev : Used) (us : List Used)
      → prev.hostid + prev.maprange < 2 ^ 34
      → Spread (prev.hostid + prev.maprange) us
      → prev.hostid + prev.maprange ≤ o
      → All (Apart o (size + 1)) us
      → where_to (scan_rest size prev (end_of prev) us) ≤ o
  unfolding scan_rest
  scan_rest_least prev [] h s lo free = omega (arith, end_of_lem prev h)
  scan_rest_least prev (u ∷ us) h s lo free =
      let e = end_of_lem prev h in
      subst (λ r. where_to r ≤ o) (sym (scan_rest_step size prev u us))
        (pick (λ r. where_to r ≤ o) (lt64 (add64 (end_of prev) size) u.hostid) (λ y. omega arith)
          (λ n.
            let tight : u.hostid ≤ end_of prev + size =
              ground
                (arith, e, n, gap_test size w (end_of prev) u.hostid (omega arith) (omega arith)) in
            scan_rest_least u us s.1 s.3 (ground (arith, tight, e, free.0, lo, s.2)) free.1))

  scan_least :
      (offset : ℕ) (us : List Used)
      → offset < 2 ^ 34
      → Spread 0 us
      → offset ≤ o
      → All (Apart o (size + 1)) us
      → where_to (scan size offset us) ≤ o
  unfolding scan
  scan_least offset [] h s lo free = lo
  scan_least offset (u ∷ us) h s lo free =
      pick (λ r. where_to r ≤ o) (lt64 u.hostid (add64 offset size))
        (λ y.
          let over : u.hostid < offset + size =
            ground (arith, y, below_test size w offset u.hostid h (omega arith)) in
          scan_rest_least u us s.1 s.3 (ground (arith, over, free.0, lo, s.2)) free.1)
        (λ n. lo)

settle_low :
    (host : IdmapEntry) (size : ℕ) (r : Scanned) (o : ℕ)
    → size < 2 ^ 34
    → o < 2 ^ 34
    → host.hostid + host.maprange < 2 ^ 34
    → where_to r ≤ o
    → o + size < host.hostid + host.maprange
    → settle host size r ≡ ok (where_to r)
unfolding settle
settle_low host size (gap p) o w wo wh low room = refl
settle_low host size (past p) o w wo wh low room =
    let sum = add64_small p size (omega arith) (omega arith) in
    let top = add64_small host.hostid host.maprange (omega arith) (omega arith) in
    let test = lt64_small (p + size) (host.hostid + host.maprange) (omega arith) (omega arith) in
    ground (arith, sum, top, test)

-- When the other isolated containers use nonempty ranges of ids below 2 ^ 34, no two of them
-- overlapping, and one more id than the wanted size is free from `o` on, inside the daemon's map and
-- at least 65536 above its start, the search succeeds, and its result is `o` or lower.
pub allocate_lowest :
    (host : IdmapEntry) (size : ℕ) (used : List Used) (o : ℕ)
    → host.hostid + host.maprange < 2 ^ 34
    → All IsRange used
    → Disjoint used
    → host.hostid + 65_536 ≤ o
    → o + size < host.hostid + host.maprange
    → All (Apart o (size + 1)) used
    → (offset : ℕ) × (allocate host size (sort_used used) ≡ ok offset) × (offset ≤ o)
unfolding allocate
allocate_lowest host size used o wh rs ds lo room free =
    let start = add64_small host.hostid 65_536 (omega arith) (omega arith) in
    let r = scan size (add64 host.hostid 65_536) (sort_used used) in
    let low : where_to r ≤ o =
      scan_least size o (omega arith) (add64 host.hostid 65_536) (sort_used used) (omega arith)
        (sort-Spread used rs ds) (omega arith) (sort-All (Apart o (size + 1)) used free) in
    (where_to r, settle_low host size r o (omega arith) (omega arith) wh low room, low)
