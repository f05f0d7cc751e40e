-- ===== src/Allocation/Outside.antt =====
-- The search does not come back into the daemon's map from a container below it.
use lxd_pkg_ubuntu.Prelude.{ℕ, ◌+◌, ◌^◌, ◌<◌, ◌≡◌, arith, [], ◌∷◌, ok}
use lxd_pkg_ubuntu.Prelude.Int64.{add64_small, lt64_small}
use lxd_pkg_ubuntu.Idmap.Entry.{IdmapEntry}
use lxd_pkg_ubuntu.Allocation.Search.{
  Used, insert_used, sort_used, scan_rest, scan, settle, allocate,
}

-- When one other isolated container is there, its ids start below the end of the first range that is
-- tried, and the wanted size fits between its last id and the end of the daemon's map, the search
-- gives the id after that container's last, even if that lies below the start of the map.
pub allocate_after_only :
    (host : IdmapEntry) (size : ℕ) (u : Used)
    → host.hostid + host.maprange < 2 ^ 34
    → host.hostid < 2 ^ 33
    → u.hostid < host.hostid + 65_536 + size
    → u.hostid + u.maprange + size < host.hostid + host.maprange
    → allocate host size (sort_used (u ∷ [])) ≡ ok (u.hostid + u.maprange)
unfolding allocate scan scan_rest settle sort_used insert_used
allocate_after_only host size u wh wb start room =
    let first = add64_small host.hostid 65_536 (omega arith) (omega arith) in
    let tried = add64_small (host.hostid + 65_536) size (omega arith) (omega arith) in
    let top = add64_small host.hostid host.maprange (omega arith) (omega arith) in
    let stop = add64_small u.hostid u.maprange (omega arith) (omega arith) in
    let after = add64_small (u.hostid + u.maprange) size (omega arith) (omega arith) in
    let test = lt64_small u.hostid (host.hostid + 65_536 + size) (omega arith) (omega arith) in
    let last =
      lt64_small (u.hostid + u.maprange + size) (host.hostid + host.maprange) (omega arith)
        (omega arith) in
    ground (arith, first, tried, top, stop, after, test, last)
