-- ===== src/Allocation/Tests.antt =====
-- Runs of the search for host ids, and the theorems on it at concrete containers.
use lxd_pkg_ubuntu.Text.{split, parse_int}
use lxd_pkg_ubuntu.Prelude.Int64.{lt64, add64, sub64, le64}
use lxd_pkg_ubuntu.Prelude.{ℕ, ◌≡◌, ◌≤◌, refl, true, false, arith, [], ◌∷◌, All, ok, err, inl, inr}
use lxd_pkg_ubuntu.Idmap.Entry.{IdmapEntry, intersects, overlap}
use lxd_pkg_ubuntu.Idmap.IdSet.{IdmapSet, add_safe, add_safe_loop}
use lxd_pkg_ubuntu.Allocation.{parse_raw_idmap, bad_range, bad_type, not_enough_ids}
use lxd_pkg_ubuntu.Allocation.Search.{Used, sort_used, allocate}
use lxd_pkg_ubuntu.Allocation.Scan.{Apart}
use lxd_pkg_ubuntu.Allocation.Disjoint.{allocate-Disjoint}
use lxd_pkg_ubuntu.Allocation.Lowest.{allocate_lowest}
use lxd_pkg_ubuntu.Allocation.Outside.{allocate_after_only}

abbrev host_uids : IdmapEntry
host_uids = record { isuid = true; isgid = false; hostid = 100_000; nsid = 0; maprange = 1_000_000 }

abbrev host_gids : IdmapEntry
host_gids = record { isuid = false; isgid = true; hostid = 100_000; nsid = 0; maprange = 1_000_000 }

abbrev host_map : IdmapSet
host_map = record { idmap = host_uids ∷ host_gids ∷ [] }

-- Two containers, out of order, with room between them.
abbrev high : Used
high = record { hostid = 400_000; maprange = 65_536 }

abbrev low : Used
low = record { hostid = 165_536; maprange = 65_536 }

abbrev stray : Used
stray = record { hostid = 0; maprange = 65_536 }

allocate-between : allocate host_uids 65_536 (sort_used (high ∷ low ∷ [])) ≡ ok 231_072
unfolding allocate sort_used lt64 add64
allocate-between = refl

allocate-full : allocate host_uids 900_000 (sort_used (high ∷ low ∷ [])) ≡ err not_enough_ids
unfolding allocate sort_used lt64 add64
allocate-full = refl

parse_raw_idmap-both :
    parse_raw_idmap "both 1000 1000\nuid 50-60 500-510"
    ≡ ok (
        record { isuid = true; isgid = true; hostid = 1000; nsid = 1000; maprange = 1 }
        ∷ record { isuid = true; isgid = false; hostid = 50; nsid = 500; maprange = 11 }
        ∷ [])
unfolding parse_raw_idmap split parse_int add_safe add_safe_loop add64 sub64 intersects overlap le64
parse_raw_idmap-both = refl

parse_raw_idmap-bad_range : parse_raw_idmap "uid 1-2-3 1" ≡ err bad_range
unfolding parse_raw_idmap split
parse_raw_idmap-bad_range = refl

parse_raw_idmap-bad_type : parse_raw_idmap "user 1 1" ≡ err bad_type
unfolding parse_raw_idmap split parse_int
parse_raw_idmap-bad_type = refl

allocate-Disjoint_example : All (Apart 231_072 65_536) (high ∷ low ∷ [])
allocate-Disjoint_example =
    allocate-Disjoint host_uids 65_536 (high ∷ low ∷ []) 231_072 (omega arith) (omega arith)
      ((omega arith, omega arith), ((omega arith, omega arith), tt))
      ((inr (omega arith), tt), (tt, tt)) allocate-between

allocate_lowest_example :
    (offset : ℕ) × (allocate host_uids 65_536 (sort_used (high ∷ low ∷ [])) ≡ ok offset)
    × (offset ≤ 300_000)
allocate_lowest_example =
    allocate_lowest host_uids 65_536 (high ∷ low ∷ []) 300_000 (omega arith)
      ((omega arith, omega arith), ((omega arith, omega arith), tt))
      ((inr (omega arith), tt), (tt, tt)) (omega arith) (omega arith)
      (inl (omega arith), (inr (omega arith), tt))

allocate_after_only_example : allocate host_uids 65_536 (sort_used (stray ∷ [])) ≡ ok 65_536
allocate_after_only_example =
    allocate_after_only host_uids 65_536 stray (omega arith) (omega arith) (omega arith)
      (omega arith)
