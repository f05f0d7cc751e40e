-- ===== src/Idmap/Entry/Overlap.antt =====
-- When two entries intersect.
use lxd_pkg_ubuntu.Prelude.{ℕ, ◌+◌, ◌-◌, ◌^◌, ◌≤◌, ◌<◌, ◌≡◌, ◌≢◌, ◌⊎◌, true, false, ltb, leb, arith}
use lxd_pkg_ubuntu.Prelude.{◌&&◌, ◌||◌}
use lxd_pkg_ubuntu.Prelude.Int64.{add64, sub64, add64_small, lt64_small, le64_small}
use lxd_pkg_ubuntu.Idmap.Entry.{
  IdmapEntry, same_kind, is_between, last_of, overlap, intersects, hostids_intersect,
}
use lxd_pkg_ubuntu.Idmap.Entry.Bounds.{IsBounded, Overlap, overlaps}

last_of_small : (a m : ℕ) → a + m < 2 ^ 62 → 0 < m → last_of a m ≡ a + m - 1
unfolding last_of add64 sub64
last_of_small a m h p = omega arith

is_between_small :
    (x low high : ℕ)
    → x < 2 ^ 62
    → low < 2 ^ 62
    → high < 2 ^ 62
    → is_between x low high ≡ (leb low x && ltb x high)
unfolding is_between
is_between_small x low high hx hl hh = ground (arith, le64_small low x, lt64_small x high)

-- The test as the code makes it sees an overlap unless one range is the single last id of the other.
abbrev pub Detectable : ℕ → ℕ → ℕ → ℕ → Type 0
Detectable a m b n = ((2 ≤ n) ⊎ (b + 1 ≢ a + m)) × ((2 ≤ m) ⊎ (a + 1 ≢ b + n))

module _ (a m b n : ℕ) (ha : a + m < 2 ^ 34) (hb : b + n < 2 ^ 34) (pm : 0 < m) (pn : 0 < n) where
  overlap_tests : overlap a m b n ≡ (
      (leb b a && ltb a (b + n - 1))
      || (leb a b && ltb b (a + m - 1))
      || (leb b (a + m - 1) && ltb (a + m - 1) (b + n - 1))
      || (leb a (b + n - 1) && ltb (b + n - 1) (a + m - 1)))
  unfolding overlap
  overlap_tests =
      rw (last_of_small a m (omega arith) pm, last_of_small b n (omega arith) pn)
        (ground (
          arith,
          is_between_small a b (b + n - 1) (omega arith) (omega arith) (omega arith),
          is_between_small b a (a + m - 1) (omega arith) (omega arith) (omega arith),
          is_between_small (a + m - 1) b (b + n - 1) (omega arith) (omega arith) (omega arith),
          is_between_small (b + n - 1) a (a + m - 1) (omega arith) (omega arith) (omega arith),
        ))

  pub overlap_sound : overlap a m b n ≡ true → Overlap a m b n
  overlap_sound h = ground (arith, overlap_tests)

  pub overlap_complete : Detectable a m b n → Overlap a m b n → overlap a m b n ≡ true
  overlap_complete d h = ground (arith, overlap_tests)

  pub overlap_exact : Detectable a m b n → overlap a m b n ≡ overlaps a m b n
  overlap_exact d = ground (arith, overlap_tests)

  -- The four tests of `HostidsIntersect`.
  touch_tests :
      (is_between a b (add64 b n)
        || is_between b a (add64 a m)
        || is_between (add64 a m) b (add64 b n)
        || is_between (add64 b n) a (add64 a m))
      ≡ (leb b (a + m) && leb a (b + n))
  touch_tests =
      rw (add64_small a m (omega arith) (omega arith), add64_small b n (omega arith) (omega arith))
        (ground (
          arith,
          is_between_small a b (b + n) (omega arith) (omega arith) (omega arith),
          is_between_small b a (a + m) (omega arith) (omega arith) (omega arith),
          is_between_small (a + m) b (b + n) (omega arith) (omega arith) (omega arith),
          is_between_small (b + n) a (a + m) (omega arith) (omega arith) (omega arith),
        ))

-- Two host ranges clash for `HostidsIntersect` as soon as they touch: the tests take the number after
-- the last id too.
pub hostids_intersect_lem :
    (e i : IdmapEntry)
    → IsBounded e
    → IsBounded i
    → hostids_intersect e i ≡ (
        same_kind e i
        && leb i.hostid (e.hostid + e.maprange)
        && leb e.hostid (i.hostid + i.maprange))
unfolding hostids_intersect
hostids_intersect_lem e i be bi = ground (
  arith,
  touch_tests e.hostid e.maprange i.hostid i.maprange be.host_end bi.host_end be.some_id bi.some_id,
)

-- Entries whose single ids do not sit at the end of the other's ranges.
abbrev pub Clear : IdmapEntry → IdmapEntry → Type 0
Clear e i =
    Detectable e.hostid e.maprange i.hostid i.maprange
    × Detectable e.nsid e.maprange i.nsid i.maprange

-- `Intersects` tells exactly whether two entries of a common kind share host ids or ids in the
-- namespace, where no range is a single id at the end of the other.
pub intersects_exact :
    (e i : IdmapEntry)
    → IsBounded e
    → IsBounded i
    → Clear e i
    → intersects e i ≡ (
        same_kind e i
        && (overlaps e.hostid e.maprange i.hostid i.maprange
            || overlaps e.nsid e.maprange i.nsid i.maprange))
unfolding intersects
intersects_exact e i be bi c = ground (
  arith,
  overlap_exact e.hostid e.maprange i.hostid i.maprange be.host_end bi.host_end be.some_id
      bi.some_id c.0,
  overlap_exact e.nsid e.maprange i.nsid i.maprange be.ns_end bi.ns_end be.some_id bi.some_id c.1,
)

-- A single id that is the last one of an entry's range in the namespace is overlooked: the entries
-- share that id and, with host ranges apart, do not intersect.
pub intersects_overlooks_last :
    (e i : IdmapEntry)
    → IsBounded e
    → IsBounded i
    → i.maprange ≡ 1
    → i.nsid + 1 ≡ e.nsid + e.maprange
    → ¬ (Overlap e.hostid e.maprange i.hostid i.maprange)
    → (Overlap e.nsid e.maprange i.nsid i.maprange) × (intersects e i ≡ false)
unfolding intersects
intersects_overlooks_last e i be bi one last apart = (
  (omega arith, omega arith),
  ground (
    arith,
    overlap_tests e.hostid e.maprange i.hostid i.maprange be.host_end bi.host_end be.some_id
        bi.some_id,
    overlap_tests e.nsid e.maprange i.nsid i.maprange be.ns_end bi.ns_end be.some_id bi.some_id,
  ),
)
