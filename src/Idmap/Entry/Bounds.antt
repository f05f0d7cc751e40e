-- ===== src/Idmap/Entry/Bounds.antt =====
-- The range of the numbers of an entry. The parsers read them by `ParseUint(_, 10, 32)`, so the
-- ends of a range stay far below the largest `int64`.
use lxd_pkg_ubuntu.Prelude.{ℕ, ◌+◌, ◌^◌, ◌≤◌, ◌<◌, Bool, ltb, leb, ◌&&◌}
use lxd_pkg_ubuntu.Idmap.Entry.{IdmapEntry}

-- Both ranges of an entry end below 2 ^ 34, and hold an id.
pub record IsBounded (e : IdmapEntry) : Type 0 where
  pub host_end : e.hostid + e.maprange < 2 ^ 34
  pub ns_end : e.nsid + e.maprange < 2 ^ 34
  pub some_id : 0 < e.maprange

-- An id of the range of `n` ids from `start`.
abbrev pub InRange : ℕ → ℕ → ℕ → Type 0
InRange start n id = (start ≤ id) × (id < start + n)

abbrev pub in_range : ℕ → ℕ → ℕ → Bool
in_range start n id = leb start id && ltb id (start + n)

-- Two ranges share an id.
abbrev pub Overlap : ℕ → ℕ → ℕ → ℕ → Type 0
Overlap a m b n = (a < b + n) × (b < a + m)

abbrev pub overlaps : ℕ → ℕ → ℕ → ℕ → Bool
overlaps a m b n = ltb a (b + n) && ltb b (a + m)
