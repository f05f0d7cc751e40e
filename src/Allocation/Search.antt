-- ===== src/Allocation/Search.antt =====
-- The search of `findIdmap` for host ids that no other isolated container uses.
use lxd_pkg_ubuntu.Prelude.{ℕ, if◌then◌else◌, List, [], ◌∷◌, Result, ok, err}
use lxd_pkg_ubuntu.Prelude.Int64.{add64, lt64}
use lxd_pkg_ubuntu.Idmap.Entry.{IdmapEntry}
use lxd_pkg_ubuntu.Allocation.{Error, not_enough_ids}

-- The host ids of another container, as an entry of `mapentries`.
pub record Used : Type 0 where
  pub hostid : ℕ
  pub maprange : ℕ

-- `sort.Sort(mapentries)` by `ByHostid`.
unfoldable pub insert_used : Used → List Used → List Used
insert_used u [] = u ∷ []
insert_used u (x ∷ xs) = if lt64 u.hostid x.hostid then u ∷ x ∷ xs else x ∷ insert_used u xs

unfoldable pub sort_used : List Used → List Used
unfolding insert_used
sort_used [] = []
sort_used (x ∷ xs) = insert_used x (sort_used xs)

abbrev pub end_of : Used → ℕ
end_of u = add64 u.hostid u.maprange

-- How the loop over the sorted entries ends: with a gap, or past the last entry.
pub data Scanned : Type 0 where
  gap : ℕ → Scanned
  past : ℕ → Scanned

-- The rounds after the first; `prev` is `mapentries[i-1]`.
unfoldable pub scan_rest : ℕ → Used → ℕ → List Used → Scanned
scan_rest size prev offset [] = past offset
scan_rest size prev offset (e ∷ es) =
    let overlapped = scan_rest size e (end_of prev) es in
    let next = scan_rest size e (end_of e) es in
    if lt64 offset (end_of prev)
    then overlapped
    else if lt64 (add64 (end_of prev) size) e.hostid
    then gap (end_of prev)
    else next

unfoldable pub scan : ℕ → ℕ → List Used → Scanned
unfolding scan_rest
scan size offset [] = past offset
scan size offset (e ∷ es) =
    if lt64 e.hostid (add64 offset size) then scan_rest size e (end_of e) es else gap offset

-- After the loop.
unfoldable pub settle : IdmapEntry → ℕ → Scanned → Result Error ℕ
settle host size (gap offset) = ok offset
settle host size (past offset) =
    if lt64 (add64 offset size) (add64 host.hostid host.maprange)
    then ok offset
    else err not_enough_ids

-- The offset that the search settles on.
unfoldable pub allocate : IdmapEntry → ℕ → List Used → Result Error ℕ
unfolding scan settle
allocate host size used = settle host size (scan size (add64 host.hostid 65_536) used)
