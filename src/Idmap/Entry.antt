-- ===== src/Idmap/Entry.antt =====
-- One entry of an id map (shared/idmap/idmapset_linux.go, `IdRange` and `IdmapEntry`). The numbers
-- are `int64` values, as bit patterns.
pub mod Bounds
pub mod Overlap
pub mod Shift
use lxd_pkg_ubuntu.Prelude.{ℕ, Bool, false, true, ◌&&◌, ◌||◌, if◌then◌else◌}
use lxd_pkg_ubuntu.Prelude.{Result, ok, err}
use lxd_pkg_ubuntu.Prelude.Int64.{add64, sub64, lt64, le64}

-- The errors that the package builds by `fmt.Errorf`, and `ErrHostIdIsSubId`.
pub data Error : Type 0 where
  mapping_does_not_apply conflicting_id_mapping host_id_is_sub_id unusable_map : Error
  kernel_map_unreadable bad_idmap bad_idmap_type bad_number id_wraparound : Error

pub record IdRange : Type 0 where
  pub isuid : Bool
  pub isgid : Bool
  pub startid : ℕ
  pub endid : ℕ

unfoldable pub contains : IdRange → ℕ → Bool
contains i id = le64 i.startid id && le64 id i.endid

pub record IdmapEntry : Type 0 where
  pub isuid : Bool
  pub isgid : Bool
  pub hostid : ℕ
  pub nsid : ℕ
  pub maprange : ℕ

unfoldable pub is_between : ℕ → ℕ → ℕ → Bool
is_between x low high = le64 low x && lt64 x high

-- The test on the kinds that `HostidsIntersect` and `Intersects` share.
abbrev pub same_kind : IdmapEntry → IdmapEntry → Bool
same_kind e i = (e.isuid && i.isuid) || (e.isgid && i.isgid)

unfoldable pub hostids_intersect : IdmapEntry → IdmapEntry → Bool
hostids_intersect e i =
    if same_kind e i
    then is_between e.hostid i.hostid (add64 i.hostid i.maprange)
      || is_between i.hostid e.hostid (add64 e.hostid e.maprange)
      || is_between (add64 e.hostid e.maprange) i.hostid (add64 i.hostid i.maprange)
      || is_between (add64 i.hostid i.maprange) e.hostid (add64 e.hostid e.maprange)
    else false

-- `x.Hostid+x.Maprange-1` and `x.Nsid+x.Maprange-1`.
unfoldable pub last_of : ℕ → ℕ → ℕ
last_of start maprange = sub64 (add64 start maprange) 1

-- Four of the eight cases of `Intersects`: those on the host ids, and again on the namespace's ids.
unfoldable pub overlap : ℕ → ℕ → ℕ → ℕ → Bool
unfolding is_between last_of
overlap a m b n =
    is_between a b (last_of b n)
    || is_between b a (last_of a m)
    || is_between (last_of a m) b (last_of b n)
    || is_between (last_of b n) a (last_of a m)

unfoldable pub intersects : IdmapEntry → IdmapEntry → Bool
intersects e i =
    if same_kind e i
    then overlap e.hostid e.maprange i.hostid i.maprange
      || overlap e.nsid e.maprange i.nsid i.maprange
    else false

-- `shift_into_ns`: from an id in the namespace to the id on the host.
unfoldable pub shift_into_ns : IdmapEntry → ℕ → Result Error ℕ
shift_into_ns e id =
    if lt64 id e.nsid || le64 (add64 e.nsid e.maprange) id
    then err mapping_does_not_apply
    else ok (add64 (sub64 id e.nsid) e.hostid)

unfoldable pub shift_from_ns : IdmapEntry → ℕ → Result Error ℕ
shift_from_ns e id =
    if lt64 id e.hostid || le64 (add64 e.hostid e.maprange) id
    then err mapping_does_not_apply
    else ok (add64 (sub64 id e.hostid) e.nsid)
