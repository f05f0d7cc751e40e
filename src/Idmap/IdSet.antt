-- ===== src/Idmap/IdSet.antt =====
-- Sets of entries (shared/idmap/idmapset_linux.go, `IdmapSet`). The kernel's own map, which
-- `CurrentIdmapSet` reads from /proc, is an argument.
pub mod Lookup
pub mod Consistent
pub mod Parts
pub mod AddSafe
pub mod Apart
pub mod Pieces
pub mod Append
pub mod Remap
pub mod Ranges
pub mod Usable
use lxd_pkg_ubuntu.Prelude.{
  ℕ, Bool, false, true, not, ◌&&◌, ◌||◌, if◌then◌else◌, ◌==◌, bool_eq, any,
}
use lxd_pkg_ubuntu.Prelude.{Option, none, some, List, [], ◌∷◌, ◌++◌, Result, ok, err, ◌>>=◌, ◌>>◌}
use lxd_pkg_ubuntu.Prelude.Int64.{add64, sub64, lt64, minus_one}
use lxd_pkg_ubuntu.Idmap.Entry.{Error, conflicting_id_mapping, host_id_is_sub_id, unusable_map}
use lxd_pkg_ubuntu.Idmap.Entry.{IdRange, IdmapEntry, contains, intersects, hostids_intersect}
use lxd_pkg_ubuntu.Idmap.Entry.{shift_into_ns, shift_from_ns}
use mathlib.Core.Option

pub record IdmapSet : Type 0 where
  pub idmap : List IdmapEntry

-- `Less`, on the two entries that it compares.
unfoldable pub less : IdmapEntry → IdmapEntry → Bool
less a b =
    if not (bool_eq a.isuid b.isuid)
    then a.isuid
    else if not (bool_eq a.isgid b.isgid)
    then a.isgid
    else lt64 a.nsid b.nsid

-- `sort.Sort(idmap)`: Go's sort fixes no order among entries that `Less` does not tell apart; this
-- one puts them in the reverse of theirs.
unfoldable pub insert : IdmapEntry → List IdmapEntry → List IdmapEntry
insert e [] = e ∷ []
insert e (x ∷ xs) = if less e x then e ∷ x ∷ xs else x ∷ insert e xs

unfoldable pub sort : List IdmapEntry → List IdmapEntry
sort [] = []
sort (x ∷ xs) = insert x (sort xs)

unfoldable pub set_intersects : List IdmapEntry → IdmapEntry → Bool
set_intersects m i = any (λ e. intersects i e) m

unfoldable pub set_hostids_intersect : List IdmapEntry → IdmapEntry → Bool
set_hostids_intersect m i = any (λ e. hostids_intersect i e) m

-- The inner loop of `ValidRanges`: the first range of the entry's kinds that ends where it begins is
-- extended in place; `none` if there is none.
unfoldable pub extend_range : List IdRange → IdmapEntry → Option (List IdRange)
extend_range [] e = none
extend_range (r ∷ rs) e =
    let rest = Option.map (λ (l : List IdRange). r ∷ l) (extend_range rs e) in
    if not (bool_eq e.isuid r.isuid) || not (bool_eq e.isgid r.isgid)
    then rest
    else if add64 r.endid 1 == e.nsid
    then some (record r { endid = add64 r.endid e.maprange } ∷ rs)
    else rest

abbrev pub new_range : IdmapEntry → IdRange
new_range e = record {
  isuid = e.isuid;
  isgid = e.isgid;
  startid = e.nsid;
  endid = sub64 (add64 e.nsid e.maprange) 1;
}

unfoldable pub add_range : List IdRange → IdmapEntry → List IdRange
add_range ranges e = elim (extend_range ranges e) [
  | none ↦ ranges ++ new_range e ∷ []
  | some extended ↦ extended
]

unfoldable pub ranges_loop : List IdRange → List IdmapEntry → List IdRange
ranges_loop ranges [] = ranges
ranges_loop ranges (e ∷ es) = ranges_loop (add_range ranges e) es

-- The copy that `DeepCopy` makes is the set itself, since sets are values here.
unfoldable pub valid_ranges : IdmapSet → List IdRange
valid_ranges m = ranges_loop [] (sort m.idmap)

-- `IdmapEntry.Usable`, for one of the two kinds: some range of that kind holds both ends.
unfoldable pub holds_ends : (IdRange → Bool) → IdmapEntry → IdRange → Bool
holds_ends of_kind e r =
    of_kind r && contains r e.hostid && contains r (sub64 (add64 e.hostid e.maprange) 1)

unfoldable pub check_kind : Bool → (IdRange → Bool) → List IdRange → IdmapEntry → Result Error Unit
unfolding holds_ends
check_kind wanted of_kind ranges e =
    if wanted && not (any (holds_ends of_kind e) ranges) then err unusable_map else ok tt

unfoldable pub entry_usable : Result Error IdmapSet → IdmapEntry → Result Error Unit
entry_usable kernel e = do
  kernel_idmap ← kernel
  let kernel_ranges = valid_ranges kernel_idmap
  check_kind e.isuid (λ r. r.isuid) kernel_ranges e
  check_kind e.isgid (λ r. r.isgid) kernel_ranges e

unfoldable pub usable : Result Error IdmapSet → List IdmapEntry → Result Error Unit
usable kernel [] = ok tt
usable kernel (e ∷ es) = let rest = usable kernel es in (do entry_usable kernel e; rest)

-- `AddSafe`: the part of `e` below `i`, and the part above it.
abbrev pub lower : IdmapEntry → IdmapEntry → IdmapEntry
lower e i = record {
  isuid = e.isuid;
  isgid = e.isgid;
  hostid = e.hostid;
  nsid = e.nsid;
  maprange = sub64 i.nsid e.nsid;
}

abbrev pub upper : IdmapEntry → IdmapEntry → IdmapEntry
upper e i = record {
  isuid = e.isuid;
  isgid = e.isgid;
  hostid = add64 (add64 e.hostid (sub64 i.nsid e.nsid)) i.maprange;
  nsid = add64 i.nsid i.maprange;
  maprange = sub64 (sub64 e.maprange i.maprange) (sub64 i.nsid e.nsid);
}

-- `if x.Maprange > 0 { result = append(result, x) }`
unfoldable pub append_positive : List IdmapEntry → IdmapEntry → List IdmapEntry
append_positive result x = if lt64 0 x.maprange then result ++ x ∷ [] else result

unfoldable pub split_entry : List IdmapEntry → IdmapEntry → IdmapEntry → List IdmapEntry
unfolding append_positive
split_entry result e i = append_positive (append_positive result (lower e i) ++ i ∷ []) (upper e i)

unfoldable pub add_safe_loop :
    IdmapEntry → List IdmapEntry → Bool → List IdmapEntry → Result Error (List IdmapEntry × Bool)
add_safe_loop i result added [] = ok (result, added)
add_safe_loop i result added (e ∷ es) =
    let kept = add_safe_loop i (result ++ e ∷ []) added es in
    let split = add_safe_loop i (split_entry result e i) true es in
    if not (intersects e i)
    then kept
    else if hostids_intersect e i
    then err host_id_is_sub_id
    else split

unfoldable pub add_safe : IdmapSet → IdmapEntry → Result Error IdmapSet
add_safe m i = do
  (result, added) ← add_safe_loop i [] false m.idmap
  ok (record { idmap = if added then result else result ++ i ∷ [] })

-- `Append`, after the text has been parsed to `e`.
unfoldable pub append_entry : IdmapSet → IdmapEntry → Result Error IdmapSet
append_entry m e =
    if set_intersects m.idmap e
    then err conflicting_id_mapping
    else ok (record { idmap = m.idmap ++ e ∷ [] })

-- The values "in" and "out" of the argument `how`.
pub data How : Type 0 where
  into_ns from_ns : How

abbrev pub shift_by : How → IdmapEntry → ℕ → Result Error ℕ
shift_by into_ns e id = shift_into_ns e id
shift_by from_ns e id = shift_from_ns e id

-- One id in one round of the loop of `doShiftIntoNs`; `u` is what has been found, or -1.
unfoldable pub shift_round : How → Bool → IdmapEntry → ℕ → ℕ → ℕ
shift_round how of_kind e id u =
    if of_kind && u == minus_one then elim (shift_by how e id) [ ok v ↦ v | err _ ↦ u ] else u

unfoldable pub shift_loop : How → ℕ → ℕ → ℕ × ℕ → List IdmapEntry → ℕ × ℕ
unfolding shift_round
shift_loop how uid gid (u, g) [] = (u, g)
shift_loop how uid gid (u, g) (e ∷ es) =
    shift_loop how uid gid (shift_round how e.isuid e uid u, shift_round how e.isgid e gid g) es

unfoldable pub do_shift_into_ns : How → IdmapSet → ℕ → ℕ → ℕ × ℕ
do_shift_into_ns how m uid gid = shift_loop how uid gid (minus_one, minus_one) m.idmap

unfoldable pub set_shift_into_ns : IdmapSet → ℕ → ℕ → ℕ × ℕ
set_shift_into_ns m uid gid = do_shift_into_ns into_ns m uid gid

unfoldable pub set_shift_from_ns : IdmapSet → ℕ → ℕ → ℕ × ℕ
set_shift_from_ns m uid gid = do_shift_into_ns from_ns m uid gid
