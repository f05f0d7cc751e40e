-- ===== src/Idmap/Default.antt =====
-- The id map of the daemon (`DefaultIdmapSet` and `CurrentIdmapSet`, shared/idmap/idmapset_linux.go).
pub mod Picked
pub mod Mapped
mod Tests
use Prim.Native.String.{String}
use lxd_pkg_ubuntu.Prelude.{
  ℕ, ◌-◌, ◌^◌, Bool, true, false, not, ◌&&◌, ◌||◌, if◌then◌else◌, ◌==◌, bool_eq, List, [], ◌∷◌,
  ◌++◌, map, Option, none, some, Result, ok, err, ◌>>=◌,
}
use lxd_pkg_ubuntu.Prelude.Int64.{add64, sub64, lt64}
use lxd_pkg_ubuntu.Text.{codes}
use lxd_pkg_ubuntu.Idmap.Entry.{Error, IdRange, IdmapEntry}
use lxd_pkg_ubuntu.Idmap.IdSet.{IdmapSet, valid_ranges}
use lxd_pkg_ubuntu.Idmap.Files.{get_from_shadow, get_from_proc}

-- What is looked up on the host: the two tools, and the lines of the files that are there.
pub record Host : Type 0 where
  pub newuidmap : Bool
  pub newgidmap : Bool
  pub subuid : Option (List (List ℕ))
  pub subgid : Option (List (List ℕ))
  pub uid_map : Option (List (List ℕ))
  pub gid_map : Option (List (List ℕ))

abbrev pub entry : Bool → Bool → ℕ → ℕ → ℕ → IdmapEntry
entry isuid isgid nsid hostid maprange = record {
  isuid = isuid;
  isgid = isgid;
  hostid = hostid;
  nsid = nsid;
  maprange = maprange;
}

abbrev pub from_triple : Bool → Bool → ℕ × ℕ × ℕ → IdmapEntry
from_triple isuid isgid t = entry isuid isgid t.0 t.1 t.2

-- One of the two halves of `CurrentIdmapSet`.
unfoldable pub current_half : Bool → Bool → Option (List (List ℕ)) → Result Error (List IdmapEntry)
current_half isuid isgid none = ok (entry isuid isgid 0 0 0 ∷ [])
current_half isuid isgid (some lines) =
    get_from_proc lines >>= λ entries. ok (map (from_triple isuid isgid) entries)

-- `CurrentIdmapSet`
unfoldable pub current_idmap_set : Host → Result Error IdmapSet
unfolding current_half
current_idmap_set h = current_half true false h.uid_map >>= λ uids.
    current_half false true h.gid_map >>= λ gids. ok (record { idmap = uids ++ gids })

-- The first range of a shadow file that is big enough.
unfoldable pub first_large : Bool → Bool → List (ℕ × ℕ) → List IdmapEntry
first_large isuid isgid [] = []
first_large isuid isgid ((start, size) ∷ entries) =
    let rest = first_large isuid isgid entries in
    if lt64 size 65536 then rest else entry isuid isgid 0 start size ∷ []

unfoldable pub shadow_set : Host → Result Error IdmapSet
unfolding first_large
shadow_set h = get_from_shadow h.subuid (codes "root") >>= λ uids.
    get_from_shadow h.subgid (codes "root") >>= λ gids.
    ok (record { idmap = first_large true false uids ++ first_large false true gids })

-- The hardcoded map.
abbrev pub hardcoded : IdmapSet
hardcoded = record { idmap = entry true true 0 1_000_000 1_000_000_000 ∷ [] }

abbrev same_range : IdRange → IdRange → Bool
same_range r s =
    bool_eq r.isuid s.isuid
    && bool_eq r.isgid s.isgid
    && r.startid == s.startid
    && r.endid == s.endid

-- `reflect.DeepEqual(kernelRanges, fullKernelRanges)`
unfoldable pub are_full : List IdRange → Bool
are_full (r ∷ s ∷ []) =
    same_range r (record { isuid = true; isgid = false; startid = 0; endid = 4_294_967_294 })
    && same_range s (record { isuid = false; isgid = true; startid = 0; endid = 4_294_967_294 })
are_full _ = false

-- "Don't use the first 65536 ids": the start of the range is moved, in the list of the ranges.
abbrev pub moved : IdRange → IdRange
moved r = if lt64 r.startid 100_000 then record r { startid = 100_000 } else r

-- The first suitable range of a kind, and the ranges afterwards.
unfoldable pub pick : (IdRange → Bool) → List IdRange → Option IdRange × List IdRange
pick of_kind [] = (none, [])
pick of_kind (r ∷ rs) =
    let rest = pick of_kind rs in
    if not (of_kind r)
    then (rest.0, r ∷ rest.1)
    else if lt64 r.endid 100_000
    then (rest.0, r ∷ rest.1)
    else if lt64 (sub64 (moved r).endid (moved r).startid) 65_536
    then (rest.0, moved r ∷ rest.1)
    else (some (moved r), moved r ∷ rs)

-- The map of a range that was found.
unfoldable pub picked : Bool → Bool → Option IdRange → List IdmapEntry
picked isuid isgid none = []
picked isuid isgid (some r) = entry isuid isgid 0 r.startid (add64 (sub64 r.endid r.startid) 1) ∷ []

-- The search among the ranges of the kernel.
unfoldable pub from_ranges : List IdRange → IdmapSet
unfolding pick picked
from_ranges ranges =
    let uids = pick (λ r. r.isuid) ranges in
    let gids = pick (λ r. r.isgid) uids.1 in
    record { idmap = picked true false uids.0 ++ picked false true gids.0 }

abbrev without_shadow : Result Error IdmapSet → Result Error IdmapSet
without_shadow (err _) = ok hardcoded
without_shadow (ok kernel_map) =
    let ranges = valid_ranges kernel_map in
    if are_full ranges then ok hardcoded else ok (from_ranges ranges)

abbrev is_there {ℓ} : {A : Type ℓ} → Option A → Bool
is_there none = false
is_there (some _) = true

abbrev pub has_shadow : Host → Bool
has_shadow h = h.newuidmap && h.newgidmap && is_there h.subuid && is_there h.subgid

-- `DefaultIdmapSet`
unfoldable pub default_idmap_set : Host → Result Error IdmapSet
unfolding shadow_set current_idmap_set are_full from_ranges
default_idmap_set h = if has_shadow h then shadow_set h else without_shadow (current_idmap_set h)
