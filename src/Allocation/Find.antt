-- ===== src/Allocation/Find.antt =====
-- `findIdmap`: the id map of a container. What the database says of the other containers, and the
-- daemon's own map, are arguments.
use Prim.Native.String.{String}
use text.Mathlib.Text.{◌==◌ as str_eq}
use lxd_pkg_ubuntu.Prelude.{
  ℕ, Bool, true, false, not, ◌||◌, if◌then◌else◌, List, [], ◌∷◌, Result, ok, err, ◌>>=◌,
}
use lxd_pkg_ubuntu.Text.{parse_int, is_true}
use lxd_pkg_ubuntu.Idmap.Entry.{IdmapEntry}
use lxd_pkg_ubuntu.Idmap.IdSet.{IdmapSet, add_safe}
use lxd_pkg_ubuntu.Allocation.{
  Error, index_out_of_range, number_or, checked, idmap_size, parse_raw_idmap,
}
use lxd_pkg_ubuntu.Allocation.Search.{Used, sort_used, allocate}

-- The loop that adds the entries of raw.idmap to a set.
unfoldable pub add_all : IdmapSet → List IdmapEntry → Result Error IdmapSet
add_all set [] = ok set
add_all set (ent ∷ ents) =
    let rest = λ (s : IdmapSet). add_all s ents in checked (add_safe set ent) >>= rest

-- The local function `mkIdmap`.
abbrev pub isolated_set : ℕ → ℕ → IdmapSet
isolated_set offset size = record {
  idmap =
      record { isuid = true; isgid = false; nsid = 0; hostid = offset; maprange = size }
      ∷ record { isuid = false; isgid = true; nsid = 0; hostid = offset; maprange = size }
      ∷ [];
}

unfoldable pub mk_idmap : List IdmapEntry → ℕ → ℕ → Result Error IdmapSet
mk_idmap raw_maps offset size = add_all (isolated_set offset size) raw_maps

-- What the search reads of another container once it is loaded.
pub record Other : Type 0 where
  pub is_privileged : Bool
  pub isolated : String  -- security.idmap.isolated
  pub base : String  -- volatile.idmap.base
  pub size : String  -- security.idmap.size

-- The names in the database, each with what loading that container gives.
abbrev pub Others : Type 0
Others = List (String × Result Error Other)

abbrev base_of : String → Result Error ℕ
base_of base = if str_eq base "" then ok 0 else number_or (parse_int base)

unfoldable pub used_by : IdmapSet → Other → Result Error Used
unfolding idmap_size
used_by host c = do
  base ← base_of c.base
  size ← idmap_size host c.isolated c.size
  ok (record { hostid = base; maprange = size })

-- The loop over the containers.
unfoldable pub map_entries : IdmapSet → String → Others → Result Error (List Used)
unfolding used_by
map_entries host name [] = ok []
map_entries host name ((n, loaded) ∷ cs) =
    let rest = map_entries host name cs in
    if str_eq n name
    then rest
    else loaded >>= λ c.
        if c.is_privileged || not (is_true c.isolated)
        then rest
        else (do u ← used_by host c; us ← rest; ok (u ∷ us))

abbrev first_entry : List IdmapEntry → Result Error IdmapEntry
first_entry [] = err index_out_of_range
first_entry (e ∷ es) = ok e

unfoldable pub find_isolated :
    IdmapSet
    → Result Error Others
    → String
    → List IdmapEntry
    → String
    → ℕ
    → Result Error (IdmapSet × ℕ)
find_isolated host others name raw_maps config_base size =
    if not (str_eq config_base "")
    then (do
      offset ← number_or (parse_int config_base)
      set ← mk_idmap raw_maps offset size
      ok (set, offset))
    else (do
      cs ← others
      first ← first_entry host.idmap
      used ← map_entries host name cs
      offset ← allocate first size (sort_used used)
      set ← mk_idmap raw_maps offset size
      ok (set, offset))

-- `findIdmap`
unfoldable pub find_idmap :
    IdmapSet
    → Result Error Others
    → String
    → (isolated_str config_base config_size raw : String) → Result Error (IdmapSet × ℕ)
unfolding find_isolated
find_idmap host others name isolated_str config_base config_size raw = do
  raw_maps ← parse_raw_idmap raw
  if not (is_true isolated_str) then (do set ← add_all host raw_maps; ok (set, 0)) else (do
    size ← idmap_size host isolated_str config_size
    find_isolated host others name raw_maps config_base size)
