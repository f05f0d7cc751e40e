-- ===== src/Allocation.antt =====
-- The id map of a container (lxd/container_lxc.go): the size of the map, and raw.idmap. The daemon's
-- own map is an argument.
pub mod Search
pub mod Find
pub mod Scan
pub mod Sorted
pub mod Disjoint
pub mod Lowest
pub mod Outside
mod Tests
use Prim.Native.String.{String}
use text.Mathlib.Text.{◌==◌ as str_eq}
use lxd_pkg_ubuntu.Prelude.{
  ℕ, Bool, true, false, not, ◌||◌, if◌then◌else◌, ◌==◌, List, [], ◌∷◌, length, Option, none, some,
  Result, ok, err, ◌>>=◌, ◌>>◌,
}
use lxd_pkg_ubuntu.Prelude.Int64.{add64, sub64, lt64}
use lxd_pkg_ubuntu.Text.{split, parse_int, is_true}
use lxd_pkg_ubuntu.Idmap.Entry
use lxd_pkg_ubuntu.Idmap.Entry.{IdmapEntry}
use lxd_pkg_ubuntu.Idmap.IdSet.{IdmapSet, add_safe}

pub data Error : Type 0 where
  host_id_is_sub_id bad_number bad_range bad_line different_sizes bad_type : Error
  bad_initial_map not_enough_ids index_out_of_range database : Error

abbrev pub number_or : Option ℕ → Result Error ℕ
number_or none = err bad_number
number_or (some n) = ok n

-- `set.AddSafe(ent)`: the one error that it has.
abbrev pub checked : Result Entry.Error IdmapSet → Result Error IdmapSet
checked (ok m) = ok m
checked (err _) = err host_id_is_sub_id

unfoldable pub range_of : List String → Result Error (ℕ × ℕ)
range_of (first ∷ []) = do base ← number_or (parse_int first); ok (base, 1)
range_of (first ∷ second ∷ []) = do
  base ← number_or (parse_int first)
  size ← number_or (parse_int second)
  ok (base, add64 (sub64 size base) 1)
range_of _ = err bad_range

-- The local function `getRange`.
unfoldable pub get_range : String → Result Error (ℕ × ℕ)
get_range r = range_of (split 45 r)

-- `idmapSize`
unfoldable pub idmap_size : IdmapSet → String → String → Result Error ℕ
idmap_size host isolated_str size =
    if str_eq size "" || str_eq size "auto"
    then if is_true isolated_str then ok 65_536 else elim host.idmap [
      | e ∷ es ↦ if length es == 1 then ok e.maprange else err bad_initial_map
      | [] ↦ err bad_initial_map
    ]
    else number_or (parse_int size)

abbrev pub raw_entry : (isuid isgid : Bool) → ℕ × ℕ → ℕ × ℕ → IdmapEntry
raw_entry isuid isgid outside inside = record {
  isuid = isuid;
  isgid = isgid;
  hostid = outside.0;
  nsid = inside.0;
  maprange = inside.1;
}

-- The switch on the first word of a line.
unfoldable pub add_typed : String → ℕ × ℕ → ℕ × ℕ → IdmapSet → Result Error IdmapSet
add_typed word outside inside ret =
    if str_eq word "both"
    then checked (add_safe ret (raw_entry true true outside inside))
    else if str_eq word "uid"
    then checked (add_safe ret (raw_entry true false outside inside))
    else if str_eq word "gid"
    then checked (add_safe ret (raw_entry false true outside inside))
    else err bad_type

abbrev same_size : ℕ × ℕ → ℕ × ℕ → Result Error Unit
same_size outside inside = if inside.1 == outside.1 then ok tt else err different_sizes

unfoldable pub raw_line : List String → IdmapSet → Result Error IdmapSet
unfolding get_range range_of add_typed
raw_line (word ∷ second ∷ third ∷ []) ret = do
  outside ← get_range second
  inside ← get_range third
  same_size outside inside
  add_typed word outside inside ret
raw_line _ ret = err bad_line

-- The loop of `parseRawIdmap` over the lines.
unfoldable pub raw_lines : List String → IdmapSet → Result Error IdmapSet
unfolding raw_line
raw_lines [] ret = ok ret
raw_lines (line ∷ lines) ret =
    let rest = λ (r : IdmapSet). raw_lines lines r in
    if str_eq line "" then rest ret else raw_line (split 32 line) ret >>= rest

unfoldable pub parse_raw_idmap : String → Result Error (List IdmapEntry)
unfolding raw_lines
parse_raw_idmap value = do ret ← raw_lines (split 10 value) (record { idmap = [] }); ok ret.idmap
