-- ===== src/Idmap/Default/Tests.antt =====
-- Runs of the parsers of id maps and of the default map, and the theorems on them.
use lxd_pkg_ubuntu.Prelude.Int64.{sub64, add64, lt64}
use lxd_pkg_ubuntu.Limits.Cpuset.{show_int}
use lxd_pkg_ubuntu.Prelude.{◌≡◌, refl, arith, true, false, [], ◌∷◌, All, none, some, ok, err}
use lxd_pkg_ubuntu.Text.{codes, fields, parse_uint32}
use lxd_pkg_ubuntu.Idmap.Entry.{bad_idmap, bad_idmap_type}
use lxd_pkg_ubuntu.Idmap.IdSet.{
  IdmapSet, valid_ranges, ranges_loop, sort, insert, less, add_range, extend_range,
}
use lxd_pkg_ubuntu.Idmap.Files.{parse, set_to_lxc, get_from_shadow, get_from_proc}
use lxd_pkg_ubuntu.Idmap.Files.Parse.{mapping, parse-mapping}
use lxd_pkg_ubuntu.Idmap.Default.{
  Host, entry, current_idmap_set, default_idmap_set, hardcoded, are_full,
}
use lxd_pkg_ubuntu.Idmap.Default.Mapped.{FromKernel, default_idmap_set-FromKernel}

parse-letter : parse (codes "x:0:1000:10") ≡ err bad_idmap_type
unfolding parse fields
parse-letter = refl

parse-three : parse (codes "b:0:1000") ≡ err bad_idmap
unfolding parse fields
parse-three = refl

to_lxc-both :
    set_to_lxc (entry true true 0 1000 10 ∷ entry true false 0 1000 10 ∷ []) []
    ≡ codes "u 0 1000 10\n" ∷ codes "g 0 1000 10\n" ∷ []
unfolding set_to_lxc show_int
to_lxc-both = refl

shadow-root :
    get_from_shadow
      (some (codes "# ids" ∷ codes "lxd:1:70000" ∷ codes "Root:100000:65536" ∷ []))
      (codes "root")
    ≡ ok ((100_000, 65_536) ∷ [])
unfolding get_from_shadow fields parse_uint32
shadow-root = refl

proc-blanks :
    get_from_proc (codes "         0     100000      65536" ∷ []) ≡ ok ((0, 100_000, 65_536) ∷ [])
unfolding get_from_proc fields parse_uint32
proc-blanks = refl

parse-mapping_example :
    parse (mapping (entry true false 0 1000 10)) ≡ ok (entry true false 0 1000 10)
parse-mapping_example =
    parse-mapping (entry true false 0 1000 10) refl
      (record { ns = omega arith; host = omega arith; size = omega arith })

-- A container that has a million ids of its host.
abbrev nested : Host
nested = record {
  newuidmap = true;
  newgidmap = true;
  subuid = none;
  subgid = none;
  uid_map = some (codes "0 100000 1000000" ∷ []);
  gid_map = some (codes "0 100000 1000000" ∷ []);
}

abbrev nested_map : IdmapSet
nested_map = record {
  idmap = entry true false 0 100_000 1_000_000 ∷ entry false true 0 100_000 1_000_000 ∷ [];
}

default-nested :
    default_idmap_set nested
    ≡ ok (record {
      idmap = entry true false 0 100_000 900_000 ∷ entry false true 0 100_000 900_000 ∷ [];
    })
unfolding default_idmap_set get_from_proc fields parse_uint32 valid_ranges ranges_loop sort insert
    less add_range extend_range sub64 add64 lt64
default-nested = refl

default-full :
    default_idmap_set (record nested {
      uid_map = some (codes "0 0 4294967295" ∷ []);
      gid_map = some (codes "0 0 4294967295" ∷ []);
    })
    ≡ ok hardcoded
unfolding default_idmap_set get_from_proc fields parse_uint32 valid_ranges ranges_loop sort insert
    less add_range extend_range sub64 add64
default-full = refl

default_idmap_set-FromKernel_example :
    (m : IdmapSet) × (default_idmap_set nested ≡ ok m) × All (FromKernel nested_map) m.idmap
unfolding current_idmap_set get_from_proc fields parse_uint32 are_full valid_ranges ranges_loop sort
    insert less add_range extend_range sub64 add64
default_idmap_set-FromKernel_example =
    default_idmap_set-FromKernel nested nested_map refl refl (omega arith, (omega arith, tt)) refl
