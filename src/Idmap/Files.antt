-- ===== src/Idmap/Files.antt =====
-- Id maps as texts: the form of raw.idmap and of LXC, the files /etc/subuid and /etc/subgid, and the map
-- files of the kernel (shared/idmap/idmapset_linux.go).
pub mod Small
pub mod Parse
use Prim.Native.String.{String}
use lxd_pkg_ubuntu.Prelude.{
  ℕ, ◌+◌, ◌^◌, Bool, true, false, not, ◌&&◌, ◌||◌, if◌then◌else◌, ◌==◌, List, [], ◌∷◌, ◌++◌, map,
  Option, none, some, Result, ok, err, ◌>>=◌,
}
use lxd_pkg_ubuntu.Prelude.Int64.{add64, lt64}
use lxd_pkg_ubuntu.Text.{codes, fields, same_codes, lower_code, is_space, parse_uint32}
use lxd_pkg_ubuntu.Limits.Cpuset.{show_int}
use lxd_pkg_ubuntu.Idmap.Entry.{
  Error, bad_idmap, bad_idmap_type, bad_number, id_wraparound, unusable_map, kernel_map_unreadable,
  IdmapEntry,
}
use lxd_pkg_ubuntu.Idmap.IdSet.{IdmapSet, append_entry}

abbrev pub uint32_or : Option ℕ → Result Error ℕ
uint32_or none = err bad_number
uint32_or (some n) = ok n

-- The kinds that the first field of a mapping names.
unfoldable pub kinds_of : List ℕ → Option (Bool × Bool)
kinds_of [] = none
kinds_of (c ∷ []) =
    if c == 117
    then some (true, false)
    else if c == 103
    then some (false, true)
    else if c == 98
    then some (true, true)
    else none
kinds_of (c ∷ d ∷ cs) = none

-- The end of `parse`: "wraparound".
unfoldable pub without_wraparound : IdmapEntry → Result Error IdmapEntry
without_wraparound e =
    if lt64 (add64 e.hostid e.maprange) e.hostid || lt64 (add64 e.nsid e.maprange) e.nsid
    then err id_wraparound
    else ok e

-- `IdmapEntry.parse`, of the fields.
unfoldable pub parse_fields : List (List ℕ) → Result Error IdmapEntry
unfolding kinds_of without_wraparound
parse_fields (kind ∷ ns ∷ host ∷ size ∷ []) = elim (kinds_of kind) [
  | none ↦ err bad_idmap_type
  | some kinds ↦ uint32_or (parse_uint32 ns) >>= λ nsid. uint32_or (parse_uint32 host) >>= λ hostid.
      uint32_or (parse_uint32 size) >>= λ maprange. without_wraparound (record {
        isuid = kinds.0;
        isgid = kinds.1;
        hostid = hostid;
        nsid = nsid;
        maprange = maprange;
      })
]
parse_fields _ = err bad_idmap

-- `IdmapEntry.parse`
unfoldable pub parse : List ℕ → Result Error IdmapEntry
unfolding parse_fields
parse s = parse_fields (fields 58 s)

-- `Append`; after an error the set is the one there was.
unfoldable pub append : IdmapSet → List ℕ → Result Error IdmapSet
unfolding parse
append m s = parse s >>= λ e. append_entry m e

-- `IdmapEntry.ToLxcString`
abbrev pub lxc_line : ℕ → IdmapEntry → List ℕ
lxc_line kind e =
    kind ∷ 32 ∷ (show_int e.nsid ++ (32 ∷ (show_int e.hostid ++ (32 ∷ show_int e.maprange))))

unfoldable pub entry_to_lxc : IdmapEntry → List (List ℕ)
entry_to_lxc e =
    if e.isuid && e.isgid
    then lxc_line 117 e ∷ lxc_line 103 e ∷ []
    else if e.isuid
    then lxc_line 117 e ∷ []
    else lxc_line 103 e ∷ []

-- `StringInSlice(line, lines)`
unfoldable pub line_in : List ℕ → List (List ℕ) → Bool
unfolding same_codes
line_in line [] = false
line_in line (l ∷ ls) = same_codes l line || line_in line ls

unfoldable pub add_lines : List (List ℕ) → List (List ℕ) → List (List ℕ)
unfolding line_in
add_lines [] lines = lines
add_lines (l ∷ ls) lines =
    add_lines ls
      (if not (line_in (l ++ 10 ∷ []) lines) then lines ++ (l ++ 10 ∷ []) ∷ [] else lines)

-- `IdmapSet.ToLxcString`
unfoldable pub set_to_lxc : List IdmapEntry → List (List ℕ) → List (List ℕ)
unfolding entry_to_lxc add_lines
set_to_lxc [] lines = lines
set_to_lxc (e ∷ es) lines = set_to_lxc es (add_lines (entry_to_lxc e) lines)

-- `strings.Split(line, "#")[0]`
unfoldable pub before_comment : List ℕ → List ℕ
before_comment line = elim (fields 35 line) [ [] ↦ [] | f ∷ fs ↦ f ]

abbrev both_numbers : Option ℕ → Option ℕ → Option (ℕ × ℕ)
both_numbers (some a) (some b) = some (a, b)
both_numbers _ _ = none

abbrev pub three_numbers : Option ℕ → Option ℕ → Option ℕ → Option (ℕ × ℕ × ℕ)
three_numbers (some a) (some b) (some c) = some (a, b, c)
three_numbers _ _ _ = none

-- `strings.EqualFold`, with a name in letters that only their capitals fold to.
abbrev equal_fold : List ℕ → List ℕ → Bool
equal_fold s name = same_codes (map lower_code s) (map lower_code name)

-- A line of a shadow file: the range of that user, if it is one.
unfoldable pub shadow_fields : List ℕ → List (List ℕ) → Result Error (Option (ℕ × ℕ))
unfolding same_codes
shadow_fields username (user ∷ start ∷ size ∷ more) = ok (
    if equal_fold user username
    then both_numbers (parse_uint32 start) (parse_uint32 size)
    else none)
shadow_fields username _ = err bad_idmap

unfoldable pub shadow_line : List ℕ → List ℕ → Result Error (Option (ℕ × ℕ))
unfolding before_comment shadow_fields
shadow_line username line = elim (before_comment line) [
  | [] ↦ ok none
  | c ∷ cs ↦ shadow_fields username (fields 58 (c ∷ cs))
]

abbrev pub append_some {ℓ} : {A : Type ℓ} → Option A → List A → List A
append_some none l = l
append_some (some x) l = x ∷ l

unfoldable pub shadow_lines : List ℕ → List (List ℕ) → Result Error (List (ℕ × ℕ))
unfolding shadow_line
shadow_lines username [] = ok []
shadow_lines username (line ∷ lines) =
    let rest = shadow_lines username lines in
    shadow_line username line >>= λ entry. rest >>= λ entries. ok (append_some entry entries)

-- `if len(entries) == 0`
abbrev pub some_entries : {A : Type 0} → Error → List A → Result Error (List A)
some_entries e [] = err e
some_entries e (x ∷ xs) = ok (x ∷ xs)

-- `getFromShadow`, on the lines of the file, which cannot always be opened.
unfoldable pub get_from_shadow : Option (List (List ℕ)) → List ℕ → Result Error (List (ℕ × ℕ))
unfolding shadow_lines
get_from_shadow none username = err kernel_map_unreadable
get_from_shadow (some lines) username =
    shadow_lines username lines >>= λ entries. some_entries unusable_map entries

-- `strings.Fields`: no field is empty.
unfoldable pub not_empty : List (List ℕ) → List (List ℕ)
not_empty [] = []
not_empty ([] ∷ fs) = not_empty fs
not_empty ((c ∷ cs) ∷ fs) = (c ∷ cs) ∷ not_empty fs

unfoldable pub words : List ℕ → List (List ℕ)
unfolding not_empty
words s = not_empty (fields 32 (map (λ c. if is_space c then 32 else c) s))

unfoldable pub proc_fields : List (List ℕ) → Result Error (Option (ℕ × ℕ × ℕ))
proc_fields (start ∷ host ∷ size ∷ more) =
    ok (three_numbers (parse_uint32 start) (parse_uint32 host) (parse_uint32 size))
proc_fields _ = err bad_idmap

unfoldable pub proc_line : List ℕ → Result Error (Option (ℕ × ℕ × ℕ))
unfolding before_comment proc_fields words
proc_line line = elim (before_comment line) [ [] ↦ ok none | c ∷ cs ↦ proc_fields (words (c ∷ cs)) ]

unfoldable pub proc_lines : List (List ℕ) → Result Error (List (ℕ × ℕ × ℕ))
unfolding proc_line
proc_lines [] = ok []
proc_lines (line ∷ lines) =
    let rest = proc_lines lines in
    proc_line line >>= λ entry. rest >>= λ entries. ok (append_some entry entries)

-- `getFromProc`, on the lines of a file that is there.
unfoldable pub get_from_proc : List (List ℕ) → Result Error (List (ℕ × ℕ × ℕ))
unfolding proc_lines
get_from_proc lines = proc_lines lines >>= λ entries. some_entries unusable_map entries
