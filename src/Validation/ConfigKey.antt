-- ===== src/Validation/ConfigKey.antt =====
-- One key of a container's configuration and its value (`containerValidConfigKey`, lxd/container.go).
use Prim.Native.String.{String}
use text.Mathlib.Text.{◌==◌ as str_eq}
use lxd_pkg_ubuntu.Prelude.{
  ℕ, ◌-◌, ◌^◌, Bool, false, not, ◌&&◌, ◌||◌, if◌then◌else◌, ltb, leb, List, [], ◌∷◌, map, Option,
  none, some, Result, ok, err, ◌>>=◌, ◌>>◌,
}
use lxd_pkg_ubuntu.Text.{
  codes, lower_code, same_codes, parse_codes, parse_int, has_prefix, has_suffix, trim_suffix, cut,
  string_in_slice,
}
use lxd_pkg_ubuntu.Validation.{
  Error, not_an_integer, not_a_boolean, not_one_of, not_a_uint32, bad_allowance, not_a_number,
  unknown_key,
}
use lxd_pkg_ubuntu.Validation.ByteSize.{parse_byte_size_string}
use lxd_pkg_ubuntu.Validation.RawLxc.{lxc_valid_config}

-- `strconv.Atoi`, or `strconv.ParseInt` for 64 bits: whether it succeeds.
abbrev number_or : Error → Option ℕ → Result Error Unit
number_or e none = err e
number_or e (some n) = ok tt

unfoldable pub is_int64 : String → Result Error Unit
is_int64 value = if str_eq value "" then ok tt else number_or not_an_integer (parse_int value)

abbrev bools : List String
bools = "true" ∷ "false" ∷ "yes" ∷ "no" ∷ "1" ∷ "0" ∷ "on" ∷ "off" ∷ []

-- `shared.StringInSlice(strings.ToLower(value), ...)`
unfoldable pub lower_in_slice : List ℕ → List String → Bool
unfolding same_codes
lower_in_slice key [] = false
lower_in_slice key (entry ∷ list) = same_codes key (codes entry) || lower_in_slice key list

unfoldable pub is_bool : String → Result Error Unit
unfolding lower_in_slice
is_bool value =
    if str_eq value ""
    then ok tt
    else if not (lower_in_slice (map lower_code (codes value)) bools)
    then err not_a_boolean
    else ok tt

unfoldable pub is_one_of : String → List String → Result Error Unit
is_one_of value valid =
    if str_eq value ""
    then ok tt
    else if not (string_in_slice value valid)
    then err not_one_of
    else ok tt

-- A number of 32 bits with a sign, as `strconv.ParseInt(value, 10, 32)` has it.
abbrev fits_32 : Option ℕ → Option ℕ
fits_32 none = none
fits_32 (some n) = if ltb n (2 ^ 31) || leb (2 ^ 64 - 2 ^ 31) n then some n else none

unfoldable pub is_uint32 : String → Result Error Unit
is_uint32 value =
    if str_eq value "" then ok tt else number_or not_a_uint32 (fits_32 (parse_int value))

abbrev milliseconds : List ℕ → Result Error Unit
milliseconds field = number_or not_a_number (parse_codes (trim_suffix field (codes "ms")))

-- limits.cpu.allowance
unfoldable pub check_allowance : String → Result Error Unit
check_allowance value =
    if str_eq value ""
    then ok tt
    else if has_suffix (codes value) (codes "%")
    then number_or not_a_number (parse_codes (trim_suffix (codes value) (codes "%")))
    else elim (cut 47 (codes value)) [
      | none ↦ err bad_allowance
      | some parts ↦ milliseconds parts.0 >> milliseconds parts.1
    ]

-- limits.memory
unfoldable pub check_memory : String → Result Error Unit
check_memory value =
    if str_eq value ""
    then ok tt
    else if has_suffix (codes value) (codes "%")
    then number_or not_a_number (parse_codes (trim_suffix (codes value) (codes "%")))
    else (parse_byte_size_string (codes value) >>= λ _. ok tt)

abbrev bool_keys : List String
bool_keys =
    "boot.autostart" ∷ "limits.memory.swap" ∷ "security.privileged" ∷ "security.nesting"
    ∷ "security.idmap.isolated" ∷ []

abbrev int64_keys : List String
int64_keys =
    "boot.autostart.delay" ∷ "boot.autostart.priority" ∷ "limits.cpu.priority"
    ∷ "limits.disk.priority" ∷ "limits.memory.swap.priority" ∷ "limits.network.priority"
    ∷ "limits.processes" ∷ []

abbrev uint32_keys : List String
uint32_keys = "security.idmap.base" ∷ "security.idmap.size" ∷ []

abbrev free_keys : List String
free_keys =
    "limits.cpu" ∷ "linux.kernel_modules" ∷ "raw.apparmor" ∷ "raw.idmap" ∷ "volatile.apply_template"
    ∷ "volatile.base_image" ∷ "volatile.last_state.idmap" ∷ "volatile.last_state.power"
    ∷ "volatile.idmap.next" ∷ "volatile.idmap.base" ∷ []

-- The keys that are known by their beginning and end.
unfoldable pub open_key : List ℕ → Bool
open_key key =
    (has_prefix key (codes "volatile.")
      && (has_suffix key (codes ".hwaddr")
          || has_suffix key (codes ".name")
          || has_suffix key (codes ".host_name")))
    || has_prefix key (codes "environment.")
    || has_prefix key (codes "user.")

-- `containerValidConfigKey`: the switch has each case once, so that cases with the same body are
-- tested together.
unfoldable pub container_valid_config_key : Bool → String → String → Result Error Unit
unfolding open_key
container_valid_config_key new_lxc key value =
    if string_in_slice key bool_keys
    then is_bool value
    else if string_in_slice key int64_keys
    then is_int64 value
    else if string_in_slice key uint32_keys
    then is_uint32 value
    else if string_in_slice key free_keys
    then ok tt
    else if str_eq key "limits.cpu.allowance"
    then check_allowance value
    else if str_eq key "limits.memory"
    then check_memory value
    else if str_eq key "limits.memory.enforce"
    then is_one_of value ("soft" ∷ "hard" ∷ [])
    else if str_eq key "raw.lxc"
    then lxc_valid_config new_lxc (codes value)
    else if open_key (codes key)
    then ok tt
    else err unknown_key
