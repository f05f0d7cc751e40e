-- ===== src/Validation/Device.antt =====
-- The devices of a container or a profile (`containerValidDevices`, lxd/container.go). A range loop
-- over a map visits the entries in the order of the list. What the host's files are is an argument.
pub mod Paths
pub mod Kinds
use Prim.Native.String.{String}
use text.Mathlib.Text.{◌==◌ as str_eq}
use lxd_pkg_ubuntu.Prelude.{
  Bool, true, false, not, ◌&&◌, ◌||◌, if◌then◌else◌, List, [], ◌∷◌, ◌++◌, Option, none, some,
  Result, ok, err, ◌>>=◌, ◌>>◌,
}
use lxd_pkg_ubuntu.Prelude.Dict.{Dict}
use lxd_pkg_ubuntu.Text.{string_in_slice}
use lxd_pkg_ubuntu.Devices.{Device, Devices, get, entries}
use lxd_pkg_ubuntu.Validation.{
  Error, no_type, bad_type, bad_device_key, no_nictype, bad_nictype, no_parent, same_path, no_path,
  no_source, root_source, not_root_size, not_recursive, no_unix_path, not_on_host, block_device,
  char_device,
}
use lxd_pkg_ubuntu.Validation.DeviceKey.{container_valid_device_config_key}
use lxd_pkg_ubuntu.Validation.Root.{container_get_root_disk_device}

-- `shared.IsDir`, `shared.PathExists` and the type that `deviceGetAttributes` reads.
pub record Host : Type 0 where
  pub is_dir : String → Bool
  pub path_exists : String → Bool
  pub device_type : String → Result Error String

-- `if test { return err }`
abbrev pub refuse : Bool → Error → Result Error Unit
refuse test e = if test then err e else ok tt

abbrev pub empty : String → Bool
empty s = str_eq s ""

-- The loop over the keys of a device.
unfoldable pub check_device_keys : String → Dict String → Result Error Unit
check_device_keys t [] = ok tt
check_device_keys t ((k, _) ∷ m) =
    let rest = check_device_keys t m in
    if not (container_valid_device_config_key t k) then err bad_device_key else rest

unfoldable pub check_nic : Device → Result Error Unit
check_nic m = do
  refuse (empty (get m "nictype")) no_nictype
  refuse (not (string_in_slice (get m "nictype") ("bridged" ∷ "physical" ∷ "p2p" ∷ "macvlan" ∷ [])))
      bad_nictype
  refuse
      (string_in_slice (get m "nictype") ("bridged" ∷ "physical" ∷ "macvlan" ∷ [])
        && empty (get m "parent"))
      no_parent

-- `diskDevicePaths` with the path of one more disk.
unfoldable pub add_path : Bool → String → List String → Result Error (List String)
add_path expanded path paths =
    if not expanded && not (string_in_slice path paths)
    then ok (paths ++ path ∷ [])
    else if not expanded
    then err same_path
    else ok paths

unfoldable pub check_disk : Host → Device → Result Error Unit
check_disk host m = do
  refuse (empty (get m "path")) no_path
  refuse (empty (get m "source") && not (str_eq (get m "path") "/")) no_source
  refuse (str_eq (get m "path") "/" && not (empty (get m "source"))) root_source
  refuse (not (empty (get m "size")) && not (str_eq (get m "path") "/")) not_root_size
  refuse
      ((str_eq (get m "path") "/" || not (host.is_dir (get m "source")))
        && not (empty (get m "recursive")))
      not_recursive

-- Where major or minor are missing, the file on the host says what the device is.
unfoldable pub check_on_host : Host → Device → Result Error Unit
check_on_host host m = do
  refuse (not (host.path_exists (get m "path"))) not_on_host
  d_type ← host.device_type (get m "path")
  refuse (str_eq (get m "type") "unix-char" && not (str_eq d_type "c")) block_device
  refuse (str_eq (get m "type") "unix-block" && not (str_eq d_type "b")) char_device

unfoldable pub check_unix : Host → Device → Result Error Unit
unfolding check_on_host
check_unix host m = do
  refuse (empty (get m "path")) no_unix_path
  if empty (get m "major") || empty (get m "minor") then check_on_host host m else ok tt

-- The tests that depend on the type.
unfoldable pub check_of_type : Host → Bool → Device → List String → Result Error (List String)
unfolding check_nic add_path check_disk check_unix
check_of_type host expanded m paths =
    if str_eq (get m "type") "nic"
    then check_nic m >> ok paths
    else if str_eq (get m "type") "disk"
    then (add_path expanded (get m "path") paths >>= λ p. check_disk host m >> ok p)
    else if string_in_slice (get m "type") ("unix-char" ∷ "unix-block" ∷ [])
    then check_unix host m >> ok paths
    else if str_eq (get m "type") "none"
    then ok paths
    else err bad_type

-- One round of the loop over the devices: the paths afterwards.
unfoldable pub check_device : Host → Bool → Device → List String → Result Error (List String)
unfolding check_device_keys check_of_type
check_device host expanded m paths =
    refuse (empty (get m "type")) no_type
    >> refuse
        (not (
          string_in_slice (get m "type")
            ("none" ∷ "nic" ∷ "disk" ∷ "unix-char" ∷ "unix-block" ∷ [])))
        bad_type
    >> check_device_keys (get m "type") (entries m)
    >> check_of_type host expanded m paths

unfoldable pub check_devices : Host → Bool → Devices → List String → Result Error (List String)
unfolding check_device
check_devices host expanded [] paths = ok paths
check_devices host expanded ((_, m) ∷ devices) paths =
    let rest = λ (p : List String). check_devices host expanded devices p in
    check_device host expanded m paths >>= rest

-- `containerValidDevices`
unfoldable pub container_valid_devices :
    Host → Option Devices → (profile expanded : Bool) → Result Error Unit
unfolding check_devices
container_valid_devices host none profile expanded = ok tt
container_valid_devices host (some devices) profile expanded = do
  check_devices host expanded devices []
  if expanded then (container_get_root_disk_device devices >>= λ _. ok tt) else ok tt
