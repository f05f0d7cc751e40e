-- ===== src/Validation/Tests.antt =====
-- Runs of the validation, and the theorems on it at concrete names, configurations and devices.
use lxd_pkg_ubuntu.Validation.DeviceKey.{container_valid_device_config_key}
use lxd_pkg_ubuntu.Prelude.Int64.{lt64}
use Prim.Native.String.{String}
use lxd_pkg_ubuntu.Prelude.{◌^◌, ◌≡◌, ◌↔◌, refl, true, false, [], ◌∷◌, All, some, ok, err}
use lxd_pkg_ubuntu.Prelude.Dict.{Dict, lookup}
use lxd_pkg_ubuntu.Text.{
  codes, number, has_prefix, parse_codes, reverse_onto, has_suffix, fields, trim_left, cut, trim,
  string_in_slice, trim_suffix,
}
use lxd_pkg_ubuntu.Devices.{Device, Devices, get}
use lxd_pkg_ubuntu.Validation.{not_allowed, same_path, bad_size, not_a_boolean}
use lxd_pkg_ubuntu.Validation.Name.{container_valid_name, valid_hostname}
use lxd_pkg_ubuntu.Validation.ByteSize.{multiplicator, parse_byte_size_string}
use lxd_pkg_ubuntu.Validation.RawLxc.{check_lxc_key, lxc_valid_config}
use lxd_pkg_ubuntu.Validation.RawLxc.Network.{check_lxc_key-network}
use lxd_pkg_ubuntu.Validation.ConfigKey.{container_valid_config_key, is_bool, check_allowance}
use lxd_pkg_ubuntu.Validation.Config.{
  container_valid_config, HasIds, IsAccepted, container_valid_config_exact,
}
use lxd_pkg_ubuntu.Validation.Root.{container_get_root_disk_device, roots, is_root_disk_device}
use lxd_pkg_ubuntu.Validation.Device.{Host, container_valid_devices}
use lxd_pkg_ubuntu.Validation.Device.Paths.{IsPlaced, valid_devices_root}

valid_hostname-dash : valid_hostname (codes "web-") ≡ false
unfolding valid_hostname parse_codes
valid_hostname-dash = refl

container_valid_name-web : container_valid_name (codes "web-1") ≡ ok tt
unfolding container_valid_name valid_hostname parse_codes
container_valid_name-web = refl

parse_byte_size-plain : parse_byte_size_string (codes "200kB") ≡ ok 204_800
unfolding parse_byte_size_string reverse_onto has_suffix parse_codes lt64
parse_byte_size-plain = refl

parse_byte_size-bytes : parse_byte_size_string (codes "200 bytes") ≡ ok 200
unfolding parse_byte_size_string reverse_onto has_suffix parse_codes lt64
parse_byte_size-bytes = refl

parse_byte_size-bad : parse_byte_size_string (codes "5X") ≡ err bad_size
unfolding parse_byte_size_string reverse_onto has_suffix
parse_byte_size-bad = refl

lxc_valid_config-comment : lxc_valid_config true (codes "# a\nlxc.aa_profile = b") ≡ ok tt
unfolding lxc_valid_config fields has_prefix trim_left cut trim reverse_onto
lxc_valid_config-comment = refl

config_key-boolean : container_valid_config_key true "boot.autostart" "maybe" ≡ err not_a_boolean
unfolding container_valid_config_key string_in_slice is_bool
config_key-boolean = refl

config_key-allowance : container_valid_config_key true "limits.cpu.allowance" "25ms/100ms" ≡ ok tt
unfolding container_valid_config_key string_in_slice check_allowance has_suffix cut parse_codes
    trim_suffix
config_key-allowance = refl

abbrev linux_host : Host
linux_host = record { is_dir = λ p. false; path_exists = λ p. true; device_type = λ p. ok "c" }

abbrev root_disk : Device
root_disk = some (("type", "disk") ∷ ("path", "/") ∷ ("size", "10GB") ∷ [])

abbrev data_disk : Device
data_disk = some (("type", "disk") ∷ ("path", "/srv") ∷ ("source", "/data") ∷ [])

abbrev fuse : Device
fuse = some (("type", "unix-char") ∷ ("path", "/dev/fuse") ∷ [])

abbrev three_devices : Devices
three_devices = ("root", root_disk) ∷ ("data", data_disk) ∷ ("fuse", fuse) ∷ []

devices-twice :
    container_valid_devices linux_host (some (("a", data_disk) ∷ ("b", data_disk) ∷ [])) false false
    ≡ err same_path
unfolding container_valid_devices get lookup string_in_slice container_valid_device_config_key
devices-twice = refl

devices-accepted : container_valid_devices linux_host (some three_devices) false false ≡ ok tt
unfolding container_valid_devices get lookup string_in_slice container_valid_device_config_key
devices-accepted = refl

devices-expanded : container_valid_devices linux_host (some three_devices) false true ≡ ok tt
unfolding container_valid_devices get lookup string_in_slice container_valid_device_config_key
    container_get_root_disk_device is_root_disk_device
devices-expanded = refl

number-9 : number (codes "9") ≡ some 9
unfolding number
number-9 = refl

exabytes : multiplicator (69 ∷ 66 ∷ []) ≡ some (1024 ^ 6)
unfolding multiplicator
exabytes = refl

prefix-address : has_prefix (codes "lxc.net.0.ipv4.address") (codes "lxc.net.") ≡ true
unfolding has_prefix
prefix-address = refl

check_lxc_key-network_example :
    check_lxc_key true (codes "lxc.net.0.ipv4.address") ≡ err not_allowed
check_lxc_key-network_example =
    check_lxc_key-network (codes "lxc.net.0.ipv4.address") prefix-address

abbrev privileged : Dict String
privileged = ("security.privileged", "True") ∷ ("user.note", "x") ∷ []

container_valid_config_exact_example :
    container_valid_config true false (some privileged) false true ≡ ok tt
    ↔ (All (IsAccepted true false) privileged × HasIds false true privileged)
container_valid_config_exact_example = container_valid_config_exact true false privileged false true

valid_devices_root_example :
    ((r : String × Device) × (roots three_devices ≡ r ∷ [])) × All IsPlaced three_devices
valid_devices_root_example =
    valid_devices_root linux_host three_devices false (refl, (refl, (refl, tt))) devices-expanded
