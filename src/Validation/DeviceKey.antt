-- ===== src/Validation/DeviceKey.antt =====
-- The keys of a device of each type (`containerValidDeviceConfigKey`, lxd/container.go).
use Prim.Native.String.{String}
use text.Mathlib.Text.{◌==◌ as str_eq}
use lxd_pkg_ubuntu.Prelude.{Bool, true, false, ◌||◌, if◌then◌else◌, List, [], ◌∷◌}
use lxd_pkg_ubuntu.Text.{string_in_slice}

abbrev unix_keys : List String
unix_keys = "gid" ∷ "major" ∷ "minor" ∷ "mode" ∷ "path" ∷ "uid" ∷ []

abbrev nic_keys : List String
nic_keys =
    "limits.max" ∷ "limits.ingress" ∷ "limits.egress" ∷ "host_name" ∷ "hwaddr" ∷ "mtu" ∷ "name"
    ∷ "nictype" ∷ "parent" ∷ []

abbrev disk_keys : List String
disk_keys =
    "limits.max" ∷ "limits.read" ∷ "limits.write" ∷ "optional" ∷ "path" ∷ "readonly" ∷ "size"
    ∷ "source" ∷ "recursive" ∷ []

-- `containerValidDeviceConfigKey`
unfoldable pub container_valid_device_config_key : (t k : String) → Bool
container_valid_device_config_key t k =
    if str_eq k "type"
    then true
    else if str_eq t "unix-char" || str_eq t "unix-block"
    then string_in_slice k unix_keys
    else if str_eq t "nic"
    then string_in_slice k nic_keys
    else if str_eq t "disk"
    then string_in_slice k disk_keys
    else false
