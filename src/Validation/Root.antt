-- ===== src/Validation/Root.antt =====
-- The root disk among the devices (`isRootDiskDevice` and `containerGetRootDiskDevice`,
-- lxd/container.go).
use Prim.Native.String.{String}
use text.Mathlib.Text.{◌==◌ as str_eq}
use lxd_pkg_ubuntu.Prelude.{
  ◌≡◌, refl, inl, inr, Bool, false, not, ◌&&◌, if◌then◌else◌, List, [], ◌∷◌, All, none, Result, ok,
  err, Bool-cases,
}
use lxd_pkg_ubuntu.Devices.{Device, Devices, get}
use lxd_pkg_ubuntu.Validation.{Error, two_roots, no_root}

-- `isRootDiskDevice`
unfoldable pub is_root_disk_device : Device → Bool
is_root_disk_device d =
    str_eq (get d "type") "disk" && str_eq (get d "path") "/" && str_eq (get d "source") ""

-- The loop; the first two arguments are `devName` and `dev`.
unfoldable pub find_root : String → Device → Devices → Result Error (String × Device)
find_root dev_name dev [] = ok (dev_name, dev)
find_root dev_name dev ((n, d) ∷ devices) =
    let kept = find_root dev_name dev devices in
    let found = find_root n d devices in
    if is_root_disk_device d
    then (if not (str_eq dev_name "") then err two_roots else found)
    else kept

abbrev named : Result Error (String × Device) → Result Error (String × Device)
named (err e) = err e
named (ok (dev_name, dev)) = if not (str_eq dev_name "") then ok (dev_name, dev) else err no_root

-- `containerGetRootDiskDevice`
unfoldable pub container_get_root_disk_device : Devices → Result Error (String × Device)
unfolding find_root
container_get_root_disk_device devices = named (find_root "" none devices)

-- The devices that are root disks.
abbrev pub roots : Devices → List (String × Device)
roots [] = []
roots ((n, d) ∷ devices) = if is_root_disk_device d then (n, d) ∷ roots devices else roots devices

-- The only one of them.
abbrev pub the_only : List (String × Device) → Result Error (String × Device)
the_only [] = err no_root
the_only (r ∷ []) = ok r
the_only (r ∷ s ∷ rs) = err two_roots

abbrev pub Named : String × Device → Type 0
Named (n, d) = str_eq n "" ≡ false

-- Once one has been found, a second is an error.
find_root-found :
    (name : String) (dev : Device) (devices : Devices)
    → str_eq name "" ≡ false
    → named (find_root name dev devices) ≡ the_only ((name, dev) ∷ roots devices)
unfolding find_root
find_root-found name dev [] h = cc h
find_root-found name dev ((n, d) ∷ devices) h =
    let rest = find_root-found name dev devices h in
    elim (Bool-cases (is_root_disk_device d)) [ inl y ↦ cc (h, y) | inr k ↦ cc (rest, k) ]

find_root-none :
    (dev : Device) (devices : Devices)
    → All Named devices
    → named (find_root "" dev devices) ≡ the_only (roots devices)
unfolding find_root
find_root-none dev [] h = refl
find_root-none dev ((n, d) ∷ devices) h =
    let first = find_root-found n d devices h.0 in
    let rest = find_root-none dev devices h.1 in
    elim (Bool-cases (is_root_disk_device d)) [ inl y ↦ cc (first, y) | inr k ↦ cc (rest, k) ]

-- Among devices with names that are not empty, containerGetRootDiskDevice gives the only root disk,
-- and an error if there is none or a second one.
pub container_get_root_disk_device_lem :
    (devices : Devices)
    → All Named devices
    → container_get_root_disk_device devices ≡ the_only (roots devices)
unfolding container_get_root_disk_device
container_get_root_disk_device_lem devices h = find_root-none none devices h
