-- ===== src/Validation/Device/Paths.antt =====
-- The paths of the disks, and the root disk, in accepted devices.
use Prim.Native.String.{String}
use text.Mathlib.Text.{◌==◌ as str_eq}
use text.Mathlib.TextEquality.{eq_iff}
use lxd_pkg_ubuntu.Prelude.{
  ◌≡◌, ◌∙◌, sym, subst, refl, inl, inr, arith, Bool, true, false, ◌&&◌, ◌||◌, if◌then◌else◌, List,
  [], ◌∷◌, ◌++◌, append_assoc, append-nil, All, some, ok, bind-ok, Bool-cases,
}
use lxd_pkg_ubuntu.Text.{string_in_slice}
use lxd_pkg_ubuntu.Devices.{Device, Devices, get}
use lxd_pkg_ubuntu.Validation.Root.{
  is_root_disk_device, container_get_root_disk_device, container_get_root_disk_device_lem, roots,
  the_only, Named,
}
use lxd_pkg_ubuntu.Validation.Device.{
  Host, add_path, check_device, check_devices, container_valid_devices,
}
use lxd_pkg_ubuntu.Validation.Device.Kinds.{Round, check_device-Round}

-- The paths of the disks, in the order of the devices.
abbrev pub disk_paths : Devices → List String
disk_paths [] = []
disk_paths ((_, m) ∷ devices) =
    if str_eq (get m "type") "disk" then get m "path" ∷ disk_paths devices else disk_paths devices

-- No text is there twice.
abbrev pub Distinct : List String → Type 0
Distinct [] = Unit
Distinct (p ∷ ps) = (string_in_slice p ps ≡ false) × Distinct ps

in_slice-append :
    (q p : String) (ps : List String)
    → string_in_slice q (ps ++ p ∷ []) ≡ (string_in_slice q ps || str_eq p q)
unfolding string_in_slice
in_slice-append q p [] = ground arith
in_slice-append q p (x ∷ xs) = let rest = in_slice-append q p xs in ground (arith, rest)

append-Distinct :
    (ps : List String) (p : String)
    → string_in_slice p ps ≡ false
    → Distinct ps
    → Distinct (ps ++ p ∷ [])
unfolding string_in_slice
append-Distinct [] p h d = (refl, tt)
append-Distinct (x ∷ xs) p h d =
    let other = in_slice-append x p xs in
    let apart : str_eq p x ≡ false = ground (arith, h, eq_iff p x, eq_iff x p) in
    (ground (arith, other, apart, d.0), append-Distinct xs p (ground (arith, h)) d.1)

add_path-new :
    (path : String) (paths out : List String)
    → add_path false path paths ≡ ok out
    → (string_in_slice path paths ≡ false) × (out ≡ paths ++ path ∷ [])
unfolding add_path
add_path-new path paths out h = elim (Bool-cases (string_in_slice path paths)) [
  | inl y ↦ cc (h, y)
  | inr n ↦ (n, cc (h, n))
]

check_devices-paths :
    (host : Host) (devices : Devices) (paths out : List String)
    → Distinct paths
    → check_devices host false devices paths ≡ ok out
    → (out ≡ paths ++ disk_paths devices) × Distinct out
unfolding check_devices
check_devices-paths host [] paths out d h =
    let same : paths ≡ out = cc h in (sym same ∙ sym (append-nil paths), subst Distinct same d)
check_devices-paths host ((n, m) ∷ devices) paths out d h =
    let (p, h1, k1) = bind-ok (check_device host false m paths) h in
    elim (check_device-Round host false m paths p h1) [
      | inl (disk, added, _) ↦
          let (new, same) = add_path-new (get m "path") paths p added in
          let now = subst Distinct (sym same) (append-Distinct paths (get m "path") new d) in
          let (all, distinct) = check_devices-paths host devices p out now k1 in
          let whole = append_assoc paths (get m "path" ∷ []) (disk_paths devices) in
          (cc (all, same, whole, disk), distinct)
      | inr (other, same) ↦
          let (all, distinct) =
            check_devices-paths host devices p out (subst Distinct (sym same) d) k1 in
          (cc (all, same, other), distinct)
    ]

-- When devices that are not expanded are accepted, no two disks among them have the same path.
pub valid_devices-Distinct :
    (host : Host) (devices : Devices) (profile : Bool)
    → container_valid_devices host (some devices) profile false ≡ ok tt
    → Distinct (disk_paths devices)
unfolding container_valid_devices
valid_devices-Distinct host devices profile h =
    let (out, h1, k1) = bind-ok (check_devices host false devices []) h in
    let (all, distinct) = check_devices-paths host devices [] out tt h1 in
    subst Distinct all distinct

one_root : (rs : List (String × Device)) (r : String × Device) → the_only rs ≡ ok r → rs ≡ r ∷ []
one_root [] r h = cc h
one_root (x ∷ []) r h = cc h
one_root (x ∷ y ∷ rs) r h = cc h

-- A disk is a root disk exactly if its path is "/".
abbrev pub IsPlaced : String × Device → Type 0
IsPlaced (n, m) =
    is_root_disk_device m ≡ (str_eq (get m "type") "disk" && str_eq (get m "path") "/")

placed :
    (host : Host) (expanded : Bool) (m : Device) (paths out : List String) (n : String)
    → Round host expanded m paths out
    → IsPlaced (n, m)
unfolding is_root_disk_device
placed host expanded m paths out n (inl (disk, _, root)) = ground (arith, disk, root)
placed host expanded m paths out n (inr (other, _)) = ground (arith, other)

check_devices-IsPlaced :
    (host : Host) (expanded : Bool) (devices : Devices) (paths out : List String)
    → check_devices host expanded devices paths ≡ ok out
    → All IsPlaced devices
unfolding check_devices
check_devices-IsPlaced host expanded [] paths out h = tt
check_devices-IsPlaced host expanded ((n, m) ∷ devices) paths out h =
    let (p, h1, k1) = bind-ok (check_device host expanded m paths) h in
    let round = check_device-Round host expanded m paths p h1 in
    (placed host expanded m paths p n round, check_devices-IsPlaced host expanded devices p out k1)

-- When expanded devices with names that are not empty are accepted, there is exactly one root disk
-- among them, and every other disk has a path other than "/".
pub valid_devices_root :
    (host : Host) (devices : Devices) (profile : Bool)
    → All Named devices
    → container_valid_devices host (some devices) profile true ≡ ok tt
    → ((r : String × Device) × (roots devices ≡ r ∷ [])) × All IsPlaced devices
unfolding container_valid_devices
valid_devices_root host devices profile names h =
    let (out, h1, k1) = bind-ok (check_devices host true devices []) h in
    let (r, h2, k2) = bind-ok (container_get_root_disk_device devices) k1 in
    let only = container_get_root_disk_device_lem devices names in
    (
      (r, one_root (roots devices) r (sym only ∙ h2)),
      check_devices-IsPlaced host true devices [] out h1,
    )
