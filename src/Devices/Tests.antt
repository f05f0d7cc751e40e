-- ===== src/Devices/Tests.antt =====
-- Device lists at concrete values: a disk whose limit changes and a network card that goes.
use Prim.Native.String.{String}
use text.Mathlib.Text.{◌==◌ as str_eq}
use lxd_pkg_ubuntu.Prelude.{◌≡◌, ◌≢◌, refl, false, none, some, [], ◌∷◌, All, Bool-cases, inl, inr}
use lxd_pkg_ubuntu.Prelude.Dict.{lookup, put, remove}
use lxd_pkg_ubuntu.Devices.{
  Device, Devices, get, device, device_equals, update, update_loop, update_round, not_contained,
  contains, agree_on, delete_keys, live_keys,
}
use lxd_pkg_ubuntu.Devices.Update.{applied, SameEntry, IsProper, update_applies}
use lxd_pkg_ubuntu.Devices.Live.{is_among, update_live}

abbrev slow_root : Device
slow_root = some (("type", "disk") ∷ ("path", "/") ∷ ("limits.read", "10MB") ∷ [])

abbrev fast_root : Device
fast_root = some (("type", "disk") ∷ ("path", "/") ∷ ("limits.read", "90MB") ∷ [])

abbrev nic : Device
nic = some (("type", "nic") ∷ [])

abbrev before : Devices
before = ("root", slow_root) ∷ ("eth0", nic) ∷ []

abbrev after : Devices
after = ("root", fast_root) ∷ []

no_nil : (l : Devices) → All (λ e. e.1 ≢ none) l → (k : String) → lookup k l ≢ some none
unfolding lookup
no_nil [] a k h = cc
no_nil ((j, d) ∷ l) a k h = elim (Bool-cases (str_eq j k)) [
  | inl y ↦ a.0 (value (rw y at h))
  | inr n ↦ no_nil l a.1 k (rw n at h)
]
  where
    value : some d ≡ some none → d ≡ none
    value p = cc

before-IsProper : IsProper before
unfolding lookup
before-IsProper = ((refl, (refl, tt)), no_nil before ((λ e. cc), ((λ e. cc), tt)))

after-IsProper : IsProper after
unfolding lookup
after-IsProper = ((refl, tt), no_nil after ((λ e. cc), tt))

only_limits : lookup "root" (update before after).updatelist ≡ some fast_root
unfolding update update_loop update_round not_contained contains device device_equals agree_on
    delete_keys get lookup put remove
only_limits = refl

update_applies_example :
    SameEntry (applied before (update before after) "eth0") (lookup "eth0" after)
update_applies_example = update_applies before after "eth0" before-IsProper after-IsProper

update_live_example :
    (lookup "root" after ≡ some fast_root)
    × (is_among live_keys "path" ≡ false → get fast_root "path" ≡ get (device before "root") "path")
update_live_example =
    update_live before after "root" "path" fast_root before-IsProper after-IsProper only_limits
