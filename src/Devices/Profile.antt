-- ===== src/Devices/Profile.antt =====
-- `ExtendFromProfile`.
use Prim.Native.String.{String}
use text.Mathlib.TextEquality.{eq_iff}
use lxd_pkg_ubuntu.Prelude.{
  ◌≡◌, refl, ◌∙◌, arith, Option, none, some, [], ◌∷◌, Option-cases, inl, inr,
}
use lxd_pkg_ubuntu.Prelude.Dict.{IsMap, lookup, put, lookup-put}
use lxd_pkg_ubuntu.Devices.{Device, Devices, extend_from_profile}

-- The device that the container has, or else the profile's.
abbrev pub prefer : Option Device → Device → Device
prefer none new_dev = new_dev
prefer (some cur_dev) new_dev = cur_dev

abbrev pub extended : Option Device → Option Device → Option Device → Option Device
extended none current base = base
extended (some new_dev) current base = some (prefer current new_dev)

-- Under a name of the profile stands what the container has there in full, or else what the profile
-- has; no other name is touched.
pub extend_from_profile-lookup :
    (base current l : Devices) (k : String)
    → IsMap l
    → lookup k (extend_from_profile base current l)
      ≡ extended (lookup k l) (lookup k current) (lookup k base)
unfolding extend_from_profile lookup
extend_from_profile-lookup base current [] k m = refl
extend_from_profile-lookup base current ((j, d) ∷ l) k m = elim (Option-cases (lookup j current)) [
  | inl p ↦ rw p (
      extend_from_profile-lookup (put j d base) current l k m.1
      ∙ ground (arith, eq_iff j k, lookup-put j k d base, m.0, p))
  | inr (c, p) ↦ rw p (
      extend_from_profile-lookup (put j c base) current l k m.1
      ∙ ground (arith, eq_iff j k, lookup-put j k c base, m.0, p))
]
