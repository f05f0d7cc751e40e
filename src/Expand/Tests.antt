-- ===== src/Expand/Tests.antt =====
-- The configuration of a container with two profiles, and the theorem on it.
use Prim.Native.String.{String}
use text.Mathlib.Text.{◌==◌ as str_eq}
use lxd_pkg_ubuntu.Prelude.{
  ◌≡◌, ◌⊎◌, refl, subst, inl, inr, none, some, List, [], ◌∷◌, ◌++◌, if◌then◌else◌, Result, ok, err,
  Bool-cases,
}
use lxd_pkg_ubuntu.Prelude.Dict.{Dict, IsMap, lookup, put}
use lxd_pkg_ubuntu.Expand.{Container, put_all, apply_profiles, expand, expand_config}
use lxd_pkg_ubuntu.Expand.Layers.{AreLoaded, Fails, Decided, expand_config_exact}

data Failure : Type 0 where
  no_such_profile : Failure

abbrev limited : Dict String
limited = ("limits.cpu", "2") ∷ ("boot.autostart", "true") ∷ []

abbrev profile_config : String → Result Failure (Dict String)
profile_config name = if str_eq name "limited" then ok limited else err no_such_profile

profile_config-IsMap : (name : String) (m : Dict String) → profile_config name ≡ ok m → IsMap m
unfolding lookup
profile_config-IsMap name m h = elim (Bool-cases (str_eq name "limited")) [
  | inl y ↦ subst IsMap (value (rw y at h)) (refl, (refl, tt))
  | inr n ↦ absurd (refused (rw n at h))
]
  where
    value : Path (Result Failure (Dict String)) (ok limited) (ok m) → limited ≡ m
    value p = cc p

    refused : Path (Result Failure (Dict String)) (err no_such_profile) (ok m) → ⊥
    refused p = cc p

abbrev web : Container
web = record {
  profiles = "limited" ∷ [];
  local_config = ("limits.cpu", "4") ∷ [];
  local_devices = [];
  expanded_config = [];
  expanded_devices = [];
}

expand_config-web :
    expand_config profile_config web
    ≡ (record web { expanded_config = ("limits.cpu", "4") ∷ ("boot.autostart", "true") ∷ [] }, none)
unfolding expand_config expand apply_profiles put_all put
expand_config-web = refl

expand_config-missing :
    expand_config profile_config (record web { profiles = "limited" ∷ "large" ∷ [] })
    ≡ (record web { profiles = "limited" ∷ "large" ∷ [] }, some no_such_profile)
unfolding expand_config expand apply_profiles
expand_config-missing = refl

expand_config_exact_example :
    ((layers : List (Dict String)) × AreLoaded profile_config ("limited" ∷ []) layers
      × ((m : Dict String) × (expand_config profile_config web
            ≡ (record web { expanded_config = m }, none))
          × ((k : String) → Decided k (layers ++ web.local_config ∷ []) m)))
    ⊎ ((e : Failure) × Fails profile_config ("limited" ∷ []) e
        × (expand_config profile_config web ≡ (web, some e)))
unfolding lookup
expand_config_exact_example = expand_config_exact profile_config web profile_config-IsMap (refl, tt)
