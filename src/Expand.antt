-- ===== src/Expand.antt =====
-- The configuration and the devices of a container with those of its profiles (expandConfig and
-- expandDevices of lxd/container_lxc.go). The reads of the database are arguments.
pub mod Layers
mod Tests
use Prim.Native.String.{String}
use lxd_pkg_ubuntu.Prelude.{Option, none, some, List, [], ◌∷◌, Result, ok, err}
use lxd_pkg_ubuntu.Prelude.Dict.{Dict, put}
use lxd_pkg_ubuntu.Devices.{Device, Devices}

-- The fields of `containerLXC` that the two methods read and write.
pub record Container : Type 0 where
  pub profiles : List String
  pub local_config : Dict String
  pub local_devices : Devices
  pub expanded_config : Dict String
  pub expanded_devices : Devices

module _ {V : Type 0} where
  -- `for k, v := range from { config[k] = v }`
  unfoldable pub put_all : (from config : Dict V) → Dict V
  put_all [] config = config
  put_all ((k, v) ∷ from) config = put_all from (put k v config)

  module _ {E : Type 0} (profile : String → Result E (Dict V)) where
    -- The loop over the profiles; it ends with the first one that cannot be read.
    unfoldable pub apply_profiles : (names : List String) (config : Dict V) → Result E (Dict V)
    apply_profiles [] config = ok config
    apply_profiles (name ∷ names) config = elim (profile name) [
      | ok profile_config ↦ apply_profiles names (put_all profile_config config)
      | err e ↦ err e
    ]

    -- The profiles with the container's own values on top.
    unfoldable pub expand : (names : List String) (local : Dict V) → Result E (Dict V)
    expand names local = elim (apply_profiles names []) [
      | ok config ↦ ok (put_all local config)
      | err e ↦ err e
    ]

module _ {E : Type 0} where
  unfoldable pub expand_config :
      (String → Result E (Dict String)) → Container → Container × Option E
  expand_config profile_config c = elim (expand profile_config c.profiles c.local_config) [
    | ok config ↦ (record c { expanded_config = config }, none)
    | err e ↦ (c, some e)
  ]

  unfoldable pub expand_devices : (String → Result E Devices) → Container → Container × Option E
  expand_devices profile_devices c = elim (expand profile_devices c.profiles c.local_devices) [
    | ok devices ↦ (record c { expanded_devices = devices }, none)
    | err e ↦ (c, some e)
  ]
