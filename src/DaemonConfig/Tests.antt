-- ===== src/DaemonConfig/Tests.antt =====
-- Runs of the configuration, and the theorems on it for a daemon without settings.
use lxd_pkg_ubuntu.Text.{parse_int, string_in_slice, is_true}
use lxd_pkg_ubuntu.Prelude.{◌^◌, ◌-◌, ◌≡◌, refl, true, false, Bool, [], ◌∷◌, none, some}
use lxd_pkg_ubuntu.Prelude.Dict.{Dict, lookup, put, remove}
use lxd_pkg_ubuntu.DaemonConfig.{
  not_an_integer, not_allowed, unknown_key, string_type, no_setter, no_validator, no_trigger,
  ConfigKey, State, Host, get_int64, get_bool, set,
}
use lxd_pkg_ubuntu.DaemonConfig.Init.{
  JsonValue, string_value, flag, all_keys, daemon_config_init, daemon_config_render,
}
use lxd_pkg_ubuntu.DaemonConfig.Put.{old_value, api10_put}
use lxd_pkg_ubuntu.DaemonConfig.Failure.{Failed, set-Failed, set_again}
use lxd_pkg_ubuntu.DaemonConfig.Restart.{Restartable}
use lxd_pkg_ubuntu.DaemonConfig.Applies.{api10_put_applies}

-- A host that accepts everything; its state says whether the database fails.
abbrev host : Host Bool
host = record {
  look_path = λ w p. true;
  accepts = λ v keys w value. true;
  hash = λ p w. (some "5f", w);
  setup_storage_driver = λ keys w. (true, w);
  update_https_port = λ a w. (true, w);
  write_fails = λ k v w. w;
}

abbrev fresh : Bool → State Bool
fresh fails = record {
  keys = all_keys;
  table = [];
  daemon = record {
    proxy = ("", "", "");
    image_streams = [];
    prunings = 0;
    resets = 0;
    world = fails;
  };
}

abbrev request : Dict JsonValue
request =
    ("core.trust_password", string_value "secret")
    ∷ ("images.auto_update_interval", string_value "12")
    ∷ ("core.proxy_http", string_value "http://proxy")
    ∷ []

fresh-Restartable : (b : Bool) → Restartable (fresh b)
unfolding daemon_config_init
fresh-Restartable b = record { one_each = tt; keys = refl }

set-integer : (set host "images.auto_update_interval" "x" (fresh false)).1 ≡ some not_an_integer
unfolding set lookup parse_int
set-integer = refl

set-fstype : (set host "storage.lvm_fstype" "btrfs" (fresh false)).1 ≡ some not_allowed
unfolding set lookup string_in_slice
set-fstype = refl

api10_put-table :
    (api10_put host request (fresh false)).0.table
    ≡ ("core.trust_password", "5f")
      ∷ ("images.auto_update_interval", "12")
      ∷ ("core.proxy_http", "http://proxy")
      ∷ []
unfolding api10_put lookup put parse_int remove
api10_put-table = refl

api10_put-unknown :
    (api10_put host (("core.color", string_value "red") ∷ []) (fresh false)).1 ≡ some unknown_key
unfolding api10_put lookup put
api10_put-unknown = refl

render-password :
    daemon_config_render (api10_put host request (fresh false)).0.keys
    ≡ ("core.proxy_http", string_value "http://proxy")
      ∷ ("core.trust_password", flag true)
      ∷ ("images.auto_update_interval", string_value "12")
      ∷ []
unfolding daemon_config_render api10_put lookup put parse_int
render-password = refl

abbrev fstype_key : ConfigKey
fstype_key = record {
  value_type = string_type;
  default_value = "ext4";
  valid_values = "ext4" ∷ "xfs" ∷ [];
  current_value = "";
  hidden_value = false;
  validator = no_validator;
  setter = no_setter;
  trigger = no_trigger;
}

set-Failed_example :
    Failed fstype_key "storage.lvm_fstype" "btrfs" not_allowed
      (fresh false)
      (set host "storage.lvm_fstype" "btrfs" (fresh false)).0
unfolding lookup set string_in_slice
set-Failed_example =
    set-Failed host fstype_key "storage.lvm_fstype" "btrfs" not_allowed (fresh false) refl refl

get_int64-clamped :
    get_int64 (record fstype_key { current_value = "9223372036854775808" }) ≡ 2 ^ 63 - 1
unfolding get_int64 parse_int
get_int64-clamped = refl

get_bool-default : get_bool (record fstype_key { default_value = "On" }) ≡ true
unfolding get_bool is_true
get_bool-default = refl

set_again_example :
    (set host "core.https_allowed_origin" "*"
        (set host "core.https_allowed_origin" "*" (fresh true)).0
      ≡ ((set host "core.https_allowed_origin" "*" (fresh true)).0, none))
    × ((set host "core.https_allowed_origin" "*" (fresh true)).0.table ≡ [])
unfolding lookup set
set_again_example =
    set_again host (record fstype_key { default_value = ""; valid_values = [] })
      "core.https_allowed_origin" "*" (fresh true) refl refl refl

api10_put_applies_example :
    some "12"
    ≡ some (old_value "images.auto_update_interval" (api10_put host request (fresh false)).0.table)
unfolding lookup api10_put put parse_int
api10_put_applies_example =
    api10_put_applies host request (fresh false) "images.auto_update_interval"
      (refl, (refl, (refl, tt))) (fresh-Restartable false) refl refl
