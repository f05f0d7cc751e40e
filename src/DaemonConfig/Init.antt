-- ===== src/DaemonConfig/Init.antt =====
-- The keys of the daemon, and their values at its start (`daemonConfigInit` and `daemonConfigRender`,
-- lxd/daemon_config.go).
use Prim.Native.String.{String}
use text.Mathlib.Text.{◌==◌ as str_eq}
use lxd_pkg_ubuntu.Prelude.{Bool, true, false, if◌then◌else◌, [], ◌∷◌}
use lxd_pkg_ubuntu.Prelude.Dict.{Dict}
use lxd_pkg_ubuntu.DaemonConfig.{
  no_validator, validate_compression, validate_thin_pool_name, validate_volume_group_name,
  validate_pool_name, Setter, no_setter, set_address, set_proxy, set_password, set_storage,
  no_trigger, trigger_expiry, trigger_auto_update_interval, ValueType, string_type, bool_type,
  int_type, ConfigKey, Keys, get, set_current,
}

-- A text with a setter, as most keys are.
abbrev text_key : Setter → ConfigKey
text_key f = record {
  value_type = string_type;
  default_value = "";
  valid_values = [];
  current_value = "";
  hidden_value = false;
  validator = no_validator;
  setter = f;
  trigger = no_trigger;
}

-- A key with a default.
abbrev default_key : ValueType → String → ConfigKey
default_key t v = record (text_key no_setter) { value_type = t; default_value = v }

-- The table that `daemonConfigInit` sets.
abbrev pub all_keys : Keys
all_keys =
    ("core.https_address", text_key set_address)
    ∷ ("core.https_allowed_headers", text_key no_setter)
    ∷ ("core.https_allowed_methods", text_key no_setter)
    ∷ ("core.https_allowed_origin", text_key no_setter)
    ∷ ("core.proxy_http", text_key set_proxy)
    ∷ ("core.proxy_https", text_key set_proxy)
    ∷ ("core.proxy_ignore_hosts", text_key set_proxy)
    ∷ ("core.trust_password", record (text_key set_password) { hidden_value = true })
    ∷ ("images.auto_update_cached", default_key bool_type "true")
    ∷ (
      "images.auto_update_interval",
      record (default_key int_type "6") { trigger = trigger_auto_update_interval },
    )
    ∷ (
      "images.compression_algorithm",
      record (default_key string_type "gzip") { validator = validate_compression },
    )
    ∷ (
      "images.remote_cache_expiry",
      record (default_key int_type "10") { trigger = trigger_expiry },
    )
    ∷ (
      "storage.lvm_fstype",
      record (default_key string_type "ext4") { valid_values = "ext4" ∷ "xfs" ∷ [] },
    )
    ∷ (
      "storage.lvm_thinpool_name",
      record (default_key string_type "LXDPool") { validator = validate_thin_pool_name },
    )
    ∷ (
      "storage.lvm_vg_name",
      record (text_key set_storage) { validator = validate_volume_group_name },
    )
    ∷ ("storage.lvm_volume_size", default_key string_type "10GiB")
    ∷ ("storage.zfs_pool_name", record (text_key set_storage) { validator = validate_pool_name })
    ∷ []

-- The values of the database; a key that is not in the table is logged and skipped.
unfoldable pub load_values : Dict String → Keys → Keys
unfolding set_current
load_values [] keys = keys
load_values ((k, v) ∷ values) keys = load_values values (set_current k v keys)

-- `daemonConfigInit`
unfoldable pub daemon_config_init : Dict String → Keys
unfolding load_values
daemon_config_init values = load_values values all_keys

-- What JSON has for a value, as far as it matters.
pub data JsonValue : Type 0 where
  absent : JsonValue
  string_value : String → JsonValue
  flag : Bool → JsonValue
  other : JsonValue

abbrev shown : Bool → String → JsonValue
shown hidden value = if hidden then flag true else string_value value

-- `daemonConfigRender`
unfoldable pub daemon_config_render : Keys → Dict JsonValue
unfolding get
daemon_config_render [] = []
daemon_config_render ((name, k) ∷ keys) =
    let rest = daemon_config_render keys in
    if str_eq (get k) k.default_value then rest else (name, shown k.hidden_value (get k)) ∷ rest
