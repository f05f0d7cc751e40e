-- ===== src/DaemonConfig.antt =====
-- The configuration of the daemon (lxd/daemon_config.go; ConfigValueSet of lxd/db/config.go). The
-- table of keys is a cache of the table `config` of the database. A `Host` is what lies outside: the
-- programs, the storage driver, the listener, the hash of passwords and the database's errors; `W` is
-- its state.
pub mod Init
pub mod Put
pub mod Update
pub mod Consistent
pub mod Failure
pub mod Restart
pub mod Difference
pub mod Applies
mod Tests
use Prim.Native.String.{String}
use text.Mathlib.Text.{◌==◌ as str_eq}
use lxd_pkg_ubuntu.Prelude.{
  ℕ, suc, ◌+◌, ◌-◌, ◌^◌, Bool, true, false, not, ◌&&◌, if◌then◌else◌, ◌==◌, leb, List, [], ◌∷◌, map,
  Option, none, some, Result, ok, err,
}
use lxd_pkg_ubuntu.Prelude.Dict.{Dict, lookup, put, remove}
use lxd_pkg_ubuntu.Text.{
  codes, number, parse_codes, parse_int, is_true, string_in_slice, lower_code,
}
use lxd_pkg_ubuntu.Validation.ConfigKey.{lower_in_slice}

pub data Error : Type 0 where
  not_a_boolean not_an_integer not_allowed bad_compression refused_value : Error
  no_random no_storage_driver no_address corrupted_cache database_error : Error
  bad_value_type unknown_key : Error

-- The functions that the keys have as `validator`, `setter` and `trigger`.
pub data Validator : Type 0 where
  no_validator validate_compression validate_thin_pool_name validate_volume_group_name : Validator
  validate_pool_name : Validator

pub data Setter : Type 0 where
  no_setter set_address set_proxy set_password set_storage : Setter

pub data Trigger : Type 0 where
  no_trigger trigger_expiry trigger_auto_update_interval : Trigger

pub data ValueType : Type 0 where
  string_type bool_type int_type : ValueType

-- `daemonConfigKey`
pub record ConfigKey : Type 0 where
  pub value_type : ValueType
  pub default_value : String
  pub valid_values : List String
  pub current_value : String
  pub hidden_value : Bool
  pub validator : Validator
  pub setter : Setter
  pub trigger : Trigger

abbrev pub Keys : Type 0
Keys = Dict ConfigKey

-- `Get`
unfoldable pub get : ConfigKey → String
get k = if str_eq k.current_value "" then k.default_value else k.current_value

-- `GetBool`
unfoldable pub get_bool : ConfigKey → Bool
unfolding get
get_bool k = is_true (get k)

abbrev out_of_range : Option ℕ → ℕ → ℕ
out_of_range none limit = 0
out_of_range (some n) limit = limit

-- The number that strconv.ParseInt returns, also beside an error: the nearest int64 for a number out of
-- range, and 0 for any other text.
unfoldable pub parsed : Option ℕ → List ℕ → ℕ
parsed (some n) cs = n
parsed none [] = 0
parsed none (c ∷ cs) =
    if c == 45
    then out_of_range (number cs) (2 ^ 63)
    else out_of_range (number (if c == 43 then cs else c ∷ cs)) (2 ^ 63 - 1)

-- `GetInt64`
unfoldable pub get_int64 : ConfigKey → ℕ
unfolding get parsed
get_int64 k = parsed (parse_int (get k)) (codes (get k))

-- `daemonConfig[key].Get()`
unfoldable pub get_of : String → Keys → String
unfolding get
get_of name keys = elim (lookup name keys) [ none ↦ "" | some k ↦ get k ]

-- `k.currentValue = value`, for the key of that name.
unfoldable pub set_current : String → String → Keys → Keys
set_current name value [] = []
set_current name value ((j, k) ∷ keys) =
    if str_eq j name
    then (j, record k { current_value = value }) ∷ keys
    else (j, k) ∷ set_current name value keys

-- What the daemon keeps besides: the arguments of its proxy function, the cache of image streams, how
-- often pruning was asked for and the interval was reset, and the state of the host.
pub record Daemon (W : Type 0) : Type 0 where
  pub proxy : String × String × String
  pub image_streams : List String
  pub prunings : ℕ
  pub resets : ℕ
  pub world : W

-- The key table, the table of the database, and the rest.
pub record State (W : Type 0) : Type 0 where
  pub keys : Keys
  pub table : Dict String
  pub daemon : Daemon W

pub record Host (W : Type 0) : Type 0 where
  -- `exec.LookPath`
  pub look_path : W → String → Bool
  -- The validators of the storage backends, which read keys.
  pub accepts : Validator → Keys → W → String → Bool
  -- The hash of a password with a random salt, if there is one.
  pub hash : String → W → Option String × W
  -- `SetupStorageDriver` and `UpdateHTTPsPort`: whether they succeed.
  pub setup_storage_driver : Keys → W → Bool × W
  pub update_https_port : String → W → Bool × W
  -- Whether the transaction that writes a key fails, and with it the change.
  pub write_fails : String → String → W → Bool

abbrev pub booleans : List String
booleans = "true" ∷ "false" ∷ "1" ∷ "0" ∷ "yes" ∷ "no" ∷ "on" ∷ "off" ∷ []

-- The tests on the type of a value.
unfoldable pub check_type : ValueType → String → Option Error
check_type string_type value = none
check_type bool_type value =
    if not (lower_in_slice (map lower_code (codes value)) booleans)
    then some not_a_boolean
    else none
check_type int_type value = elim (parse_int value) [ none ↦ some not_an_integer | some _ ↦ none ]

-- `validValues` is nil where the list is empty.
unfoldable pub check_values : List String → String → Option Error
check_values [] value = none
check_values (v ∷ vs) value =
    if not (string_in_slice value (v ∷ vs)) then some not_allowed else none

abbrev pub or_else : Option Error → Option Error → Option Error
or_else (some e) more = some e
or_else none more = more

abbrev with_current : {W : Type 0} → String → String → State W → State W
with_current name value s = record s { keys = set_current name value s.keys }

abbrev pub with_world : {W : Type 0} → W → State W → State W
with_world w s = record s { daemon = record s.daemon { world = w } }

-- `config[key] = value`, and the read of another key.
abbrev pub changed_or_get : (name key value : String) → Keys → String
changed_or_get name key value keys = if str_eq name key then value else get_of name keys

-- The trigger.
unfoldable pub run_trigger : {W : Type 0} → Trigger → State W → State W
run_trigger no_trigger s = s
run_trigger trigger_expiry s = record s {
  daemon = record s.daemon { prunings = suc s.daemon.prunings };
}
run_trigger trigger_auto_update_interval s = record s {
  daemon = record s.daemon { resets = suc s.daemon.resets };
}

-- `ConfigValueSet`, where its transaction succeeds.
unfoldable pub config_value_set : String → String → Dict String → Dict String
config_value_set key value table =
    let cleared = remove key table in
    if not (str_eq value "") then put key value cleared else cleared

module _ {W : Type 0} (host : Host W) where
  -- `k.validator(d, k.name(), value)`, an error if it is not accepted.
  unfoldable pub run_validator : Validator → String → State W → Option Error
  run_validator no_validator value s = none
  run_validator validate_compression value s =
      if str_eq value "none"
      then none
      else if host.look_path s.daemon.world value
      then none
      else some bad_compression
  run_validator v value s =
      if host.accepts v s.keys s.daemon.world value then none else some refused_value

  -- `Validate`
  unfoldable pub validate : ConfigKey → String → State W → Option Error
  unfolding run_validator check_type check_values
  validate k value s =
      if str_eq value ""
      then run_validator k.validator k.default_value s
      else or_else (check_type k.value_type value)
          (or_else (check_values k.valid_values value) (run_validator k.validator value s))

  -- `daemonConfigSetAddress`, `daemonConfigSetProxy`, `daemonConfigSetPassword` and
  -- `daemonConfigSetStorage`, which sets the key for the time of the call.
  unfoldable pub run_setter : Setter → String → String → State W → State W × Result Error String
  unfolding set_current get_of
  run_setter no_setter key value s = (s, ok value)
  run_setter set_address key value s =
      let done = host.update_https_port value s.daemon.world in
      (with_world done.1 s, if done.0 then ok value else err no_address)
  run_setter set_proxy key value s =
      let proxy : String × String × String = (
        changed_or_get "core.proxy_https" key value s.keys,
        changed_or_get "core.proxy_http" key value s.keys,
        changed_or_get "core.proxy_ignore_hosts" key value s.keys,
      ) in
      (record s { daemon = record s.daemon { proxy = proxy; image_streams = [] } }, ok value)
  run_setter set_password key value s =
      let hashed = host.hash value s.daemon.world in
      if str_eq value ""
      then (s, ok value)
      else (with_world hashed.1 s, elim hashed.0 [ none ↦ err no_random | some h ↦ ok h ])
  run_setter set_storage key value s =
      let old = get_of key s.keys in
      let during = with_current key value s in
      let done = host.setup_storage_driver during.keys s.daemon.world in
      let after = with_current key old (with_world done.1 during) in
      (after, if done.0 then ok value else err no_storage_driver)

  -- From the change of the cache on.
  unfoldable pub store_value : String → Trigger → String → State W → State W × Option Error
  unfolding set_current config_value_set run_trigger
  store_value name trigger value s =
      let cached = with_current name value s in
      let written = record cached { table = config_value_set name value cached.table } in
      if host.write_fails name value s.daemon.world
      then (cached, some database_error)
      else (run_trigger trigger written, none)

  -- `Set` of the key that `name` has in the table. The state is also that after an error.
  unfoldable pub set_key : String → ConfigKey → String → State W → State W × Option Error
  unfolding validate run_setter store_value
  set_key name k value s =
      if str_eq k.current_value value then (s, none) else elim (validate k value s) [
        | some e ↦ (s, some e)
        | none ↦
            let made = run_setter k.setter name value s in
            elim made.1 [
              | err e ↦ (made.0, some e)
              | ok stored ↦ store_value name k.trigger stored made.0
            ]
      ]

  unfoldable pub set : String → String → State W → State W × Option Error
  unfolding set_key
  set name value s = elim (lookup name s.keys) [
    | none ↦ (s, some corrupted_cache)
    | some k ↦ set_key name k value s
  ]
