-- ===== src/Validation.antt =====
-- What the daemon accepts of a container (lxd/container.go, with lxcValidConfig of
-- lxd/container_lxc.go and helpers of shared/util.go): its name, its configuration and its devices.
pub mod Name
pub mod RawLxc
pub mod ConfigKey
pub mod ByteSize
pub mod Config
pub mod DeviceKey
pub mod Root
pub mod Device
mod Tests

pub data Error : Type 0 where
  reserved_character not_a_hostname not_an_integer not_a_boolean not_one_of not_a_uint32 : Error
  bad_allowance not_a_number bad_size unknown_key bad_raw_lxc not_allowed volatile_key : Error
  no_uid_allocation two_roots no_root no_type bad_type bad_device_key no_nictype bad_nictype : Error
  no_parent same_path no_path no_source root_source not_root_size not_recursive no_unix_path : Error
  not_on_host no_attributes block_device char_device : Error
