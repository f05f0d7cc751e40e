-- ===== src/Limits.antt =====
-- What the daemon computes from the limits of a container (lxd/devices.go): shares and quotas of the
-- CPUs, limits of disks, and which CPUs each container runs on. Texts are lists of the codes of their
-- characters.
pub mod Cpuset
pub mod Cpu
pub mod Disk
pub mod Blocks
pub mod Balance
mod Tests

pub data Error : Type 0 where
  bad_cpuset endless_range bad_number bad_allowance bad_size no_mem_total no_blocks no_quota : Error
