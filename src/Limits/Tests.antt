-- ===== src/Limits/Tests.antt =====
-- Runs of the limits, and the theorems on them at concrete texts and CPUs.
use lxd_pkg_ubuntu.Validation.ByteSize.{multiplicator, parse_byte_size_string}
use lxd_pkg_ubuntu.Prelude.{
  ℕ, ◌≡◌, inl, inr, refl, arith, true, false, List, [], ◌∷◌, ◌++◌, map, All, Option, none, some, ok,
  err,
}
use lxd_pkg_ubuntu.Prelude.Int64.{mul64, le64, sub64, add64, lt64}
use lxd_pkg_ubuntu.Text.{
  codes, fields, cut, parse_codes, has_suffix, trim_suffix, has_prefix, reverse_onto, trim_space,
  trim_space_left, int_in_slice,
}
use lxd_pkg_ubuntu.Limits.{bad_cpuset, endless_range, bad_allowance}
use lxd_pkg_ubuntu.Limits.Cpuset.{parse_cpuset, decimal, show_int, join}
use lxd_pkg_ubuntu.Limits.Cpu.{device_parse_cpu}
use lxd_pkg_ubuntu.Limits.Disk.{device_parse_disk_limit, device_total_memory}
use lxd_pkg_ubuntu.Limits.Disk.{BlockLimit}
use lxd_pkg_ubuntu.Limits.Blocks.{
  Disk, Backing, blocks, is_valid, average_limit, get_disk_limits, devices_after,
}
use lxd_pkg_ubuntu.Limits.Blocks.Average.{IsBetween, average_limit-IsBetween}
use lxd_pkg_ubuntu.Limits.Blocks.Valid.{get_disk_limits-valid}
use lxd_pkg_ubuntu.Limits.Disk.Speeds.{device_parse_disk_limit_lem}
use lxd_pkg_ubuntu.Limits.Balance.{
  TaskCpu, Task, balance, not_isolated, pins_of, device_task_balance, set_text,
}
use lxd_pkg_ubuntu.Limits.Balance.Even.{IsEven, balance-IsEven}
use lxd_pkg_ubuntu.Limits.Balance.Within.{IsFree, pins_of-IsFree}

parse_cpuset-ranges : parse_cpuset (codes "0-2,5") ≡ ok (0 ∷ 1 ∷ 2 ∷ 5 ∷ [])
unfolding parse_cpuset fields cut parse_codes le64 sub64 add64
parse_cpuset-ranges = refl

parse_cpuset-letter : parse_cpuset (codes "1,x") ≡ err bad_cpuset
unfolding parse_cpuset fields parse_codes
parse_cpuset-letter = refl

parse_cpuset-empty : parse_cpuset [] ≡ err bad_cpuset
unfolding parse_cpuset fields parse_codes
parse_cpuset-empty = refl

parse_cpuset-endless :
    parse_cpuset (codes "9223372036854775806-9223372036854775807") ≡ err endless_range
unfolding parse_cpuset fields cut parse_codes
parse_cpuset-endless = refl

device_parse_cpu-half :
    device_parse_cpu (codes "50%") (codes "5")
    ≡ ok (record { shares = codes "519"; quota = codes "-1"; period = codes "100000" })
unfolding device_parse_cpu parse_codes has_suffix trim_suffix show_int lt64 add64 sub64
device_parse_cpu-half = refl

device_parse_cpu-time :
    device_parse_cpu (codes "25ms/200ms") (codes "10")
    ≡ ok (record { shares = codes "1024"; quota = codes "25000"; period = codes "200000" })
unfolding device_parse_cpu parse_codes has_suffix cut trim_suffix show_int lt64 add64 sub64
device_parse_cpu-time = refl

device_parse_cpu-bad : device_parse_cpu (codes "25ms") (codes "10") ≡ err bad_allowance
unfolding device_parse_cpu parse_codes has_suffix cut
device_parse_cpu-bad = refl

device_parse_disk_limit-write :
    device_parse_disk_limit [] (codes "10MB")
    ≡ ok (record { read_bps = 0; read_iops = 0; write_bps = 0; write_iops = 0 })
unfolding device_parse_disk_limit
device_parse_disk_limit-write = refl

device_parse_disk_limit_lem_example :
    (device_parse_disk_limit (decimal 20 ++ codes "iops") (decimal 10 ++ 77 ∷ 66 ∷ [])
      ≡ ok
          (record { read_bps = 0; read_iops = 20; write_bps = mul64 10 1_048_576; write_iops = 0 }))
    × (device_parse_disk_limit (decimal 20 ++ 77 ∷ 66 ∷ []) (decimal 10 ++ codes "iops")
        ≡ ok (record {
          read_bps = mul64 20 1_048_576;
          read_iops = 0;
          write_bps = 0;
          write_iops = 10;
        }))
    × (device_parse_disk_limit [] (codes "10MB")
        ≡ ok (record { read_bps = 0; read_iops = 0; write_bps = 0; write_iops = 0 }))
unfolding multiplicator
device_parse_disk_limit_lem_example =
    device_parse_disk_limit_lem 20 10 77 1_048_576 (codes "10MB") (omega arith) (omega arith) refl

device_total_memory-two_gib :
    device_total_memory (codes "MemTotal:        2097152 kB" ∷ codes "MemFree:  1 kB" ∷ [])
    ≡ ok 2_147_483_648
unfolding device_total_memory has_prefix parse_byte_size_string fields reverse_onto has_suffix
    parse_codes lt64
device_total_memory-two_gib = refl

abbrev two_cpus : List TaskCpu
two_cpus = record { id = 0; count = 0 } ∷ record { id = 1; count = 1 } ∷ []

abbrev wanted : List (ℕ × ℕ)
wanted = (7, 1) ∷ (8, 2) ∷ (9, 1) ∷ []

balance-IsEven_example : IsEven (balance wanted (two_cpus, [])).0
balance-IsEven_example = balance-IsEven wanted two_cpus [] (0, (inl refl, (inr refl, tt)))

-- Four CPUs of which the second is isolated, a container that is fixed and one that gets two CPUs.
abbrev tasks : List (Option Task)
tasks =
    some (record { key = 7; limits_cpu = some (codes "0-1"); running = true })
    ∷ none
    ∷ some (record { key = 8; limits_cpu = some (codes "2"); running = true })
    ∷ some (record { key = 9; limits_cpu = none; running = false })
    ∷ []

pins_of-IsFree_example :
    All
      (λ p. All (IsFree (1 ∷ []) (0 ∷ 1 ∷ 2 ∷ 3 ∷ [])) p.1)
      (pins_of (join (map show_int (not_isolated (1 ∷ []) (0 ∷ 1 ∷ 2 ∷ 3 ∷ [])))) tasks)
pins_of-IsFree_example =
    pins_of-IsFree (1 ∷ []) (0 ∷ 1 ∷ 2 ∷ 3 ∷ []) tasks
      (omega arith, (omega arith, (omega arith, (omega arith, tt))))

device_task_balance-isolated :
    device_task_balance (codes "0-3") (some (codes "1\n")) tasks
    ≡ record { lxc = some (codes "0,2,3"); pins = (7, codes "0") ∷ (8, codes "2,3") ∷ [] }
unfolding device_task_balance parse_cpuset fields cut parse_codes le64 trim_space reverse_onto
    trim_space_left join sub64 add64 int_in_slice show_int set_text
device_task_balance-isolated = refl

-- Two disks on the device 8:0, one of them through its partition 8:1.
abbrev disk : (read source : List ℕ) → Disk
disk read source = record {
  is_disk = true;
  limits_max = read;
  limits_read = [];
  limits_write = [];
  source = source;
}

abbrev on_sda : List ℕ → Backing
on_sda [] = blocks (codes "8:0" ∷ [])
on_sda (c ∷ cs) = blocks (codes "8:1" ∷ [])

get_disk_limits-two :
    get_disk_limits
      (some (codes "8:0" ∷ []))
      on_sda
      (disk (codes "10iops") [] ∷ disk (codes "20iops") (codes "/srv") ∷ [])
    ≡ ok (
        (codes "8:0", record { read_bps = 0; read_iops = 15; write_bps = 0; write_iops = 15 }) ∷ [])
unfolding get_disk_limits device_parse_disk_limit has_suffix parse_codes trim_suffix cut lt64 add64
get_disk_limits-two = refl

abbrev with_speed : List ℕ → Disk
with_speed speed = record (disk speed []) { limits_read = speed; limits_write = speed }

devices_after-max :
    devices_after
      (codes "8:0" ∷ [])
      on_sda
      (disk (codes "10iops") [] ∷ disk (codes "x") [] ∷ disk (codes "1iops") [] ∷ [])
      []
    ≡ with_speed (codes "10iops") ∷ with_speed (codes "x") ∷ disk (codes "1iops") [] ∷ []
unfolding devices_after device_parse_disk_limit has_suffix parse_codes trim_suffix
    parse_byte_size_string cut reverse_onto
devices_after-max = refl

get_disk_limits-valid_example :
    All
      (λ (p : List ℕ × BlockLimit). is_valid p.0 (codes "8:0" ∷ []) ≡ true)
      ((codes "8:0", record { read_bps = 0; read_iops = 15; write_bps = 0; write_iops = 15 }) ∷ [])
get_disk_limits-valid_example =
    get_disk_limits-valid (codes "8:0" ∷ []) on_sda
      (disk (codes "10iops") [] ∷ disk (codes "20iops") (codes "/srv") ∷ []) _ get_disk_limits-two

abbrev iops : ℕ → BlockLimit
iops n = record { read_bps = 0; read_iops = n; write_bps = 0; write_iops = n }

average_limit-IsBetween_example :
    IsBetween (iops 10) (iops 20) (average_limit (iops 10 ∷ iops 20 ∷ []))
average_limit-IsBetween_example =
    average_limit-IsBetween (iops 10) (iops 20) (iops 10 ∷ iops 20 ∷ [])
      (record {
        read_bps = omega arith;
        read_iops = omega arith;
        write_bps = omega arith;
        write_iops = omega arith;
      })
      (omega arith)
      (
        record {
          read_bps = inl refl;
          read_iops = inr (omega arith, omega arith);
          write_bps = inl refl;
          write_iops = inr (omega arith, omega arith);
        },
        (
          record {
            read_bps = inl refl;
            read_iops = inr (omega arith, omega arith);
            write_bps = inl refl;
            write_iops = inr (omega arith, omega arith);
          },
          tt,
        ),
      )
