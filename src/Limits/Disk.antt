-- ===== src/Limits/Disk.antt =====
-- Limits of disks, and the memory of the host (`deviceParseDiskLimit` and `deviceTotalMemory`,
-- lxd/devices.go).
pub mod Speeds
use lxd_pkg_ubuntu.Prelude.{
  ℕ, Bool, true, false, if◌then◌else◌, List, [], ◌∷◌, ◌++◌, Option, none, some, Result, ok, err,
  ◌>>=◌,
}
use lxd_pkg_ubuntu.Text.{codes, parse_codes, has_prefix, has_suffix, trim_suffix, fields}
use lxd_pkg_ubuntu.Validation.ByteSize.{parse_byte_size_string}
use lxd_pkg_ubuntu.Limits.{Error, bad_number, bad_size, no_mem_total}

-- `shared.ParseByteSizeString`, with the error of this package.
abbrev pub size_of : List ℕ → Result Error ℕ
size_of value = elim (parse_byte_size_string value) [ ok n ↦ ok n | err _ ↦ err bad_size ]

abbrev iops_of : Option ℕ → Result Error (ℕ × ℕ)
iops_of none = err bad_number
iops_of (some n) = ok (0, n)

-- The local function `parseValue`: bytes and operations in a second. It tests `readSpeed`, whichever
-- value it is called with.
unfoldable pub parse_value : (read_speed value : List ℕ) → Result Error (ℕ × ℕ)
parse_value [] value = ok (0, 0)
parse_value (c ∷ cs) value =
    if has_suffix value (codes "iops")
    then iops_of (parse_codes (trim_suffix value (codes "iops")))
    else (size_of value >>= λ bps. ok (bps, 0))

-- `deviceBlockLimit`
pub record BlockLimit : Type 0 where
  pub read_bps : ℕ
  pub read_iops : ℕ
  pub write_bps : ℕ
  pub write_iops : ℕ

-- `deviceParseDiskLimit`
unfoldable pub device_parse_disk_limit : (read_speed write_speed : List ℕ) → Result Error BlockLimit
unfolding parse_value
device_parse_disk_limit read_speed write_speed = parse_value read_speed read_speed >>= λ r.
    parse_value read_speed write_speed >>= λ w.
    ok (record { read_bps = r.0; read_iops = r.1; write_bps = w.0; write_iops = w.1 })

-- The last two fields of a line, joined. A line that starts with "MemTotal:" and has no blank has one
-- field alone, at which the code panics; the kernel prints none.
unfoldable pub last_two : List (List ℕ) → List ℕ
last_two [] = []
last_two (a ∷ []) = a
last_two (a ∷ b ∷ []) = a ++ b
last_two (a ∷ b ∷ c ∷ fs) = last_two (b ∷ c ∷ fs)

-- `deviceTotalMemory`, on the lines of /proc/meminfo.
unfoldable pub device_total_memory : List (List ℕ) → Result Error ℕ
unfolding last_two
device_total_memory [] = err no_mem_total
device_total_memory (line ∷ lines) =
    let rest = device_total_memory lines in
    if has_prefix line (codes "MemTotal:") then size_of (last_two (fields 32 line)) else rest
