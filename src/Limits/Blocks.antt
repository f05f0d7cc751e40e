-- ===== src/Limits/Blocks.antt =====
-- The limits of the block devices behind the disks of a container (`getDiskLimits`,
-- lxd/container_lxc.go). The block devices of the host and those behind a path are arguments.
pub mod Average
pub mod Valid
use lxd_pkg_ubuntu.Prelude.{
  ℕ, ◌+◌, ◌-◌, ◌/◌, ◌%◌, ◌^◌, Bool, true, false, not, ◌&&◌, ◌||◌, if◌then◌else◌, ◌==◌, ltb, List,
  [], ◌∷◌, ◌++◌, map, Option, none, some, Result, ok, err, ◌>>=◌,
}
use lxd_pkg_ubuntu.Prelude.Int64.{add64, lt64}
use lxd_pkg_ubuntu.Text.{cut, same_codes}
use lxd_pkg_ubuntu.Limits.{Error, no_blocks, no_quota}
use lxd_pkg_ubuntu.Limits.Disk.{BlockLimit, device_parse_disk_limit}

-- A device of the container, as far as it is used here.
pub record Disk : Type 0 where
  pub is_disk : Bool
  pub limits_max : List ℕ
  pub limits_read : List ℕ
  pub limits_write : List ℕ
  pub source : List ℕ

-- What is behind the source of a disk: nothing, as the path does not exist, an error, or block devices.
pub data Backing : Type 0 where
  no_path unknown : Backing
  blocks : List (List ℕ) → Backing

-- `limits.max` stands for both others.
unfoldable pub with_max : Disk → Disk
with_max d = elim d.limits_max [
  | [] ↦ d
  | c ∷ cs ↦ record d { limits_read = c ∷ cs; limits_write = c ∷ cs }
]

-- `shared.StringInSlice(block, validBlocks)`
unfoldable pub is_valid : List ℕ → List (List ℕ) → Bool
unfolding same_codes
is_valid block [] = false
is_valid block (v ∷ vs) = same_codes v block || is_valid block vs

-- "major:0". A block device without a colon does not occur: the code would panic.
abbrev pub parent_of : List ℕ → List ℕ
parent_of block = elim (cut 58 block) [ none ↦ block | some parts ↦ parts.0 ++ 58 ∷ 48 ∷ [] ]

-- The device itself, or the one that it may be a partition of.
unfoldable pub block_of : (valid : List (List ℕ)) → List ℕ → Option (List ℕ)
unfolding is_valid
block_of valid block =
    if is_valid block valid
    then some block
    else if is_valid (parent_of block) valid
    then some (parent_of block)
    else none

-- `blockLimits`
abbrev pub BlockLimits : Type 0
BlockLimits = List (List ℕ × List BlockLimit)

unfoldable pub add_limit : List ℕ → BlockLimit → BlockLimits → BlockLimits
unfolding same_codes
add_limit block l [] = (block, l ∷ []) ∷ []
add_limit block l ((b, ls) ∷ m) =
    if same_codes b block then (b, ls ++ l ∷ []) ∷ m else (b, ls) ∷ add_limit block l m

-- The loop over the block devices behind one disk.
unfoldable pub add_blocks :
    (valid : List (List ℕ)) → BlockLimit → List (List ℕ) → BlockLimits → Result Error BlockLimits
unfolding block_of add_limit
add_blocks valid l [] m = ok m
add_blocks valid l (b ∷ bs) m = elim (block_of valid b) [
  | none ↦ err no_quota
  | some block ↦ add_blocks valid l bs (add_limit block l m)
]

abbrev pub is_zero : BlockLimit → Bool
is_zero l = l.read_bps == 0 && l.read_iops == 0 && l.write_bps == 0 && l.write_iops == 0

-- One disk, with its limits.
unfoldable pub add_disk :
    (valid : List (List ℕ)) → BlockLimit → Backing → BlockLimits → Result Error BlockLimits
unfolding add_blocks
add_disk valid l no_path m = ok m
add_disk valid l unknown m = if is_zero l then ok m else err no_blocks
add_disk valid l (blocks bs) m = add_blocks valid l bs m

-- The loop over the devices, in the order of DeviceNames.
unfoldable pub add_disks :
    (valid : List (List ℕ))
    → (backing : List ℕ → Backing) → List Disk
    → BlockLimits
    → Result Error BlockLimits
unfolding with_max add_disk
add_disks valid backing [] m = ok m
add_disks valid backing (d ∷ ds) m =
    if not d.is_disk
    then add_disks valid backing ds m
    else (device_parse_disk_limit (with_max d).limits_read (with_max d).limits_write >>= λ l.
        add_disk valid l (backing d.source) m >>= λ more. add_disks valid backing ds more)

-- The devices of the container after that loop, which writes limits.max into the other two keys of those
-- that it comes to.
unfoldable pub devices_after :
    (valid : List (List ℕ)) → (backing : List ℕ → Backing) → List Disk → BlockLimits → List Disk
unfolding with_max add_disk
devices_after valid backing [] m = []
devices_after valid backing (d ∷ ds) m =
    if not d.is_disk
    then d ∷ devices_after valid backing ds m
    else with_max d
      ∷ elim (device_parse_disk_limit (with_max d).limits_read (with_max d).limits_write >>= λ l.
          add_disk valid l (backing d.source) m) [
            | ok more ↦ devices_after valid backing ds more
            | err e ↦ ds
          ]

-- The division of int64 by a positive number, towards 0.
abbrev pub div64 : ℕ → ℕ → ℕ
div64 a b = if ltb a (2 ^ 63) then a / b else (2 ^ 64 - (2 ^ 64 - a) / b) % 2 ^ 64

-- How many of the limits there are, and their sum.
unfoldable pub totals : List ℕ → ℕ × ℕ
totals [] = (0, 0)
totals (l ∷ ls) = let rest = totals ls in if lt64 0 l then (rest.0 + 1, add64 rest.1 l) else rest

unfoldable pub average : List ℕ → ℕ
unfolding totals
average ls = if ltb 0 (totals ls).0 then div64 (totals ls).1 (totals ls).0 else 0

-- The limit of one block device.
unfoldable pub average_limit : List BlockLimit → BlockLimit
unfolding average
average_limit ls = record {
  read_bps = average (map (λ l. l.read_bps) ls);
  read_iops = average (map (λ l. l.read_iops) ls);
  write_bps = average (map (λ l. l.write_bps) ls);
  write_iops = average (map (λ l. l.write_iops) ls);
}

abbrev pub average_each : BlockLimits → List (List ℕ × BlockLimit)
average_each [] = []
average_each ((b, ls) ∷ m) = (b, average_limit ls) ∷ average_each m

-- `getDiskLimits`, its result; what it does to the devices is `devices_after`. `valid` is what is found
-- in /sys, if it can be read.
unfoldable pub get_disk_limits :
    (valid : Option (List (List ℕ)))
    → (backing : List ℕ → Backing) → List Disk
    → Result Error (List (List ℕ × BlockLimit))
unfolding add_disks average_limit
get_disk_limits none backing ds = err no_blocks
get_disk_limits (some valid) backing ds = add_disks valid backing ds [] >>= λ m. ok (average_each m)
