-- ===== src/Limits/Disk/Speeds.antt =====
-- Speeds of disks: what is read from them.
use lxd_pkg_ubuntu.Prelude.{
  append_assoc, ℕ, ◌^◌, ◌<◌, ◌≡◌, ◌∙◌, refl, arith, ap, false, List, [], ◌∷◌, ◌++◌, some, ok,
}
use lxd_pkg_ubuntu.Prelude.Int64.{mul64}
use lxd_pkg_ubuntu.Text.{codes, has_suffix}
use lxd_pkg_ubuntu.Text.Affix.{has_suffix-append, trim_suffix-append, has_suffix-last}
use lxd_pkg_ubuntu.Validation.ByteSize.{multiplicator}
use lxd_pkg_ubuntu.Validation.ByteSize.Units.{parse_byte_size_string-unit}
use lxd_pkg_ubuntu.Limits.Cpuset.{decimal}
use lxd_pkg_ubuntu.Limits.Cpuset.Decimal.{decimal-ne, number-decimal, parse_codes-decimal}
use lxd_pkg_ubuntu.Limits.Disk.{parse_value, device_parse_disk_limit}

iops-value :
    (c : ℕ) (cs : List ℕ) (n : ℕ)
    → n < 2 ^ 63
    → parse_value (c ∷ cs) (decimal n ++ codes "iops") ≡ ok (0, n)
unfolding parse_value
iops-value c cs n h =
    let suffix = has_suffix-append (decimal n) 105 (codes "ops") in
    let trimmed = trim_suffix-append (decimal n) 105 (codes "ops") in
    let read = parse_codes-decimal n h in cc (suffix, trimmed, read)

b_last : (a : List ℕ) (l : ℕ) → a ++ l ∷ 66 ∷ [] ≡ (a ++ (l ∷ [])) ++ (66 ∷ [])
b_last a l = simp append_assoc

unit-value :
    (c : ℕ) (cs : List ℕ) (n l m : ℕ)
    → n < 2 ^ 63
    → multiplicator (l ∷ 66 ∷ []) ≡ some m
    → parse_value (c ∷ cs) (decimal n ++ l ∷ 66 ∷ []) ≡ ok (mul64 n m, 0)
unfolding parse_value
unit-value c cs n l m h u =
    let read = parse_byte_size_string-unit (decimal n) n l m (number-decimal n) h u in
    let no_iops : has_suffix (decimal n ++ l ∷ 66 ∷ []) (codes "iops") ≡ false =
      ap (λ t. has_suffix t (codes "iops")) (b_last (decimal n) l)
      ∙ has_suffix-last (decimal n ++ (l ∷ [])) (codes "iop") 66 115 (omega arith) in
    cc (read, no_iops)

-- A limit for reading that is not empty.
module _ (c : ℕ) (cs read : List ℕ) (e : read ≡ c ∷ cs) where
  both :
      (write : List ℕ) (rb ri wb wi : ℕ)
      → parse_value (c ∷ cs) read ≡ ok (rb, ri)
      → parse_value (c ∷ cs) write ≡ ok (wb, wi)
      → device_parse_disk_limit read write
        ≡ ok (record { read_bps = rb; read_iops = ri; write_bps = wb; write_iops = wi })
  unfolding device_parse_disk_limit
  both write rb ri wb wi p q =
      let first = ap (λ t. parse_value t read) e ∙ p in
      let second = ap (λ t. parse_value t write) e ∙ q in cc (first, second)

-- With a limit for reading, a number of operations below 2^63 stands for itself and a number below
-- 2^63 with a unit for their product modulo 2^64, in either place; without a limit for reading, the
-- one for writing is dropped, whatever it is.
pub device_parse_disk_limit_lem :
    (r w l m : ℕ) (any_speed : List ℕ)
    → r < 2 ^ 63
    → w < 2 ^ 63
    → multiplicator (l ∷ 66 ∷ []) ≡ some m
    → (device_parse_disk_limit (decimal r ++ codes "iops") (decimal w ++ l ∷ 66 ∷ [])
        ≡ ok (record { read_bps = 0; read_iops = r; write_bps = mul64 w m; write_iops = 0 }))
      × (device_parse_disk_limit (decimal r ++ l ∷ 66 ∷ []) (decimal w ++ codes "iops")
          ≡ ok (record { read_bps = mul64 r m; read_iops = 0; write_bps = 0; write_iops = w }))
      × (device_parse_disk_limit [] any_speed
          ≡ ok (record { read_bps = 0; read_iops = 0; write_bps = 0; write_iops = 0 }))
unfolding device_parse_disk_limit
device_parse_disk_limit_lem r w l m any_speed hr hw u =
    let (c, ds, e) = decimal-ne r in
    let ops = ds ++ codes "iops" in
    let unit = ds ++ l ∷ 66 ∷ [] in
    (
      both c ops (decimal r ++ codes "iops") (ap (λ t. t ++ codes "iops") e)
          (decimal w ++ l ∷ 66 ∷ []) 0 r (mul64 w m) 0 (iops-value c ops r hr)
          (unit-value c ops w l m hw u),
      both c unit (decimal r ++ l ∷ 66 ∷ []) (ap (λ t. t ++ l ∷ 66 ∷ []) e)
          (decimal w ++ codes "iops") (mul64 r m) 0 0 w (unit-value c unit r l m hr u)
          (iops-value c unit w hw),
      refl,
    )
