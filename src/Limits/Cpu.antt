-- ===== src/Limits/Cpu.antt =====
-- Shares and quotas of the CPUs (`deviceParseCPU`, lxd/devices.go).
pub mod Shares
use lxd_pkg_ubuntu.Prelude.{
  ℕ, Bool, true, false, if◌then◌else◌, List, [], ◌∷◌, Option, none, some, Result, ok, err, ◌>>=◌,
}
use lxd_pkg_ubuntu.Prelude.Int64.{add64, sub64, mul64, lt64}
use lxd_pkg_ubuntu.Text.{codes, parse_codes, has_suffix, trim_suffix, cut}
use lxd_pkg_ubuntu.Limits.{Error, bad_number, bad_allowance}
use lxd_pkg_ubuntu.Limits.Cpuset.{show_int}

-- The three results: `cpuShares`, `cpuCfsQuota` and `cpuCfsPeriod`, as texts.
pub record CpuLimit : Type 0 where
  pub shares : List ℕ
  pub quota : List ℕ
  pub period : List ℕ

abbrev pub number_or : Option ℕ → Result Error ℕ
number_or none = err bad_number
number_or (some n) = ok n

-- `cpuPriorityInt`
unfoldable pub priority_int : List ℕ → Result Error ℕ
priority_int [] = ok 10
priority_int (c ∷ cs) = number_or (parse_codes (c ∷ cs))

-- A potential negative score is 0.
unfoldable pub no_less_than_0 : ℕ → ℕ
no_less_than_0 shares = if lt64 shares 0 then 0 else shares

-- `cpuShares -= 10 - cpuPriorityInt`, then what the allowance adds.
unfoldable pub shares_of : ℕ → ℕ → ℕ
unfolding no_less_than_0
shares_of priority more = no_less_than_0 (add64 (sub64 0 (sub64 10 priority)) more)

abbrev pub milliseconds : List ℕ → Result Error ℕ
milliseconds field = number_or (parse_codes (trim_suffix field (codes "ms")))

-- The allowance: what it adds to the shares, the quota and the period.
unfoldable pub allowance : List ℕ → Result Error (ℕ × List ℕ × List ℕ)
allowance [] = ok (1024, codes "-1", codes "100000")
allowance (c ∷ cs) =
    if has_suffix (c ∷ cs) (codes "%")
    then number_or (parse_codes (trim_suffix (c ∷ cs) (codes "%")))
      >>= (λ percent. ok (add64 (mul64 10 percent) 24, codes "-1", codes "100000"))
    else elim (cut 47 (c ∷ cs)) [
      | none ↦ err bad_allowance
      | some parts ↦ milliseconds parts.0 >>= λ quota. milliseconds parts.1 >>= λ period.
          ok (1024, show_int (mul64 quota 1000), show_int (mul64 period 1000))
    ]

-- `deviceParseCPU`
unfoldable pub device_parse_cpu : List ℕ → List ℕ → Result Error CpuLimit
unfolding priority_int allowance shares_of
device_parse_cpu cpu_allowance cpu_priority = priority_int cpu_priority >>= λ priority.
    allowance cpu_allowance >>= λ a.
    ok (record { shares = show_int (shares_of priority a.0); quota = a.1; period = a.2 })
