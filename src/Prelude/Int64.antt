-- ===== src/Prelude/Int64.antt =====
-- Go's `int64`: a bit pattern, a number below 2 ^ 64. Sums and differences wrap, and the order is
-- that of the signed numbers which the patterns stand for.
use Prim.Native.Nat.{ℕ, ◌+◌, ◌-◌, ◌*◌, ◌%◌, ◌^◌, ◌≤◌, ◌<◌}
use mathlib.Core.Path.{◌≡◌}
use mathlib.Core.Bool.{Bool, not}
use native.Mathlib.Omega.{arith}
use lxd_pkg_ubuntu.Prelude.Tests.{ltb, leb}

-- a + b, a - b, a * b.
unfoldable pub add64 : ℕ → ℕ → ℕ
add64 a b = (a + b) % 2 ^ 64

unfoldable pub sub64 : ℕ → ℕ → ℕ
sub64 a b = (a + 2 ^ 64 - b) % 2 ^ 64

-- a < b, a <= b.
unfoldable pub lt64 : ℕ → ℕ → Bool
lt64 a b = ltb ((a + 2 ^ 63) % 2 ^ 64) ((b + 2 ^ 63) % 2 ^ 64)

unfoldable pub le64 : ℕ → ℕ → Bool
unfolding lt64
le64 a b = not (lt64 b a)

abbrev pub mul64 : ℕ → ℕ → ℕ
mul64 a b = (a * b) % 2 ^ 64

-- int64(-1)
abbrev pub minus_one : ℕ
minus_one = 2 ^ 64 - 1

-- On numbers below 2 ^ 62 nothing wraps.
module _ (a b : ℕ) where
  pub add64_small : a < 2 ^ 62 → b < 2 ^ 62 → add64 a b ≡ a + b
  unfolding add64
  add64_small ha hb = omega arith

  pub sub64_small : a < 2 ^ 62 → b ≤ a → sub64 a b ≡ a - b
  unfolding sub64
  sub64_small ha hb = omega arith

  pub lt64_small : a < 2 ^ 62 → b < 2 ^ 62 → lt64 a b ≡ ltb a b
  unfolding lt64
  lt64_small ha hb = ground arith

  pub le64_small : a < 2 ^ 62 → b < 2 ^ 62 → le64 a b ≡ leb a b
  unfolding le64
  le64_small ha hb = ground arith

  -- A difference is positive exactly when the numbers are in that order.
  pub lt64-sub64 : a < 2 ^ 62 → b < 2 ^ 62 → lt64 0 (sub64 a b) ≡ ltb b a
  unfolding lt64 sub64
  lt64-sub64 ha hb = ground arith
