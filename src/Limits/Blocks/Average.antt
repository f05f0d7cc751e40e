-- ===== src/Limits/Blocks/Average.antt =====
-- The average of the limits of one block device lies between them.
use native.Mathlib.Nat.{le-div_iff_mul-le, div-le_of_le-mul}
use lxd_pkg_ubuntu.Prelude.{
  ℕ, suc, ◌+◌, ◌*◌, ◌/◌, ◌^◌, ◌≤◌, ◌<◌, ◌≡◌, ◌≢◌, ◌⊎◌, ap, refl, subst, inl, inr, arith, Bool, true,
  false, if◌then◌else◌, ltb, ltb→lt, List, [], ◌∷◌, map, length, All,
}
use lxd_pkg_ubuntu.Prelude.Int64.{add64, add64_small, lt64}
use lxd_pkg_ubuntu.Limits.Disk.{BlockLimit}
use lxd_pkg_ubuntu.Limits.Blocks.{totals, average, average_limit, div64}

-- No limit, or one between two numbers.
abbrev pub Between : (low high l : ℕ) → Type 0
Between low high l = (l ≡ 0) ⊎ ((low ≤ l) × (l ≤ high))

record Totals (low high n : ℕ) (t : ℕ × ℕ) : Type 0 where
  count : t.0 ≤ n
  small : t.1 ≤ 2 ^ 40 * t.0
  least : low * t.0 ≤ t.1
  most : t.1 ≤ t.0 * high

wider : {low high n : ℕ} {t : ℕ × ℕ} → Totals low high n t → Totals low high (suc n) t
wider r = record { count = omega (arith, r.count); small = r.small; least = r.least; most = r.most }

one_more :
    (low high n l : ℕ) (t : ℕ × ℕ)
    → high ≤ 2 ^ 40
    → n ≤ 2 ^ 20
    → (low ≤ l) × (l ≤ high)
    → Totals low high n t
    → Totals low high (suc n) (t.0 + 1, add64 t.1 l)
one_more low high n l t h w b r =
    let sum : add64 t.1 l ≡ t.1 + l =
      add64_small t.1 l (omega (arith, r.small, r.count)) (omega (arith, b.1)) in
    record {
      count = omega (arith, r.count);
      small = omega (arith, sum, r.small, b.1);
      least = rw sum (grind (arith, r.least, b.0));
      most = rw sum (grind (arith, r.most, b.1));
    }

not_above : lt64 0 0 ≢ true
unfolding lt64
not_above e = ground (arith, e)

totals_lem :
    (low high : ℕ) (ls : List ℕ)
    → high ≤ 2 ^ 40
    → length ls ≤ 2 ^ 20
    → All (Between low high) ls
    → Totals low high (length ls) (totals ls)
unfolding totals
totals_lem low high [] h w a = record {
  count = omega arith;
  small = omega arith;
  least = omega arith;
  most = omega arith;
}
totals_lem low high (l ∷ ls) h w a =
    by_limit (lt64 0 l) refl a.0 (totals_lem low high ls h (omega (arith, w)) a.1)
  where
    by_limit :
        (b : Bool)
        → lt64 0 l ≡ b
        → Between low high l
        → Totals low high (length ls) (totals ls)
        → Totals low high
            (suc (length ls))
            (if b then ((totals ls).0 + 1, add64 (totals ls).1 l) else totals ls)
    by_limit false e c r = wider r
    by_limit true e (inl zero_limit) r =
        absurd (not_above (subst (λ x. lt64 0 x ≡ true) zero_limit e))
    by_limit true e (inr b) r = one_more low high (length ls) l (totals ls) h (omega (arith, w)) b r

-- The average of limits that are all between two numbers, or none, is between them, or none.
average-Between :
    (low high : ℕ) (ls : List ℕ)
    → high ≤ 2 ^ 40
    → length ls ≤ 2 ^ 20
    → All (Between low high) ls
    → Between low high (average ls)
unfolding average
average-Between low high ls h w a =
    by_count (ltb 0 (totals ls).0) refl (totals_lem low high ls h w a)
  where
    by_count :
        (b : Bool)
        → ltb 0 (totals ls).0 ≡ b
        → Totals low high (length ls) (totals ls)
        → Between low high (if b then div64 (totals ls).1 (totals ls).0 else 0)
    by_count false e r = inl refl
    by_count true e r =
        let positive : 0 < (totals ls).0 = ltb→lt 0 (totals ls).0 e in
        let fits : ltb (totals ls).1 (2 ^ 63) ≡ true = ground (arith, r.small, r.count, w) in
        let above : low ≤ (totals ls).1 / (totals ls).0 = (le-div_iff_mul-le positive).1 r.least in
        let below : (totals ls).1 / (totals ls).0 ≤ high = div-le_of_le-mul (totals ls).0 r.most in
        rw fits (inr (above, below))

-- A limit of which each number is none or between those of two others.
pub record IsBetween (low high l : BlockLimit) : Type 0 where
  pub read_bps : Between low.read_bps high.read_bps l.read_bps
  pub read_iops : Between low.read_iops high.read_iops l.read_iops
  pub write_bps : Between low.write_bps high.write_bps l.write_bps
  pub write_iops : Between low.write_iops high.write_iops l.write_iops

-- No number above 2^40.
pub record IsModest (l : BlockLimit) : Type 0 where
  pub read_bps : l.read_bps ≤ 2 ^ 40
  pub read_iops : l.read_iops ≤ 2 ^ 40
  pub write_bps : l.write_bps ≤ 2 ^ 40
  pub write_iops : l.write_iops ≤ 2 ^ 40

length-numbers : (f : BlockLimit → ℕ) (ls : List BlockLimit) → length (map f ls) ≡ length ls
length-numbers f [] = refl
length-numbers f (l ∷ ls) = ap suc (length-numbers f ls)

All-numbers :
    (f : BlockLimit → ℕ) (low high : ℕ) (P : BlockLimit → Type 0) (ls : List BlockLimit)
    → ((l : BlockLimit) → P l → Between low high (f l))
    → All P ls
    → All (Between low high) (map f ls)
All-numbers f low high P [] g a = tt
All-numbers f low high P (l ∷ ls) g a = (g l a.0, All-numbers f low high P ls g a.1)

-- When at most 2^20 limits of one block device each have as their numbers none or one between two given
-- ones of at most 2^40, so has their average.
pub average_limit-IsBetween :
    (low high : BlockLimit) (ls : List BlockLimit)
    → IsModest high
    → length ls ≤ 2 ^ 20
    → All (IsBetween low high) ls
    → IsBetween low high (average_limit ls)
unfolding average_limit
average_limit-IsBetween low high ls h w a = record {
  read_bps = number (λ l. l.read_bps) low.read_bps high.read_bps h.read_bps (λ l b. b.read_bps);
  read_iops =
      number (λ l. l.read_iops) low.read_iops high.read_iops h.read_iops (λ l b. b.read_iops);
  write_bps =
      number (λ l. l.write_bps) low.write_bps high.write_bps h.write_bps (λ l b. b.write_bps);
  write_iops =
      number (λ l. l.write_iops) low.write_iops high.write_iops h.write_iops (λ l b. b.write_iops);
}
  where
    number :
        (f : BlockLimit → ℕ) (m n : ℕ)
        → n ≤ 2 ^ 40
        → ((l : BlockLimit) → IsBetween low high l → Between m n (f l))
        → Between m n (average (map f ls))
    number f m n k g =
        average-Between m n (map f ls) k (omega (arith, length-numbers f ls, w))
          (All-numbers f m n (IsBetween low high) ls g a)
