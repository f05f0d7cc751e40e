-- ===== src/Limits/Cpu/Shares.antt =====
-- The shares of a container.
use lxd_pkg_ubuntu.Prelude.{
  append_assoc, ap, any, any-append, ltb, ◌==◌, ◌||◌, ℕ, ◌+◌, ◌-◌, ◌*◌, ◌^◌, ◌≤◌, ◌<◌, ◌≡◌, refl,
  arith, if◌then◌else◌, true, false, List, [], ◌∷◌, ◌++◌, some, none, err, ◌>>=◌, ◌∙◌, Result, ok,
}
use lxd_pkg_ubuntu.Prelude.Int64.{add64, sub64, mul64, lt64}
use lxd_pkg_ubuntu.Text.{codes, number, parse_codes, cut, has_suffix, trim_suffix}
use lxd_pkg_ubuntu.Limits.Cpu.{
  priority_int, shares_of, number_or, milliseconds, allowance, device_parse_cpu,
}
use lxd_pkg_ubuntu.Limits.Cpuset.{show_int, decimal}
use lxd_pkg_ubuntu.Limits.Cpuset.Decimal.{
  decimal-All, decimal-ne, number-decimal, parse_codes-decimal,
}
use lxd_pkg_ubuntu.Text.Affix.{has_suffix-append, trim_suffix-append, has_suffix-last, cut-append}
use lxd_pkg_ubuntu.Limits.Cpuset.Join.{digits-any}
use lxd_pkg_ubuntu.Limits.{Error, bad_allowance}

shares-positive : (p m : ℕ) → p < 2 ^ 61 → 10 ≤ p + m → m < 2 ^ 61 → shares_of p m ≡ p + m - 10
unfolding shares_of sub64 add64 lt64
shares-positive p m hp h hm = ground arith

-- For the priority -k.
shares-negative :
    (k m : ℕ) → 0 < k → k < 2 ^ 61 → m < 2 ^ 61 → shares_of (2 ^ 64 - k) m ≡ m - (10 + k)
unfolding shares_of sub64 add64 lt64
shares-negative k m h hk hm = ground arith

nonempty :
    (t : List ℕ) (c : ℕ) (cs : List ℕ) (p : ℕ)
    → t ≡ c ∷ cs
    → parse_codes t ≡ some p
    → priority_int t ≡ ok p
unfolding priority_int
nonempty [] c cs p e h = cc e
nonempty (x ∷ xs) c cs p e h = cc h

priority-decimal : (p : ℕ) → p < 2 ^ 63 → priority_int (decimal p) ≡ ok p
unfolding priority_int
priority-decimal p h =
    let read = parse_codes-decimal p h in
    let (c, cs, e) = decimal-ne p in nonempty (decimal p) c cs p e read

-- A text that is not empty takes the second clause.
abbrev with_allowance : List ℕ → Result Error (ℕ × List ℕ × List ℕ)
with_allowance cs =
    if has_suffix cs (codes "%")
    then number_or (parse_codes (trim_suffix cs (codes "%")))
      >>= (λ percent. ok (add64 (mul64 10 percent) 24, codes "-1", codes "100000"))
    else elim (cut 47 cs) [
      | none ↦ err bad_allowance
      | some parts ↦ milliseconds parts.0 >>= λ quota. milliseconds parts.1 >>= λ period.
          ok (1024, show_int (mul64 quota 1000), show_int (mul64 period 1000))
    ]

not_empty : (t : List ℕ) (c : ℕ) (cs : List ℕ) → t ≡ c ∷ cs → allowance t ≡ with_allowance t
unfolding allowance
not_empty [] c cs e = cc e
not_empty (x ∷ xs) c cs e = refl

allowance-ne :
    (n : ℕ) (cs : List ℕ) → allowance (decimal n ++ cs) ≡ with_allowance (decimal n ++ cs)
allowance-ne n cs =
    let (c, ds, e) = decimal-ne n in not_empty (decimal n ++ cs) c (ds ++ cs) (ap (λ l. l ++ cs) e)

percent_small : (q : ℕ) → q < 2 ^ 50 → add64 (mul64 10 q) 24 ≡ 10 * q + 24
unfolding add64
percent_small q h = omega arith

percent_allowance :
    (q : ℕ)
    → q < 2 ^ 50
    → allowance (decimal q ++ codes "%") ≡ ok (10 * q + 24, codes "-1", codes "100000")
unfolding allowance
percent_allowance q h =
    let suffix = has_suffix-append (decimal q) 37 [] in
    let trimmed = trim_suffix-append (decimal q) 37 [] in
    let read = parse_codes-decimal q (omega arith) in
    let small : add64 (mul64 10 q) 24 ≡ 10 * q + 24 = percent_small q h in
    allowance-ne q (codes "%") ∙ cc (suffix, trimmed, read, small)

show_small : (q : ℕ) → q < 2 ^ 50 → show_int (mul64 q 1000) ≡ decimal (q * 1000)
unfolding show_int
show_small q h =
    let small : mul64 q 1000 ≡ q * 1000 = omega arith in
    let below : ltb (q * 1000) (2 ^ 63) ≡ true = ground arith in cc (small, below)

ms_last :
    (a b : List ℕ)
    → a ++ (47 ∷ (b ++ 109 ∷ 115 ∷ [])) ≡ (a ++ (47 ∷ (b ++ (109 ∷ [])))) ++ (115 ∷ [])
ms_last a b = simp append_assoc

time_allowance :
    (q t : ℕ)
    → q < 2 ^ 50
    → t < 2 ^ 50
    → allowance ((decimal q ++ codes "ms") ++ (47 ∷ (decimal t ++ codes "ms")))
      ≡ ok (1024, decimal (q * 1000), decimal (t * 1000))
unfolding allowance
time_allowance q t hq ht =
    let field = decimal q ++ codes "ms" in
    let text = field ++ (47 ∷ (decimal t ++ codes "ms")) in
    let (c, ds, e) = decimal-ne q in
    let plain : any (λ x. x == 47) field ≡ false =
      any-append (λ x. x == 47) (decimal q) (codes "ms")
      ∙ ap (λ b. b || false) (digits-any 47 (decimal q) (omega arith) (decimal-All q)) in
    let no_percent : has_suffix text (codes "%") ≡ false =
      ap (λ l. has_suffix l (codes "%")) (ms_last field (decimal t))
      ∙ has_suffix-last (field ++ (47 ∷ (decimal t ++ (109 ∷ [])))) [] 115 37 (omega arith) in
    let parts = cut-append 47 field (decimal t ++ codes "ms") plain in
    let first = trim_suffix-append (decimal q) 109 (115 ∷ []) in
    let second = trim_suffix-append (decimal t) 109 (115 ∷ []) in
    let quota = parse_codes-decimal q (omega arith) in
    let period = parse_codes-decimal t (omega arith) in
    let shown = show_small q hq in
    let shown_too = show_small t ht in
    not_empty text c ((ds ++ codes "ms") ++ (47 ∷ (decimal t ++ codes "ms")))
      (ap (λ l. (l ++ codes "ms") ++ (47 ∷ (decimal t ++ codes "ms"))) e)
    ∙ cc (no_percent, parts, first, second, quota, period, shown, shown_too)

device_parse :
    (a : List ℕ) (p m : ℕ) (quota period : List ℕ)
    → p < 2 ^ 50
    → 10 ≤ p + m
    → m < 2 ^ 60
    → allowance a ≡ ok (m, quota, period)
    → device_parse_cpu a (decimal p)
      ≡ ok (record { shares = decimal (p + m - 10); quota = quota; period = period })
unfolding device_parse_cpu show_int
device_parse a p m quota period hp lo hm e =
    let read = priority-decimal p (omega arith) in
    let shares = shares-positive p m (omega arith) lo (omega arith) in
    let below : ltb (p + m - 10) (2 ^ 63) ≡ true = ground arith in cc (read, shares, below, e)

-- For a priority, a percentage, a quota and a period below 2^50: without an allowance a container gets
-- the default quota and 1014 shares and its priority more; with a percentage ten shares for each
-- percent, 14 and its priority more; and with a quota in a period both in microseconds, and 1014
-- shares and its priority more.
pub device_parse_cpu_lem :
    (p q t : ℕ)
    → p < 2 ^ 50
    → q < 2 ^ 50
    → t < 2 ^ 50
    → (device_parse_cpu [] (decimal p)
        ≡ ok (record {
          shares = decimal (p + 1024 - 10);
          quota = codes "-1";
          period = codes "100000";
        }))
      × (device_parse_cpu (decimal q ++ codes "%") (decimal p)
          ≡ ok (record {
            shares = decimal (p + (10 * q + 24) - 10);
            quota = codes "-1";
            period = codes "100000";
          }))
      × (device_parse_cpu
            ((decimal q ++ codes "ms") ++ (47 ∷ (decimal t ++ codes "ms")))
            (decimal p)
          ≡ ok (record {
            shares = decimal (p + 1024 - 10);
            quota = decimal (q * 1000);
            period = decimal (t * 1000);
          }))
unfolding allowance
device_parse_cpu_lem p q t hp hq ht = (
  device_parse [] p 1024 (codes "-1") (codes "100000") hp (omega arith) (omega arith) refl,
  device_parse _ p (10 * q + 24) _ _ hp (omega arith) (omega arith) (percent_allowance q hq),
  device_parse _ p 1024 _ _ hp (omega arith) (omega arith) (time_allowance q t hq ht),
)

negated_digits :
    (cs : List ℕ) (k : ℕ)
    → number cs ≡ some k
    → 0 < k
    → k < 2 ^ 63
    → parse_codes (45 ∷ cs) ≡ some (2 ^ 64 - k)
unfolding parse_codes
negated_digits cs k e h w = ground (arith, e)

-- For a priority of -k, with k below 2^50, and no allowance, the shares are 1014 - k, and 0 from there on.
pub device_parse_cpu-negative :
    (k : ℕ)
    → 0 < k
    → k < 2 ^ 50
    → device_parse_cpu [] (45 ∷ decimal k)
      ≡ ok (record {
        shares = decimal (1024 - (10 + k));
        quota = codes "-1";
        period = codes "100000";
      })
unfolding device_parse_cpu priority_int allowance show_int
device_parse_cpu-negative k h w =
    let read = negated_digits (decimal k) k (number-decimal k) h (omega arith) in
    let shares = shares-negative k 1024 h (omega arith) (omega arith) in
    let below : ltb (1024 - (10 + k)) (2 ^ 63) ≡ true = ground arith in cc (read, shares, below)
