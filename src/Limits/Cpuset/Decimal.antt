-- ===== src/Limits/Cpuset/Decimal.antt =====
-- The decimal digits of a number are read back as that number.
use lxd_pkg_ubuntu.Prelude.{
  ℕ, zero, suc, ◌+◌, ◌-◌, ◌*◌, ◌/◌, ◌%◌, ◌^◌, ◌≤◌, ◌<◌, ◌≡◌, ◌∙◌, ap, refl, arith, ltb, List, [],
  ◌∷◌, All, some, inl, inr, Bool-cases,
}
use lxd_pkg_ubuntu.Text.{number, digits, parse_codes}
use lxd_pkg_ubuntu.Limits.Cpuset.{decimal, decimal_onto}

abbrev pub IsDigit : ℕ → Type 0
IsDigit c = (48 ≤ c) × (c ≤ 57)

-- One digit read.
digits-digit :
    (d : ℕ) (cs : List ℕ) (m : ℕ) → d < 10 → digits ((48 + d) ∷ cs) m ≡ digits cs (m * 10 + d)
unfolding digits
digits-digit d cs m h = let same : 48 + d - 48 ≡ d = omega arith in ground (arith, same)

digits-decimal_onto :
    (fuel n : ℕ) (acc : List ℕ) → n < fuel → digits (decimal_onto fuel n acc) 0 ≡ digits acc n
unfolding decimal_onto
digits-decimal_onto zero n acc h = elim h [ ]
digits-decimal_onto (suc fuel) n acc h = elim (Bool-cases (ltb n 10)) [
  | inl y ↦ rw y (digits-digit n acc 0 (ground arith) ∙ ap (digits acc) (omega arith))
  | inr k ↦ rw k (
      digits-decimal_onto fuel (n / 10) ((48 + n % 10) ∷ acc) (ground arith)
      ∙ digits-digit (n % 10) acc (n / 10) (omega arith)
      ∙ ap (digits acc) (omega arith))
]

decimal_onto-All :
    (fuel n : ℕ) (acc : List ℕ) → All IsDigit acc → All IsDigit (decimal_onto fuel n acc)
unfolding decimal_onto
decimal_onto-All zero n acc h = h
decimal_onto-All (suc fuel) n acc h = elim (Bool-cases (ltb n 10)) [
  | inl y ↦ rw y ((omega arith, ground arith), h)
  | inr k ↦
      rw k (decimal_onto-All fuel (n / 10) ((48 + n % 10) ∷ acc) ((omega arith, omega arith), h))
]

pub decimal-All : (n : ℕ) → All IsDigit (decimal n)
unfolding decimal
decimal-All n = decimal_onto-All (suc n) n [] tt

-- There is at least one digit.
decimal_onto-ne :
    (fuel n : ℕ) (acc : List ℕ)
    → n < fuel
    → (c : ℕ) × (cs : List ℕ) × (decimal_onto fuel n acc ≡ c ∷ cs)
unfolding decimal_onto
decimal_onto-ne zero n acc h = elim h [ ]
decimal_onto-ne (suc fuel) n acc h = elim (Bool-cases (ltb n 10)) [
  | inl y ↦ (48 + n, acc, rw y refl)
  | inr k ↦
      let (c, cs, e) = decimal_onto-ne fuel (n / 10) ((48 + n % 10) ∷ acc) (ground arith) in
      (c, cs, rw k e)
]

pub decimal-ne : (n : ℕ) → (c : ℕ) × (cs : List ℕ) × (decimal n ≡ c ∷ cs)
unfolding decimal
decimal-ne n = decimal_onto-ne (suc n) n [] (omega arith)

read_digits :
    (cs : List ℕ) (n : ℕ)
    → ((c : ℕ) × (ds : List ℕ) × (cs ≡ c ∷ ds))
    → digits cs 0 ≡ some n
    → number cs ≡ some n
unfolding number
read_digits [] n (c, ds, e) h = cc e
read_digits (x ∷ xs) n e h = h

parse-digits :
    (cs : List ℕ) (n : ℕ)
    → All IsDigit cs
    → ((c : ℕ) × (ds : List ℕ) × (cs ≡ c ∷ ds))
    → digits cs 0 ≡ some n
    → n < 2 ^ 63
    → parse_codes cs ≡ some n
unfolding parse_codes number
parse-digits [] n a (c, ds, e) h w = cc e
parse-digits (x ∷ xs) n a e h w = ground (arith, h, w, a.0)

pub number-decimal : (n : ℕ) → number (decimal n) ≡ some n
unfolding decimal number digits
number-decimal n =
    read_digits (decimal n) n (decimal_onto-ne (suc n) n [] (omega arith))
      (digits-decimal_onto (suc n) n [] (omega arith))

-- Atoi reads what Sprintf prints, for every int that is not negative.
pub parse_codes-decimal : (n : ℕ) → n < 2 ^ 63 → parse_codes (decimal n) ≡ some n
unfolding decimal digits
parse_codes-decimal n w =
    parse-digits (decimal n) n (decimal-All n) (decimal_onto-ne (suc n) n [] (omega arith))
      (digits-decimal_onto (suc n) n [] (omega arith)) w
