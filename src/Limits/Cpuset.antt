-- ===== src/Limits/Cpuset.antt =====
-- Sets of CPUs as texts (`parseCpuset`, lxd/devices.go), and the numbers that fmt.Sprintf prints.
pub mod Decimal
pub mod Join
use lxd_pkg_ubuntu.Prelude.{
  ℕ, zero, suc, ◌+◌, ◌-◌, ◌/◌, ◌%◌, ◌^◌, Bool, true, false, if◌then◌else◌, ◌==◌, ltb, List, [], ◌∷◌,
  ◌++◌, any, Option, none, some, Result, ok, err, ◌>>=◌,
}
use lxd_pkg_ubuntu.Prelude.Int64.{add64, le64, sub64}
use lxd_pkg_ubuntu.Text.{codes, parse_codes, cut, fields}
use lxd_pkg_ubuntu.Limits.{Error, bad_cpuset, endless_range}

-- low, low + 1, and so on: `n` numbers.
unfoldable pub range : ℕ → ℕ → List ℕ
range low zero = []
range low (suc n) = low ∷ range (add64 low 1) n

abbrev pub atoi : List ℕ → Result Error ℕ
atoi cs = elim (parse_codes cs) [ none ↦ err bad_cpuset | some n ↦ ok n ]

-- `for i := low; i <= high; i++`. At the largest int the test never fails: the loop fills the memory.
unfoldable pub cpu_range : ℕ → ℕ → Result Error (List ℕ)
unfolding range
cpu_range low high =
    if high == 2 ^ 63 - 1
    then err endless_range
    else if le64 low high
    then ok (range low (sub64 (add64 high 1) low))
    else ok []

-- One chunk of the text.
unfoldable pub parse_chunk : List ℕ → Result Error (List ℕ)
unfolding cpu_range
parse_chunk chunk =
    if any (λ c. c == 45) chunk
    then elim (cut 45 chunk) [
      | none ↦ err bad_cpuset
      | some parts ↦ atoi parts.0 >>= λ low. atoi parts.1 >>= λ high. cpu_range low high
    ]
    else (atoi chunk >>= λ nr. ok (nr ∷ []))

unfoldable pub parse_chunks : List (List ℕ) → Result Error (List ℕ)
unfolding parse_chunk
parse_chunks [] = ok []
parse_chunks (chunk ∷ chunks) =
    let rest = parse_chunks chunks in
    parse_chunk chunk >>= λ cpus. rest >>= λ more. ok (cpus ++ more)

-- `parseCpuset`
unfoldable pub parse_cpuset : List ℕ → Result Error (List ℕ)
unfolding parse_chunks
parse_cpuset cpu = parse_chunks (fields 44 cpu)

-- The decimal digits of a number in front of others; the fuel is more than enough at n + 1.
unfoldable pub decimal_onto : ℕ → ℕ → List ℕ → List ℕ
decimal_onto zero n acc = acc
decimal_onto (suc fuel) n acc =
    let rest = decimal_onto fuel (n / 10) ((48 + n % 10) ∷ acc) in
    if ltb n 10 then (48 + n) ∷ acc else rest

-- `fmt.Sprintf("%d", n)`, for an int that is not negative.
unfoldable pub decimal : ℕ → List ℕ
unfolding decimal_onto
decimal n = decimal_onto (suc n) n []

-- The same for any int.
unfoldable pub show_int : ℕ → List ℕ
unfolding decimal
show_int n = if ltb n (2 ^ 63) then decimal n else 45 ∷ decimal (2 ^ 64 - n)

-- `strings.Join(texts, ",")`
unfoldable pub join : List (List ℕ) → List ℕ
join [] = []
join (t ∷ []) = t
join (t ∷ u ∷ ts) = t ++ (44 ∷ join (u ∷ ts))
