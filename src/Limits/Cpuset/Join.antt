-- ===== src/Limits/Cpuset/Join.antt =====
-- A joined list of CPUs is parsed to the same CPUs.
use lxd_pkg_ubuntu.Prelude.{
  ℕ, ◌^◌, ◌<◌, ◌≡◌, ◌∙◌, ap, refl, arith, false, ◌==◌, List, [], ◌∷◌, ◌++◌, map, All, any, ok,
}
use lxd_pkg_ubuntu.Text.{fields}
use lxd_pkg_ubuntu.Limits.Cpuset.{parse_chunk, parse_chunks, parse_cpuset, decimal, join}
use lxd_pkg_ubuntu.Limits.Cpuset.Decimal.{IsDigit, decimal-All, parse_codes-decimal}

-- A text that holds only digits has no comma and no dash.
pub digits-any : (x : ℕ) (cs : List ℕ) → x < 48 → All IsDigit cs → any (λ c. c == x) cs ≡ false
digits-any x [] h a = refl
digits-any x (c ∷ cs) h a = let rest = digits-any x cs h a.1 in ground (arith, rest, a.0)

fields-plain : (t : List ℕ) → any (λ c. c == 44) t ≡ false → fields 44 t ≡ t ∷ []
unfolding fields
fields-plain [] h = refl
fields-plain (c ∷ cs) h = let rest = fields-plain cs (ground (arith, h)) in ground (arith, h, rest)

fields-append :
    (t rest : List ℕ)
    → any (λ c. c == 44) t ≡ false
    → fields 44 (t ++ (44 ∷ rest)) ≡ t ∷ fields 44 rest
unfolding fields
fields-append [] rest h = ground arith
fields-append (c ∷ cs) rest h =
    let more = fields-append cs rest (ground (arith, h)) in ground (arith, h, more)

abbrev pub IsPlain : List ℕ → Type 0
IsPlain t = any (λ c. c == 44) t ≡ false

pub fields-join :
    (t : List ℕ) (ts : List (List ℕ))
    → IsPlain t
    → All IsPlain ts
    → fields 44 (join (t ∷ ts)) ≡ t ∷ ts
unfolding join
fields-join t [] h hs = fields-plain t h
fields-join t (u ∷ us) h hs =
    fields-append t (join (u ∷ us)) h ∙ ap (λ l. t ∷ l) (fields-join u us hs.0 hs.1)

-- The texts of numbers that an int holds.
abbrev pub Small : ℕ → Type 0
Small n = n < 2 ^ 63

decimals-IsPlain : (ns : List ℕ) → All IsPlain (map decimal ns)
decimals-IsPlain [] = tt
decimals-IsPlain (n ∷ ns) =
    (digits-any 44 (decimal n) (omega arith) (decimal-All n), decimals-IsPlain ns)

parse_chunk-decimal : (n : ℕ) → n < 2 ^ 63 → parse_chunk (decimal n) ≡ ok (n ∷ [])
unfolding parse_chunk
parse_chunk-decimal n w =
    let no_dash = digits-any 45 (decimal n) (omega arith) (decimal-All n) in
    let read = parse_codes-decimal n w in cc (no_dash, read)

parse_chunks-decimals : (ns : List ℕ) → All Small ns → parse_chunks (map decimal ns) ≡ ok ns
unfolding parse_chunks
parse_chunks-decimals [] h = refl
parse_chunks-decimals (n ∷ ns) h =
    let first = parse_chunk-decimal n h.0 in
    let rest = parse_chunks-decimals ns h.1 in cc (first, rest)

-- The text that joins the decimal numbers of one or more CPUs is parsed to those CPUs, in their order.
pub parse_cpuset-join :
    (n : ℕ) (ns : List ℕ)
    → All Small (n ∷ ns)
    → parse_cpuset (join (map decimal (n ∷ ns))) ≡ ok (n ∷ ns)
unfolding parse_cpuset
parse_cpuset-join n ns h =
    ap parse_chunks
      (fields-join (decimal n) (map decimal ns) (decimals-IsPlain (n ∷ ns)).0 (decimals-IsPlain ns))
    ∙ parse_chunks-decimals (n ∷ ns) h
