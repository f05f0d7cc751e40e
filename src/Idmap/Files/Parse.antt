-- ===== src/Idmap/Files/Parse.antt =====
-- The numbers that the parsers of id maps read, and the mappings of raw.idmap.
use lxd_pkg_ubuntu.Prelude.{
  ℕ, ◌^◌, ◌<◌, ◌≡◌, refl, arith, true, false, ◌||◌, if◌then◌else◌, ◌==◌, List, [], ◌∷◌, ◌++◌, some,
  ok, All, any,
}
use lxd_pkg_ubuntu.Prelude.Int64.{add64, lt64}
use lxd_pkg_ubuntu.Text.{codes, parse_uint32, fields}
use lxd_pkg_ubuntu.Limits.Cpuset.{decimal}
use lxd_pkg_ubuntu.Limits.Cpuset.Decimal.{decimal-All, number-decimal, IsDigit}
use lxd_pkg_ubuntu.Idmap.Entry.{IdmapEntry}
use lxd_pkg_ubuntu.Idmap.Files.{without_wraparound, kinds_of, parse_fields, parse}
use lxd_pkg_ubuntu.Idmap.Files.Small.{HasSmall}

-- The text that stands for an entry in raw.idmap: b for both kinds, u for users and g for groups, and
-- the numbers in decimal.
abbrev pub letter : IdmapEntry → List ℕ
letter e = if e.isuid then (if e.isgid then codes "b" else codes "u") else codes "g"

abbrev pub mapping : IdmapEntry → List ℕ
mapping e =
    letter e ++ (58 ∷ (decimal e.nsid ++ (58 ∷ (decimal e.hostid ++ (58 ∷ decimal e.maprange)))))

fields-field :
    (t rest : List ℕ)
    → any (λ c. c == 58) t ≡ false
    → fields 58 (t ++ (58 ∷ rest)) ≡ t ∷ fields 58 rest
unfolding fields
fields-field [] rest h = ground arith
fields-field (c ∷ cs) rest h =
    let more = fields-field cs rest (ground (arith, h)) in ground (arith, h, more)

fields-last : (t : List ℕ) → any (λ c. c == 58) t ≡ false → fields 58 t ≡ t ∷ []
unfolding fields
fields-last [] h = refl
fields-last (c ∷ cs) h = let more = fields-last cs (ground (arith, h)) in ground (arith, h, more)

letter-plain : (e : IdmapEntry) → any (λ c. c == 58) (letter e) ≡ false
letter-plain e = ground arith

kinds_of-letter :
    (e : IdmapEntry) → (e.isuid || e.isgid) ≡ true → kinds_of (letter e) ≡ some (e.isuid, e.isgid)
unfolding kinds_of
kinds_of-letter e h = ground (arith, h)

no_wraparound : (e : IdmapEntry) → HasSmall e → without_wraparound e ≡ ok e
unfolding without_wraparound add64 lt64
no_wraparound e s = ground (arith, s.ns, s.host, s.size)

fields-mapping :
    (e : IdmapEntry)
    → fields 58 (mapping e) ≡ letter e ∷ decimal e.nsid ∷ decimal e.hostid ∷ decimal e.maprange ∷ []
fields-mapping e =
    let no_colon : (x : ℕ) → any (λ c. c == 58) (decimal x) ≡ false =
      λ x. no_separator (decimal x) (decimal-All x) in
    let first =
      fields-field (letter e)
        (decimal e.nsid ++ (58 ∷ (decimal e.hostid ++ (58 ∷ decimal e.maprange))))
        (letter-plain e) in
    let second =
      fields-field (decimal e.nsid) (decimal e.hostid ++ (58 ∷ decimal e.maprange))
        (no_colon e.nsid) in
    let third = fields-field (decimal e.hostid) (decimal e.maprange) (no_colon e.hostid) in
    let last = fields-last (decimal e.maprange) (no_colon e.maprange) in
    cc (first, second, third, last)
  where
    no_separator : (cs : List ℕ) → All IsDigit cs → any (λ c. c == 58) cs ≡ false
    no_separator [] a = refl
    no_separator (c ∷ cs) a = let rest = no_separator cs a.1 in ground (arith, rest, a.0)

parse_uint32-decimal : (n : ℕ) → n < 2 ^ 32 → parse_uint32 (decimal n) ≡ some n
unfolding parse_uint32
parse_uint32-decimal n w = let read = number-decimal n in ground (arith, read, w)

-- Parsing is the inverse of writing: from the text of an entry that is for users, for groups or for
-- both, with numbers of 32 bits, the entry itself is parsed.
pub parse-mapping :
    (e : IdmapEntry) → (e.isuid || e.isgid) ≡ true → HasSmall e → parse (mapping e) ≡ ok e
unfolding parse parse_fields
parse-mapping e k small =
    let split = fields-mapping e in
    let kinds = kinds_of-letter e k in
    let ns = parse_uint32-decimal e.nsid small.ns in
    let host = parse_uint32-decimal e.hostid small.host in
    let size = parse_uint32-decimal e.maprange small.size in
    let whole = no_wraparound e small in cc (split, kinds, ns, host, size, whole)
