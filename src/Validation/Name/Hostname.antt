-- ===== src/Validation/Name/Hostname.antt =====
-- What ValidHostname accepts.
use lxd_pkg_ubuntu.Prelude.{
  ◌-◌, ℕ, ◌≤◌, ◌≡◌, ◌≢◌, ◌⊎◌, ◌↔◌, inl, inr, refl, arith, true, ◌||◌, ltb, List, [], ◌∷◌, length,
  All, none, some,
}
use lxd_pkg_ubuntu.Text.{parse_codes, number, digits}
use lxd_pkg_ubuntu.Validation.Name.{
  byte_length, last_code, name_code, all_name_codes, valid_hostname,
}

abbrev pub IsLetter : ℕ → Type 0
IsLetter c = ((97 ≤ c) × (c ≤ 122)) ⊎ ((65 ≤ c) × (c ≤ 90))

abbrev pub IsNameCode : ℕ → Type 0
IsNameCode c = IsLetter c ⊎ ((c ≡ 45) ⊎ ((48 ≤ c) × (c ≤ 57)))

-- A letter, followed by at most 62 letters, digits and dashes, of which the last is no dash.
abbrev pub IsHostname : List ℕ → Type 0
IsHostname [] = ⊥
IsHostname (c ∷ cs) =
    IsLetter c × All IsNameCode cs × (length (c ∷ cs) ≤ 63) × (last_code c cs ≢ 45)

name_code→IsNameCode : (c : ℕ) → name_code c ≡ true → IsNameCode c
name_code→IsNameCode c h = ground arith

IsNameCode→name_code : (c : ℕ) → IsNameCode c → name_code c ≡ true
IsNameCode→name_code c h = ground arith

codes_sound : (cs : List ℕ) → all_name_codes cs ≡ true → All IsNameCode cs
unfolding all_name_codes
codes_sound [] h = tt
codes_sound (c ∷ cs) h = (name_code→IsNameCode c (ground arith), codes_sound cs (ground arith))

codes_complete : (cs : List ℕ) → All IsNameCode cs → all_name_codes cs ≡ true
unfolding all_name_codes
codes_complete [] h = refl
codes_complete (c ∷ cs) h =
    let one = IsNameCode→name_code c h.0 in
    let more = codes_complete cs h.1 in ground (arith, one, more)

-- All of them take one byte.
byte_length-name : (cs : List ℕ) → All IsNameCode cs → byte_length cs ≡ length cs
unfolding byte_length
byte_length-name [] h = refl
byte_length-name (c ∷ cs) h = let more = byte_length-name cs h.1 in ground (arith, more, h.0)

parse-letter : (c : ℕ) → c ≢ 45 → (ltb c 48 || ltb 57 c) ≡ true → parse_codes (c ∷ []) ≡ none
unfolding parse_codes number digits
parse-letter c h k = ground arith

parse-digit : (c : ℕ) → 48 ≤ c → c ≤ 57 → parse_codes (c ∷ []) ≡ some (c - 48)
unfolding parse_codes number digits
parse-digit c h k = ground arith

accepted : (c : ℕ) (cs : List ℕ) → valid_hostname (c ∷ cs) ≡ true → IsHostname (c ∷ cs)
unfolding valid_hostname
accepted c cs h =
    let all_ok : all_name_codes (c ∷ cs) ≡ true = ground (arith, h) in
    let all = codes_sound (c ∷ cs) all_ok in
    let size = byte_length-name (c ∷ cs) all in
    let short : byte_length (c ∷ cs) ≤ 63 = ground (arith, h) in
    let last : last_code c cs ≢ 45 = ground (arith, h) in
    let first : c ≢ 45 = ground (arith, h) in
    let letter : IsLetter c = elim (all.0) [
      | inl l ↦ l
      | inr (inl d) ↦ elim (first d) [ ]
      | inr (inr d) ↦ let n = parse-digit c d.0 d.1 in ground (arith, h, n)
    ] in
    (letter, all.1, omega (arith, size, short), last)

allowed : (c : ℕ) (cs : List ℕ) → IsHostname (c ∷ cs) → valid_hostname (c ∷ cs) ≡ true
unfolding valid_hostname
allowed c cs (letter, rest, short, last) =
    let all : All IsNameCode (c ∷ cs) = (inl letter, rest) in
    let size = byte_length-name (c ∷ cs) all in
    let codes = codes_complete (c ∷ cs) all in
    let no_number = parse-letter c (ground (arith, letter)) (ground (arith, letter)) in
    ground (arith, size, codes, no_number, short, last, letter)

-- ValidHostname says yes exactly to a letter followed by at most 62 letters, digits and dashes, of
-- which the last is no dash.
pub valid_hostname_exact : (name : List ℕ) → valid_hostname name ≡ true ↔ IsHostname name
unfolding valid_hostname
valid_hostname_exact [] = (λ h. cc h, λ h. elim h [ ])
valid_hostname_exact (c ∷ cs) = (accepted c cs, allowed c cs)
