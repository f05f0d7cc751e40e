-- ===== src/Validation/RawLxc/Network.antt =====
-- Network keys in raw.lxc for liblxc 2.1 and later.
use lxd_pkg_ubuntu.Prelude.{
  ℕ, ◌≡◌, refl, arith, true, false, if◌then◌else◌, ◌==◌, List, [], ◌∷◌, All, any, err, inl, inr,
  Bool-cases,
}
use lxd_pkg_ubuntu.Text.{codes, same_codes, has_prefix, fields}
use lxd_pkg_ubuntu.Validation.{not_allowed}
use lxd_pkg_ubuntu.Validation.RawLxc.{network_fields, check_lxc_key}

abbrev Dotless : List ℕ → Type 0
Dotless w = any (λ c. c == 46) w ≡ false

-- One more code before the fields.
dot_or_not :
    (c : ℕ) (ws : List (List ℕ))
    → All Dotless ws
    → All Dotless
        (if c == 46 then [] ∷ ws else elim ws [ [] ↦ (c ∷ []) ∷ [] | w ∷ vs ↦ (c ∷ w) ∷ vs ])
dot_or_not c [] h = elim (Bool-cases (c == 46)) [
  | inl y ↦ rw y (refl, tt)
  | inr n ↦ rw n (ground (arith, n), tt)
]
dot_or_not c (w ∷ vs) h = elim (Bool-cases (c == 46)) [
  | inl y ↦ rw y (refl, h)
  | inr n ↦ rw n (ground (arith, n, h.0), h.1)
]

fields-Dotless : (key : List ℕ) → All Dotless (fields 46 key)
unfolding fields
fields-Dotless [] = (refl, tt)
fields-Dotless (c ∷ cs) = dot_or_not c (fields 46 cs) (fields-Dotless cs)

same_codes-any :
    (w l : List ℕ) → same_codes w l ≡ true → any (λ c. c == 46) w ≡ any (λ c. c == 46) l
unfolding same_codes
same_codes-any [] [] h = refl
same_codes-any [] (y ∷ ys) h = cc h
same_codes-any (x ∷ xs) [] h = cc h
same_codes-any (x ∷ xs) (y ∷ ys) h =
    let rest = same_codes-any xs ys (ground (arith, h)) in ground (arith, h, rest)

-- No field is one of the words with a dot.
address_not : (w l : List ℕ) → Dotless w → any (λ c. c == 46) l ≡ true → same_codes w l ≡ false
address_not w l d h = elim (Bool-cases (same_codes w l)) [
  | inl y ↦ let same = same_codes-any w l y in cc (same, d, h)
  | inr n ↦ n
]

network_fields-Dotless : (ws : List (List ℕ)) → All Dotless ws → network_fields true ws ≡ false
unfolding network_fields
network_fields-Dotless [] d = refl
network_fields-Dotless (a ∷ []) d = refl
network_fields-Dotless (a ∷ b ∷ []) d = refl
network_fields-Dotless (a ∷ b ∷ c ∷ []) d = refl
network_fields-Dotless (a ∷ b ∷ c ∷ w ∷ []) d =
    let four = address_not w (codes "ipv4.address") d.1.1.1.0 refl in
    let six = address_not w (codes "ipv6.address") d.1.1.1.0 refl in cc (four, six)
network_fields-Dotless (a ∷ b ∷ c ∷ w ∷ e ∷ []) d =
    let four = address_not w (codes "ipv4.address") d.1.1.1.0 refl in
    let six = address_not w (codes "ipv6.address") d.1.1.1.0 refl in cc (four, six)
network_fields-Dotless (a ∷ b ∷ c ∷ w ∷ e ∷ f ∷ ws) d = refl

-- For liblxc 2.1 and later every key that begins with lxc.net. is refused, the addresses that the
-- test on the fields means to let through as well: a field between dots has no dot in it.
pub check_lxc_key-network :
    (key : List ℕ)
    → has_prefix key (codes "lxc.net.") ≡ true
    → check_lxc_key true key ≡ err not_allowed
unfolding check_lxc_key
check_lxc_key-network key h =
    let none_allowed = network_fields-Dotless (fields 46 key) (fields-Dotless key) in
    ground (arith, h, none_allowed)
