-- ===== src/Validation/RawLxc.antt =====
-- raw.lxc (`lxcValidConfig`, lxd/container_lxc.go), on codes of texts. Whether liblxc is of version 2.1
-- or later is an argument.
pub mod Network
use lxd_pkg_ubuntu.Prelude.{
  ℕ, Bool, true, false, ◌&&◌, ◌||◌, if◌then◌else◌, List, [], ◌∷◌, map, Option, none, some, Result,
  ok, err, ◌>>=◌,
}
use lxd_pkg_ubuntu.Text.{codes, same_codes, lower_code, has_prefix, cut, fields, trim, trim_left}
use lxd_pkg_ubuntu.Validation.{Error, bad_raw_lxc, not_allowed}

abbrev either : List ℕ → List ℕ → List ℕ → Bool
either key a b = same_codes key a || same_codes key b

abbrev network_key_prefix : Bool → List ℕ
network_key_prefix new = codes (if new then "lxc.net." else "lxc.network.")

-- `shared.StringInSlice(field, allowedIPKeys)`
abbrev allowed_ip_key : Bool → List ℕ → Bool
allowed_ip_key new field =
    if new
    then either field (codes "ipv4.address") (codes "ipv6.address")
    else either field (codes "ipv4") (codes "ipv6")

-- The test on the fields of a network key.
unfoldable pub network_fields : Bool → List (List ℕ) → Bool
unfolding same_codes
network_fields new (a ∷ b ∷ c ∷ d ∷ []) = allowed_ip_key new d
network_fields new (a ∷ b ∷ c ∷ d ∷ e ∷ []) = allowed_ip_key new d && same_codes e (codes "gateway")
network_fields new _ = false

-- The tests on the key of a line.
unfoldable pub check_lxc_key : Bool → List ℕ → Result Error Unit
unfolding network_fields same_codes
check_lxc_key new key =
    if either key (codes "lxc.logfile") (codes "lxc.log.file")
    then err not_allowed
    else if either key (codes "lxc.syslog") (codes "lxc.log.syslog")
    then err not_allowed
    else if same_codes key (codes "lxc.ephemeral")
    then err not_allowed
    else if has_prefix key (network_key_prefix new)
    then (if network_fields new (fields 46 key) then ok tt else err not_allowed)
    else ok tt

-- One line that is not empty.
unfoldable pub check_lxc_line : Bool → List ℕ → Result Error Unit
unfolding check_lxc_key
check_lxc_line new line =
    if has_prefix (trim_left line) (codes "#") then ok tt else elim (cut 61 (trim_left line)) [
      | none ↦ err bad_raw_lxc
      | some membs ↦ check_lxc_key new (map lower_code (trim membs.0))
    ]

unfoldable pub check_lxc_lines : Bool → List (List ℕ) → Result Error Unit
unfolding check_lxc_line
check_lxc_lines new [] = ok tt
check_lxc_lines new (line ∷ lines) =
    let rest = check_lxc_lines new lines in
    elim line [ [] ↦ rest | c ∷ cs ↦ check_lxc_line new (c ∷ cs) >>= λ _. rest ]

-- `lxcValidConfig`
unfoldable pub lxc_valid_config : Bool → List ℕ → Result Error Unit
unfolding check_lxc_lines
lxc_valid_config new raw_lxc = check_lxc_lines new (fields 10 raw_lxc)
