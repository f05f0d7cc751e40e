-- ===== src/Validation/Name.antt =====
-- Names of containers and snapshots (lxd/container.go, and ValidHostname of shared/util.go). Texts are
-- lists of the codes of their characters.
pub mod Hostname
pub mod Snapshot
use lxd_pkg_ubuntu.Prelude.{
  ℕ, ◌+◌, Bool, true, false, ◌&&◌, ◌||◌, if◌then◌else◌, ◌==◌, ltb, leb, List, [], ◌∷◌, any, Option,
  none, some, Result, ok, err,
}
use lxd_pkg_ubuntu.Text.{parse_codes, cut}
use lxd_pkg_ubuntu.Validation.{Error, reserved_character, not_a_hostname}

-- `containerGetParentAndSnapshotName`
unfoldable pub container_get_parent_and_snapshot_name : List ℕ → List ℕ × List ℕ × Bool
container_get_parent_and_snapshot_name name = elim (cut 47 name) [
  | none ↦ (name, [], false)
  | some parts ↦ (parts.0, parts.1, true)
]

-- `len(name)`: the bytes of UTF-8.
abbrev pub bytes : ℕ → ℕ
bytes c = if ltb c 128 then 1 else if ltb c 2048 then 2 else if ltb c 65_536 then 3 else 4

unfoldable pub byte_length : List ℕ → ℕ
byte_length [] = 0
byte_length (c ∷ cs) = bytes c + byte_length cs

unfoldable pub last_code : ℕ → List ℕ → ℕ
last_code c [] = c
last_code c (d ∷ cs) = last_code d cs

-- `[-a-zA-Z0-9]`
abbrev pub name_code : ℕ → Bool
name_code c = c == 45 || (leb 97 c && leb c 122) || (leb 65 c && leb c 90) || (leb 48 c && leb c 57)

unfoldable pub all_name_codes : List ℕ → Bool
all_name_codes [] = true
all_name_codes (c ∷ cs) = name_code c && all_name_codes cs

abbrev is_number : Option ℕ → Bool
is_number none = false
is_number (some n) = true

-- `ValidHostname`
unfoldable pub valid_hostname : List ℕ → Bool
unfolding byte_length last_code all_name_codes
valid_hostname [] = false
valid_hostname (c ∷ cs) =
    if ltb 63 (byte_length (c ∷ cs))
    then false
    else if c == 45
    then false
    else if is_number (parse_codes (c ∷ []))
    then false
    else if last_code c cs == 45
    then false
    else if all_name_codes (c ∷ cs)
    then true
    else false

-- `containerValidName`
unfoldable pub container_valid_name : List ℕ → Result Error Unit
container_valid_name name =
    if any (λ c. c == 47) name
    then err reserved_character
    else if valid_hostname name
    then ok tt
    else err not_a_hostname
