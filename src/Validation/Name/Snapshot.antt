-- ===== src/Validation/Name/Snapshot.antt =====
-- Names of containers against names of snapshots.
use lxd_pkg_ubuntu.Prelude.{
  ℕ, ◌≡◌, inl, inr, true, false, ◌==◌, List, [], ◌∷◌, ◌++◌, any, ok, Bool-cases,
}
use lxd_pkg_ubuntu.Text.Affix.{cut-none, cut-append}
use lxd_pkg_ubuntu.Validation.Name.{container_get_parent_and_snapshot_name, container_valid_name}

no_slash : (name : List ℕ) → container_valid_name name ≡ ok tt → any (λ c. c == 47) name ≡ false
unfolding container_valid_name
no_slash name h = elim (Bool-cases (any (λ c. c == 47) name)) [ inl y ↦ cc (h, y) | inr n ↦ n ]

-- A name that containerValidName accepts is a container's and no snapshot's, and with a slash and any
-- text after it, it is the name of the snapshot of that container with that text as its own name.
pub container_valid_name-snapshot :
    (name snapshot : List ℕ)
    → container_valid_name name ≡ ok tt
    → (container_get_parent_and_snapshot_name name ≡ (name, [], false))
      × (container_get_parent_and_snapshot_name (name ++ 47 ∷ snapshot) ≡ (name, snapshot, true))
unfolding container_get_parent_and_snapshot_name
container_valid_name-snapshot name snapshot h =
    let plain = no_slash name h in
    let alone = cut-none 47 name plain in
    let joined = cut-append 47 name snapshot plain in (cc alone, cc joined)
