-- ===== src/Startup/Patches.antt =====
-- The patches (`apply` and `patchesApplyAll`, lxd/patches.go; `Patches` and `PatchesMarkApplied`,
-- lxd/db/patches.go). What a patch does, and the errors of the database, are arguments.
pub mod Once
use Prim.Native.String.{String}
use lxd_pkg_ubuntu.Prelude.{
  ℕ, Bool, true, false, if◌then◌else◌, List, [], ◌∷◌, ◌++◌, Option, none, some,
}
use lxd_pkg_ubuntu.Text.{string_in_slice}

pub data Error : Type 0 where
  not_read not_marked patch_failed : Error

-- The names in the table, and all that patches change.
pub record State (W : Type 0) : Type 0 where
  pub rows : List String
  pub world : W

pub record Host (W : Type 0) : Type 0 where
  -- `p.run`: what it leaves, and whether it succeeds.
  pub run : String → W → W × Bool
  pub read_fails : W → Bool
  pub mark_fails : String → W → Bool

-- `patches`, by their names.
abbrev pub patches : List String
patches = "invalid_profile_names" ∷ "leftover_profile_config" ∷ "fix_uploaded_at" ∷ []

module _ {W : Type 0} (host : Host W) where
  -- `apply`
  unfoldable pub apply : String → State W → State W × Option Error
  apply name s =
      let done = host.run name s.world in
      let ran = record s { world = done.0 } in
      if done.1
      then if host.mark_fails name done.0
        then (ran, some not_marked)
        else (record ran { rows = s.rows ++ name ∷ [] }, none)
      else (ran, some patch_failed)

  -- The loop of `patchesApplyAll`.
  unfoldable pub apply_each :
      (applied : List String) → List String → State W → State W × Option Error
  unfolding apply
  apply_each applied [] s = (s, none)
  apply_each applied (name ∷ names) s =
      let first = apply name s in
      let rest = apply_each applied names first.0 in
      let skipped = apply_each applied names s in
      if string_in_slice name applied
      then skipped
      else elim first.1 [ some e ↦ first | none ↦ rest ]

  -- `patchesApplyAll`
  unfoldable pub patches_apply_all : List String → State W → State W × Option Error
  unfolding apply_each
  patches_apply_all names s =
      if host.read_fails s.world then (s, some not_read) else apply_each s.rows names s
