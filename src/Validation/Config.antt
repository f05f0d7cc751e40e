-- ===== src/Validation/Config.antt =====
-- The configuration of a container or a profile (`containerValidConfig`, lxd/container.go). A range
-- loop over a map visits the entries in the order of the list. The version of liblxc, and whether the
-- daemon has a map of ids, are arguments.
use Prim.Native.String.{String}
use text.Mathlib.Text.{◌==◌ as str_eq}
use text.Mathlib.TextEquality.{eq_iff}
use lxd_pkg_ubuntu.Prelude.{
  ◌≡◌, ◌↔◌, ◌⊎◌, arith, true, Option-cases, inl, inr, refl, Bool, false, not, ◌&&◌, ◌||◌,
  if◌then◌else◌, [], ◌∷◌, All, Option, none, some, Result, ok, err, ◌>>=◌, Bool-cases, Result-cases,
}
use lxd_pkg_ubuntu.Prelude.Dict.{Dict, lookup}
use lxd_pkg_ubuntu.Text.{codes, has_prefix, is_true}
use lxd_pkg_ubuntu.Text.Truth.{IsYes, is_true-IsYes, IsYes-is_true}
use lxd_pkg_ubuntu.Validation.{Error, volatile_key, no_uid_allocation}
use lxd_pkg_ubuntu.Validation.ConfigKey.{container_valid_config_key}

-- The loop over the keys.
unfoldable pub check_keys : (new_lxc profile : Bool) → Dict String → Result Error Unit
check_keys new_lxc profile [] = ok tt
check_keys new_lxc profile ((k, v) ∷ config) =
    let rest = check_keys new_lxc profile config in
    if profile && has_prefix (codes k) (codes "volatile.")
    then err volatile_key
    else (container_valid_config_key new_lxc k v >>= λ _. rest)

-- `config[key]`
unfoldable pub value_of : Dict String → String → String
value_of config key = elim (lookup key config) [ none ↦ "" | some v ↦ v ]

-- The test on the expanded configuration: not privileged, and no map.
unfoldable pub needs_map : Dict String → Bool
unfolding value_of
needs_map config =
    str_eq (value_of config "security.privileged") ""
    || not (is_true (value_of config "security.privileged"))

-- `containerValidConfig`
unfoldable pub container_valid_config :
    (new_lxc has_map : Bool) → Option (Dict String) → (profile expanded : Bool) → Result Error Unit
unfolding check_keys needs_map
container_valid_config new_lxc has_map none profile expanded = ok tt
container_valid_config new_lxc has_map (some config) profile expanded =
    check_keys new_lxc profile config >>= λ _.
    if expanded && needs_map config && not has_map then err no_uid_allocation else ok tt

-- What is asked of one entry.
abbrev pub IsAccepted : (new_lxc profile : Bool) → String × String → Type 0
IsAccepted new_lxc profile (k, v) =
    (container_valid_config_key new_lxc k v ≡ ok tt)
    × ((profile && has_prefix (codes k) (codes "volatile.")) ≡ false)

check_keys_sound :
    (new_lxc profile : Bool) (config : Dict String)
    → check_keys new_lxc profile config ≡ ok tt
    → All (IsAccepted new_lxc profile) config
unfolding check_keys
check_keys_sound new_lxc profile [] h = tt
check_keys_sound new_lxc profile ((k, v) ∷ config) h =
    elim (Bool-cases (profile && has_prefix (codes k) (codes "volatile."))) [
      | inl y ↦ cc (h, y)
      | inr n ↦ elim (Result-cases (container_valid_config_key new_lxc k v)) [
        | inl (u, p) ↦ ((p, n), check_keys_sound new_lxc profile config (cc (h, n, p)))
        | inr (e, p) ↦ cc (h, n, p)
      ]
    ]

check_keys_complete :
    (new_lxc profile : Bool) (config : Dict String)
    → All (IsAccepted new_lxc profile) config
    → check_keys new_lxc profile config ≡ ok tt
unfolding check_keys
check_keys_complete new_lxc profile [] h = refl
check_keys_complete new_lxc profile ((k, v) ∷ config) h =
    let rest = check_keys_complete new_lxc profile config h.1 in cc (h.0.0, h.0.1, rest)

-- The key security.privileged is there, with a word for yes.
abbrev pub IsPrivileged : Dict String → Type 0
IsPrivileged config = (v : String) × (lookup "security.privileged" config ≡ some v) × IsYes v

-- A configuration for which nothing is to be shifted, or a daemon that can.
abbrev pub HasIds : (has_map expanded : Bool) → Dict String → Type 0
HasIds has_map expanded config = (expanded ≡ false) ⊎ ((has_map ≡ true) ⊎ IsPrivileged config)

needs_map-yes : (config : Dict String) → needs_map config ≡ false → IsPrivileged config
unfolding needs_map value_of
needs_map-yes config h = elim (Option-cases (lookup "security.privileged" config)) [
  | inl n ↦ absurd (missing n)
  | inr (v, e) ↦ (v, e, is_true-IsYes v (word v e))
]
  where
    missing : lookup "security.privileged" config ≡ none → ⊥
    missing n = cc (n, h)

    word : (v : String) → lookup "security.privileged" config ≡ some v → is_true v ≡ true
    word v e = ground (arith, e, h)

empty_word : is_true "" ≡ false
unfolding is_true
empty_word = refl

IsPrivileged-needs : (config : Dict String) → IsPrivileged config → needs_map config ≡ false
unfolding needs_map value_of
IsPrivileged-needs config (v, e, y) =
    let word = IsYes-is_true v y in
    let none_empty = empty_word in ground (arith, e, word, none_empty, eq_iff v "")

lacks_map-HasIds :
    (has_map expanded : Bool) (config : Dict String)
    → (expanded && needs_map config && not has_map) ≡ false
    → HasIds has_map expanded config
lacks_map-HasIds has_map false config h = inl refl
lacks_map-HasIds true true config h = inr (inl refl)
lacks_map-HasIds false true config h = inr (inr (needs_map-yes config (ground (arith, h))))

HasIds-lacks_map :
    (has_map expanded : Bool) (config : Dict String)
    → HasIds has_map expanded config
    → (expanded && needs_map config && not has_map) ≡ false
HasIds-lacks_map has_map expanded config (inl e) = ground (arith, e)
HasIds-lacks_map has_map expanded config (inr (inl e)) = ground (arith, e)
HasIds-lacks_map has_map expanded config (inr (inr y)) =
    let free = IsPrivileged-needs config y in ground (arith, free)

-- A configuration is accepted exactly when each key is accepted with its value, none of them is
-- volatile if it is a profile's, and, if it is expanded, the daemon has a map of ids or the key
-- security.privileged is there with a word for yes; the order of the keys does not matter.
pub container_valid_config_exact :
    (new_lxc has_map : Bool) (config : Dict String) (profile expanded : Bool)
    → container_valid_config new_lxc has_map (some config) profile expanded ≡ ok tt
      ↔ (All (IsAccepted new_lxc profile) config × HasIds has_map expanded config)
unfolding container_valid_config
container_valid_config_exact new_lxc has_map config profile expanded = (
  λ h. elim (Result-cases (check_keys new_lxc profile config)) [
    | inl (u, p) ↦ elim (Bool-cases (expanded && needs_map config && not has_map)) [
      | inl y ↦ cc (h, p, y)
      | inr n ↦
          (check_keys_sound new_lxc profile config p, lacks_map-HasIds has_map expanded config n)
    ]
    | inr (e, p) ↦ cc (h, p)
  ],
  λ h.
      let keys = check_keys_complete new_lxc profile config h.0 in
      let ids = HasIds-lacks_map has_map expanded config h.1 in cc (keys, ids),
)
