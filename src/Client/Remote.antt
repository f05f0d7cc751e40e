-- ===== src/Client/Remote.antt =====
-- The remote that a name is on.
use lxd_pkg_ubuntu.Prelude.{
  ℕ, ◌≡◌, inl, inr, false, if◌then◌else◌, ◌==◌, List, ◌∷◌, ◌++◌, any-append, ok, err, Bool-cases,
}
use lxd_pkg_ubuntu.Text.Affix.{cut-none, cut-append}
use lxd_pkg_ubuntu.Client.{no_such_remote, is_remote, has_code, parse_remote}

-- A name without a colon is on the default remote. One with a colon is on the remote before its first
-- colon, if that is known; if not, it is a whole name on the default remote where there is a slash
-- before the colon, and an error where there is none.
pub parse_remote_lem :
    (default : List ℕ) (remotes : List (List ℕ)) (name object : List ℕ)
    → has_code 58 name ≡ false
    → (parse_remote default remotes name ≡ ok (default, name))
      × (parse_remote default remotes (name ++ (58 ∷ object)) ≡ (
          if is_remote name remotes
          then ok (name, object)
          else if has_code 47 name
          then ok (default, name ++ (58 ∷ object))
          else err no_such_remote))
unfolding parse_remote
parse_remote_lem default remotes name object h =
    let whole = cut-none 58 name h in
    let parts = cut-append 58 name object h in
    let slash = any-append (λ c. c == 47) name (58 ∷ object) in
    (
      cc whole,
      elim (Bool-cases (is_remote name remotes)) [
        | inl y ↦ cc (parts, y)
        | inr n ↦ elim (Bool-cases (has_code 47 name)) [
          | inl s ↦ cc (parts, n, s, slash)
          | inr m ↦ elim (Bool-cases (has_code 47 (name ++ (58 ∷ object)))) [
            | inl y ↦ cc (parts, n, m, y)
            | inr k ↦ cc (parts, n, m, k)
          ]
        ]
      ],
    )
