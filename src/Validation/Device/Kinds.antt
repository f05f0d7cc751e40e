-- ===== src/Validation/Device/Kinds.antt =====
-- What an accepted device is like.
use Prim.Native.String.{String}
use text.Mathlib.Text.{◌==◌ as str_eq}
use text.Mathlib.TextEquality.{eq_iff}
use lxd_pkg_ubuntu.Prelude.{
  ◌≡◌, refl, inl, inr, ◌⊎◌, arith, Bool, true, false, not, ◌&&◌, List, [], ◌∷◌, Result, ok, ◌>>=◌,
  ◌>>◌, bind-ok, Bool-cases,
}
use lxd_pkg_ubuntu.Text.{string_in_slice}
use lxd_pkg_ubuntu.Devices.{Device, get, entries}
use lxd_pkg_ubuntu.Validation.{Error}
use lxd_pkg_ubuntu.Validation.Device.{
  Host, refuse, empty, add_path, check_disk, check_nic, check_unix, check_of_type,
  check_device_keys, check_device,
}

pub refused-not : (t : Bool) (e : Error) (u : Unit) → refuse t e ≡ ok u → t ≡ false
refused-not true e u h = cc h
refused-not false e u h = refl

-- A disk with the path "/" is one without a source, and so a root disk.
check_disk-root :
    (host : Host) (m : Device) (u : Unit)
    → check_disk host m ≡ ok u
    → str_eq (get m "path") "/" ≡ str_eq (get m "source") ""
unfolding check_disk
check_disk-root host m u h =
    let (u1, h1, k1) = bind-ok (refuse (empty (get m "path")) Error.no_path) h in
    let (u2, h2, k2) =
      bind-ok (refuse (empty (get m "source") && not (str_eq (get m "path") "/")) Error.no_source)
        k1 in
    let (u3, h3, k3) =
      bind-ok (refuse (str_eq (get m "path") "/" && not (empty (get m "source"))) Error.root_source)
        k2 in
    let without_source =
      refused-not (empty (get m "source") && not (str_eq (get m "path") "/")) Error.no_source u2
        h2 in
    let with_source =
      refused-not (str_eq (get m "path") "/" && not (empty (get m "source"))) Error.root_source u3
        h3 in
    ground (arith, without_source, with_source)

-- How one round changes the paths.
abbrev pub Round : Host → Bool → Device → List String → List String → Type 0
Round host expanded m paths out =
    ((str_eq (get m "type") "disk" ≡ true)
      × (add_path expanded (get m "path") paths ≡ ok out)
      × (str_eq (get m "path") "/" ≡ str_eq (get m "source") ""))
    ⊎ ((str_eq (get m "type") "disk" ≡ false) × (out ≡ paths))

nic_disk : (t : String) → str_eq t "nic" ≡ true → str_eq t "disk" ≡ false
nic_disk t h = let e : t ≡ "nic" = ground (arith, eq_iff t "nic", h) in cc e

of_type-Round :
    (host : Host) (expanded : Bool) (m : Device) (paths out : List String)
    → check_of_type host expanded m paths ≡ ok out
    → Round host expanded m paths out
unfolding check_of_type
of_type-Round host expanded m paths out h = elim (Bool-cases (str_eq (get m "type") "nic")) [
  | inl y ↦
      let run : check_nic m >> ok paths ≡ ok out = cc (h, y) in
      let (u, h1, k1) = bind-ok (check_nic m) run in inr (nic_disk (get m "type") y, cc k1)
  | inr n ↦ elim (Bool-cases (str_eq (get m "type") "disk")) [
    | inl d ↦
        let run : add_path expanded (get m "path") paths >>= (λ p. check_disk host m >> ok p)
            ≡ ok out =
          cc (h, n, d) in
        let (p, h1, k1) = bind-ok (add_path expanded (get m "path") paths) run in
        let (u, h2, k2) = bind-ok (check_disk host m) k1 in
        inl (d, cc (h1, k2), check_disk-root host m u h2)
    | inr d ↦ elim (Bool-cases (string_in_slice (get m "type") ("unix-char" ∷ "unix-block" ∷ []))) [
      | inl x ↦
          let run : check_unix host m >> ok paths ≡ ok out = cc (h, n, d, x) in
          let (u, h1, k1) = bind-ok (check_unix host m) run in inr (d, cc k1)
      | inr x ↦ elim (Bool-cases (str_eq (get m "type") "none")) [
        | inl z ↦ inr (d, cc (h, n, d, x, z))
        | inr z ↦ cc (h, n, d, x, z)
      ]
    ]
  ]
]

-- The tests that every device has to pass.
abbrev checks : Host → Device → Result Error Unit
checks host m =
    refuse (empty (get m "type")) Error.no_type
    >> refuse
        (not (
          string_in_slice (get m "type")
            ("none" ∷ "nic" ∷ "disk" ∷ "unix-char" ∷ "unix-block" ∷ [])))
        Error.bad_type
    >> check_device_keys (get m "type") (entries m)

pub check_device-Round :
    (host : Host) (expanded : Bool) (m : Device) (paths out : List String)
    → check_device host expanded m paths ≡ ok out
    → Round host expanded m paths out
unfolding check_device
check_device-Round host expanded m paths out h =
    let (u, h1, k1) = bind-ok (checks host m) h in of_type-Round host expanded m paths out k1
