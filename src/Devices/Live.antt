-- ===== src/Devices/Live.antt =====
-- The third list of `Update`: devices of which only keys have changed that may change live.
use Prim.Native.String.{String}
use text.Mathlib.Text.{◌==◌ as str_eq}
use mathlib.Core.Option
use lxd_pkg_ubuntu.Prelude.{
  ◌≡◌, ◌≢◌, refl, sym, ◌∙◌, ap, subst, Bool, true, false, not, if◌then◌else◌, arith, Option, none,
  some, List, [], ◌∷◌, Bool-cases, inl, inr, any,
}
use lxd_pkg_ubuntu.Prelude.Dict.{lookup, remove, lookup-remove}
use lxd_pkg_ubuntu.Devices.{
  Device, Devices, device, get, device_equals, live_keys, delete_keys, update,
}
use lxd_pkg_ubuntu.Devices.Equality.{device_equals_iff}
use lxd_pkg_ubuntu.Devices.Update.{
  or_nil, left_over, View, live_change, round_view, visited, IsProper, view-update, contains-some,
  contains-none, device_lem, device_equals_comm,
}

get-delete :
    (d : Device) (k p : String)
    → get (Option.map (remove k) d) p ≡ (if str_eq k p then "" else get d p)
unfolding get
get-delete none k p = ground arith
get-delete (some d) k p = rw (lookup-remove k p d) (ground arith)

abbrev pub is_among : List String → String → Bool
is_among ks p = any (λ q. str_eq q p) ks

get-delete_keys :
    (ks : List String) (d : Device) (p : String)
    → get (delete_keys ks d) p ≡ (if is_among ks p then "" else get d p)
unfolding delete_keys
get-delete_keys [] d p = refl
get-delete_keys (k ∷ ks) d p =
    get-delete_keys ks (Option.map (remove k) d) p ∙ ground (arith, get-delete d k p)

live_change_sound :
    (old d : Device) (p : String)
    → live_change old d ≡ true
    → is_among live_keys p ≡ false
    → get d p ≡ get old p
live_change_sound old d p h n =
    let e = (device_equals_iff (delete_keys live_keys old) (delete_keys live_keys d)).0 h p in
    let x : get (delete_keys live_keys d) p ≡ get d p = get-delete_keys live_keys d p ∙ rw n in
    let y : get (delete_keys live_keys old) p ≡ get old p =
      get-delete_keys live_keys old p ∙ rw n in
    sym x ∙ e ∙ y

abbrev third : View → Option Device
third (r, a, u) = u

module _ (old newlist : Devices) (k : String) (d : Device) where
  device-some : (n : Device) → lookup k newlist ≡ some n → device newlist k ≡ n
  device-some n h = device_lem newlist k ∙ ap or_nil h

  round_third :
      (r : Option Device) (n : Device) (a : Option Device)
      → lookup k newlist ≡ some n
      → third (round_view newlist k n (r, a, none)) ≡ some d
      → (some n ≡ some d) × (live_change (or_nil r) d ≡ true)
  round_third r n a hn h = elim (Bool-cases (live_change (or_nil r) (device newlist k))) [
    | inl y ↦
        let e : some n ≡ some d = rw y at h in
        (e, subst (λ t. live_change (or_nil r) t ≡ true) (device-some n hn ∙ ap or_nil e) y)
    | inr x ↦ absurd (missing (rw x at h))
  ]
    where
      missing : none ≡ some d → ⊥
      missing p = cc

  live_outcome :
      (o n : Option Device)
      → lookup k old ≡ o
      → lookup k newlist ≡ n
      → o ≢ some none
      → n ≢ some none
      → third (
          visited newlist k
            (left_over old k n none)
            (left_over newlist k o none, left_over old k n none, none))
        ≡ some d
      → (n ≡ some d) × (live_change (or_nil o) d ≡ true)
  live_outcome none none ho hn po pn h = absurd (missing h)
    where
      missing : none ≡ some d → ⊥
      missing p = cc
  live_outcome (some o) none ho hn po pn h = absurd (missing h)
    where
      missing : none ≡ some d → ⊥
      missing p = cc
  live_outcome none (some n) ho hn po pn h =
      round_third none n (some n) hn (rw (contains-none old k n ho) at h)
  live_outcome (some o) (some n) ho hn po pn h = elim (Bool-cases (device_equals o n)) [
    | inl y ↦ absurd (missing (rw y at g))
    | inr x ↦ round_third (some o) n (some n) hn (rw x at g)
  ]
    where
      missing : none ≡ some d → ⊥
      missing p = cc

      g :
          third (
            visited newlist k (if not (device_equals o n) then some n else none) (
              if not (device_equals o n) then some o else none,
              (if not (device_equals o n) then some n else none),
              none,
            ))
          ≡ some d
      g =
          rw
            (
              contains-some old k o n ho (λ e. po (ap some e)),
              contains-some newlist k n o hn (λ e. pn (ap some e)),
              device_equals_comm n o,
            )
            at h

-- A device of the third list is the new list's, and under every key but those that may change live it
-- reads as the old list's device of that name.
pub update_live :
    (old newlist : Devices) (k p : String) (d : Device)
    → IsProper old
    → IsProper newlist
    → lookup k (update old newlist).updatelist ≡ some d
    → (lookup k newlist ≡ some d) × (is_among live_keys p ≡ false → get d p ≡ get (device old k) p)
update_live old newlist k p d po pn h =
    let (e, l) =
      live_outcome old newlist k d (lookup k old) (lookup k newlist) refl refl (po.1 k) (pn.1 k)
        (sym (ap third (view-update old newlist k po.0 pn.0)) ∙ h) in
    (e, λ n. live_change_sound (device old k) d p (rw (device_lem old k) l) n)
