-- ===== src/Devices/Equality.antt =====
-- `deviceEquals` compares what can be read.
use Prim.Native.String.{String}
use text.Mathlib.TextEquality.{eq_iff}
use lxd_pkg_ubuntu.Prelude.{
  ◌≡◌, ◌↔◌, refl, sym, ◌∙◌, true, ◌&&◌, arith, none, some, [], ◌∷◌, Option-cases, inl, inr,
}
use lxd_pkg_ubuntu.Prelude.Dict.{Dict, lookup}
use lxd_pkg_ubuntu.Devices.{Device, get, entries, agree_on, device_equals}

-- The same value is read under every key, a missing one reading as the empty text.
abbrev pub SameReads : Device → Device → Type 0
SameReads old d = (k : String) → get d k ≡ get old k

agree_on_sound :
    (keys : Dict String) (d old : Device) (k : String) (v : String)
    → agree_on keys d old ≡ true
    → lookup k keys ≡ some v
    → get d k ≡ get old k
unfolding agree_on lookup
agree_on_sound [] d old k v h p = cc
agree_on_sound ((j, w) ∷ keys) d old k v h p =
    ground (arith, eq_iff j k, eq_iff (get d j) (get old j), agree_on_sound keys d old k v)

get-missing : (d : Device) (k : String) → lookup k (entries d) ≡ none → get d k ≡ ""
unfolding get
get-missing none k h = refl
get-missing (some d) k h = rw h

agree_on_complete :
    (keys : Dict String) (d old : Device) → SameReads old d → agree_on keys d old ≡ true
unfolding agree_on
agree_on_complete [] d old h = refl
agree_on_complete ((j, w) ∷ keys) d old h =
    ground (arith, h j, eq_iff (get d j) (get old j), agree_on_complete keys d old h)

-- `deviceEquals` says yes exactly when every key reads the same in both devices.
pub device_equals_iff : (old d : Device) → (device_equals old d ≡ true) ↔ SameReads old d
unfolding device_equals
device_equals_iff old d = (
  sound,
  λ h. rw (agree_on_complete (entries d) d old h, agree_on_complete (entries old) d old h),
)
  where
    sound : (agree_on (entries d) d old && agree_on (entries old) d old) ≡ true → SameReads old d
    sound h k = elim (Option-cases (lookup k (entries d))) [
      | inr (v, p) ↦ agree_on_sound (entries d) d old k v (ground arith) p
      | inl p ↦ elim (Option-cases (lookup k (entries old))) [
        | inr (v, q) ↦ agree_on_sound (entries old) d old k v (ground arith) q
        | inl q ↦ get-missing d k p ∙ sym (get-missing old k q)
      ]
    ]
