-- ===== src/Devices/Update.antt =====
-- `Update`: the three lists that it returns turn the old list into the new one.
use Prim.Native.String.{String}
use text.Mathlib.Text.{◌==◌ as str_eq}
use text.Mathlib.TextEquality.{eq_iff}
use text.Mathlib.TextPositions.{eq_refl}
use lxd_pkg_ubuntu.Prelude.{
  ◌≡◌, ◌≢◌, refl, sym, ◌∙◌, ap, subst, Bool, true, false, not, if◌then◌else◌, arith, Option, none,
  some, [], ◌∷◌, Bool-cases, inl, inr,
}
use lxd_pkg_ubuntu.Prelude.Dict.{IsMap, lookup, put, lookup-put, lookup-remove, put-IsMap}
use lxd_pkg_ubuntu.Devices.{
  Device, Devices, device, device_equals, contains, not_contained, live_keys, delete_keys, Diff,
  update_round, update_loop, update,
}
use lxd_pkg_ubuntu.Devices.Equality.{SameReads, device_equals_iff}

abbrev pub or_nil : Option Device → Device
or_nil none = none
or_nil (some d) = d

pub device_lem : (l : Devices) (k : String) → device l k ≡ or_nil (lookup k l)
unfolding device
device_lem l k = ground arith

-- What the loop of the first two lists leaves under a key.
abbrev pub left_over : Devices → String → Option Device → Option Device → Option Device
left_over other k none acc = acc
left_over other k (some d) acc = if not (contains other k d) then some d else acc

lookup-not_contained :
    (other acc l : Devices) (k : String)
    → IsMap l
    → lookup k (not_contained other acc l) ≡ left_over other k (lookup k l) (lookup k acc)
unfolding not_contained lookup
lookup-not_contained other acc [] k m = refl
lookup-not_contained other acc ((j, d) ∷ l) k m =
    lookup-not_contained other (if not (contains other j d) then put j d acc else acc) l k m.1
    ∙ ground (arith, eq_iff j k, lookup-put j k d acc, m.0)

not_contained-IsMap : (other acc l : Devices) → IsMap acc → IsMap (not_contained other acc l)
unfolding not_contained
not_contained-IsMap other acc [] h = h
not_contained-IsMap other acc ((j, d) ∷ l) h = elim (Bool-cases (contains other j d)) [
  | inl y ↦ rw y (not_contained-IsMap other acc l h)
  | inr n ↦ rw n (not_contained-IsMap other (put j d acc) l (put-IsMap j d acc h))
]

-- The entries of the three lists under one key.
abbrev pub View : Type 0
View = Option Device × Option Device × Option Device

abbrev pub view : String → Diff → View
view k s = (lookup k s.rmlist, lookup k s.addlist, lookup k s.updatelist)

-- Only the keys that may change live differ.
abbrev pub live_change : Device → Device → Bool
live_change old d = device_equals (delete_keys live_keys old) (delete_keys live_keys d)

abbrev pub round_view : Devices → String → Device → View → View
round_view newlist k d (r, a, u) =
    if live_change (or_nil r) (device newlist k) then (none, none, some d) else (r, a, u)

round_here :
    (newlist : Devices) (k : String) (d : Device) (s : Diff)
    → view k (update_round newlist k d s) ≡ round_view newlist k d (view k s)
unfolding update_round
round_here newlist k d s =
    rw device_lem (elim (Bool-cases (live_change (or_nil (lookup k s.rmlist)) (device newlist k))) [
      | inl y ↦ rw (y, lookup-remove, lookup-remove, lookup-put, eq_refl)
      | inr n ↦ rw n
    ])

round_there :
    (newlist : Devices) (j k : String) (d : Device) (s : Diff)
    → str_eq j k ≡ false
    → view k (update_round newlist j d s) ≡ view k s
unfolding update_round
round_there newlist j k d s h =
    elim (Bool-cases (live_change (device s.rmlist j) (device newlist j))) [
      | inl y ↦ rw (
        y,
        lookup-remove j k s.rmlist,
        lookup-remove j k s.addlist,
        lookup-put j k d s.updatelist,
        h,
      )
      | inr n ↦ rw n
    ]

-- Each key of the list is visited once.
abbrev pub visited : Devices → String → Option Device → View → View
visited newlist k none v = v
visited newlist k (some d) v = round_view newlist k d v

view-update_loop :
    (newlist l : Devices) (s : Diff) (k : String)
    → IsMap l
    → view k (update_loop newlist l s) ≡ visited newlist k (lookup k l) (view k s)
unfolding update_loop lookup
view-update_loop newlist [] s k m = refl
view-update_loop newlist ((j, d) ∷ l) s k m = elim (Bool-cases (str_eq j k)) [
  | inl y ↦
      let e : j ≡ k = (eq_iff j k).0 y in
      let gone : lookup k l ≡ none = subst (λ t. lookup t l ≡ none) e m.0 in
      view-update_loop newlist l (update_round newlist j d s) k m.1
      ∙ rw (y, gone)
          (subst (λ t. view k (update_round newlist t d s) ≡ round_view newlist k d (view k s))
            (sym e) (round_here newlist k d s))
  | inr n ↦
      view-update_loop newlist l (update_round newlist j d s) k m.1
      ∙ rw (n, round_there newlist j k d s n)
]

-- The lists applied to the old list: what is removed goes, and what is added or updated stands as the
-- lists say.
abbrev pub applied : Devices → Diff → String → Option Device
applied old s k = elim (lookup k s.updatelist) [
  | some d ↦ some d
  | none ↦ elim (lookup k s.addlist) [
    | some d ↦ some d
    | none ↦ elim (lookup k s.rmlist) [ some _ ↦ none | none ↦ lookup k old ]
  ]
]

-- Both are missing, or both are there and read the same.
abbrev pub SameEntry : Option Device → Option Device → Type 0
SameEntry none none = Unit
SameEntry (some a) (some b) = SameReads a b
SameEntry _ _ = ⊥

-- A list with one entry for each name and no nil device.
abbrev pub IsProper : Devices → Type 0
IsProper l = IsMap l × ((k : String) → lookup k l ≢ some none)

pub view-update :
    (old newlist : Devices) (k : String)
    → IsMap old
    → IsMap newlist
    → view k (update old newlist)
      ≡ visited newlist k
          (left_over old k (lookup k newlist) none)
          (left_over newlist k (lookup k old) none, left_over old k (lookup k newlist) none, none)
unfolding update lookup
view-update old newlist k mo mn =
    view-update_loop newlist (not_contained old [] newlist) _ k
      (not_contained-IsMap old [] newlist tt)
    ∙ rw (lookup-not_contained old [] newlist k mn, lookup-not_contained newlist [] old k mo)

abbrev from_view : Option Device → View → Option Device
from_view o (r, a, u) = elim u [
  | some d ↦ some d
  | none ↦ elim a [ some d ↦ some d | none ↦ elim r [ some _ ↦ none | none ↦ o ] ]
]

pub contains-some :
    (l : Devices) (k : String) (o d : Device)
    → lookup k l ≡ some o
    → o ≢ none
    → contains l k d ≡ device_equals o d
unfolding contains device
contains-some l k none d h p = absurd (p refl)
contains-some l k (some o) d h p = rw (h, contains, device)

pub contains-none :
    (l : Devices) (k : String) (d : Device) → lookup k l ≡ none → contains l k d ≡ false
unfolding contains device
contains-none l k d h = rw (h, contains, device)

same_tests : (p q : Bool) → (p ≡ true → q ≡ true) → (q ≡ true → p ≡ true) → p ≡ q
same_tests p q f g = ground arith

pub device_equals_comm : (a b : Device) → device_equals a b ≡ device_equals b a
device_equals_comm a b =
    same_tests (device_equals a b) (device_equals b a)
      (λ h. (device_equals_iff b a).1 (λ k. sym ((device_equals_iff a b).0 h k)))
      (λ h. (device_equals_iff a b).1 (λ k. sym ((device_equals_iff b a).0 h k)))

SameReads-refl : (a : Device) → SameReads a a
SameReads-refl a k = refl

module _ (old newlist : Devices) (k : String) where
  -- The outcome under one key, for each way in which the key may stand in the lists.
  outcome :
      (o n : Option Device)
      → lookup k old ≡ o
      → lookup k newlist ≡ n
      → o ≢ some none
      → n ≢ some none
      → SameEntry
          (from_view o (
            visited newlist k
              (left_over old k n none)
              (left_over newlist k o none, left_over old k n none, none)))
          n
  outcome none none ho hn po pn = tt
  outcome (some o) none ho hn po pn = rw (contains-none newlist k o hn) tt
  outcome none (some n) ho hn po pn = rw (contains-none old k n ho) (added none)
    where
      added :
          (r : Option Device)
          → SameEntry (from_view none (round_view newlist k n (r, some n, none))) (some n)
      added r = elim (Bool-cases (live_change (or_nil r) (device newlist k))) [
        | inl y ↦ rw y (SameReads-refl n)
        | inr x ↦ rw x (SameReads-refl n)
      ]
  outcome (some o) (some n) ho hn po pn =
      rw
        (
          contains-some old k o n ho (λ e. po (ap some e)),
          contains-some newlist k n o hn (λ e. pn (ap some e)),
          device_equals_comm n o,
        )
        (elim (Bool-cases (device_equals o n)) [
          | inl y ↦ rw y ((device_equals_iff o n).0 y)
          | inr x ↦ rw x (elim (Bool-cases (live_change o (device newlist k))) [
            | inl y ↦ rw y (SameReads-refl n)
            | inr z ↦ rw z (SameReads-refl n)
          ])
        ])

-- Whatever the two lists of devices, without nil devices: removing the first list of `Update` from the
-- old devices, and adding the second and third, gives under every name what the new list has there.
pub update_applies :
    (old newlist : Devices) (k : String)
    → IsProper old
    → IsProper newlist
    → SameEntry (applied old (update old newlist) k) (lookup k newlist)
update_applies old newlist k po pn =
    subst (λ (v : View). SameEntry (from_view (lookup k old) v) (lookup k newlist))
      (sym (view-update old newlist k po.0 pn.0))
      (outcome old newlist k (lookup k old) (lookup k newlist) refl refl (po.1 k) (pn.1 k))
