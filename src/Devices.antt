-- ===== src/Devices.antt =====
-- Device lists of containers and profiles (lxd/types/devices.go). A map that is nil is `none`. A range
-- loop over a map visits the entries in the order of the list.
pub mod Equality
pub mod Update
pub mod Live
pub mod Profile
mod Tests
use Prim.Native.String.{String}
use text.Mathlib.Text.{◌==◌ as str_eq}
use mathlib.Core.Option
use lxd_pkg_ubuntu.Prelude.{
  Bool, true, false, not, ◌&&◌, if◌then◌else◌, Option, none, some, List, [], ◌∷◌, ◌++◌,
}
use lxd_pkg_ubuntu.Prelude.Dict.{Dict, lookup, put, remove}

-- `Device`, or one value of `Devices`; `none` is the nil map.
abbrev pub Device : Type 0
Device = Option (Dict String)

abbrev pub Devices : Type 0
Devices = Dict Device

abbrev pub or_empty : Option String → String
or_empty none = ""
or_empty (some v) = v

-- `d[key]`: the empty text where the key is missing.
unfoldable pub get : Device → String → String
get none key = ""
get (some d) key = or_empty (lookup key d)

-- `list[k]`: nil where the name is missing.
unfoldable pub device : Devices → String → Device
device list k = elim (lookup k list) [ none ↦ none | some d ↦ d ]

unfoldable pub contains_name : Devices → String → Bool
unfolding device
contains_name list k = elim (device list k) [ none ↦ false | some _ ↦ true ]

abbrev pub entries : Device → Dict String
entries none = []
entries (some d) = d

-- One of the two loops of `deviceEquals`, over the keys of a map.
unfoldable pub agree_on : Dict String → Device → Device → Bool
agree_on [] d old = true
agree_on ((k, _) ∷ keys) d old = str_eq (get d k) (get old k) && agree_on keys d old

unfoldable pub device_equals : Device → Device → Bool
device_equals old d = agree_on (entries d) d old && agree_on (entries old) d old

-- The loops of `deviceEqualsDiffKeys`.
unfoldable pub differing : Dict String → Device → Device → List String
differing [] d old = []
differing ((k, _) ∷ keys) d old =
    let rest = differing keys d old in if not (str_eq (get d k) (get old k)) then k ∷ rest else rest

unfoldable pub device_equals_diff_keys : Device → Device → List String
device_equals_diff_keys old d = differing (entries d) d old ++ differing (entries old) d old

unfoldable pub contains : Devices → String → Device → Bool
contains list k d = elim (device list k) [ none ↦ false | some old ↦ device_equals (some old) d ]

-- The first two loops of `Update`: the entries of a list that the other does not contain.
unfoldable pub not_contained : Devices → Devices → Devices → Devices
not_contained other acc [] = acc
not_contained other acc ((key, d) ∷ l) =
    not_contained other (if not (contains other key d) then put key d acc else acc) l

-- The keys that may change while the container runs.
abbrev pub live_keys : List String
live_keys = "limits.max" ∷ "limits.read" ∷ "limits.write" ∷ "limits.egress" ∷ "limits.ingress" ∷ []

unfoldable pub delete_keys : List String → Device → Device
delete_keys [] d = d
delete_keys (k ∷ ks) d = delete_keys ks (Option.map (remove k) d)

-- The variables of the third loop of `Update`.
pub record Diff : Type 0 where
  pub rmlist : Devices
  pub addlist : Devices
  pub updatelist : Devices
  pub update_diff : List String

-- One round; `DeepCopy` of a map is the map.
unfoldable pub update_round : Devices → String → Device → Diff → Diff
update_round newlist key d s =
    let old_device = device s.rmlist key in
    let new_device = device newlist key in
    let s' = record s { update_diff = device_equals_diff_keys old_device new_device } in
    if device_equals (delete_keys live_keys old_device) (delete_keys live_keys new_device)
    then record s' {
      rmlist = remove key s.rmlist;
      addlist = remove key s.addlist;
      updatelist = put key d s.updatelist;
    }
    else s'

unfoldable pub update_loop : Devices → Devices → Diff → Diff
update_loop newlist [] s = s
update_loop newlist ((key, d) ∷ l) s = update_loop newlist l (update_round newlist key d s)

unfoldable pub update : Devices → Devices → Diff
update old newlist =
    let rm = not_contained newlist [] old in
    let add = not_contained old [] newlist in
    update_loop newlist add
      (record { rmlist = rm; addlist = add; updatelist = []; update_diff = [] })

-- `ExtendFromProfile`.
unfoldable pub extend_from_profile : Devices → Devices → Devices → Devices
extend_from_profile base current [] = base
extend_from_profile base current ((name, new_dev) ∷ l) =
    extend_from_profile
      (elim (lookup name current) [
        | some cur_dev ↦ put name cur_dev base
        | none ↦ put name new_dev base
      ])
      current l
