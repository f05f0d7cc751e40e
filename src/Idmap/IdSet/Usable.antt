-- ===== src/Idmap/IdSet/Usable.antt =====
-- `Usable`: what is accepted lies within what the kernel has mapped for the current namespace.
use lxd_pkg_ubuntu.Prelude.{ℕ, ◌+◌, ◌-◌, ◌^◌, ◌<◌, ◌≡◌, sym, ◌∙◌, true, ◌&&◌, arith}
use lxd_pkg_ubuntu.Prelude.{
  List, [], ◌∷◌, All, All-Memᴰ, any, any-true, any_intro, ok, Result-cases, inl, inr, ◌>>◌,
}
use lxd_pkg_ubuntu.Prelude.Int64.{add64, sub64}
use lxd_pkg_ubuntu.Idmap.Entry.{IdRange, IdmapEntry, contains}
use lxd_pkg_ubuntu.Idmap.Entry.Bounds.{IsBounded, in_range}
use lxd_pkg_ubuntu.Idmap.IdSet.{
  IdmapSet, holds_ends, check_kind, valid_ranges, entry_usable, usable,
}
use lxd_pkg_ubuntu.Idmap.IdSet.Lookup.{Kind, user, group, is_of}
use lxd_pkg_ubuntu.Idmap.IdSet.Ranges.{
  range_is_of, IsBoundedRange, contains_lem, valid_ranges_exact,
}

-- The host ids of an entry are mapped, for each of its kinds.
abbrev pub IsMapped : IdmapSet → IdmapEntry → Type 0
IsMapped m e =
    (k : Kind) (id : ℕ)
    → is_of k e ≡ true
    → in_range e.hostid e.maprange id ≡ true
    → any (λ x. is_of k x && in_range x.nsid x.maprange id) m.idmap ≡ true

module _ (m : IdmapSet) (b : All IsBounded m.idmap) (e : IdmapEntry) (be : IsBounded e) where
  last_small : sub64 (add64 e.hostid e.maprange) 1 ≡ e.hostid + e.maprange - 1
  unfolding add64 sub64
  last_small = omega arith

  in_range_small : (id : ℕ) → in_range e.hostid e.maprange id ≡ true → id < 2 ^ 62
  in_range_small id p = ground arith

  ends_hold :
      (k : Kind) (id : ℕ) (r : IdRange)
      → IsBoundedRange r
      → holds_ends (range_is_of k) e r ≡ true
      → in_range e.hostid e.maprange id ≡ true
      → (range_is_of k r && contains r id) ≡ true
  unfolding holds_ends
  ends_hold k id r br h p = ground (
    arith,
    contains_lem r e.hostid br (omega arith),
    contains_lem r id br (in_range_small id p),
    last_small,
    contains_lem r (e.hostid + e.maprange - 1) br (omega arith),
  )

  check_kind_sound :
      (k : Kind) (id : ℕ)
      → check_kind (is_of k e) (range_is_of k) (valid_ranges m) e ≡ ok tt
      → is_of k e ≡ true
      → in_range e.hostid e.maprange id ≡ true
      → any (λ x. is_of k x && in_range x.nsid x.maprange id) m.idmap ≡ true
  unfolding check_kind
  check_kind_sound k id h y p =
      let (c, br) = valid_ranges_exact m k id b (in_range_small id p) in
      let (r, mem, held) =
        any-true (holds_ends (range_is_of k) e) (valid_ranges m) (ground arith) in
      sym c
      ∙ any_intro (λ r. range_is_of k r && contains r id) r (valid_ranges m) mem
          (ends_hold k id r (All-Memᴰ IsBoundedRange (valid_ranges m) br mem) held p)

  entry_usable_sound : entry_usable (ok m) e ≡ ok tt → IsMapped m e
  unfolding entry_usable
  entry_usable_sound h user id y p = check_kind_sound user id (ground arith) y p
  entry_usable_sound h group id y p = check_kind_sound group id (ground arith) y p

-- Where the kernel's map `m` could be read and `Usable` accepts a set, the kernel maps every host id of
-- every entry, for each kind of the entry.
pub usable_sound :
    (m : IdmapSet) (l : List IdmapEntry)
    → All IsBounded m.idmap
    → All IsBounded l
    → usable (ok m) l ≡ ok tt
    → All (IsMapped m) l
unfolding usable
usable_sound m [] b bl h = tt
usable_sound m (e ∷ l) b bl h =
    (entry_usable_sound m b e bl.0 (first_ok h), usable_sound m l b bl.1 (ground arith))
  where
    first_ok : (entry_usable (ok m) e >> usable (ok m) l) ≡ ok tt → entry_usable (ok m) e ≡ ok tt
    first_ok h = elim (Result-cases (entry_usable (ok m) e)) [
      | inl (t, q) ↦ q
      | inr (x, q) ↦ absurd (ground arith)
    ]
