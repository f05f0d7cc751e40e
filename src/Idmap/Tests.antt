-- ===== src/Idmap/Tests.antt =====
-- Runs of the id maps at concrete sets: the default map with an entry of raw.idmap.
use lxd_pkg_ubuntu.Prelude.{ℕ, ◌≡◌, ◌↔◌, ◌⊎◌, inl, inr, refl, true, false, ◌&&◌, ◌||◌, arith}
use lxd_pkg_ubuntu.Prelude.{[], ◌∷◌, All, any, ok}
use lxd_pkg_ubuntu.Prelude.Int64.{add64, sub64, le64}
use mathlib.Core.List.Memᴰ
use mathlib.Core.List.{Memᴰ}
use lxd_pkg_ubuntu.Idmap.Entry.{
  IdmapEntry, overlap, same_kind, intersects, hostids_intersect, contains,
}
use lxd_pkg_ubuntu.Idmap.Entry.Bounds.{IsBounded, in_range, Overlap, overlaps}
use lxd_pkg_ubuntu.Idmap.Entry.Overlap.{intersects_exact, intersects_overlooks_last}
use lxd_pkg_ubuntu.Idmap.IdSet.{
  check_kind, ranges_loop, sort, insert, less, add_range, extend_range,
}
use lxd_pkg_ubuntu.Idmap.IdSet.{
  IdmapSet, add_safe_loop, split_entry, add_safe, set_shift_into_ns, set_shift_from_ns,
  valid_ranges, entry_usable, usable, do_shift_into_ns, into_ns,
}
use lxd_pkg_ubuntu.Idmap.IdSet.Lookup.{
  Kind, hits, image, user, group, is_of, find, or_minus_one, do_shift_into_ns-find,
}
use lxd_pkg_ubuntu.Idmap.IdSet.Consistent.{
  Agree, Agree-refl, Agree-symm, IsConsistent, set_shift_from-set_shift_into,
}
use lxd_pkg_ubuntu.Idmap.IdSet.Parts.{Separable}
use lxd_pkg_ubuntu.Idmap.IdSet.Pieces.{IsValid, add_safe-IsValid}
use lxd_pkg_ubuntu.Idmap.IdSet.Remap.{set_shift_into-add_safe}
use lxd_pkg_ubuntu.Idmap.IdSet.Ranges.{range_is_of, IsBoundedRange, valid_ranges_exact}
use lxd_pkg_ubuntu.Idmap.IdSet.Usable.{IsMapped, usable_sound}

-- root:1000000:65536, for uids and for gids.
abbrev sub_uids : IdmapEntry
sub_uids = record { isuid = true; isgid = false; hostid = 1_000_000; nsid = 0; maprange = 65_536 }

abbrev sub_gids : IdmapEntry
sub_gids = record { isuid = false; isgid = true; hostid = 1_000_000; nsid = 0; maprange = 65_536 }

abbrev default_set : IdmapSet
default_set = record { idmap = sub_uids ∷ sub_gids ∷ [] }

-- both 1000 1000
abbrev raw : IdmapEntry
raw = record { isuid = true; isgid = true; hostid = 1000; nsid = 1000; maprange = 1 }

abbrev at_the_end : IdmapEntry
at_the_end = record { isuid = true; isgid = false; hostid = 1000; nsid = 65_535; maprange = 1 }

-- The kernel's own map: everything to itself.
abbrev kernel : IdmapSet
kernel = record {
  idmap =
      record { isuid = true; isgid = false; hostid = 0; nsid = 0; maprange = 4_294_967_295 }
      ∷ record { isuid = false; isgid = true; hostid = 0; nsid = 0; maprange = 4_294_967_295 }
      ∷ [];
}

abbrev merged : IdmapSet
merged = record {
  idmap =
      record { isuid = true; isgid = false; hostid = 1_000_000; nsid = 0; maprange = 1000 }
      ∷ raw
      ∷ record { isuid = true; isgid = false; hostid = 1_001_001; nsid = 1001; maprange = 64_535 }
      ∷ record { isuid = false; isgid = true; hostid = 1_000_000; nsid = 0; maprange = 1000 }
      ∷ raw
      ∷ record { isuid = false; isgid = true; hostid = 1_001_001; nsid = 1001; maprange = 64_535 }
      ∷ [];
}

-- An entry of both kinds that splits a uid entry and a gid entry stands in the result twice.
add_raw : add_safe default_set raw ≡ ok merged
unfolding add_safe add_safe_loop split_entry intersects overlap hostids_intersect add64 sub64 le64
add_raw = refl

kinds_apart : Agree sub_uids sub_gids
kinds_apart = record { one_to_one = kinds }
  where
    kinds :
        (k : Kind) (a b : ℕ)
        → hits into_ns k sub_uids a ≡ true
        → hits into_ns k sub_gids b ≡ true
        → (a ≡ b) ↔ (image into_ns sub_uids a ≡ image into_ns sub_gids b)
    kinds user a b p q = cc
    kinds group a b p q = cc

default-IsConsistent : IsConsistent default_set.idmap
default-IsConsistent = record { agree = λ e f p q. go e f (Memᴰ.cases_cons p) (Memᴰ.cases_cons q) }
  where
    go :
        (e f : IdmapEntry)
        → (e ≡ sub_uids) ⊎ Memᴰ e (sub_gids ∷ [])
        → (f ≡ sub_uids) ⊎ Memᴰ f (sub_gids ∷ [])
        → Agree e f
    go e f (inl p) (inl q) = rw (p, q) (Agree-refl sub_uids)
    go e f (inl p) (inr q) = rw (p, Memᴰ.eq_of_singleton q) kinds_apart
    go e f (inr p) (inl q) = rw (Memᴰ.eq_of_singleton p, q) (Agree-symm kinds_apart)
    go e f (inr p) (inr q) =
        rw (Memᴰ.eq_of_singleton p, Memᴰ.eq_of_singleton q) (Agree-refl sub_gids)

default-IsBounded : All IsBounded default_set.idmap
default-IsBounded = omega arith

default-Separable : All (Separable raw) default_set.idmap
default-Separable = (
  record { bounded = omega arith; clear = omega arith; fits = λ a b. cc },
  (record { bounded = omega arith; clear = omega arith; fits = λ a b. cc }, tt),
)

set_shift_into-add_safe_example :
    set_shift_into_ns merged 1000 1001 ≡ (1000, (set_shift_into_ns default_set 1000 1001).1)
set_shift_into-add_safe_example =
    set_shift_into-add_safe raw default_set merged 1000 1001 (omega arith) default-Separable add_raw
      (omega arith) (omega arith)

add_safe-IsValid_example : IsValid merged
add_safe-IsValid_example =
    add_safe-IsValid raw default_set merged (omega arith) default-IsConsistent default-Separable
      add_raw

set_shift_from-set_shift_into_example :
    (((set_shift_into_ns merged 1000 7).0 ≡ 1000)
      ↔ ((set_shift_from_ns merged 1000 1_000_007).0 ≡ 1000))
    × (((set_shift_into_ns merged 1000 7).1 ≡ 1_000_007)
        ↔ ((set_shift_from_ns merged 1000 1_000_007).1 ≡ 7))
set_shift_from-set_shift_into_example =
    set_shift_from-set_shift_into merged 1000 7 1000 1_000_007 add_safe-IsValid_example.bounded
      add_safe-IsValid_example.consistent (omega arith) (omega arith) (omega arith) (omega arith)

default-IsValid : IsValid default_set
default-IsValid = record { bounded = default-IsBounded; consistent = default-IsConsistent }

abbrev more_uids : IdmapEntry
more_uids = record { isuid = true; isgid = false; hostid = 2_000_000; nsid = 65_536; maprange = 10 }

intersects_exact_example : intersects sub_uids more_uids ≡ (
    same_kind sub_uids more_uids
    && (overlaps 1_000_000 65_536 2_000_000 10 || overlaps 0 65_536 65_536 10))
intersects_exact_example =
    intersects_exact sub_uids more_uids (omega arith) (omega arith) (omega arith)

intersects_overlooks_last_example :
    (Overlap 0 65_536 65_535 1) × (intersects sub_uids at_the_end ≡ false)
intersects_overlooks_last_example =
    intersects_overlooks_last sub_uids at_the_end (omega arith) (omega arith) refl refl
      (omega arith)

do_shift_into_ns-find_example : do_shift_into_ns into_ns default_set 33 70_000 ≡ (
  or_minus_one (find into_ns user 33 default_set.idmap),
  or_minus_one (find into_ns group 70_000 default_set.idmap),
)
do_shift_into_ns-find_example =
    do_shift_into_ns-find into_ns default_set 33 70_000 default-IsBounded (omega arith)
      (omega arith)

valid_ranges_exact_example :
    (any (λ r. range_is_of user r && contains r 1001) (valid_ranges merged)
      ≡ any (λ e. is_of user e && in_range e.nsid e.maprange 1001) merged.idmap)
    × All IsBoundedRange (valid_ranges merged)
valid_ranges_exact_example =
    valid_ranges_exact merged user 1001 add_safe-IsValid_example.bounded (omega arith)

default_usable : usable (ok kernel) default_set.idmap ≡ ok tt
unfolding usable entry_usable check_kind valid_ranges ranges_loop sort insert less add_range
    extend_range contains le64 sub64 add64
default_usable = refl

usable_sound_example : All (IsMapped kernel) default_set.idmap
usable_sound_example =
    usable_sound kernel default_set.idmap (omega arith) default-IsBounded default_usable
