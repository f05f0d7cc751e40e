-- ===== src/Idmap/IdSet/Remap.antt =====
-- What `AddSafe` does to the ids that a set maps, and when it fails.
use lxd_pkg_ubuntu.Prelude.{ℕ, ◌+◌, ◌-◌, ◌^◌, ◌<◌, ◌≡◌, refl, Bool, true, false, ◌&&◌, arith}
use lxd_pkg_ubuntu.Prelude.{
  if◌then◌else◌, List, [], ◌∷◌, ◌++◌, All, All-map, All-self, any, ok, err, Bool-cases, inl, inr,
}
use lxd_pkg_ubuntu.Idmap.Entry.{IdmapEntry, intersects, hostids_intersect, host_id_is_sub_id}
use lxd_pkg_ubuntu.Idmap.Entry.Bounds.{IsBounded, in_range}
use lxd_pkg_ubuntu.Idmap.IdSet.{
  IdmapSet, into_ns, split_entry, add_safe_loop, add_safe, set_shift_into_ns,
}
use lxd_pkg_ubuntu.Idmap.IdSet.Lookup.{
  Kind, user, group, hits, image, find, or_minus_one, do_shift_into_ns-find,
}
use lxd_pkg_ubuntu.Idmap.IdSet.Parts.{Separable}
use lxd_pkg_ubuntu.Idmap.IdSet.AddSafe.{find-add_safe}
use lxd_pkg_ubuntu.Idmap.IdSet.Pieces.{IsPiece, add_safe-pieces, piece-IsBounded}

moved :
    (i : IdmapEntry) (m m' : IdmapSet) (k : Kind) (id : ℕ)
    → IsBounded i
    → All (Separable i) m.idmap
    → add_safe m i ≡ ok m'
    → or_minus_one (find into_ns k id m'.idmap) ≡ (
        if hits into_ns k i id
        then image into_ns i id
        else or_minus_one (find into_ns k id m.idmap))
moved i m m' k id b s h = rw (find-add_safe i m m' k id b s h) (ground arith)

-- After a successful `AddSafe` the ids that the new entry holds go where the entry sends them, and all
-- others go where they went, for uids and gids alike.
pub set_shift_into-add_safe :
    (i : IdmapEntry) (m m' : IdmapSet) (u g : ℕ)
    → IsBounded i
    → All (Separable i) m.idmap
    → add_safe m i ≡ ok m'
    → u < 2 ^ 64
    → g < 2 ^ 64
    → set_shift_into_ns m' u g ≡ (
      if i.isuid && in_range i.nsid i.maprange u
          then u - i.nsid + i.hostid
          else (set_shift_into_ns m u g).0,
      if i.isgid && in_range i.nsid i.maprange g
          then g - i.nsid + i.hostid
          else (set_shift_into_ns m u g).1,
    )
unfolding set_shift_into_ns
set_shift_into-add_safe i m m' u g b s h wu wg =
    let parts = add_safe-pieces i b m.idmap m m' refl s (All-self m.idmap) h in
    let after =
      All-map (IsPiece i m.idmap) IsBounded m'.idmap (piece-IsBounded i m.idmap b) parts in
    let before = All-map (Separable i) IsBounded m.idmap (λ e x. x.bounded) s in
    rw
      (
        do_shift_into_ns-find into_ns m' u g after wu wg,
        do_shift_into_ns-find into_ns m u g before wu wg,
      )
      (rw (moved i m m' user u b s h, moved i m m' group g b s h))

-- An entry that keeps `AddSafe` from adding `i`.
abbrev pub clashes : IdmapEntry → IdmapEntry → Bool
clashes i e = intersects e i && hostids_intersect e i

loop_outcome :
    (i : IdmapEntry) (r : List IdmapEntry) (a : Bool) (es : List IdmapEntry)
    → (any (clashes i) es ≡ true → add_safe_loop i r a es ≡ err host_id_is_sub_id)
      × (any (clashes i) es ≡ false
          → (p : List IdmapEntry × Bool) × (add_safe_loop i r a es ≡ ok p))
unfolding add_safe_loop
loop_outcome i r a [] = (λ h. cc, λ h. ((r, a), refl))
loop_outcome i r a (e ∷ es) =
    let kept = loop_outcome i (r ++ e ∷ []) a es in
    let split = loop_outcome i (split_entry r e i) true es in
    elim (Bool-cases (intersects e i)) [
      | inr n ↦ rw n kept
      | inl y ↦ elim (Bool-cases (hostids_intersect e i)) [
        | inl c ↦ rw (y, c) (λ h. refl, λ h. cc)
        | inr c ↦ rw (y, c) split
      ]
    ]

-- `AddSafe` fails exactly when some entry of the set intersects the new one and its host ids do too,
-- and then with `ErrHostIdIsSubId`.
pub add_safe_outcome :
    (m : IdmapSet) (i : IdmapEntry)
    → (any (clashes i) m.idmap ≡ true → add_safe m i ≡ err host_id_is_sub_id)
      × (any (clashes i) m.idmap ≡ false → (m' : IdmapSet) × (add_safe m i ≡ ok m'))
unfolding add_safe
add_safe_outcome m i =
    let (fails, works) = loop_outcome i [] false m.idmap in
    (
      λ h. rw (fails h),
      λ h.
          let (p, e) = works h in
          rw e (record { idmap = if p.1 then p.0 else p.0 ++ i ∷ [] }, refl),
    )
