-- ===== src/Idmap/Default/Mapped.antt =====
-- The ids that the daemon's map takes from the kernel's.
use lxd_pkg_ubuntu.Prelude.{
  ℕ, ◌+◌, ◌-◌, ◌^◌, ◌≤◌, ◌<◌, ◌≡◌, ◌∙◌, sym, refl, arith, subst, Bool, true, false, ◌&&◌, List, [],
  ◌∷◌, ◌++◌, map, Option, none, some, ok, bind-ok, any, All, All-append, All-front, All-back,
}
use lxd_pkg_ubuntu.Prelude.Int64.{add64, sub64}
use lxd_pkg_ubuntu.Idmap.Entry.{IdRange, IdmapEntry}
use lxd_pkg_ubuntu.Idmap.Entry.Bounds.{IsBounded, InRange, in_range}
use lxd_pkg_ubuntu.Idmap.Files.{get_from_proc}
use lxd_pkg_ubuntu.Idmap.Files.Small.{AreSmall, get_from_proc-AreSmall}
use lxd_pkg_ubuntu.Idmap.IdSet.{IdmapSet, valid_ranges}
use lxd_pkg_ubuntu.Idmap.IdSet.Lookup.{Kind, user, group, is_of}
use lxd_pkg_ubuntu.Idmap.IdSet.Ranges.{range_is_of, valid_ranges_exact}
use lxd_pkg_ubuntu.Idmap.Default.{
  Host, entry, pick, picked, from_ranges, are_full, from_triple, current_half, has_shadow,
  current_idmap_set, default_idmap_set,
}
use lxd_pkg_ubuntu.Idmap.Default.Picked.{Suitable, pick-Suitable, before-Suitable, pick-Fewer}

-- An entry of the daemon's map, as a part of the kernel's.
pub record FromKernel (kernel_map : IdmapSet) (e : IdmapEntry) : Type 0 where
  pub far : 100_000 ≤ e.hostid
  pub large : 65_536 < e.maprange
  pub inside :
      (k : Kind) (id : ℕ)
      → is_of k e ≡ true
      → InRange e.hostid e.maprange id
      → any (λ x. is_of k x && in_range x.nsid x.maprange id) kernel_map.idmap ≡ true

abbrev flags : Kind → Bool × Bool
flags user = (true, false)
flags group = (false, true)

count :
    (r : IdRange)
    → r.startid ≤ r.endid
    → r.endid < 2 ^ 34
    → add64 (sub64 r.endid r.startid) 1 ≡ r.endid - r.startid + 1
unfolding add64 sub64
count r h w = omega arith

same_kind_of :
    (j k : Kind) (isuid isgid : Bool) (a b c : ℕ)
    → (isuid, isgid) ≡ flags k
    → is_of j (entry isuid isgid a b c) ≡ true
    → j ≡ k
same_kind_of user user isuid isgid a b c f h = refl
same_kind_of group group isuid isgid a b c f h = refl
same_kind_of user group isuid isgid a b c f h = cc (f, h)
same_kind_of group user isuid isgid a b c f h = cc (f, h)

picked-FromKernel :
    (kernel_map : IdmapSet) (k : Kind) (o : Option IdRange)
    → All IsBounded kernel_map.idmap
    → ((r : IdRange) → o ≡ some r → Suitable k (valid_ranges kernel_map) r)
    → All (FromKernel kernel_map) (picked (flags k).0 (flags k).1 o)
unfolding picked
picked-FromKernel kernel_map k none b f = tt
picked-FromKernel kernel_map k (some r) b f =
    let s = f r refl in
    let n = count r (omega (arith, s.room)) s.ends in
    (
      record {
        far = s.starts;
        large = omega (arith, n, s.room);
        inside = λ j id of_kind within.
            let same : j ≡ k = same_kind_of j k _ _ _ _ _ refl of_kind in
            let range = s.holds id within.0 (omega (arith, n, s.room, within.1)) in
            subst
              (λ i. any (λ x. is_of i x && in_range x.nsid x.maprange id) kernel_map.idmap ≡ true)
              (sym same)
              (sym
                  (valid_ranges_exact kernel_map k id b
                    (omega (arith, n, s.room, s.ends, within.1))).0
                ∙ range);
      },
      tt,
    )

from_ranges-FromKernel :
    (kernel_map : IdmapSet)
    → All IsBounded kernel_map.idmap
    → All (FromKernel kernel_map) (from_ranges (valid_ranges kernel_map)).idmap
unfolding from_ranges
from_ranges-FromKernel kernel_map b =
    let ranges = valid_ranges kernel_map in
    let bounded = (valid_ranges_exact kernel_map user 0 b (omega arith)).1 in
    let fewer = pick-Fewer user ranges bounded in
    All-append (FromKernel kernel_map) _ _
      (picked-FromKernel kernel_map user (pick (range_is_of user) ranges).0 b
        (λ r e. pick-Suitable user ranges r bounded e))
      (picked-FromKernel kernel_map group
        (pick (range_is_of group) (pick (range_is_of user) ranges).1).0 b
        (λ r e. before-Suitable group ranges _ r fewer (pick-Suitable group _ r fewer.bounded e)))

triples-IsBounded :
    (isuid isgid : Bool) (ts : List (ℕ × ℕ × ℕ))
    → All AreSmall ts
    → All (λ e. 0 < e.maprange) (map (from_triple isuid isgid) ts)
    → All IsBounded (map (from_triple isuid isgid) ts)
triples-IsBounded isuid isgid [] a p = tt
triples-IsBounded isuid isgid (t ∷ ts) a p = (
  record {
    host_end = omega (arith, a.0.1, a.0.2);
    ns_end = omega (arith, a.0.0, a.0.2);
    some_id = p.0;
  },
  triples-IsBounded isuid isgid ts a.1 p.1,
)

half-IsBounded :
    (isuid isgid : Bool) (o : Option (List (List ℕ))) (es : List IdmapEntry)
    → current_half isuid isgid o ≡ ok es
    → All (λ e. 0 < e.maprange) es
    → All IsBounded es
unfolding current_half
half-IsBounded isuid isgid none es h p =
    let same : entry isuid isgid 0 0 0 ∷ [] ≡ es = cc h in
    absurd (omega (arith, (subst (All (λ e. 0 < e.maprange)) (sym same) p).0))
half-IsBounded isuid isgid (some lines) es h p =
    let (ts, e, g) = bind-ok (get_from_proc lines) h in
    let same : map (from_triple isuid isgid) ts ≡ es = cc g in
    subst (All IsBounded) same (
      triples-IsBounded isuid isgid ts (get_from_proc-AreSmall lines ts e)
        (subst (All (λ e. 0 < e.maprange)) (sym same) p))

current-IsBounded :
    (h : Host) (m : IdmapSet)
    → current_idmap_set h ≡ ok m
    → All (λ e. 0 < e.maprange) m.idmap
    → All IsBounded m.idmap
unfolding current_idmap_set
current-IsBounded h m e p =
    let (us, eu, e1) = bind-ok (current_half true false h.uid_map) e in
    let (gs, eg, e2) = bind-ok (current_half false true h.gid_map) e1 in
    let same : us ++ gs ≡ m.idmap = cc e2 in
    let q = subst (All (λ e. 0 < e.maprange)) (sym same) p in
    subst (All IsBounded) same (
      All-append IsBounded us gs (half-IsBounded true false h.uid_map us eu (All-front _ us gs q))
        (half-IsBounded false true h.gid_map gs eg (All-back _ us gs q)))

-- Without the tools or the files for shadow ids, where the kernel's own map can be read, has no empty
-- range and is not the full one, there is a default map, and each of its entries has more than 65536
-- host ids, from 100000 on, and the kernel's map has each of them for the kind of the entry.
pub default_idmap_set-FromKernel :
    (h : Host) (kernel_map : IdmapSet)
    → has_shadow h ≡ false
    → current_idmap_set h ≡ ok kernel_map
    → All (λ e. 0 < e.maprange) kernel_map.idmap
    → are_full (valid_ranges kernel_map) ≡ false
    → (m : IdmapSet) × (default_idmap_set h ≡ ok m) × All (FromKernel kernel_map) m.idmap
unfolding default_idmap_set
default_idmap_set-FromKernel h kernel_map n e p full = (
  from_ranges (valid_ranges kernel_map),
  cc (n, e, full),
  from_ranges-FromKernel kernel_map (current-IsBounded h kernel_map e p),
)
