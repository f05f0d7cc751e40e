-- ===== src/Idmap/IdSet/Pieces.antt =====
-- `AddSafe` and `Append` keep a set bounded and consistent.
use lxd_pkg_ubuntu.Prelude.{ℕ, ◌≡◌, ◌≢◌, inl, inr, refl, sym, ◌∙◌, subst, Bool, true, false, arith}
use lxd_pkg_ubuntu.Prelude.{
  if◌then◌else◌, List, [], ◌∷◌, ◌++◌, All, All-append, All-map, All-self, All-Memᴰ, ok, Bool-cases,
}
use lxd_pkg_ubuntu.Prelude.Int64.{add64, sub64, lt64}
use mathlib.Core.List.{Memᴰ}
use lxd_pkg_ubuntu.Idmap.Entry.{IdmapEntry}
use lxd_pkg_ubuntu.Idmap.Entry.Bounds.{IsBounded}
use lxd_pkg_ubuntu.Idmap.IdSet.{
  IdmapSet, into_ns, lower, upper, append_positive, split_entry, add_safe,
}
use lxd_pkg_ubuntu.Idmap.IdSet.Lookup.{Kind, hits, image}
use lxd_pkg_ubuntu.Idmap.IdSet.Consistent.{Agree, Agree-refl, Agree-symm, IsConsistent}
use lxd_pkg_ubuntu.Idmap.IdSet.Parts.{
  Separable, Splits, meets, lower_share, upper_share, image-upper,
}
use lxd_pkg_ubuntu.Idmap.IdSet.AddSafe.{Added, stop, keep, cut, add_safe-Added}
use lxd_pkg_ubuntu.Idmap.IdSet.Apart.{
  Restricts, Restricts-refl, hosts_differ, Agree-apart, kept-Agree,
}

-- An entry of the new set: the new entry, or what is left of an old one.
pub data IsPiece (i : IdmapEntry) (l : List IdmapEntry) (x : IdmapEntry) : Type 0 where
  itself : x ≡ i → IsPiece i l x
  rest_of : (e : IdmapEntry) → Memᴰ e l → IsBounded x → Restricts x e → Agree x i → IsPiece i l x

module _ (i e : IdmapEntry) (bi : IsBounded i) (s : Separable i e) where
  module _ (m : Splits i e) where
    lower-IsBounded : lt64 0 (lower e i).maprange ≡ true → IsBounded (lower e i)
    unfolding lt64 sub64
    lower-IsBounded p = ground (arith, s.bounded, m.ns_meet)

    upper-IsBounded : lt64 0 (upper e i).maprange ≡ true → IsBounded (upper e i)
    unfolding lt64 sub64 add64
    upper-IsBounded p = ground (arith, s.bounded, m.ns_meet)

    lower-Restricts : lt64 0 (lower e i).maprange ≡ true → Restricts (lower e i) e
    lower-Restricts p = record {
      held = λ k id h. ground (arith, lower_share i e bi s.bounded k id, m.ns_meet);
      same = λ k id h. refl;
    }

    upper-Restricts : lt64 0 (upper e i).maprange ≡ true → Restricts (upper e i) e
    upper-Restricts p = record {
      held = λ k id h. ground (arith, upper_share i e bi s.bounded m.ns_meet k id, m.ns_meet);
      same = λ k id h.
          image-upper i e bi s.bounded m.ns_meet k id
            (ground (arith, upper_share i e bi s.bounded m.ns_meet k id));
    }

    split_hosts :
        (k : Kind) (a b : ℕ)
        → hits into_ns k e a ≡ true
        → hits into_ns k i b ≡ true
        → image into_ns e a ≢ image into_ns i b
    split_hosts k a b = hosts_differ i e k a b m.hosts_apart

    lower-Agree : lt64 0 (lower e i).maprange ≡ true → Agree (lower e i) i
    lower-Agree p =
        Agree-apart i e (lower e i) (lower-Restricts p)
          (λ k a h q. ground (arith, lower_share i e bi s.bounded k a)) split_hosts

    upper-Agree : lt64 0 (upper e i).maprange ≡ true → Agree (upper e i) i
    upper-Agree p =
        Agree-apart i e (upper e i) (upper-Restricts p)
          (λ k a h q. ground (arith, upper_share i e bi s.bounded m.ns_meet k a)) split_hosts

append_positive-All :
    (P : IdmapEntry → Type 0) (r : List IdmapEntry) (x : IdmapEntry)
    → All P r
    → (lt64 0 x.maprange ≡ true → P x)
    → All P (append_positive r x)
unfolding append_positive
append_positive-All P r x h p = elim (Bool-cases (lt64 0 x.maprange)) [
  | inl y ↦ rw y (All-append P r (x ∷ []) h (p y, tt))
  | inr n ↦ rw n h
]

module _ (i : IdmapEntry) (bi : IsBounded i) (l : List IdmapEntry) where
  split_entry-All :
      (r : List IdmapEntry) (e : IdmapEntry)
      → Separable i e
      → Splits i e
      → Memᴰ e l
      → All (IsPiece i l) r
      → All (IsPiece i l) (split_entry r e i)
  unfolding split_entry
  split_entry-All r e s m mem h =
      let P = IsPiece i l in
      append_positive-All P (append_positive r (lower e i) ++ i ∷ []) (upper e i)
        (All-append P (append_positive r (lower e i)) (i ∷ [])
          (append_positive-All P r (lower e i) h (λ p.
            rest_of e mem (lower-IsBounded i e bi s m p) (lower-Restricts i e bi s m p)
              (lower-Agree i e bi s m p)))
          (itself refl, tt))
        (λ p.
          rest_of e mem (upper-IsBounded i e bi s m p) (upper-Restricts i e bi s m p)
            (upper-Agree i e bi s m p))

  Added-All :
      {r : List IdmapEntry} {a : Bool} {es out : List IdmapEntry} {a' : Bool}
      → All (Separable i) es
      → All (λ e. Memᴰ e l) es
      → All (IsPiece i l) r
      → Added i r a es out a'
      → All (IsPiece i l) out
  Added-All s m h stop = h
  Added-All {r = r} s m h (keep {e = e} p d) =
      Added-All s.1 m.1
        (All-append (IsPiece i l) r (e ∷ []) h (
          rest_of e m.0 s.0.bounded (Restricts-refl e) (kept-Agree i e bi s.0.bounded s.0.clear p),
          tt,
        ))
        d
  Added-All {r = r} s m h (cut {e = e} p q d) =
      Added-All s.1 m.1 (split_entry-All r e s.0 (meets i e bi s.0 p q) m.0 h) d

  pub add_safe-pieces :
      (m m' : IdmapSet)
      → m.idmap ≡ l
      → All (Separable i) l
      → All (λ e. Memᴰ e l) l
      → add_safe m i ≡ ok m'
      → All (IsPiece i l) m'.idmap
  add_safe-pieces m m' q s mem h =
      let (out, added, d, e) = add_safe-Added i m m' h in
      let parts = Added-All s mem tt (subst (λ t. Added i [] false t out added) q d) in
      rw e (last added out parts)
    where
      last :
          (added : Bool) (out : List IdmapEntry)
          → All (IsPiece i l) out
          → All (IsPiece i l) (if added then out else out ++ i ∷ [])
      last true out h = h
      last false out h = All-append (IsPiece i l) out (i ∷ []) h (itself refl, tt)

piece-Agree :
    (i : IdmapEntry) (l : List IdmapEntry) (x y : IdmapEntry)
    → IsConsistent l
    → IsPiece i l x
    → IsPiece i l y
    → Agree x y
piece-Agree i l x y c (itself p) (itself q) =
    subst (λ t. Agree t y) (sym p) (subst (λ t. Agree i t) (sym q) (Agree-refl i))
piece-Agree i l x y c (itself p) (rest_of e m b r g) = subst (λ t. Agree t y) (sym p) (Agree-symm g)
piece-Agree i l x y c (rest_of e m b r g) (itself q) = subst (λ t. Agree x t) (sym q) g
piece-Agree i l x y c (rest_of e m b r g) (rest_of f n b' r' g') = record {
  one_to_one = λ k a d p q.
      let both = (c.agree e f m n).one_to_one k a d (r.held k a p) (r'.held k d q) in
      (
        λ eq. r.same k a p ∙ both.0 eq ∙ sym (r'.same k d q),
        λ eq. both.1 (sym (r.same k a p) ∙ eq ∙ r'.same k d q),
      );
}

pub piece-IsBounded :
    (i : IdmapEntry) (l : List IdmapEntry)
    → IsBounded i
    → (x : IdmapEntry) → IsPiece i l x
    → IsBounded x
piece-IsBounded i l b x (itself p) = subst IsBounded (sym p) b
piece-IsBounded i l b x (rest_of e m bx r g) = bx

-- A set whose shifts are one to one.
pub record IsValid (m : IdmapSet) : Type 0 where
  pub bounded : All IsBounded m.idmap
  pub consistent : IsConsistent m.idmap

-- A successful `AddSafe` of an entry with bounded numbers gives a bounded and consistent set, if the set
-- was bounded and consistent, no single id of the new entry or of one of the set is the last one of the
-- other's range, and the new entry is of both kinds if one of the set is.
pub add_safe-IsValid :
    (i : IdmapEntry) (m m' : IdmapSet)
    → IsBounded i
    → IsConsistent m.idmap
    → All (Separable i) m.idmap
    → add_safe m i ≡ ok m'
    → IsValid m'
add_safe-IsValid i m m' bi c s h =
    let parts = add_safe-pieces i bi m.idmap m m' refl s (All-self m.idmap) h in
    record {
      bounded = All-map (IsPiece i m.idmap) IsBounded m'.idmap (piece-IsBounded i m.idmap bi) parts;
      consistent = record {
        agree = λ x y p q.
            piece-Agree i m.idmap x y c (All-Memᴰ (IsPiece i m.idmap) m'.idmap parts p)
              (All-Memᴰ (IsPiece i m.idmap) m'.idmap parts q);
      };
    }
