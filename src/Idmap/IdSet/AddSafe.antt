-- ===== src/Idmap/IdSet/AddSafe.antt =====
-- `AddSafe`: the new entry takes its ids out of the old ones, which keep all others.
use lxd_pkg_ubuntu.Prelude.{ℕ, ◌≡◌, refl, subst₂, Bool, true, false, arith}
use lxd_pkg_ubuntu.Prelude.{
  if◌then◌else◌, none, some, List, [], ◌∷◌, ◌++◌, All, ok, Bool-cases, inl, inr, sym, ◌∙◌,
  Result-cases,
}
use lxd_pkg_ubuntu.Idmap.Entry.{IdmapEntry, intersects, hostids_intersect}
use lxd_pkg_ubuntu.Idmap.Entry.Bounds.{IsBounded}
use lxd_pkg_ubuntu.Idmap.IdSet.{IdmapSet, into_ns, split_entry, add_safe_loop, add_safe}
use lxd_pkg_ubuntu.Idmap.IdSet.Lookup.{Kind, hits, image, find, or_else, find-append, or_else-none}
use lxd_pkg_ubuntu.Idmap.IdSet.Parts.{
  find-split_entry, or_else_assoc, meets, kept_apart, Separable, single, find-single, hit,
}

-- The rounds of a loop that ends without an error: `Added i result added rest out added'`.
pub data Added (i : IdmapEntry)
    : List IdmapEntry → Bool → List IdmapEntry → List IdmapEntry → Bool → Type 0 where
  stop : {r : List IdmapEntry} {a : Bool} → Added i r a [] r a
  keep :
      {r : List IdmapEntry} {a : Bool} {e : IdmapEntry} {es out : List IdmapEntry} {a' : Bool}
      → intersects e i ≡ false
      → Added i (r ++ e ∷ []) a es out a'
      → Added i r a (e ∷ es) out a'
  cut :
      {r : List IdmapEntry} {a : Bool} {e : IdmapEntry} {es out : List IdmapEntry} {a' : Bool}
      → intersects e i ≡ true
      → hostids_intersect e i ≡ false
      → Added i (split_entry r e i) true es out a'
      → Added i r a (e ∷ es) out a'

pub add_safe_loop-Added :
    (i : IdmapEntry) (r : List IdmapEntry) (a : Bool) (es out : List IdmapEntry) (a' : Bool)
    → add_safe_loop i r a es ≡ ok (out, a')
    → Added i r a es out a'
unfolding add_safe_loop
add_safe_loop-Added i r a [] out a' h =
    subst₂ (λ o b. Added i r a [] o b) (ground arith) (ground arith) stop
add_safe_loop-Added i r a (e ∷ es) out a' h = elim (Bool-cases (intersects e i)) [
  | inr apart ↦ keep apart (add_safe_loop-Added i (r ++ e ∷ []) a es out a' (ground arith))
  | inl cross ↦ elim (Bool-cases (hostids_intersect e i)) [
    | inl clash ↦ absurd (ground arith)
    | inr fine ↦
        cut cross fine (add_safe_loop-Added i (split_entry r e i) true es out a' (ground arith))
  ]
]

module _ (i : IdmapEntry) (bi : IsBounded i) (k : Kind) (id : ℕ) where
  -- An id that the new entry does not hold keeps its image.
  loop_miss :
      {r : List IdmapEntry} {a : Bool} {es out : List IdmapEntry} {a' : Bool}
      → hit i k id ≡ false
      → All (Separable i) es
      → Added i r a es out a'
      → find into_ns k id out ≡ or_else (find into_ns k id r) (find into_ns k id es)
  unfolding find
  loop_miss {r = r} miss s stop = sym (or_else-none (find into_ns k id r))
  loop_miss {r = r} miss s (keep {e = e} {es = es} p d) =
      loop_miss miss s.1 d ∙ rw (find-append into_ns k id r (e ∷ []), or_else_assoc) (ground arith)
  loop_miss {r = r} miss s (cut {e = e} {es = es} p q d) =
      loop_miss miss s.1 d
      ∙ rw (find-split_entry i e bi s.0 (meets i e bi s.0 p q) k id r) (
          ground
            (arith, or_else_assoc (find into_ns k id r) (single e k id) (find into_ns k id es)))

  loop_hit :
      {r : List IdmapEntry} {a : Bool} {es out : List IdmapEntry} {a' : Bool}
      → hit i k id ≡ true
      → All (Separable i) es
      → find into_ns k id r ≡ (if a then some (image into_ns i id) else none)
      → Added i r a es out a'
      → find into_ns k id out ≡ (if a' then some (image into_ns i id) else none)
  unfolding find
  loop_hit held s f stop = f
  loop_hit {r = r} held s f (keep {e = e} {es = es} p d) =
      loop_hit held s.1
        (rw
          (
            find-append into_ns k id r (e ∷ []),
            find-single k id e,
            kept_apart i e bi s.0 k id p held,
          )
          (or_else-none (find into_ns k id r) ∙ f))
        d
  loop_hit {r = r} {a = a} held s f (cut {e = e} p q d) =
      loop_hit held s.1
        (rw (find-split_entry i e bi s.0 (meets i e bi s.0 p q) k id r, f) (ground arith)) d

-- The two parts of a successful call.
pub add_safe-Added :
    (i : IdmapEntry) (m m' : IdmapSet)
    → add_safe m i ≡ ok m'
    → (out : List IdmapEntry) × (added : Bool) × Added i [] false m.idmap out added
      × (m'.idmap ≡ (if added then out else out ++ i ∷ []))
unfolding add_safe
add_safe-Added i m m' h = elim (Result-cases (add_safe_loop i [] false m.idmap)) [
  | inl ((out, added), e) ↦
      (out, added, add_safe_loop-Added i [] false m.idmap out added e, ground arith)
  | inr (x, e) ↦ absurd (ground arith)
]

module _ (i : IdmapEntry) (k : Kind) (id : ℕ) where
  find-last :
      (added : Bool) (out : List IdmapEntry)
      → find into_ns k id out ≡ (if added then some (image into_ns i id) else none)
      → hit i k id ≡ true
      → find into_ns k id (if added then out else out ++ i ∷ []) ≡ some (image into_ns i id)
  find-last true out f h = f
  find-last false out f h = rw (find-append into_ns k id out (i ∷ []), f, find-single k id i, h)

  find-last_miss :
      (added : Bool) (out : List IdmapEntry)
      → hit i k id ≡ false
      → find into_ns k id (if added then out else out ++ i ∷ []) ≡ find into_ns k id out
  find-last_miss true out h = refl
  find-last_miss false out h =
      rw (find-append into_ns k id out (i ∷ []), find-single k id i, h)
        (or_else-none (find into_ns k id out))

-- After `AddSafe` an id that the new entry holds has the image that the entry gives it, and any other
-- id has the image that it had.
pub find-add_safe :
    (i : IdmapEntry) (m m' : IdmapSet) (k : Kind) (id : ℕ)
    → IsBounded i
    → All (Separable i) m.idmap
    → add_safe m i ≡ ok m'
    → find into_ns k id m'.idmap
      ≡ (if hits into_ns k i id then some (image into_ns i id) else find into_ns k id m.idmap)
unfolding find
find-add_safe i m m' k id bi s h =
    let (out, added, d, e) = add_safe-Added i m m' h in
    rw e (elim (Bool-cases (hits into_ns k i id)) [
      | inl held ↦ rw held (find-last i k id added out (loop_hit i bi k id held s refl d) held)
      | inr miss ↦ rw miss (find-last_miss i k id added out miss ∙ loop_miss i bi k id miss s d)
    ])
