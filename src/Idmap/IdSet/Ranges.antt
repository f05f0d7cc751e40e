-- ===== src/Idmap/IdSet/Ranges.antt =====
-- `ValidRanges` joins entries that follow one another; what it returns holds the ids of the set.
use lxd_pkg_ubuntu.Prelude.{
  ℕ, ◌^◌, ◌≤◌, ◌<◌, ◌≡◌, refl, sym, ◌∙◌, Bool, true, false, ◌&&◌, ◌||◌, arith, any-append,
}
use lxd_pkg_ubuntu.Prelude.{
  ◌==◌, bool_eq, List, [], ◌∷◌, All, All-append, All-map, any, none, some, leb, Bool-cases,
  Option-cases, inl, inr, ap,
}
use lxd_pkg_ubuntu.Prelude.Int64.{add64, sub64, lt64, le64}
use mathlib.Core.Option
use lxd_pkg_ubuntu.Idmap.Entry.{IdRange, IdmapEntry, contains}
use lxd_pkg_ubuntu.Idmap.Entry.Bounds.{IsBounded, in_range}
use lxd_pkg_ubuntu.Idmap.IdSet.{
  IdmapSet, less, insert, sort, extend_range, new_range, add_range, ranges_loop, valid_ranges,
}
use lxd_pkg_ubuntu.Idmap.IdSet.Lookup.{Kind, user, group, is_of}

abbrev pub range_is_of : Kind → IdRange → Bool
range_is_of user r = r.isuid
range_is_of group r = r.isgid

-- A range with its ends below 2 ^ 34.
pub record IsBoundedRange (r : IdRange) : Type 0 where
  pub ends : r.endid < 2 ^ 34
  pub starts : r.startid ≤ r.endid

abbrev covers : Kind → ℕ → IdRange → Bool
covers k id r = range_is_of k r && (leb r.startid id && leb id r.endid)

abbrev maps : Kind → ℕ → IdmapEntry → Bool
maps k id e = is_of k e && in_range e.nsid e.maprange id

pub contains_lem :
    (r : IdRange) (id : ℕ)
    → IsBoundedRange r
    → id < 2 ^ 62
    → contains r id ≡ (leb r.startid id && leb id r.endid)
unfolding contains le64 lt64
contains_lem r id b w = ground arith

some_inj {ℓ} : {A : Type ℓ} {x y : A} → some x ≡ some y → x ≡ y
some_inj p = cc

none-some {ℓ} : {A : Type ℓ} {y : A} → none ≡ some y → ⊥
none-some p = cc

-- The test by which an entry is joined to a range.
abbrev joins : IdRange → IdmapEntry → Bool
joins r e = bool_eq e.isuid r.isuid && bool_eq e.isgid r.isgid && add64 r.endid 1 == e.nsid

abbrev joined : IdRange → IdmapEntry → IdRange
joined r e = record r { endid = add64 r.endid e.maprange }

extend_here :
    (r : IdRange) (rs : List IdRange) (e : IdmapEntry)
    → joins r e ≡ true
    → extend_range (r ∷ rs) e ≡ some (joined r e ∷ rs)
unfolding extend_range
extend_here r rs e h = ground arith

extend_later :
    (r : IdRange) (rs : List IdRange) (e : IdmapEntry)
    → joins r e ≡ false
    → extend_range (r ∷ rs) e ≡ Option.map (λ (l : List IdRange). r ∷ l) (extend_range rs e)
unfolding extend_range
extend_later r rs e h = ground arith

module _ (k : Kind) (id : ℕ) (e : IdmapEntry) (b : IsBounded e) where
  covers-new_range : covers k id (new_range e) ≡ maps k id e
  covers-new_range = go k
    where
      go : (k : Kind) → covers k id (new_range e) ≡ maps k id e
      go user = unfold add64 sub64 in ground arith
      go group = unfold add64 sub64 in ground arith

  new_range_bounded : IsBoundedRange (new_range e)
  unfolding add64 sub64
  new_range_bounded = ground arith

  covers-joined :
      (r : IdRange)
      → IsBoundedRange r
      → joins r e ≡ true
      → covers k id (joined r e) ≡ (covers k id r || maps k id e)
  covers-joined r br h = go k
    where
      go : (k : Kind) → covers k id (joined r e) ≡ (covers k id r || maps k id e)
      go user = unfold add64 in ground arith
      go group = unfold add64 in ground arith

  joined_bounded : (r : IdRange) → IsBoundedRange r → joins r e ≡ true → IsBoundedRange (joined r e)
  unfolding add64
  joined_bounded r br h = ground arith

  extend_range_lem :
      (rs rs' : List IdRange)
      → All IsBoundedRange rs
      → extend_range rs e ≡ some rs'
      → (any (covers k id) rs' ≡ (any (covers k id) rs || maps k id e)) × All IsBoundedRange rs'
  extend_range_lem [] rs' h q = absurd (unfold extend_range in cc)
  extend_range_lem (r ∷ rs) rs' h q = elim (Bool-cases (joins r e)) [
    | inl y ↦
        let e' : joined r e ∷ rs ≡ rs' = some_inj (sym (extend_here r rs e y) ∙ q) in
        rw (← e') (ground (arith, covers-joined r h.0 y), (joined_bounded r h.0 y, h.1))
    | inr n ↦ elim (Option-cases (extend_range rs e)) [
      | inl z ↦ absurd (
          none-some (
            ap (Option.map (λ (t : List IdRange). r ∷ t)) (sym z)
            ∙ sym (extend_later r rs e n)
            ∙ q))
      | inr (l, z) ↦
          let e' : r ∷ l ≡ rs' = some_inj (
            ap (Option.map (λ (t : List IdRange). r ∷ t)) (sym z)
            ∙ sym (extend_later r rs e n)
            ∙ q) in
          let (c, bl) = extend_range_lem rs l h.1 z in rw (← e') (ground (arith, c), (h.0, bl))
    ]
  ]

  add_range_lem :
      (rs : List IdRange)
      → All IsBoundedRange rs
      → (any (covers k id) (add_range rs e) ≡ (any (covers k id) rs || maps k id e))
        × All IsBoundedRange (add_range rs e)
  unfolding add_range
  add_range_lem rs h = elim (Option-cases (extend_range rs e)) [
    | inl z ↦
        rw (z, add_range)
          (
            any-append (covers k id) rs (new_range e ∷ []) ∙ ground (arith, covers-new_range),
            All-append IsBoundedRange rs (new_range e ∷ []) h (new_range_bounded, tt),
          )
    | inr (l, z) ↦ rw (z, add_range) (extend_range_lem rs l h z)
  ]

module _ (k : Kind) (id : ℕ) where
  ranges_loop_lem :
      (rs : List IdRange) (es : List IdmapEntry)
      → All IsBoundedRange rs
      → All IsBounded es
      → (any (covers k id) (ranges_loop rs es) ≡ (any (covers k id) rs || any (maps k id) es))
        × All IsBoundedRange (ranges_loop rs es)
  unfolding ranges_loop
  ranges_loop_lem rs [] h b = (ground arith, h)
  ranges_loop_lem rs (e ∷ es) h b =
      let (c, h') = add_range_lem k id e b.0 rs h in
      let (d, h'') = ranges_loop_lem (add_range rs e) es h' b.1 in (ground (arith, c, d), h'')

any-insert :
    (p : IdmapEntry → Bool) (e : IdmapEntry) (l : List IdmapEntry)
    → any p (insert e l) ≡ (p e || any p l)
unfolding insert
any-insert p e [] = refl
any-insert p e (x ∷ l) = ground (arith, any-insert p e l)

any-sort : (p : IdmapEntry → Bool) (l : List IdmapEntry) → any p (sort l) ≡ any p l
unfolding sort
any-sort p [] = refl
any-sort p (x ∷ l) = ground (arith, any-insert p x (sort l), any-sort p l)

All-insert :
    (P : IdmapEntry → Type 0) (e : IdmapEntry) (l : List IdmapEntry)
    → P e
    → All P l
    → All P (insert e l)
unfolding insert
All-insert P e [] h hs = (h, tt)
All-insert P e (x ∷ l) h hs = elim (Bool-cases (less e x)) [
  | inl y ↦ rw y (h, hs)
  | inr n ↦ rw n (hs.0, All-insert P e l h hs.1)
]

All-sort : (P : IdmapEntry → Type 0) (l : List IdmapEntry) → All P l → All P (sort l)
unfolding sort
All-sort P [] h = tt
All-sort P (x ∷ l) h = All-insert P x (sort l) h.0 (All-sort P l h.1)

any-ext {ℓ} :
    {A : Type ℓ} (p q : A → Bool) (l : List A) → All (λ x. p x ≡ q x) l → any p l ≡ any q l
any-ext p q [] h = refl
any-ext p q (x ∷ l) h = ground (arith, any-ext p q l h.1)

-- An id lies in a range of `ValidRanges` that is of kind `k` exactly when an entry of that kind maps
-- it; and each range has its ends in order.
pub valid_ranges_exact :
    (m : IdmapSet) (k : Kind) (id : ℕ)
    → All IsBounded m.idmap
    → id < 2 ^ 62
    → (any (λ r. range_is_of k r && contains r id) (valid_ranges m)
        ≡ any (λ e. is_of k e && in_range e.nsid e.maprange id) m.idmap)
      × All IsBoundedRange (valid_ranges m)
unfolding valid_ranges
valid_ranges_exact m k id b w =
    let (c, h) = ranges_loop_lem k id [] (sort m.idmap) tt (All-sort IsBounded m.idmap b) in
    (
      any-ext _ (covers k id) (ranges_loop [] (sort m.idmap)) (
            All-map IsBoundedRange _ (ranges_loop [] (sort m.idmap))
              (λ r br. ground (arith, contains_lem r id br w)) h)
          ∙ c
          ∙ any-sort (maps k id) m.idmap,
      h,
    )
