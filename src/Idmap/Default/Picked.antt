-- ===== src/Idmap/Default/Picked.antt =====
-- What the search for a range finds, and what it leaves.
use lxd_pkg_ubuntu.Prelude.{
  ℕ, ◌+◌, ◌^◌, ◌≤◌, ◌<◌, ◌≡◌, refl, arith, inl, inr, subst, Bool, true, false, ◌&&◌, if◌then◌else◌,
  List, [], ◌∷◌, some, any, All, Bool-cases,
}
use lxd_pkg_ubuntu.Prelude.Int64.{sub64, lt64, le64}
use lxd_pkg_ubuntu.Idmap.Entry.{IdRange, contains}
use lxd_pkg_ubuntu.Idmap.IdSet.Lookup.{Kind, user, group}
use lxd_pkg_ubuntu.Idmap.IdSet.Ranges.{range_is_of, IsBoundedRange}
use lxd_pkg_ubuntu.Idmap.Default.{moved, pick}

-- The ranges hold the id, among those of kind k.
abbrev pub held : Kind → ℕ → List IdRange → Bool
held k id rs = any (λ r. range_is_of k r && contains r id) rs

-- A moved range holds no more ids, and is of the same kinds.
moved_held :
    (k : Kind) (id : ℕ) (r : IdRange)
    → IsBoundedRange r
    → (range_is_of k (moved r) && contains (moved r) id) ≡ true
    → (range_is_of k r && contains r id) ≡ true
unfolding contains le64 lt64
moved_held user id r b h = ground (arith, h)
moved_held group id r b h = ground (arith, h)

moved-bounded :
    (r : IdRange) → IsBoundedRange r → lt64 r.endid 100_000 ≡ false → IsBoundedRange (moved r)
unfolding lt64
moved-bounded r b n = elim (Bool-cases (lt64 r.startid 100_000)) [
  | inl y ↦ rw y (record { ends = b.ends; starts = ground (arith, n, b.ends) })
  | inr m ↦ rw m b
]

-- The range that is found, as a part of the ranges of kind k.
pub record Suitable (k : Kind) (rs : List IdRange) (r : IdRange) : Type 0 where
  pub starts : 100_000 ≤ r.startid
  pub room : r.startid + 65_536 ≤ r.endid
  pub ends : r.endid < 2 ^ 34
  pub holds : (id : ℕ) → r.startid ≤ id → id ≤ r.endid → held k id rs ≡ true

later-Suitable :
    (k : Kind) (s : IdRange) (rs : List IdRange) (r : IdRange)
    → Suitable k rs r
    → Suitable k (s ∷ rs) r
later-Suitable k s rs r f = record {
  starts = f.starts;
  room = f.room;
  ends = f.ends;
  holds = λ id a b. let h = f.holds id a b in ground (arith, h);
}

-- The four cases of one range.
data Case (k : Kind) (r : IdRange) : Type 0 where
  other_kind : range_is_of k r ≡ false → Case k r
  low : range_is_of k r ≡ true → lt64 r.endid 100_000 ≡ true → Case k r
  small :
      range_is_of k r ≡ true
      → lt64 r.endid 100_000 ≡ false
      → lt64 (sub64 (moved r).endid (moved r).startid) 65_536 ≡ true
      → Case k r
  suitable :
      range_is_of k r ≡ true
      → lt64 r.endid 100_000 ≡ false
      → lt64 (sub64 (moved r).endid (moved r).startid) 65_536 ≡ false
      → Case k r

case_of : (k : Kind) (r : IdRange) → Case k r
case_of k r = elim (Bool-cases (range_is_of k r)) [
  | inr n ↦ other_kind n
  | inl y ↦ elim (Bool-cases (lt64 r.endid 100_000)) [
    | inl l ↦ low y l
    | inr h ↦ elim (Bool-cases (lt64 (sub64 (moved r).endid (moved r).startid) 65_536)) [
      | inl s ↦ small y h s
      | inr b ↦ suitable y h b
    ]
  ]
]

near-Suitable :
    (k : Kind) (r : IdRange) (rs : List IdRange) (start : ℕ)
    → IsBoundedRange r
    → range_is_of k r ≡ true
    → 100_000 ≤ start
    → r.startid ≤ start
    → start ≤ r.endid
    → lt64 (sub64 r.endid start) 65_536 ≡ false
    → Suitable k (r ∷ rs) (record r { startid = start })
unfolding lt64 sub64 contains le64
near-Suitable k r rs start b y far later inside l = record {
  starts = far;
  room = ground (arith, l, b.ends);
  ends = b.ends;
  holds = λ id c d. ground (arith, y, b.ends);
}

moved-Suitable :
    (k : Kind) (r : IdRange) (rs : List IdRange)
    → IsBoundedRange r
    → range_is_of k r ≡ true
    → lt64 r.endid 100_000 ≡ false
    → lt64 (sub64 (moved r).endid (moved r).startid) 65_536 ≡ false
    → Suitable k (r ∷ rs) (moved r)
unfolding lt64
moved-Suitable k r rs b y h l = by_start (lt64 r.startid 100_000) refl l
  where
    by_start :
        (c : Bool)
        → lt64 r.startid 100_000 ≡ c
        → lt64
            (sub64
              (if c then record r { startid = 100_000 } else r).endid
              (if c then record r { startid = 100_000 } else r).startid)
            65_536
          ≡ false
        → Suitable k (r ∷ rs) (if c then record r { startid = 100_000 } else r)
    by_start true m l' =
        near-Suitable k r rs 100_000 b y (omega arith) (ground (arith, m, b.starts, b.ends))
          (ground (arith, h, b.ends)) l'
    by_start false m l' =
        near-Suitable k r rs r.startid b y (ground (arith, m, b.ends, b.starts)) (omega arith)
          b.starts l'

pub pick-Suitable :
    (k : Kind) (rs : List IdRange) (r : IdRange)
    → All IsBoundedRange rs
    → (pick (range_is_of k) rs).0 ≡ some r
    → Suitable k rs r
unfolding pick
pick-Suitable k [] r b h = cc h
pick-Suitable k (s ∷ rs) r b h =
    by_case (case_of k s) (λ e. later-Suitable k s rs r (pick-Suitable k rs r b.1 e))
  where
    by_case :
        Case k s
        → ((pick (range_is_of k) rs).0 ≡ some r → Suitable k (s ∷ rs) r)
        → Suitable k (s ∷ rs) r
    by_case (other_kind n) rest = rest (ground (arith, h, n))
    by_case (low y l) rest = rest (ground (arith, h, y, l))
    by_case (small y n l) rest = rest (ground (arith, h, y, n, l))
    by_case (suitable y n l) rest =
        let same : moved s ≡ r = ground (arith, h, y, n, l) in
        subst (Suitable k (s ∷ rs)) same (moved-Suitable k s rs b.0 y n l)

-- What the ranges hold afterwards, they held before.
pub record Fewer (rs rs' : List IdRange) : Type 0 where
  pub bounded : All IsBoundedRange rs'
  pub was_held : (k : Kind) (id : ℕ) → held k id rs' ≡ true → held k id rs ≡ true

pub before-Suitable :
    (k : Kind) (rs rs' : List IdRange) (r : IdRange)
    → Fewer rs rs'
    → Suitable k rs' r
    → Suitable k rs r
before-Suitable k rs rs' r f s = record {
  starts = s.starts;
  room = s.room;
  ends = s.ends;
  holds = λ id a b. f.was_held k id (s.holds id a b);
}

same-Fewer : (rs : List IdRange) → All IsBoundedRange rs → Fewer rs rs
same-Fewer rs b = record { bounded = b; was_held = λ k id h. h }

more-Fewer :
    (r : IdRange) (rs rs' : List IdRange)
    → IsBoundedRange r
    → Fewer rs rs'
    → Fewer (r ∷ rs) (r ∷ rs')
more-Fewer r rs rs' b f = record {
  bounded = (b, f.bounded);
  was_held = λ k id h. elim (Bool-cases (range_is_of k r && contains r id)) [
    | inl y ↦ ground (arith, y)
    | inr n ↦ let before = f.was_held k id (ground (arith, h, n)) in ground (arith, before)
  ];
}

moved-Fewer :
    (r : IdRange) (rs rs' : List IdRange)
    → IsBoundedRange r
    → lt64 r.endid 100_000 ≡ false
    → Fewer rs rs'
    → Fewer (r ∷ rs) (moved r ∷ rs')
moved-Fewer r rs rs' b n f = record {
  bounded = (moved-bounded r b n, f.bounded);
  was_held = λ k id h. elim (Bool-cases (range_is_of k (moved r) && contains (moved r) id)) [
    | inl y ↦ let before = moved_held k id r b y in ground (arith, before)
    | inr m ↦ let before = f.was_held k id (ground (arith, h, m)) in ground (arith, before)
  ];
}

pub pick-Fewer :
    (k : Kind) (rs : List IdRange) → All IsBoundedRange rs → Fewer rs (pick (range_is_of k) rs).1
unfolding pick
pick-Fewer k [] b = same-Fewer [] tt
pick-Fewer k (r ∷ rs) b = elim (case_of k r) [
  | other_kind n ↦ let rest = more-Fewer r rs _ b.0 (pick-Fewer k rs b.1) in rw n rest
  | low y l ↦ let rest = more-Fewer r rs _ b.0 (pick-Fewer k rs b.1) in rw (y, l) rest
  | small y n l ↦ let rest = moved-Fewer r rs _ b.0 n (pick-Fewer k rs b.1) in rw (y, n, l) rest
  | suitable y n l ↦ let rest = moved-Fewer r rs rs b.0 n (same-Fewer rs b.1) in rw (y, n, l) rest
]
