-- ===== src/Allocation/Scan.antt =====
-- The search for free host ids.
use lxd_pkg_ubuntu.Prelude.{
  ℕ, ◌+◌, ◌^◌, ◌≤◌, ◌<◌, ◌≡◌, ◌⊎◌, inl, inr, refl, sym, subst, Bool, true, false, if◌then◌else◌,
  ltb, arith, List, [], ◌∷◌, All,
}
use lxd_pkg_ubuntu.Prelude.Int64.{add64, lt64, add64_small, lt64_small}
use lxd_pkg_ubuntu.Allocation.Search.{Used, end_of, Scanned, gap, past, scan_rest, scan}

-- A range of `size` ids from `offset` and the host ids of a container have nothing in common.
abbrev pub Apart : ℕ → ℕ → Used → Type 0
Apart offset size u = (offset + size ≤ u.hostid) ⊎ (u.hostid + u.maprange ≤ offset)

-- Entries one after the other, from `lo` on, with no id in common.
abbrev pub Spread : ℕ → List Used → Type 0
Spread lo [] = Unit
Spread lo (u ∷ us) =
    (lo ≤ u.hostid)
    × (u.hostid + u.maprange < 2 ^ 34)
    × (0 < u.maprange)
    × Spread (u.hostid + u.maprange) us

abbrev pub where_to : Scanned → ℕ
where_to (gap o) = o
where_to (past o) = o

pub end_of_lem : (u : Used) → u.hostid + u.maprange < 2 ^ 34 → end_of u ≡ u.hostid + u.maprange
end_of_lem u h = add64_small u.hostid u.maprange (omega arith) (omega arith)

Apart-below :
    (offset size lo : ℕ) (us : List Used)
    → offset + size ≤ lo
    → Spread lo us
    → All (Apart offset size) us
Apart-below offset size lo [] h s = tt
Apart-below offset size lo (u ∷ us) h s =
    (inl (omega arith), Apart-below offset size (u.hostid + u.maprange) us (omega arith) s.3)

abbrev Fits : ℕ → ℕ → List Used → Scanned → Type 0
Fits size lo us r = (lo ≤ where_to r) × All (Apart (where_to r) size) us

pub pick :
    (P : Scanned → Type 0) (b : Bool) {x y : Scanned}
    → (b ≡ true → P x)
    → (b ≡ false → P y)
    → P (if b then x else y)
pick P true t f = t refl
pick P false t f = f refl

-- While the entries do not overlap, the test for an overlap fails.
pub scan_rest_step :
    (size : ℕ) (prev u : Used) (us : List Used)
    → scan_rest size prev (end_of prev) (u ∷ us) ≡ (
        if lt64 (add64 (end_of prev) size) u.hostid
        then gap (end_of prev)
        else scan_rest size u (end_of u) us)
unfolding scan_rest lt64
scan_rest_step size prev u us = ground arith

module _ (size : ℕ) (w : size < 2 ^ 34) where
  pub gap_test : (o h : ℕ) → o < 2 ^ 34 → h < 2 ^ 34 → lt64 (add64 o size) h ≡ ltb (o + size) h
  gap_test o h wo wh =
      rw (add64_small o size (omega arith) (omega arith))
        (lt64_small (o + size) h (omega arith) (omega arith))

  pub below_test : (o h : ℕ) → o < 2 ^ 34 → h < 2 ^ 34 → lt64 h (add64 o size) ≡ ltb h (o + size)
  below_test o h wo wh =
      rw (add64_small o size (omega arith) (omega arith))
        (lt64_small h (o + size) (omega arith) (omega arith))

  scan_rest_lem :
      (prev : Used) (us : List Used)
      → prev.hostid + prev.maprange < 2 ^ 34
      → Spread (prev.hostid + prev.maprange) us
      → Fits size (prev.hostid + prev.maprange) us (scan_rest size prev (end_of prev) us)
  unfolding scan_rest
  scan_rest_lem prev [] h s = (omega (arith, end_of_lem prev h), tt)
  scan_rest_lem prev (u ∷ us) h s =
      let e = end_of_lem prev h in
      subst (Fits size (prev.hostid + prev.maprange) (u ∷ us)) (sym (scan_rest_step size prev u us))
        (pick (Fits size (prev.hostid + prev.maprange) (u ∷ us))
          (lt64 (add64 (end_of prev) size) u.hostid)
          (λ y.
            let room : end_of prev + size ≤ u.hostid =
              ground (arith, e, gap_test (end_of prev) u.hostid (omega arith) (omega arith)) in
            (
              omega arith,
              (
                inl room,
                Apart-below (end_of prev) size (u.hostid + u.maprange) us (omega arith) s.3,
              ),
            ))
          (λ n. let (lo, rest) = scan_rest_lem u us s.1 s.3 in (omega arith, (inr lo, rest))))

  pub scan_lem :
      (offset : ℕ) (us : List Used)
      → offset < 2 ^ 34
      → Spread 0 us
      → All (Apart (where_to (scan size offset us)) size) us
  unfolding scan
  scan_lem offset [] h s = tt
  scan_lem offset (u ∷ us) h s =
      pick (λ r. All (Apart (where_to r) size) (u ∷ us)) (lt64 u.hostid (add64 offset size))
        (λ y. let (lo, rest) = scan_rest_lem u us s.1 s.3 in (inr lo, rest))
        (λ n.
          let room : offset + size ≤ u.hostid =
            ground (arith, n, below_test offset u.hostid h (omega arith)) in
          (inl room, Apart-below offset size (u.hostid + u.maprange) us (omega arith) s.3))
