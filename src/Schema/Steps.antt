-- ===== src/Schema/Steps.antt =====
-- The steps of Schema.Ensure that succeed: what each leaves in the schema table and in the rest.
use lxd_pkg_ubuntu.Prelude.{
  true, ℕ, zero, suc, ◌+◌, ◌≤◌, ◌≡◌, ◌∙◌, sym, ap, inl, inr, refl, subst, arith, false, ◌==◌, ltb,
  List, [], ◌∷◌, All, length, Option, none, some, Result, ok, err, bind-ok, Bool-cases,
  Result-cases,
}
use lxd_pkg_ubuntu.Schema.{
  Error, Driver, Schema, Update, Hook, hook_failed, wrap, run_hook, select, insert, apply_updates,
  pending, fix_31, apply_missing, misses_31, does_schema_table_exist, ensure_updates_are_applied,
  ensure_schema_table_exists,
}
use lxd_pkg_ubuntu.Schema.Rows.{
  from, put_row, Laws, put_row-from, misses_31-from, current_version-from,
}

pub wrap-ok : {A : Type 0} (e : Error) (r : Result Error A) (a : A) → wrap e r ≡ ok a → r ≡ ok a
wrap-ok e (ok b) a h = h
wrap-ok e (err f) a h = cc h

-- What an update does to the rest of the database, and that it leaves the schema table alone.
abbrev pub Acts : {D R : Type 0} → (D → List ℕ) → (D → R) → (Update D → R → R) → Update D → Type 0
Acts {D} rows rest effect u =
    (d e : D) → u d ≡ ok e → (rows e ≡ rows d) × (rest e ≡ effect u (rest d))

-- The hook leaves the database alone.
abbrev pub Looks : {D R : Type 0} → (D → List ℕ) → (D → R) → Option (Hook D) → Type 0
Looks rows rest none = Unit
Looks {D} rows rest (some hook) =
    (n : ℕ) (d e : D) → hook n d ≡ ok e → (rows e ≡ rows d) × (rest e ≡ rest d)

-- The effects of updates, one after the other.
abbrev pub effects : {D R : Type 0} → (Update D → R → R) → List (Update D) → R → R
effects effect [] r = r
effects effect (u ∷ us) r = effects effect us (effect u r)

pending-All : {A : Type 0} (P : A → Type 0) (n : ℕ) (l : List A) → All P l → All P (pending n l)
unfolding pending
pending-All P zero l h = h
pending-All P (suc n) [] h = tt
pending-All P (suc n) (x ∷ l) h = pending-All P n l h.1

pending-empty : {A : Type 0} (n : ℕ) (l : List A) → length l ≡ 0 → pending n l ≡ []
unfolding pending
pending-empty zero [] h = refl
pending-empty (suc n) [] h = refl
pending-empty zero (x ∷ l) h = ground arith
pending-empty (suc n) (x ∷ l) h = ground arith

length-pending :
    {A : Type 0} (n : ℕ) (l : List A) → n ≤ length l → n + length (pending n l) ≡ length l
unfolding pending
length-pending zero l h = omega arith
length-pending (suc n) [] h = omega arith
length-pending (suc n) (x ∷ l) h = omega (arith, length-pending n l (omega arith))

pending-all : {A : Type 0} (l : List A) → pending (length l) l ≡ []
unfolding pending
pending-all [] = refl
pending-all (x ∷ l) = pending-all l

-- With every version recorded there is nothing left to do.
pub missing-none :
    {D : Type 0} (drv : Driver D) (s : Schema D) (d : D)
    → apply_missing drv s (from 1 (length s.updates)) d ≡ ok d
unfolding apply_missing apply_updates
missing-none drv s d =
    let now = current_version-from (length s.updates) in
    let fits : ltb (length s.updates) (length s.updates) ≡ false = ground arith in
    let over = pending-all s.updates in
    elim (Bool-cases (length s.updates == 0)) [
      | inl y ↦ cc (now, fits, over, y)
      | inr n ↦ cc (now, fits, over, n)
    ]

-- The fix inserts version 31 and reads the versions again.
pub fix_31-bad :
    {D : Type 0} (drv : Driver D) (vs : List ℕ) (d : D) (fixed : List ℕ × D)
    → misses_31 vs ≡ true
    → fix_31 drv vs d ≡ ok fixed
    → (insert drv 31 d ≡ ok fixed.1) × (select drv fixed.1 ≡ ok fixed.0)
unfolding fix_31
fix_31-bad drv vs d fixed bad h = elim (Result-cases (insert drv 31 d)) [
  | inl (a, p) ↦ elim (Result-cases (select drv a)) [
    | inl (again, q) ↦ (cc (h, bad, p, q), cc (h, bad, p, q))
    | inr (x, q) ↦ cc (h, bad, p, q)
  ]
  | inr (x, p) ↦ cc (h, bad, p)
]

module _ {D R : Type 0} (drv : Driver D) (rows : D → List ℕ) (rest : D → R)
    (laws : Laws drv rows rest) (effect : Update D → R → R) where
  hook-keeps :
      (hook : Option (Hook D)) (n : ℕ) (d e : D)
      → Looks rows rest hook
      → run_hook hook n d ≡ ok e
      → (rows e ≡ rows d) × (rest e ≡ rest d)
  hook-keeps none n d e l h = (cc h, cc h)
  hook-keeps (some hook) n d e l h = l n d e (wrap-ok hook_failed (hook n d) e h)

  -- The loop over updates records each of them.
  apply_updates-rows :
      (hook : Option (Hook D)) (us : List (Update D)) (c : ℕ) (d e : D)
      → Looks rows rest hook
      → All (Acts rows rest effect) us
      → rows d ≡ from 1 c
      → apply_updates drv hook c us d ≡ ok e
      → (rows e ≡ from 1 (c + length us)) × (rest e ≡ effects effect us (rest d))
  unfolding apply_updates
  apply_updates-rows hook [] c d e l acts r h =
      let same : d ≡ e = cc h in
      (ap rows (sym same) ∙ r ∙ ap (from 1) (omega arith), ap rest (sym same))
  apply_updates-rows hook (u ∷ us) c d e l acts r h =
      let (d1, h1, k1) = bind-ok (run_hook hook c d) h in
      let (d2, h2, k2) = bind-ok (wrap Error.update_failed (u d1)) k1 in
      let (d3, h3, k3) = bind-ok (insert drv (suc c) d2) k2 in
      let (r1, s1) = hook-keeps hook c d d1 l h1 in
      let (r2, s2) = acts.0 d1 d2 (wrap-ok _ (u d1) d2 h2) in
      let (r3, s3) =
        laws.inserted (suc c) d2 d3 (wrap-ok _ (drv.insert_version (suc c) d2) d3 h3) in
      let now : rows d3 ≡ from 1 (suc c) =
        r3 ∙ ap (put_row (suc c)) (r2 ∙ r1 ∙ r) ∙ put_row-from (suc c) 1 c (omega arith) in
      let (r4, s4) = apply_updates-rows hook us (suc c) d3 e l acts.1 now k3 in
      (r4 ∙ ap (from 1) (omega arith), s4 ∙ ap (effects effect us) (s3 ∙ s2 ∙ ap (effect u) s1))

  pub table-rows :
      (d e : D) → ensure_schema_table_exists drv d ≡ ok e → (rows e ≡ rows d) × (rest e ≡ rest d)
  unfolding ensure_schema_table_exists
  table-rows d e h =
      let (b, h1, k1) = bind-ok (wrap Error.table_unknown (does_schema_table_exist drv d)) h in
      elim (Bool-cases b) [
        | inl y ↦ let same : d ≡ e = cc (k1, y) in (ap rows (sym same), ap rest (sym same))
        | inr n ↦
            laws.created d e (wrap-ok Error.table_not_created (drv.create_table d) e (cc (k1, n)))
      ]

  missing-apply :
      (s : Schema D) (k : ℕ) (d e : D)
      → apply_missing drv s (from 1 k) d ≡ ok e
      → (k ≤ length s.updates) × (apply_updates drv s.hook k (pending k s.updates) d ≡ ok e)
  unfolding apply_missing apply_updates
  missing-apply s k d e h = elim (Bool-cases (ltb (length s.updates) k)) [
    | inl y ↦ cc (h, current_version-from k, y)
    | inr n ↦ elim (Bool-cases (length s.updates == 0)) [
      | inl z ↦
          let empty : pending k s.updates ≡ [] = pending-empty k s.updates (ground arith) in
          (ground arith, cc (h, current_version-from k, n, z, empty))
      | inr z ↦ (ground arith, cc (h, current_version-from k, n, z))
    ]
  ]

  pub missing-rows :
      (s : Schema D) (k : ℕ) (d e : D)
      → Looks rows rest s.hook
      → All (Acts rows rest effect) s.updates
      → rows d ≡ from 1 k
      → apply_missing drv s (from 1 k) d ≡ ok e
      → (rows e ≡ from 1 (length s.updates))
        × (rest e ≡ effects effect (pending k s.updates) (rest d))
  unfolding apply_missing
  missing-rows s k d e l acts r h =
      let (fits, run) = missing-apply s k d e h in
      let (recorded, done) =
        apply_updates-rows s.hook (pending k s.updates) k d e l
          (pending-All (Acts rows rest effect) k s.updates acts) r run in
      (recorded ∙ ap (from 1) (length-pending k s.updates fits), done)

  pub applied-rows :
      (s : Schema D) (k : ℕ) (d e : D)
      → Looks rows rest s.hook
      → All (Acts rows rest effect) s.updates
      → rows d ≡ from 1 k
      → ensure_updates_are_applied drv s d ≡ ok e
      → (rows e ≡ from 1 (length s.updates))
        × (rest e ≡ effects effect (pending k s.updates) (rest d))
  unfolding ensure_updates_are_applied fix_31
  applied-rows s k d e l acts r h =
      let (vs, h1, k1) = bind-ok (select drv d) h in
      let read : vs ≡ from 1 k = laws.selected d vs (wrap-ok _ (drv.select_versions d) vs h1) ∙ r in
      let unfixed : misses_31 vs ≡ false = ap misses_31 read ∙ misses_31-from k in
      let k2 : apply_missing drv s vs d ≡ ok e = cc (k1, unfixed) in
      missing-rows s k d e l acts r (subst (λ l. apply_missing drv s l d ≡ ok e) read k2)
