-- ===== src/Schema/Ensure.antt =====
-- What Schema.Ensure leaves in the database.
use lxd_pkg_ubuntu.Text.{int_in_slice}
use lxd_pkg_ubuntu.Prelude.{
  ℕ, ◌≡◌, ◌∙◌, ap, refl, subst, true, List, [], ◌∷◌, ◌++◌, All, length, none, ok, bind-ok,
}
use lxd_pkg_ubuntu.Schema.{
  Error, Driver, Connection, Schema, Update, select, pending, fix_31, misses_31,
  ensure_updates_are_applied, ensure_schema_table_exists, ensure_steps, apply_missing, ensure,
}
use lxd_pkg_ubuntu.Schema.Transaction.{Transactions, transaction-IsAtomic}
use lxd_pkg_ubuntu.Schema.Rows.{from, put_row, Laws}
use lxd_pkg_ubuntu.Schema.Steps.{
  wrap-ok, fix_31-bad, table-rows, missing-rows, applied-rows, Acts, Looks, effects,
}

-- The versions that bad upgrades left.
abbrev pub without_31 : List ℕ
without_31 = from 1 30 ++ (32 ∷ [])

misses_31-without : misses_31 without_31 ≡ true
unfolding int_in_slice
misses_31-without = refl

put_row-31 : put_row 31 without_31 ≡ from 1 32
put_row-31 = refl

module _ {D R : Type 0} (drv : Driver D) (rows : D → List ℕ) (rest : D → R)
    (laws : Laws drv rows rest) (transactions : Transactions drv) (effect : Update D → R → R) where
  ensured-in_full :
      (s : Schema D) (c c' : Connection D)
      → ensure drv s c ≡ (c', none)
      → ensure_steps drv s c.stored ≡ ok c'.stored
  unfolding ensure
  ensured-in_full s c c' h =
      let whole = transaction-IsAtomic drv transactions (ensure_steps drv s) c in
      whole.in_full (ap (λ r. r.1) h) ∙ ap (λ r. ok r.0.stored) h

  -- For a driver as documented, updates that leave the schema table alone and a hook that changes
  -- nothing: when Ensure succeeds on a database with the versions 1 to k, the table then has exactly
  -- the versions 1 to the number of updates, and the rest of the database is what the updates after
  -- the k-th make of it, each run once and in order.
  pub ensure_applies :
      (s : Schema D) (k : ℕ) (c c' : Connection D)
      → Looks rows rest s.hook
      → All (Acts rows rest effect) s.updates
      → rows c.stored ≡ from 1 k
      → ensure drv s c ≡ (c', none)
      → (rows c'.stored ≡ from 1 (length s.updates))
        × (rest c'.stored ≡ effects effect (pending k s.updates) (rest c.stored))
  unfolding ensure
  ensure_applies s k c c' l acts r h =
      let d = c.stored in
      let e = c'.stored in
      let run : ensure_steps drv s d ≡ ok e = ensured-in_full s c c' h in
      let (d1, h1, k1) = bind-ok (ensure_schema_table_exists drv d) run in
      let (r1, s1) = table-rows drv rows rest laws effect d d1 h1 in
      let (r2, s2) = applied-rows drv rows rest laws effect s k d1 e l acts (r1 ∙ r) k1 in
      (r2, s2 ∙ ap (effects effect (pending k s.updates)) s1)

  -- For the same driver, updates and hook: when Ensure succeeds on a database whose versions are 1 to
  -- 30 and 32, the table then has exactly the versions 1 to the number of updates, and only the
  -- updates after the 32nd have been run.
  pub ensure_repairs :
      (s : Schema D) (c c' : Connection D)
      → Looks rows rest s.hook
      → All (Acts rows rest effect) s.updates
      → rows c.stored ≡ without_31
      → ensure drv s c ≡ (c', none)
      → (rows c'.stored ≡ from 1 (length s.updates))
        × (rest c'.stored ≡ effects effect (pending 32 s.updates) (rest c.stored))
  unfolding ensure ensure_updates_are_applied fix_31
  ensure_repairs s c c' l acts r h =
      let d = c.stored in
      let e = c'.stored in
      let run : ensure_steps drv s d ≡ ok e = ensured-in_full s c c' h in
      let (d1, h1, k1) = bind-ok (ensure_schema_table_exists drv d) run in
      let (r1, s1) = table-rows drv rows rest laws effect d d1 h1 in
      let (vs, h2, k2) = bind-ok (select drv d1) k1 in
      let read : vs ≡ without_31 =
        laws.selected d1 vs (wrap-ok Error.versions_unknown (drv.select_versions d1) vs h2)
        ∙ r1
        ∙ r in
      let bad : misses_31 vs ≡ true = ap misses_31 read ∙ misses_31-without in
      let (fixed, h5, k3) = bind-ok (fix_31 drv vs d1) k2 in
      let (h3, h4) = fix_31-bad drv vs d1 fixed bad h5 in
      let d2 = fixed.1 in
      let again = fixed.0 in
      let (r3, s3) =
        laws.inserted 31 d1 d2
          (wrap-ok Error.version_not_inserted (drv.insert_version 31 d1) d2 h3) in
      let whole : rows d2 ≡ from 1 32 = r3 ∙ ap (put_row 31) (r1 ∙ r) ∙ put_row-31 in
      let now : again ≡ from 1 32 =
        laws.selected d2 again (wrap-ok Error.versions_unknown (drv.select_versions d2) again h4)
        ∙ whole in
      let (r4, s4) =
        missing-rows drv rows rest laws effect s 32 d2 e l acts whole
          (subst (λ l. apply_missing drv s l d2 ≡ ok e) now k3) in
      (r4, s4 ∙ ap (effects effect (pending 32 s.updates)) (s3 ∙ s1))
