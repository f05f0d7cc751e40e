-- ===== src/Schema/Failure.antt =====
-- Schema.Ensure where there is an error, and where there is nothing to do.
use lxd_pkg_ubuntu.Prelude.{◌≡◌, ap, ◌∙◌, false, true, [], ◌∷◌, length, none, Result, ok}
use lxd_pkg_ubuntu.Schema.{
  Error, Driver, Connection, Schema, commit, fix_31, does_schema_table_exist,
  ensure_schema_table_exists, ensure_updates_are_applied, ensure_steps, transaction, ensure,
}
use lxd_pkg_ubuntu.Schema.Transaction.{Transactions}
use lxd_pkg_ubuntu.Schema.Rows.{from, misses_31-from}
use lxd_pkg_ubuntu.Schema.Steps.{missing-none}

module _ {D : Type 0} (drv : Driver D) (transactions : Transactions drv) where
  nothing_done :
      (f : D → Result Error D) (c : Connection D)
      → (drv.begin c).1 ≡ true
      → (drv.commit c.stored (drv.begin c).0).1 ≡ true
      → f c.stored ≡ ok c.stored
      → transaction drv f c ≡ (record c { is_open = false }, none)
  unfolding transaction commit
  nothing_done f c begun done p =
      let same = ap (λ b. b.stored) (transactions.begun c begun) in
      let kept = transactions.committed c.stored (drv.begin c).0 done in
      let run = ap f same ∙ p in cc (begun, done, kept, run)

  table-there : (d : D) → drv.count_tables d ≡ ok (1 ∷ []) → ensure_schema_table_exists drv d ≡ ok d
  unfolding ensure_schema_table_exists does_schema_table_exist
  table-there d h = cc h

  -- On a database that has the versions 1 to the number of updates, read without an error and in a
  -- transaction that begins and commits, Ensure succeeds and changes nothing.
  pub ensure_again :
      (s : Schema D) (c : Connection D)
      → drv.count_tables c.stored ≡ ok (1 ∷ [])
      → drv.select_versions c.stored ≡ ok (from 1 (length s.updates))
      → (drv.begin c).1 ≡ true
      → (drv.commit c.stored (drv.begin c).0).1 ≡ true
      → ensure drv s c ≡ (record c { is_open = false }, none)
  unfolding ensure ensure_updates_are_applied fix_31
  ensure_again s c there read begun done =
      let table = table-there c.stored there in
      let whole = misses_31-from (length s.updates) in
      let none_left = missing-none drv s c.stored in
      nothing_done (ensure_steps drv s) c begun done (cc (table, read, whole, none_left))
