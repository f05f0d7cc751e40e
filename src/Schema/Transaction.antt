-- ===== src/Schema/Transaction.antt =====
-- What a transaction leaves behind (lxd/db/query/transaction.go).
use lxd_pkg_ubuntu.Prelude.{
  ◌≡◌, ◌≢◌, ◌⊎◌, ◌∙◌, ap, sym, subst, inl, inr, true, false, Option, none, some, Result, ok, err,
  Bool-cases, Result-cases,
}
use lxd_pkg_ubuntu.Schema.{
  Error, Driver, Connection, rollback, commit, transaction, not_begun, not_committed,
  not_rolled_back,
}

-- The calls of database/sql and SQLite on a connection: one that succeeds has done its work, and nothing
-- of a transaction that has not been committed is stored. Whether a transaction is still open after a
-- Commit or a Rollback that fails is left open.
pub record Transactions {D : Type 0} (driver : Driver D) : Type 0 where
  pub begun :
      (c : Connection D)
      → (driver.begin c).1 ≡ true
      → (driver.begin c).0 ≡ record { stored = c.stored; is_open = true }
  pub refused : (c : Connection D) → (driver.begin c).1 ≡ false → (driver.begin c).0 ≡ c
  pub rolled_back :
      (c : Connection D)
      → (driver.roll_back c).1 ≡ true
      → (driver.roll_back c).0 ≡ record { stored = c.stored; is_open = false }
  pub stuck :
      (c : Connection D) → (driver.roll_back c).1 ≡ false → (driver.roll_back c).0.stored ≡ c.stored
  pub committed :
      (tx : D) (c : Connection D)
      → (driver.commit tx c).1 ≡ true
      → (driver.commit tx c).0 ≡ record { stored = tx; is_open = false }
  pub lost :
      (tx : D) (c : Connection D)
      → (driver.commit tx c).1 ≡ false
      → (driver.commit tx c).0.stored ≡ c.stored

-- An error of the transaction itself.
pub data IsOfTransaction : Error → Type 0 where
  begin : IsOfTransaction not_begun
  commits : IsOfTransaction not_committed
  rolls_back : IsOfTransaction not_rolled_back

-- A function has been applied in full or not at all.
pub record IsAtomic {D : Type 0} (f : D → Result Error D) (c : Connection D)
    (r : Connection D × Option Error) : Type 0 where
  pub closed :
      c.is_open ≡ false
      → r.1 ≢ some not_committed
      → r.1 ≢ some not_rolled_back
      → r.0.is_open ≡ false
  pub in_full : r.1 ≡ none → f c.stored ≡ ok r.0.stored
  pub not_at_all : (x : Error) → r.1 ≡ some x → r.0.stored ≡ c.stored
  pub reason : (x : Error) → r.1 ≡ some x → (f c.stored ≡ err x) ⊎ IsOfTransaction x

module _ {D : Type 0} (drv : Driver D) (laws : Transactions drv) (f : D → Result Error D)
    (c : Connection D) where
  begun-same : (driver_begun : (drv.begin c).1 ≡ true) → (drv.begin c).0.stored ≡ c.stored
  begun-same y = ap (λ b. b.stored) (laws.begun c y)

  commit-IsAtomic :
      (tx : D) (b : Connection D)
      → b.stored ≡ c.stored
      → f c.stored ≡ ok tx
      → IsAtomic f c (commit drv tx b)
  unfolding commit
  commit-IsAtomic tx b e p = elim (Bool-cases (drv.commit tx b).1) [
    | inl y ↦
        let done = laws.committed tx b y in
        record {
          closed = λ _ _ _. ap (λ b. b.is_open) done;
          in_full = λ _. p ∙ sym (ap (λ b. ok b.stored) done);
          not_at_all = λ x h. cc (y, h);
          reason = λ x h. cc (y, h);
        }
    | inr n ↦ record {
      closed = λ _ h _. absurd (h (lost_here n));
      in_full = λ h. cc (n, h);
      not_at_all = λ x h. laws.lost tx b n ∙ e;
      reason = λ x h. inr (subst IsOfTransaction (lost_as x n h) commits);
    }
  ]
    where
      lost_here : (drv.commit tx b).1 ≡ false → (commit drv tx b).1 ≡ some not_committed
      lost_here n = cc n

      lost_as :
          (x : Error)
          → (drv.commit tx b).1 ≡ false
          → (commit drv tx b).1 ≡ some x
          → not_committed ≡ x
      lost_as x n h = cc (n, h)

  rollback-IsAtomic :
      (x : Error) (b : Connection D)
      → b.stored ≡ c.stored
      → f c.stored ≡ err x
      → IsAtomic f c (rollback drv b x)
  unfolding rollback
  rollback-IsAtomic x b e p = elim (Bool-cases (drv.roll_back b).1) [
    | inl y ↦
        let done = laws.rolled_back b y in
        record {
          closed = λ _ _ _. ap (λ b. b.is_open) done;
          in_full = λ h. absurd (fails h);
          not_at_all = λ y h. ap (λ b. b.stored) done ∙ e;
          reason = λ z h. inl (cc (y, h, p));
        }
    | inr n ↦ record {
      closed = λ _ _ h. absurd (h (stuck_here n));
      in_full = λ h. absurd (fails h);
      not_at_all = λ y h. laws.stuck b n ∙ e;
      reason = λ y h. inr (subst IsOfTransaction (stuck_as y n h) rolls_back);
    }
  ]
    where
      stuck_here : (drv.roll_back b).1 ≡ false → (rollback drv b x).1 ≡ some not_rolled_back
      stuck_here n = cc n

      fails : (rollback drv b x).1 ≡ none → ⊥
      fails h = cc h

      stuck_as :
          (y : Error)
          → (drv.roll_back b).1 ≡ false
          → (rollback drv b x).1 ≡ some y
          → not_rolled_back ≡ y
      stuck_as y n h = cc (n, h)

  refused-IsAtomic : (drv.begin c).1 ≡ false → IsAtomic f c ((drv.begin c).0, some not_begun)
  refused-IsAtomic n =
      let same = laws.refused c n in
      record {
        closed = λ h _ _. ap (λ b. b.is_open) same ∙ h;
        in_full = λ h. cc h;
        not_at_all = λ x h. ap (λ b. b.stored) same;
        reason = λ x h. inr (subst IsOfTransaction (named x h) begin);
      }
    where
      named : (x : Error) → some not_begun ≡ some x → not_begun ≡ x
      named x h = cc h

  pub transaction-IsAtomic : IsAtomic f c (transaction drv f c)
  unfolding transaction
  transaction-IsAtomic = elim (Bool-cases (drv.begin c).1) [
    | inl y ↦
        let same = begun-same y in
        elim (Result-cases (f (drv.begin c).0.stored)) [
          | inl (tx, p) ↦
              subst (IsAtomic f c) (in_order tx y p)
                (commit-IsAtomic tx (drv.begin c).0 same (ap f (sym same) ∙ p))
          | inr (x, p) ↦
              subst (IsAtomic f c) (undone x y p)
                (rollback-IsAtomic x (drv.begin c).0 same (ap f (sym same) ∙ p))
        ]
    | inr n ↦ subst (IsAtomic f c) (cc n) (refused-IsAtomic n)
  ]
    where
      in_order :
          (tx : D)
          → (drv.begin c).1 ≡ true
          → f (drv.begin c).0.stored ≡ ok tx
          → commit drv tx (drv.begin c).0 ≡ transaction drv f c
      in_order tx y p = cc (y, p)

      undone :
          (x : Error)
          → (drv.begin c).1 ≡ true
          → f (drv.begin c).0.stored ≡ err x
          → rollback drv (drv.begin c).0 x ≡ transaction drv f c
      undone x y p = cc (y, p)
