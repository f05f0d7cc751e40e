-- ===== src/Startup/Retry.antt =====
-- The loops that repeat a call of the database while it is locked (`Begin`, `TxCommit`, `dbQuery`,
-- `dbQueryRowScan`, `QueryScan` and `Exec`, lxd/db/db.go).
use lxd_pkg_ubuntu.Prelude.{
  ℕ, zero, suc, ◌+◌, ◌<◌, ◌≡◌, ◌≢◌, ◌⊎◌, ◌∙◌, ap, refl, inl, inr, arith, Bool, true, false, Result,
  ok, err,
}

-- The errors, as the loops tell them apart.
pub data DbError : Type 0 where
  is_locked : DbError
  no_match : DbError
  failed : DbError
  gave_up : DbError

-- `IsDbLockedError`
abbrev pub is_db_locked : DbError → Bool
is_db_locked is_locked = true
is_db_locked _ = false

-- `n` rounds of the loop: the i-th call of the database answers `call i`. The check for no match in
-- dbQueryRowScan returns the error that the next check would return.
unfoldable pub retry : {A : Type 0} → (n : ℕ) → (call : ℕ → Result DbError A) → ℕ → Result DbError A
retry zero call i = err gave_up
retry (suc n) call i =
    let rest = retry n call (i + 1) in
    elim (call i) [ ok a ↦ ok a | err is_locked ↦ rest | err e ↦ err e ]

-- The first of the n calls from i on that does not find the database locked.
pub record First {A : Type 0} (n : ℕ) (call : ℕ → Result DbError A) (i : ℕ) (r : Result DbError A)
    : Type 0 where
  pub at : ℕ
  pub within : at < n
  pub answer : call (i + at) ≡ r
  pub unlocked : r ≢ err is_locked
  pub before : (j : ℕ) → j < at → call (i + j) ≡ err is_locked

abbrev pub AllLocked : {A : Type 0} → (n : ℕ) → (call : ℕ → Result DbError A) → ℕ → Type 0
AllLocked n call i = (j : ℕ) → j < n → call (i + j) ≡ err is_locked

-- A loop answers as the first of its calls that does not find the database locked; if all of them do,
-- it gives up.
pub retry_lem :
    {A : Type 0} (n : ℕ) (call : ℕ → Result DbError A) (i : ℕ)
    → First n call i (retry n call i) ⊎ (AllLocked n call i × (retry n call i ≡ err gave_up))
unfolding retry
retry_lem {A = A} zero call i = inr (λ j h. absurd (omega (arith, h)), refl)
retry_lem {A = A} (suc n) call i = by_answer (call i) refl (retry_lem n call (i + 1))
  where
    here : (r : Result DbError A) → call i ≡ r → r ≢ err is_locked → First (suc n) call i r
    here r e u = record {
      at = 0;
      within = omega arith;
      answer = ap call (omega arith) ∙ e;
      unlocked = u;
      before = λ j h. absurd (omega (arith, h));
    }

    by_answer :
        (r : Result DbError A)
        → call i ≡ r
        → First n call (i + 1) (retry n call (i + 1))
          ⊎ (AllLocked n call (i + 1) × (retry n call (i + 1) ≡ err gave_up))
        → First (suc n) call i (elim r as (λ _. Result DbError A) [
          | ok a ↦ ok a
          | err is_locked ↦ retry n call (i + 1)
          | err e ↦ err e
        ])
          ⊎ (AllLocked (suc n) call i
              × (elim r as (λ _. Result DbError A) [
                | ok a ↦ ok a
                | err is_locked ↦ retry n call (i + 1)
                | err e ↦ err e
              ]
                  ≡ err gave_up))
    by_answer (ok a) e rest = inl (here (ok a) e (λ q. cc q))
    by_answer (err no_match) e rest = inl (here _ e (λ q. cc q))
    by_answer (err failed) e rest = inl (here _ e (λ q. cc q))
    by_answer (err gave_up) e rest = inl (here _ e (λ q. cc q))
    by_answer (err is_locked) e (inl f) = inl (record {
      at = suc f.at;
      within = omega (arith, f.within);
      answer = ap call (omega arith) ∙ f.answer;
      unlocked = f.unlocked;
      before = later f.before;
    })
      where
        later :
            ((j : ℕ) → j < f.at → call (i + 1 + j) ≡ err is_locked)
            → (j : ℕ) → j < suc f.at
            → call (i + j) ≡ err is_locked
        later g zero h = ap call (omega arith) ∙ e
        later g (suc j) h = ap call (omega arith) ∙ g j (omega (arith, h))
    by_answer (err is_locked) e (inr (all, up)) = inr (later all, up)
      where
        later : AllLocked n call (i + 1) → AllLocked (suc n) call i
        later g zero h = ap call (omega arith) ∙ e
        later g (suc j) h = ap call (omega arith) ∙ g j (omega (arith, h))
