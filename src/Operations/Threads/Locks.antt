-- ===== src/Operations/Threads/Locks.antt =====
-- The lock of an operation (`op.lock` of lxd/operations.go). A thread waits for it, has its locked part
-- done, and gives it back, each as a step of its own; what reads without the lock may come in between.
-- The locked part of the goroutine of `Run` that only logs is left out.
pub mod Places
pub mod Refines
pub mod Free
use lxd_pkg_ubuntu.Prelude.{
  ℕ, ◌≡◌, Bool, true, false, suc, if◌then◌else◌, Option, none, some, List, [], ◌∷◌, ◌++◌, map,
}
use lxd_pkg_ubuntu.Operations.Operation.{Operation}
use lxd_pkg_ubuntu.Operations.Threads.{
  Thread, Outcome, advance, run_lock, run_succeeded, run_failed, done_lock, cancel_lock, cancel_end,
  cancel_failed, cancel_succeeded, update_lock,
}

-- Where a thread stands: outside of the locked parts, in one before its work is done, or in one before
-- `Unlock`, with what follows after it.
pub data Place (M : Type 0) : Type 0 where
  outside inside : Thread M → Place M
  leaving : List (Thread M) → Place M

module _ {M : Type 0} where
  -- The next step of the thread begins with `op.lock.Lock()`.
  unfoldable pub takes_lock : Operation M → Thread M → Bool
  takes_lock op run_lock = true
  takes_lock op run_succeeded = true
  takes_lock op (run_failed e) = true
  takes_lock op done_lock = true
  takes_lock op cancel_lock = true
  takes_lock op cancel_end = if op.on_cancel then false else true
  takes_lock op (cancel_failed old) = true
  takes_lock op cancel_succeeded = true
  takes_lock op (update_lock now u) = true
  takes_lock op _ = false

  -- `Run` starts its goroutine before it gives the lock back; all else follows after that.
  unfoldable pub after_work : Thread M → List (Thread M) → List (Place M)
  after_work run_lock ts = leaving [] ∷ map outside ts
  after_work _ ts = leaving ts ∷ []

  -- One step of a thread, with whether the lock is held; `none` is a thread that has to wait.
  unfoldable pub go :
      Place M → Outcome → Bool → Operation M → Option (Operation M × Bool × List (Place M))
  unfolding takes_lock after_work
  go (outside t) o held op =
      if takes_lock op t
      then (if held then none else some (op, true, inside t ∷ []))
      else some ((advance t o op).0, held, map outside (advance t o op).1)
  go (inside t) o held op = some ((advance t o op).0, held, after_work t (advance t o op).1)
  go (leaving ts) o held op = some (op, false, map outside ts)

-- An operation, its lock, and the threads on it.
pub record Locked (M : Type 0) : Type 0 where
  pub op : Operation M
  pub held : Bool
  pub places : List (Place M)

module _ {M : Type 0} where
  -- Some thread that need not wait makes a step.
  pub data Turn (w v : Locked M) : Type 0 where
    turn :
        (before after : List (Place M)) (p : Place M) (o : Outcome)
        (r : Operation M × Bool × List (Place M))
        → w.places ≡ before ++ p ∷ after
        → go p o w.held w.op ≡ some r
        → v ≡ record { op = r.0; held = r.1; places = before ++ r.2 ++ after }
        → Turn w v
