-- ===== src/Operations/Threads.antt =====
-- What runs at the same time on one operation (lxd/operations.go): the calls of `Run`, `Cancel`,
-- `UpdateResources` and `UpdateMetadata`, the goroutines that call the hooks, and `done`. A thread is
-- the place where a call or a goroutine stands; one step of it is one read, or one locked part, of
-- the code, and between two steps any other thread may come. Locks has the lock itself.
pub mod Invariant
pub mod Races
pub mod Alone
pub mod Ending
pub mod Locks
use Prim.Native.String.{String}
use lxd_pkg_ubuntu.Prelude.{
  ℕ, ◌≡◌, Bool, true, false, not, suc, zero, if◌then◌else◌, Option, none, some, List, [], ◌∷◌, ◌++◌,
  ok, err, Result,
}
use lxd_pkg_ubuntu.Operations.Status.{
  StatusCode, pending, running, cancelling, success, failure, cancelled, status_eq,
}
use lxd_pkg_ubuntu.Operations.Operation.{
  Operation, Canceler, Resources, cancelable, cancel_requests, close_done, may_cancel, updatable,
}

-- What an update writes.
pub data Update (M : Type 0) : Type 0 where
  to_resources : Option Resources → Update M
  to_metadata : M → Update M

pub data Thread (M : Type 0) : Type 0 where
  -- `Run`: before its test, and before its locked part
  run_test run_lock : Thread M
  -- the goroutine of `Run`: before it reads the hook, in the hook, and after it
  run_call run_hook run_succeeded : Thread M
  run_failed : String → Thread M
  -- `done`: before its test, and before its locked part
  done_test done_lock : Thread M
  -- `Cancel`: before each of its tests, before its locked part, before it starts the goroutine with
  -- `oldStatus`, before the canceler is called, and before the last test
  cancel_test cancel_may cancel_lock : Thread M
  cancel_spawn : StatusCode → Thread M
  cancel_canceler cancel_end : Thread M
  -- the goroutine of `Cancel`: before it reads the hook, in the hook, and after it
  cancel_call cancel_hook cancel_failed : StatusCode → Thread M
  cancel_succeeded : Thread M
  -- the updates: before each test, and before the locked part
  update_test update_readonly update_lock : ℕ → Update M → Thread M
  -- a call of a nil hook, or a second close of `chanDone`
  panicked : Thread M

-- What a hook returns.
pub data Outcome : Type 0 where
  fine : Outcome
  failed : String → Outcome

module _ {M : Type 0} where
  abbrev pub write : ℕ → Update M → Operation M → Operation M
  write now (to_resources r) op = record op { updated_at = now; resources = r }
  write now (to_metadata m) op = record op { updated_at = now; metadata = m }

  -- `op.canceler.Cancel()`: the error ends the call.
  abbrev pub call_canceler : Operation M → Option Canceler → Operation M × List (Thread M)
  call_canceler op none = (op, cancel_end ∷ [])
  call_canceler op (some c) = elim (cancel_requests c) [
    | ok c' ↦ (record op { canceler = some c' }, cancel_end ∷ [])
    | err _ ↦ (op, [])
  ]

  -- One step of a thread: the operation after it, and what goes on in the thread's place.
  unfoldable pub advance : Thread M → Outcome → Operation M → Operation M × List (Thread M)
  unfolding cancel_requests
  advance run_test o op = (op, if status_eq op.status pending then run_lock ∷ [] else [])
  advance run_lock o op = (record op { status = running }, if op.on_run then run_call ∷ [] else [])
  advance run_call o op = (op, if op.on_run then run_hook ∷ [] else panicked ∷ [])
  advance run_hook fine op = (op, run_succeeded ∷ [])
  advance run_hook (failed e) op = (op, run_failed e ∷ [])
  advance run_succeeded o op = (record op { status = success }, done_test ∷ [])
  advance (run_failed e) o op = (record op { status = failure; fault = some e }, done_test ∷ [])
  advance done_test o op = (op, if op.readonly then [] else done_lock ∷ [])
  advance done_lock o op = (close_done op, elim op.closes [ zero ↦ [] | suc _ ↦ panicked ∷ [] ])
  advance cancel_test o op = (op, if status_eq op.status running then cancel_may ∷ [] else [])
  advance cancel_may o op = (op, if may_cancel op then cancel_lock ∷ [] else [])
  advance cancel_lock o op = (record op { status = cancelling }, cancel_spawn op.status ∷ [])
  advance (cancel_spawn old) o op =
      (op, if op.on_cancel then cancel_call old ∷ cancel_canceler ∷ [] else cancel_canceler ∷ [])
  advance cancel_canceler o op = call_canceler op op.canceler
  advance cancel_end o op =
      if op.on_cancel then (op, []) else (record op { status = cancelled }, done_test ∷ [])
  advance (cancel_call old) o op =
      (op, if op.on_cancel then cancel_hook old ∷ [] else panicked ∷ [])
  advance (cancel_hook old) fine op = (op, cancel_succeeded ∷ [])
  advance (cancel_hook old) (failed e) op = (op, cancel_failed old ∷ [])
  advance (cancel_failed old) o op = (record op { status = old }, [])
  advance cancel_succeeded o op = (record op { status = cancelled }, done_test ∷ [])
  advance (update_test now u) o op = (op, if updatable op then update_readonly now u ∷ [] else [])
  advance (update_readonly now u) o op = (op, if op.readonly then [] else update_lock now u ∷ [])
  advance (update_lock now u) o op = (write now u op, [])
  advance panicked o op = (op, [])

pub record World (M : Type 0) : Type 0 where
  pub op : Operation M
  pub threads : List (Thread M)

module _ {M : Type 0} where
  -- Some thread makes a step.
  pub data Move (w v : World M) : Type 0 where
    move :
        (before after : List (Thread M)) (t : Thread M) (o : Outcome)
        → w.threads ≡ before ++ t ∷ after
        → v
          ≡ record { op = (advance t o w.op).0; threads = before ++ (advance t o w.op).1 ++ after }
        → Move w v

  -- A call of a method.
  pub data IsCall : Thread M → Type 0 where
    run : IsCall run_test
    cancel : IsCall cancel_test
    update : (now : ℕ) (u : Update M) → IsCall (update_test now u)

  -- A step of a thread, a new call, or a download that begins or ends.
  pub data Step (w v : World M) : Type 0 where
    go : Move w v → Step w v
    call : (t : Thread M) → IsCall t → v ≡ record w { threads = t ∷ w.threads } → Step w v
    download : (c : Option Canceler) → v ≡ record w { op = record w.op { canceler = c } } → Step w v

  pub data Reach (w : World M) : World M → Type 0 where
    here : Reach w w
    next : {v u : World M} → Reach w v → Step v u → Reach w u
