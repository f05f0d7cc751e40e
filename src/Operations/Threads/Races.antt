-- ===== src/Operations/Threads/Races.antt =====
-- Interleavings of `Run` and `Cancel` in which the code goes wrong. `done` tests `op.readonly` before
-- it takes the lock, and the goroutine of `Cancel` puts the old status back whatever has come between.
use Prim.Native.String.{String}
use mathlib.Core.List.{Memᴰ}
use lxd_pkg_ubuntu.Prelude.{◌≡◌, refl, sym, true, false, arith, List, [], ◌∷◌, ◌++◌, none}
use lxd_pkg_ubuntu.Operations.Status.{
  StatusCode, running, cancelling, success, cancelled, status_eq,
}
use lxd_pkg_ubuntu.Operations.Operation.{Operation, close_done, may_cancel}
use lxd_pkg_ubuntu.Operations.Threads.{
  Thread, Outcome, fine, failed, advance, World, move, go, Reach, here, next, panicked, run_hook,
  run_succeeded, done_test, done_lock, cancel_test, cancel_may, cancel_lock, cancel_spawn,
  cancel_canceler, cancel_end, cancel_call, cancel_hook, cancel_failed, cancel_succeeded,
}

module _ {M : Type 0} where
  abbrev world : Operation M → List (Thread M) → World M
  world op threads = record { op = op; threads = threads }

  -- One more step, of the thread between `before` and `after`.
  then_step :
      {w : World M} (op op' : Operation M) (before after : List (Thread M)) (t : Thread M)
      (o : Outcome) (ts : List (Thread M))
      → Reach w (world op (before ++ t ∷ after))
      → advance t o op ≡ (op', ts)
      → Reach w (world op' (before ++ ts ++ after))
  then_step op op' before after t o ts r e = next r (go (move before after t o refl (sym (rw e))))

  -- The state that the races begin in.
  pub record IsRunning (op : Operation M) : Type 0 where
    pub is_running : op.status ≡ running
    pub can_cancel : op.on_cancel ≡ true
    pub unsettled : op.readonly ≡ false
    pub never_closed : op.closes ≡ 0

  abbrev in_cancel : Operation M → Operation M
  in_cancel op = record op { status = cancelling }

  module _ (op : Operation M) (h : IsRunning op) (first : Thread M) where
    -- `Cancel` up to its hook, beside another thread.
    to_cancel_hook :
        Reach
          (world op (first ∷ cancel_test ∷ []))
          (world (in_cancel op) (first ∷ cancel_hook running ∷ cancel_canceler ∷ []))
    unfolding advance may_cancel status_eq
    to_cancel_hook =
        let a =
          then_step op op (first ∷ []) [] cancel_test fine (cancel_may ∷ []) here (ground arith) in
        let b =
          then_step op op (first ∷ []) [] cancel_may fine (cancel_lock ∷ []) a (ground arith) in
        let c =
          then_step op (in_cancel op) (first ∷ []) [] cancel_lock fine (cancel_spawn running ∷ []) b
            (ground arith) in
        let d =
          then_step (in_cancel op) (in_cancel op) (first ∷ []) [] (cancel_spawn running) fine
            (cancel_call running ∷ cancel_canceler ∷ []) c (ground arith) in
        then_step (in_cancel op) (in_cancel op) (first ∷ []) (cancel_canceler ∷ [])
          (cancel_call running) fine (cancel_hook running ∷ []) d (ground arith)

    abbrev after_done : StatusCode → Operation M
    after_done st = close_done (record op { status = st })

    -- A thread at the test of `done`, on an operation that is not read-only.
    done_passes :
        (st : StatusCode)
        → advance done_test fine (record op { status = st })
          ≡ (record op { status = st }, done_lock ∷ [])
    unfolding advance
    done_passes st = ground arith

    done_closes :
        (st : StatusCode) → advance done_lock fine (record op { status = st }) ≡ (after_done st, [])
    unfolding advance
    done_closes st = ground arith

    done_again :
        (st : StatusCode)
        → advance done_lock fine (after_done st) ≡ (close_done (after_done st), panicked ∷ [])
    unfolding advance close_done
    done_again st = refl

module _ {M : Type 0} (op : Operation M) (h : IsRunning op) where
  abbrev at : StatusCode → Operation M
  at st = record op { status = st }

  -- Both goroutines have written their status and stand before the test of `done`.
  both_done :
      Reach
        (world op (run_hook ∷ cancel_test ∷ []))
        (world (at cancelled) (done_test ∷ done_test ∷ cancel_canceler ∷ []))
  unfolding advance
  both_done =
      let a =
        then_step (at cancelling) (at cancelling) (run_hook ∷ []) (cancel_canceler ∷ [])
          (cancel_hook running) fine (cancel_succeeded ∷ []) (to_cancel_hook op h run_hook) refl in
      let b =
        then_step (at cancelling) (at cancelling) [] (cancel_succeeded ∷ cancel_canceler ∷ [])
          run_hook fine (run_succeeded ∷ []) a refl in
      let c =
        then_step (at cancelling) (at success) [] (cancel_succeeded ∷ cancel_canceler ∷ [])
          run_succeeded fine (done_test ∷ []) b refl in
      then_step (at success) (at cancelled) (done_test ∷ []) (cancel_canceler ∷ []) cancel_succeeded
        fine (done_test ∷ []) c refl

-- The goroutines of `Run` and of `Cancel` can both pass the test of `done` before either takes the
-- lock: whatever the running operation is, `chanDone` is then closed twice, which panics.
pub double_close :
    {M : Type 0} (op : Operation M)
    → IsRunning op
    → (v : World M) × Reach (record { op = op; threads = run_hook ∷ cancel_test ∷ [] }) v
      × Memᴰ panicked v.threads
      × (v.op.closes ≡ 2)
unfolding close_done
double_close op h =
    let a =
      then_step (at op h cancelled) (at op h cancelled) [] (done_test ∷ cancel_canceler ∷ [])
        done_test fine (done_lock ∷ []) (both_done op h) (done_passes op h run_hook cancelled) in
    let b =
      then_step (at op h cancelled) (at op h cancelled) (done_lock ∷ []) (cancel_canceler ∷ [])
        done_test fine (done_lock ∷ []) a (done_passes op h run_hook cancelled) in
    let c =
      then_step (at op h cancelled) (after_done op h run_hook cancelled) []
        (done_lock ∷ cancel_canceler ∷ []) done_lock fine [] b
        (done_closes op h run_hook cancelled) in
    let d =
      then_step (after_done op h run_hook cancelled)
        (close_done (after_done op h run_hook cancelled)) [] (cancel_canceler ∷ []) done_lock fine
        (panicked ∷ []) c (done_again op h run_hook cancelled) in
    (
      world (close_done (after_done op h run_hook cancelled)) (panicked ∷ cancel_canceler ∷ []),
      d,
      Memᴰ.head refl,
      ground arith,
    )

-- If the hook of `Cancel` fails after the operation has ended, the goroutine puts the status `Running`
-- back: all threads are gone, the channel is closed, and the operation reads as running for ever.
pub left_running :
    {M : Type 0} (op : Operation M) (e : String)
    → IsRunning op
    → op.canceler ≡ none
    → (v : World M) × Reach (record { op = op; threads = run_hook ∷ cancel_test ∷ [] }) v
      × (v.threads ≡ [])
      × (v.op.readonly ≡ true)
      × (v.op.status ≡ running)
unfolding advance close_done
left_running op e h none_set =
    let g = λ (st : StatusCode). at op h st in
    let a =
      then_step (g cancelling) (g cancelling) (run_hook ∷ cancel_hook running ∷ []) []
        cancel_canceler fine (cancel_end ∷ []) (to_cancel_hook op h run_hook) (ground arith) in
    let b =
      then_step (g cancelling) (g cancelling) (run_hook ∷ cancel_hook running ∷ []) [] cancel_end
        fine [] a (ground arith) in
    let c =
      then_step (g cancelling) (g cancelling) [] (cancel_hook running ∷ []) run_hook fine
        (run_succeeded ∷ []) b refl in
    let d =
      then_step (g cancelling) (g success) [] (cancel_hook running ∷ []) run_succeeded fine
        (done_test ∷ []) c refl in
    let f =
      then_step (g success) (g success) [] (cancel_hook running ∷ []) done_test fine
        (done_lock ∷ []) d (done_passes op h run_hook success) in
    let i =
      then_step (g success) (after_done op h run_hook success) [] (cancel_hook running ∷ [])
        done_lock fine [] f (done_closes op h run_hook success) in
    let j =
      then_step (after_done op h run_hook success) (after_done op h run_hook success) [] []
        (cancel_hook running) (failed e) (cancel_failed running ∷ []) i refl in
    let k =
      then_step (after_done op h run_hook success)
        (record (after_done op h run_hook success) { status = running }) [] []
        (cancel_failed running) fine [] j refl in
    (world (record (after_done op h run_hook success) { status = running }) [], k, refl, refl, refl)
