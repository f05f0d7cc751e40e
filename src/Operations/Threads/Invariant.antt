-- ===== src/Operations/Threads/Invariant.antt =====
-- What holds of an operation whatever calls and goroutines run on it, in any order.
use lxd_pkg_ubuntu.Prelude.{◌≤◌, ◌<◌, ◌≡◌, true, false, arith, Option, none, some}
use lxd_pkg_ubuntu.Operations.Operation.{Operation, Canceler, cancel_requests, close_done}
use lxd_pkg_ubuntu.Operations.Threads.{
  Thread, Outcome, advance, World, Move, move, Step, go, call, download, Reach, here, next,
  to_resources, to_metadata, run_test, run_hook, cancel_hook, cancel_canceler, update_lock, fine,
  failed, call_canceler,
}

-- The operation is read-only exactly when `chanDone` has been closed, and then its hooks are gone.
pub record IsSettled {M : Type 0} (op : Operation M) : Type 0 where
  pub closed : op.readonly ≡ true → 0 < op.closes
  pub open_ : op.readonly ≡ false → op.closes ≡ 0
  pub no_run : op.readonly ≡ true → op.on_run ≡ false
  pub no_cancel : op.readonly ≡ true → op.on_cancel ≡ false
  pub no_connect : op.readonly ≡ true → op.on_connect ≡ false

module _ {M : Type 0} where
  canceler-IsSettled :
      (op : Operation M) (c : Option Canceler) → IsSettled op → IsSettled (call_canceler op c).0
  unfolding cancel_requests
  canceler-IsSettled op none s = ground arith
  canceler-IsSettled op (some c) s = ground arith

  advance-IsSettled :
      (t : Thread M) (o : Outcome) (op : Operation M) → IsSettled op → IsSettled (advance t o op).0
  unfolding advance close_done
  advance-IsSettled run_test o op s = s
  advance-IsSettled run_hook fine op s = s
  advance-IsSettled run_hook (failed e) op s = s
  advance-IsSettled (cancel_hook old) fine op s = s
  advance-IsSettled (cancel_hook old) (failed e) op s = s
  advance-IsSettled cancel_canceler o op s = canceler-IsSettled op op.canceler s
  advance-IsSettled (update_lock now (to_resources r)) o op s = ground arith
  advance-IsSettled (update_lock now (to_metadata m)) o op s = ground arith
  advance-IsSettled _ o op s = ground arith

  -- Nothing that has been closed is opened again.
  record Grows (op op' : Operation M) : Type 0 where
    closes_grow : op.closes ≤ op'.closes
    stays : op.readonly ≡ true → op'.readonly ≡ true

  canceler-Grows : (op : Operation M) (c : Option Canceler) → Grows op (call_canceler op c).0
  unfolding cancel_requests
  canceler-Grows op none = ground arith
  canceler-Grows op (some c) = ground arith

  advance-Grows : (t : Thread M) (o : Outcome) (op : Operation M) → Grows op (advance t o op).0
  unfolding advance close_done
  advance-Grows run_test o op = ground arith
  advance-Grows run_hook fine op = ground arith
  advance-Grows run_hook (failed e) op = ground arith
  advance-Grows (cancel_hook old) fine op = ground arith
  advance-Grows (cancel_hook old) (failed e) op = ground arith
  advance-Grows cancel_canceler o op = canceler-Grows op op.canceler
  advance-Grows (update_lock now (to_resources r)) o op = ground arith
  advance-Grows (update_lock now (to_metadata m)) o op = ground arith
  advance-Grows _ o op = ground arith

  Move-keeps : {w v : World M} → Move w v → IsSettled w.op → IsSettled v.op × Grows w.op v.op
  Move-keeps {w} {v} (move before after t o e q) s =
      rw q (advance-IsSettled t o w.op s, advance-Grows t o w.op)

  Step-keeps : {w v : World M} → Step w v → IsSettled w.op → IsSettled v.op × Grows w.op v.op
  Step-keeps (go m) s = Move-keeps m s
  Step-keeps (call t c q) s = rw q (s, ground arith)
  Step-keeps (download c q) s = rw q (ground arith, ground arith)

  Reach-keeps : {w v : World M} → Reach w v → IsSettled w.op → IsSettled v.op × Grows w.op v.op
  Reach-keeps here s = (s, ground arith)
  Reach-keeps (next r st) s =
      let (a, g) = Reach-keeps r s in let (b, h) = Step-keeps st a in (b, ground (arith, g, h))

-- Whatever calls of `Run`, `Cancel` and the updates run on an operation, and in whatever order their
-- steps come: the operation is read-only exactly when its channel has been closed, its hooks are then
-- gone, and neither is ever undone.
pub Reach-IsSettled :
    {M : Type 0} {w v : World M}
    → IsSettled w.op
    → Reach w v
    → IsSettled v.op × (w.op.closes ≤ v.op.closes) × (w.op.readonly ≡ true → v.op.readonly ≡ true)
Reach-IsSettled s r = let (a, g) = Reach-keeps r s in (a, g.closes_grow, g.stays)
