-- ===== src/Operations/Tests.antt =====
-- Operations at concrete values.
use Prim.Native.String.{String}
use mathlib.Core.List.{Memᴰ}
use lxd_pkg_ubuntu.Prelude.{◌≤◌, ◌≡◌, ◌⊎◌, refl, true, false, [], ◌∷◌, none, ok, arith}
use lxd_pkg_ubuntu.Operations.Status.{status_eq, running, success, failure}
use lxd_pkg_ubuntu.Operations.Operation.{Operation, task, close_done}
use lxd_pkg_ubuntu.Operations.Registry.{new_operation, put, register}
use lxd_pkg_ubuntu.Operations.Threads.{
  World, Reach, move, panicked, run_hook, run_test, run_lock, run_call, run_succeeded, done_test,
  done_lock, cancel_test, advance, fine,
}
use lxd_pkg_ubuntu.Operations.Threads.Invariant.{IsSettled, Reach-IsSettled}
use lxd_pkg_ubuntu.Operations.Threads.Races.{IsRunning, double_close, left_running}
use lxd_pkg_ubuntu.Operations.Threads.Alone.{Runs, start, more, run_alone}
use lxd_pkg_ubuntu.Operations.Threads.Locks.{outside, inside, go, Locked}
use lxd_pkg_ubuntu.Operations.Threads.Locks.Free

abbrev fresh : Operation String
fresh = new_operation "7c2a" 5 task none "{}" true true false

abbrev started : Operation String
started = record fresh { status = running }

started-IsRunning : IsRunning started
started-IsRunning = record {
  is_running = refl;
  can_cancel = refl;
  unsettled = refl;
  never_closed = refl;
}

double_close_example :
    (v : World String) × Reach (record { op = started; threads = run_hook ∷ cancel_test ∷ [] }) v
    × Memᴰ panicked v.threads
    × (v.op.closes ≡ 2)
double_close_example = double_close started started-IsRunning

left_running_run :
    (v : World String) × Reach (record { op = started; threads = run_hook ∷ cancel_test ∷ [] }) v
    × (v.threads ≡ [])
    × (v.op.readonly ≡ true)
    × (v.op.status ≡ running)
left_running_run = left_running started "no such process" started-IsRunning refl

abbrev ended : World String
ended = left_running_run.0

started-IsSettled : IsSettled started
started-IsSettled = ground arith

Reach-IsSettled_example :
    IsSettled ended.op
    × (started.closes ≤ ended.op.closes)
    × (started.readonly ≡ true → ended.op.readonly ≡ true)
Reach-IsSettled_example = Reach-IsSettled started-IsSettled left_running_run.1

abbrev called : World String
called = record { op = fresh; threads = run_test ∷ [] }

-- The run of an operation whose hook succeeds.
abbrev finished : World String
finished = record { op = close_done (record fresh { status = success }); threads = [] }

whole_run : Runs called finished
unfolding advance status_eq
whole_run =
    more
      (more
        (more
          (more
            (more
              (more (more {v = called} start (move [] [] run_test fine refl refl))
                (move [] [] run_lock fine refl refl))
              (move [] [] run_call fine refl refl))
            (move [] [] run_hook fine refl refl))
          (move [] [] run_succeeded fine refl refl))
        (move [] [] done_test fine refl refl))
      (move [] [] done_lock fine refl refl)

run_alone_example :
    ((finished.op.status ≡ success) ⊎ (finished.op.status ≡ failure))
    × (finished.op.readonly ≡ true)
    × (finished.op.closes ≡ 1)
    × (finished.op.on_run ≡ false)
    × (finished.op.on_cancel ≡ false)
run_alone_example = run_alone fresh refl refl refl refl whole_run refl

abbrev both : Locked String
both = record { op = fresh; held = false; places = outside run_test ∷ outside cancel_test ∷ [] }

-- `Run` has the lock, and the call of `Cancel` has not begun.
abbrev inside_run : Locked String
inside_run = record { op = fresh; held = true; places = inside run_lock ∷ outside cancel_test ∷ [] }

-- `done` waits while `Run` has the lock.
go-waits : go (outside done_lock) fine true fresh ≡ none
unfolding go
go-waits = refl

registered : register (ok fresh) [] ≡ ok (("7c2a", fresh) ∷ [])
unfolding register put
registered = refl
