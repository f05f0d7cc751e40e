-- ===== src/Operations/Threads/Ending.antt =====
-- The steps that a call on an operation has left: each step leaves fewer.
use lxd_pkg_ubuntu.Prelude.{
  ℕ, ◌+◌, ◌<◌, ◌≡◌, ◌≢◌, refl, arith, List, [], ◌∷◌, ◌++◌, Option, none, some,
}
use lxd_pkg_ubuntu.Operations.Operation.{Operation, Canceler, cancel_requests}
use lxd_pkg_ubuntu.Operations.Threads.{
  Thread, Outcome, fine, failed, advance, call_canceler, panicked, run_test, run_lock, run_call,
  run_hook, run_succeeded, run_failed, done_test, done_lock, cancel_test, cancel_may, cancel_lock,
  cancel_spawn, cancel_canceler, cancel_end, cancel_call, cancel_hook, cancel_failed,
  cancel_succeeded, update_test, update_readonly, update_lock,
}

module _ {M : Type 0} where
  -- How many steps a thread and what it starts can still make.
  abbrev pub steps_left : Thread M → ℕ
  steps_left run_test = 7
  steps_left run_lock = 6
  steps_left run_call = 5
  steps_left run_hook = 4
  steps_left run_succeeded = 3
  steps_left (run_failed e) = 3
  steps_left done_test = 2
  steps_left done_lock = 1
  steps_left cancel_test = 13
  steps_left cancel_may = 12
  steps_left cancel_lock = 11
  steps_left (cancel_spawn old) = 10
  steps_left cancel_canceler = 4
  steps_left cancel_end = 3
  steps_left (cancel_call old) = 5
  steps_left (cancel_hook old) = 4
  steps_left (cancel_failed old) = 1
  steps_left cancel_succeeded = 3
  steps_left (update_test now u) = 3
  steps_left (update_readonly now u) = 2
  steps_left (update_lock now u) = 1
  steps_left panicked = 0

  abbrev pub all_steps : List (Thread M) → ℕ
  all_steps [] = 0
  all_steps (t ∷ ts) = steps_left t + all_steps ts

  pub all_steps-append :
      (xs ys : List (Thread M)) → all_steps (xs ++ ys) ≡ all_steps xs + all_steps ys
  all_steps-append [] ys = omega arith
  all_steps-append (x ∷ xs) ys = omega (arith, all_steps-append xs ys)

  -- A panic is the end of the daemon, so a panicked thread makes no step.
  canceler_steps : (op : Operation M) (c : Option Canceler) → all_steps (call_canceler op c).1 < 4
  unfolding cancel_requests
  canceler_steps op none = omega arith
  canceler_steps op (some c) = ground arith

  pub advance_steps :
      (t : Thread M) (o : Outcome) (op : Operation M)
      → t ≢ panicked
      → all_steps (advance t o op).1 < steps_left t
  unfolding advance
  advance_steps run_test o op h = ground arith
  advance_steps run_hook fine op h = ground arith
  advance_steps run_hook (failed e) op h = ground arith
  advance_steps (cancel_hook old) fine op h = ground arith
  advance_steps (cancel_hook old) (failed e) op h = ground arith
  advance_steps cancel_canceler o op h = canceler_steps op op.canceler
  advance_steps panicked o op h = absurd (h refl)
  advance_steps _ o op h = ground arith

  abbrev pub Calm : List (Thread M) → Type 0
  Calm [] = Unit
  Calm (t ∷ ts) = (t ≢ panicked) × Calm ts

  pub Calm-append : (xs ys : List (Thread M)) → Calm (xs ++ ys) → Calm xs × Calm ys
  Calm-append [] ys c = (tt, c)
  Calm-append (x ∷ xs) ys c = let both = Calm-append xs ys c.1 in ((c.0, both.0), both.1)
