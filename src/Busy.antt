-- ===== src/Busy.antt =====
-- The operation that a container is busy with (lxcContainerOperation, createOperation and getOperation
-- of lxd/container_lxc.go). The operations lie in a store, and a pointer is an address in it. A read or
-- a change under `lxcContainerOperationsLock` is one function.
pub mod Finish
pub mod Kept
pub mod Orderly
pub mod Race
mod Tests
use Prim.Native.String.{String}
use text.Mathlib.Text.{◌==◌ as str_eq}
use lxd_pkg_ubuntu.Prelude.{
  ℕ, ◌+◌, Bool, true, false, not, ◌&&◌, if◌then◌else◌, ◌==◌, Option, none, some, List, [], ◌∷◌,
  Result, ok, err,
}

-- The texts of the errors.
pub data Error : Type 0 where
  busy : (action : String) → Error
  no_running : Error
  running_other : (running action : String) → Error

-- `lxcContainerOperation`. `is_done` says that chanDone is closed, which ends each Wait; the result of
-- the Wait is `fault`.
pub record ContainerOperation : Type 0 where
  pub id : ℕ
  pub action : String
  pub reusable : Bool
  pub is_done : Bool
  pub fault : Option String

-- The store, the first address that is free, and the map `lxcContainerOperations`.
pub record State : Type 0 where
  pub ops : ℕ → Option ContainerOperation
  pub next : ℕ
  pub table : ℕ → Option ℕ

abbrev pub set {ℓ} : {A : Type ℓ} → (ℕ → A) → ℕ → A → ℕ → A
set f k v j = if k == j then v else f j

unfoldable pub get_operation : (id : ℕ) (action : String) → State → Result Error ℕ
get_operation id action s = elim (s.table id) [
  | none ↦ err no_running
  | some p ↦ elim (s.ops p) [
    | none ↦ err no_running
    | some op ↦
        if not (str_eq action "") && not (str_eq op.action action)
        then err (running_other op.action action)
        else ok p
  ]
]

-- How `createOperation` goes on after its look at the running operation.
pub data Look : Type 0 where
  reused : (op : ℕ) → Look
  refused : Error → Look
  free : Look

unfoldable pub look : (id : ℕ) (reuse : Bool) → State → Look
look id reuse s = elim (get_operation id "" s) [
  | err _ ↦ free
  | ok p ↦ elim (s.ops p) [
    | none ↦ free
    | some op ↦ if reuse && op.reusable then reused p else refused (busy op.action)
  ]
]

-- The rest of `createOperation`, under the lock: a new operation, put into the map.
unfoldable pub register : (id : ℕ) (action : String) (reusable : Bool) → State → State
register id action reusable s = record {
  ops = set s.ops s.next (
      some
        (record { id = id; action = action; reusable = reusable; is_done = false; fault = none }));
  next = s.next + 1;
  table = set s.table id (some s.next);
}

-- `createOperation` with no other goroutine in between.
unfoldable pub create_operation :
    (id : ℕ) (action : String) (reusable reuse : Bool) → State → State × Result Error ℕ
create_operation id action reusable reuse s = elim (look id reuse s) [
  | reused p ↦ (s, ok p)
  | refused e ↦ (s, err e)
  | free ↦ (register id action reusable s, ok s.next)
]

abbrev pub finished : (p : ℕ) (fault : Option String) → ContainerOperation → State → State
finished p fault op s = record s {
  ops = set s.ops p (some (record op { fault = fault; is_done = true }));
  table = set s.table op.id none;
}

-- `Done`, which the timer calls too.
unfoldable pub finish : (op : ℕ) (fault : Option String) → State → State
finish p fault s = elim (s.ops p) [
  | none ↦ s
  | some op ↦ elim (s.table op.id) [
    | none ↦ s
    | some running ↦ if running == p then finished p fault op s else s
  ]
]

-- Calls, one after the other.
pub data Call : Type 0 where
  creates : (id : ℕ) (action : String) (reusable reuse : Bool) → Call
  finishes : (op : ℕ) (fault : Option String) → Call

unfoldable pub run : List Call → State → State
run [] s = s
run (creates id action reusable reuse ∷ calls) s =
    run calls (create_operation id action reusable reuse s).0
run (finishes op fault ∷ calls) s = run calls (finish op fault s)

-- What changes the state when goroutines take turns: each holds the lock for one of these.
pub data Turn : Type 0 where
  registers : (id : ℕ) (action : String) (reusable : Bool) → Turn
  ends : (op : ℕ) (fault : Option String) → Turn

unfoldable pub take_turns : List Turn → State → State
take_turns [] s = s
take_turns (registers id action reusable ∷ turns) s =
    take_turns turns (register id action reusable s)
take_turns (ends op fault ∷ turns) s = take_turns turns (finish op fault s)

abbrev pub start : State
start = record { ops = λ _. none; next = 0; table = λ _. none }
