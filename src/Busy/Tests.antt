-- ===== src/Busy/Tests.antt =====
-- A start and a stop of a container, and the theorems at concrete calls.
use Prim.Native.String.{String}
use lxd_pkg_ubuntu.Prelude.{ℕ, ◌≡◌, refl, true, false, Option, none, some, List, [], ◌∷◌, ok, err}
use lxd_pkg_ubuntu.Busy.{
  ContainerOperation, State, busy, running_other, free, get_operation, look, register,
  create_operation, finish, Call, creates, finishes, run, Turn, registers, ends, take_turns, start,
}
use lxd_pkg_ubuntu.Busy.Orderly.{run-ends}
use lxd_pkg_ubuntu.Busy.Race.{create_operation-loses}

abbrev starting : State
starting = run (creates 7 "start" false false ∷ []) start

create_operation-busy : (create_operation 7 "stop" false true starting).1 ≡ err (busy "start")
unfolding create_operation look get_operation run register
create_operation-busy = refl

create_operation-other : (create_operation 8 "stop" false true starting).1 ≡ ok 1
unfolding create_operation look get_operation run register
create_operation-other = refl

create_operation-again : (create_operation 7 "stop" false true (finish 0 none starting)).1 ≡ ok 1
unfolding create_operation look get_operation finish run register
create_operation-again = refl

get_operation-action : get_operation 7 "stop" starting ≡ err (running_other "start" "stop")
unfolding get_operation run create_operation look register
get_operation-action = refl

abbrev calls : List Call
calls =
    creates 7 "start" false false
    ∷ creates 7 "stop" false true
    ∷ creates 8 "stop" true true
    ∷ finishes 1 none
    ∷ []

abbrev started : ContainerOperation
started = record { id = 7; action = "start"; reusable = false; is_done = false; fault = none }

run-calls : (run calls start).ops 0 ≡ some started
unfolding run finish create_operation look get_operation register
run-calls = refl

run-ends_example :
    ((q : ℕ) (other : ContainerOperation)
      → (run calls start).ops q ≡ some other
      → other.is_done ≡ false
      → other.id ≡ 7
      → q ≡ 0)
    × ((fault : Option String)
        → (finish 0 fault (run calls start)).ops 0
          ≡ some (record started { fault = fault; is_done = true }))
run-ends_example = run-ends calls 0 started run-calls refl

abbrev later : List Turn
later = ends 0 none ∷ ends 1 none ∷ ends 0 (some "timed out") ∷ []

create_operation-loses_example :
    (look 7 false start ≡ free)
    × (look 7 true start ≡ free)
    × ((op : ContainerOperation) × ((take_turns
              (registers 7 "stop" false ∷ registers 7 "stop" true ∷ later)
              start).ops
            0
          ≡ some op)
        × (op.is_done ≡ false))
create_operation-loses_example =
    create_operation-loses start 7 "stop" "stop" false true false true later refl
