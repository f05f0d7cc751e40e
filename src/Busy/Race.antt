-- ===== src/Busy/Race.antt =====
-- Two goroutines that create an operation for one container.
use Prim.Native.String.{String}
use lxd_pkg_ubuntu.Prelude.{
  ℕ, ◌<◌, ◌≡◌, ◌≢◌, subst, sym, refl, arith, Bool, false, ◌==◌, Option, none, some, List, [], ◌∷◌,
  inl, inr, Bool-cases,
}
use lxd_pkg_ubuntu.Busy.Finish.{finish-cases}
use lxd_pkg_ubuntu.Busy.{
  ContainerOperation, State, free, get_operation, look, register, finish, finished, Turn, registers,
  ends, take_turns,
}

-- An operation that is not done, and that the map does not have.
record IsLost (p : ℕ) (s : State) : Type 0 where
  pub op : ContainerOperation
  pub there : s.ops p ≡ some op
  pub waiting : op.is_done ≡ false
  pub away : s.table op.id ≢ some p
  pub older : p < s.next

register-IsLost :
    (id : ℕ) (action : String) (reusable : Bool) (p : ℕ) (s : State)
    → IsLost p s
    → IsLost p (register id action reusable s)
unfolding register
register-IsLost id action reusable p s l =
    let older = l.older in
    let there = l.there in
    record {
      op = l.op;
      there = ground (arith, older, there);
      waiting = l.waiting;
      away = elim (Bool-cases (id == l.op.id)) [
        | inl y ↦ λ q. ground (arith, y, q, older)
        | inr n ↦ λ q. l.away (ground (arith, n, q))
      ];
      older = omega (arith, older);
    }

-- The end of another operation.
finished-IsLost :
    (q : ℕ) (fault : Option String) (p : ℕ) (s : State) (op : ContainerOperation)
    → s.ops q ≡ some op
    → s.table op.id ≡ some q
    → IsLost p s
    → IsLost p (finished q fault op s)
finished-IsLost q fault p s op e f l =
    let there = l.there in
    record {
      op = l.op;
      there = elim (Bool-cases (q == p)) [
        | inl y ↦ absurd (l.away (same (ground (arith, y))))
        | inr n ↦ ground (arith, n, there)
      ];
      waiting = l.waiting;
      away = elim (Bool-cases (op.id == l.op.id)) [
        | inl y ↦ λ r. ground (arith, y, r)
        | inr n ↦ λ r. l.away (ground (arith, n, r))
      ];
      older = l.older;
    }
  where
    same : q ≡ p → s.table l.op.id ≡ some p
    same r = let there = l.there in cc (e, f, r, there)

finish-IsLost :
    (q : ℕ) (fault : Option String) (p : ℕ) (s : State) → IsLost p s → IsLost p (finish q fault s)
finish-IsLost q fault p s l = elim (finish-cases q fault s) [
  | inl e ↦ subst (IsLost p) (sym e) l
  | inr (op, e, f, g) ↦ subst (IsLost p) (sym g) (finished-IsLost q fault p s op e f l)
]

take_turns-IsLost :
    (turns : List Turn) (p : ℕ) (s : State) → IsLost p s → IsLost p (take_turns turns s)
unfolding take_turns
take_turns-IsLost [] p s l = l
take_turns-IsLost (registers id action reusable ∷ turns) p s l =
    take_turns-IsLost turns p (register id action reusable s)
      (register-IsLost id action reusable p s l)
take_turns-IsLost (ends q fault ∷ turns) p s l =
    take_turns-IsLost turns p (finish q fault s) (finish-IsLost q fault p s l)

both-IsLost :
    (s : State) (id : ℕ) (action other : String) (reusable reusable' : Bool)
    → IsLost s.next (register id other reusable' (register id action reusable s))
unfolding register
both-IsLost s id action other reusable reusable' = record {
  op = record { id = id; action = action; reusable = reusable; is_done = false; fault = none };
  there = ground arith;
  waiting = refl;
  away = λ r. ground (arith, r);
  older = omega arith;
}

-- Where a container is not busy, two goroutines that call `createOperation` for it can both find it
-- free, and then both put a new operation into the map. Whatever operations are created and ended
-- after that, the first of the two is never done, so that no Wait for it returns.
pub create_operation-loses :
    (s : State) (id : ℕ) (action other : String) (reusable reusable' reuse reuse' : Bool)
    (turns : List Turn)
    → s.table id ≡ none
    → (look id reuse s ≡ free)
      × (look id reuse' s ≡ free)
      × ((op : ContainerOperation) × ((take_turns
                (registers id action reusable ∷ registers id other reusable' ∷ turns)
                s).ops
              s.next
            ≡ some op)
          × (op.is_done ≡ false))
unfolding look get_operation take_turns
create_operation-loses s id action other reusable reusable' reuse reuse' turns h =
    (cc h, cc h, (l.op, l.there, l.waiting))
  where
    l :
        IsLost s.next
          (take_turns turns (register id other reusable' (register id action reusable s)))
    l =
        take_turns-IsLost turns s.next (register id other reusable' (register id action reusable s))
          (both-IsLost s id action other reusable reusable')
