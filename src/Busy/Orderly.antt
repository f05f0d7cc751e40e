-- ===== src/Busy/Orderly.antt =====
-- Operations that are created one after the other.
use Prim.Native.String.{String}
use lxd_pkg_ubuntu.Prelude.{
  ℕ, ◌≡◌, ap, sym, subst, refl, arith, Bool, true, false, Option, some, List, [], ◌∷◌, inl, inr,
  Result, ok, err,
}
use lxd_pkg_ubuntu.Busy.Finish.{finish-cases}
use lxd_pkg_ubuntu.Busy.{
  ContainerOperation, State, Look, free, refused, reused, look, register, create_operation, finish,
  Call, Error, creates, finishes, run, start,
}
use lxd_pkg_ubuntu.Busy.Kept.{
  IsOrderly, start-IsOrderly, look-free, register-IsOrderly, finished-IsOrderly,
}

finish-IsOrderly :
    (p : ℕ) (fault : Option String) (s : State) → IsOrderly s → IsOrderly (finish p fault s)
finish-IsOrderly p fault s o = elim (finish-cases p fault s) [
  | inl e ↦ subst IsOrderly (sym e) o
  | inr (op, e, f, g) ↦ subst IsOrderly (sym g) (finished-IsOrderly p fault s o op e f)
]

create_operation-IsOrderly :
    (id : ℕ) (action : String) (reusable reuse : Bool) (s : State)
    → IsOrderly s
    → IsOrderly (create_operation id action reusable reuse s).0
unfolding create_operation
create_operation-IsOrderly id action reusable reuse s o = by_look (look id reuse s) refl
  where
    leads :
        {t : State × Result Error ℕ}
        → create_operation id action reusable reuse s ≡ t
        → IsOrderly t.0
        → IsOrderly (create_operation id action reusable reuse s).0
    leads q = subst (λ t. IsOrderly t.0) (sym q)

    by_look :
        (l : Look) → look id reuse s ≡ l → IsOrderly (create_operation id action reusable reuse s).0
    by_look (reused p) e = leads {t = (s, ok p)} (cc e) o
    by_look (refused p) e = leads {t = (s, err p)} (cc e) o
    by_look free e =
        leads {t = (register id action reusable s, ok s.next)} (cc e)
          (register-IsOrderly id action reusable s o (look-free id reuse s o e))

run-IsOrderly : (calls : List Call) (s : State) → IsOrderly s → IsOrderly (run calls s)
unfolding run
run-IsOrderly [] s o = o
run-IsOrderly (creates id action reusable reuse ∷ calls) s o =
    run-IsOrderly calls (create_operation id action reusable reuse s).0
      (create_operation-IsOrderly id action reusable reuse s o)
run-IsOrderly (finishes p fault ∷ calls) s o =
    run-IsOrderly calls (finish p fault s) (finish-IsOrderly p fault s o)

-- `Done` of an operation that the map may have.
finish-ends :
    (p : ℕ) (op : ContainerOperation) (fault : Option String) (s : State)
    → IsOrderly s
    → s.ops p ≡ some op
    → op.is_done ≡ false
    → (finish p fault s).ops p ≡ some (record op { fault = fault; is_done = true })
unfolding finish
finish-ends p op fault s o e d = let f = o.running p op e d in ground (arith, e, f)

-- When operations are created by calls of createOperation with no other goroutine in between, and
-- ended in any order, then at each time a container has at most one operation that is not done, and
-- `Done` of such an operation, as its timer calls it, ends it with the given result.
pub run-ends :
    (calls : List Call) (p : ℕ) (op : ContainerOperation)
    → (run calls start).ops p ≡ some op
    → op.is_done ≡ false
    → ((q : ℕ) (other : ContainerOperation)
        → (run calls start).ops q ≡ some other
        → other.is_done ≡ false
        → other.id ≡ op.id
        → q ≡ p)
      × ((fault : Option String)
          → (finish p fault (run calls start)).ops p
            ≡ some (record op { fault = fault; is_done = true }))
run-ends calls p op e d = (
  λ q other f k i. one q (o.running q other f k) (ap (run calls start).table i),
  λ fault. finish-ends p op fault (run calls start) o e d,
)
  where
    o : IsOrderly (run calls start)
    o = run-IsOrderly calls start start-IsOrderly

    one : (q : ℕ) {x : Option ℕ} → x ≡ some q → x ≡ (run calls start).table op.id → q ≡ p
    one q f i = let r = o.running p op e d in cc (f, i, r)
