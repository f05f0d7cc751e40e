-- ===== src/Operations/Threads/Alone.antt =====
-- `Run` with nothing beside it: what the operation has become when its threads are gone.
use lxd_pkg_ubuntu.Prelude.{
  ◌≡◌, ◌⊎◌, inl, inr, refl, subst, append-nil, true, false, arith, List, [], ◌∷◌, ◌++◌,
}
use lxd_pkg_ubuntu.Operations.Status.{StatusCode, pending, running, success, failure, status_eq}
use lxd_pkg_ubuntu.Operations.Operation.{Operation, close_done}
use lxd_pkg_ubuntu.Operations.Threads.{
  Thread, Outcome, fine, failed, advance, World, Move, move, run_test, run_lock, run_call, run_hook,
  run_succeeded, run_failed, done_test, done_lock,
}

module _ {M : Type 0} where
  -- Steps of the threads, with no call from outside.
  pub data Runs (w : World M) : World M → Type 0 where
    start : Runs w w
    more : {v u : World M} → Runs w v → Move v u → Runs w u

  abbrev Fresh : StatusCode → Operation M → Type 0
  Fresh st op = (op.status ≡ st) × (op.on_run ≡ true) × (op.readonly ≡ false) × (op.closes ≡ 0)

  abbrev Closing : Operation M → Type 0
  Closing op =
      ((op.status ≡ success) ⊎ (op.status ≡ failure)) × (op.readonly ≡ false) × (op.closes ≡ 0)

  -- How the operation is while the thread stands at a place.
  abbrev AtStage : Thread M → Operation M → Type 0
  AtStage run_test op = Fresh pending op
  AtStage run_lock op = Fresh pending op
  AtStage run_call op = Fresh running op
  AtStage run_hook op = Fresh running op
  AtStage run_succeeded op = Fresh running op
  AtStage (run_failed e) op = Fresh running op
  AtStage done_test op = Closing op
  AtStage done_lock op = Closing op
  AtStage _ op = ⊥

  abbrev Stage : Operation M → List (Thread M) → Type 0
  Stage op [] =
      ((op.status ≡ success) ⊎ (op.status ≡ failure))
      × (op.readonly ≡ true)
      × (op.closes ≡ 1)
      × (op.on_run ≡ false)
      × (op.on_cancel ≡ false)
  Stage op (t ∷ []) = AtStage t op
  Stage op (t ∷ u ∷ ts) = ⊥

  advance-Stage :
      (t : Thread M) (o : Outcome) (op : Operation M)
      → AtStage t op
      → Stage (advance t o op).0 (advance t o op).1
  unfolding advance close_done status_eq
  advance-Stage run_test o op h =
      let e : status_eq op.status pending ≡ true = ground arith in rw e h
  advance-Stage run_lock o op h = rw h.1 (refl, refl, h.2, h.3)
  advance-Stage run_call o op h = rw h.1 (h.0, refl, h.2, h.3)
  advance-Stage run_hook fine op h = h
  advance-Stage run_hook (failed e) op h = h
  advance-Stage run_succeeded o op h = (inl refl, h.2, h.3)
  advance-Stage (run_failed e) o op h = (inr refl, h.2, h.3)
  advance-Stage done_test o op h = rw h.1 (h.0, refl, h.2)
  advance-Stage done_lock o op h = rw h.2 (h.0, refl, refl, refl, refl)
  advance-Stage _ o op h = absurd h

  Stage-append : (op : Operation M) (ts : List (Thread M)) → Stage op ts → Stage op (ts ++ [])
  Stage-append op ts h = rw append-nil h

  Stage-Move : {w v : World M} → Stage w.op w.threads → Move w v → Stage v.op v.threads
  Stage-Move {w} s (move [] [] t o e p) = rw p (
      Stage-append (advance t o w.op).0 (advance t o w.op).1
        (advance-Stage t o w.op (subst (Stage w.op) e s)))
  Stage-Move {w} s (move [] (a ∷ after) t o e p) = absurd (subst (Stage w.op) e s)
  Stage-Move {w} s (move (b ∷ []) after t o e p) = absurd (subst (Stage w.op) e s)
  Stage-Move {w} s (move (b ∷ c ∷ before) after t o e p) = absurd (subst (Stage w.op) e s)

  Stage-Runs : {w v : World M} → Stage w.op w.threads → Runs w v → Stage v.op v.threads
  Stage-Runs s start = s
  Stage-Runs s (more r m) = Stage-Move (Stage-Runs s r) m

-- A pending operation with a hook on which `Run` alone is called: when its threads are gone it has
-- succeeded or failed, its channel has been closed once, it is read-only and its hooks are gone.
pub run_alone :
    {M : Type 0} (op : Operation M) {v : World M}
    → op.status ≡ pending
    → op.on_run ≡ true
    → op.readonly ≡ false
    → op.closes ≡ 0
    → Runs (record { op = op; threads = run_test ∷ [] }) v
    → v.threads ≡ []
    → ((v.op.status ≡ success) ⊎ (v.op.status ≡ failure))
      × (v.op.readonly ≡ true)
      × (v.op.closes ≡ 1)
      × (v.op.on_run ≡ false)
      × (v.op.on_cancel ≡ false)
run_alone op {v} p r ro c runs gone = subst (Stage v.op) gone (Stage-Runs (p, r, ro, c) runs)
