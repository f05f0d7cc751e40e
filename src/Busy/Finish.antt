-- ===== src/Busy/Finish.antt =====
-- The two outcomes of `Done`.
use Prim.Native.String.{String}
use native.Mathlib.Omega.{arith}
use lxd_pkg_ubuntu.Prelude.{ℕ, ◌≡◌, ◌⊎◌, ◌==◌, Option, some, inl, inr, Bool-cases, Option-cases}
use lxd_pkg_ubuntu.Busy.{ContainerOperation, State, finish, finished}

-- The state stays, or the operation is the one of its container in the map.
pub finish-cases :
    (p : ℕ) (fault : Option String) (s : State)
    → (finish p fault s ≡ s)
      ⊎ ((op : ContainerOperation) × (s.ops p ≡ some op)
          × (s.table op.id ≡ some p)
          × (finish p fault s ≡ finished p fault op s))
unfolding finish
finish-cases p fault s = elim (Option-cases (s.ops p)) [
  | inl n ↦ inl (cc n)
  | inr (op, e) ↦ elim (Option-cases (s.table op.id)) [
    | inl n ↦ inl (cc (e, n))
    | inr (running, f) ↦ elim (Bool-cases (running == p)) [
      | inl y ↦ inr (op, e, ground (arith, f, y), cc (e, f, y))
      | inr n ↦ inl (cc (e, f, n))
    ]
  ]
]
