-- ===== src/Operations/Operation/Create.antt =====
-- Creating and finding operations, and what the single methods accept.
use Prim.Native.String.{String}
use text.Mathlib.Text.{◌==◌ as str_eq}
use text.Mathlib.TextEquality.{eq_iff}
use lxd_pkg_ubuntu.Prelude.{
  ℕ, ◌≡◌, ◌↔◌, inl, inr, refl, Bool, true, false, ◌||◌, arith, [], ◌∷◌, Option, ok, err,
  if◌then◌else◌, Result-cases,
}
use lxd_pkg_ubuntu.Operations.Status.{pending}
use lxd_pkg_ubuntu.Operations.Operation.{
  Operation, OperationClass, task, websocket, token, is_token, Resources, may_cancel, Error,
  no_such_operation,
}
use lxd_pkg_ubuntu.Operations.Registry.{
  Operations, check_hooks, new_operation, create, operation_get, put, remove, register,
}

-- The hooks that go with a class: a connect hook with websockets alone, and neither a run hook nor a
-- cancel hook with tokens.
abbrev pub HooksFit : OperationClass → (on_run on_cancel on_connect : Bool) → Type 0
HooksFit task r c n = n ≡ false
HooksFit websocket r c n = n ≡ true
HooksFit token r c n = (r ≡ false) × (c ≡ false) × (n ≡ false)

check_hooks_lem :
    (class : OperationClass) (r c n : Bool)
    → (check_hooks class r c n ≡ ok tt) ↔ HooksFit class r c n
unfolding check_hooks
check_hooks_lem task r c n = (λ h. ground arith, λ h. ground arith)
check_hooks_lem websocket r c n = (λ h. ground arith, λ h. ground arith)
check_hooks_lem token r c n = (λ h. ground arith, λ h. ground arith)

-- `operationCreate` accepts exactly the hooks that go with the class; what it returns is pending, can
-- be updated, has its channel open and the hooks that were given.
pub create_lem :
    {M : Type 0} (id : String) (now : ℕ) (class : OperationClass) (resources : Option Resources)
    (m : M) (r c n : Bool)
    → (HooksFit class r c n
        → (op : Operation M) × (create id now class resources (ok m) r c n ≡ ok op)
          × (op.status ≡ pending)
          × (op.readonly ≡ false)
          × (op.closes ≡ 0)
          × (op.on_run ≡ r)
          × (op.on_cancel ≡ c)
          × (op.on_connect ≡ n)
          × (may_cancel op ≡ (is_token class || c)))
      × ((op : Operation M)
          → create id now class resources (ok m) r c n ≡ ok op
          → HooksFit class r c n)
unfolding create may_cancel
create_lem {M} id now class resources m r c n =
    let (only, all) = check_hooks_lem class r c n in
    (
      λ h. (
        new_operation id now class resources m r c n,
        rw (all h),
        refl,
        refl,
        refl,
        refl,
        refl,
        refl,
        ground arith,
      ),
      λ op h. elim (Result-cases (check_hooks class r c n)) [
        | inl (t, e) ↦ only e
        | inr (x, e) ↦ absurd (bad_check (rw e at h))
      ],
    )
  where
    bad_check : {x : Error} {op : Operation M} → err x ≡ ok op → ⊥
    bad_check h = cc

module _ {M : Type 0} where
  put-get :
      (id j : String) (op : Operation M) (ops : Operations M)
      → operation_get j (put id op ops) ≡ (if str_eq id j then ok op else operation_get j ops)
  unfolding operation_get put
  put-get id j op [] = refl
  put-get id j op ((k, o) ∷ ops) =
      ground (arith, eq_iff id j, eq_iff k id, eq_iff k j, put-get id j op ops)

  get-remove :
      (id j : String) (ops : Operations M)
      → operation_get j (remove id ops)
        ≡ (if str_eq id j then err no_such_operation else operation_get j ops)
  unfolding operation_get remove
  get-remove id j [] = ground arith
  get-remove id j ((k, o) ∷ ops) =
      ground (arith, get-remove id j ops, eq_iff k id, eq_iff k j, eq_iff id j)

-- The map of operations: once `op` has been registered it is found under its id, until it is removed,
-- and no other id is touched by either.
pub operation_get-register :
    {M : Type 0} (op : Operation M) (ops ops' : Operations M) (j : String)
    → register (ok op) ops ≡ ok ops'
    → (operation_get j ops' ≡ (if str_eq op.id j then ok op else operation_get j ops))
      × (operation_get j (remove op.id ops')
          ≡ (if str_eq op.id j then err no_such_operation else operation_get j ops))
unfolding register
operation_get-register op ops ops' j h =
    let e : put op.id op ops ≡ ops' = ground arith in
    rw (← e) (
      put-get op.id j op ops,
      rw (get-remove op.id j (put op.id op ops)) (ground (arith, put-get op.id j op ops)),
    )
