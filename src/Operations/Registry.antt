-- ===== src/Operations/Registry.antt =====
-- `operationCreate`, and the global map of operations (lxd/operations.go).
use Prim.Native.String.{String, ◌++◌}
use text.Mathlib.Text.{◌==◌ as str_eq}
use lxd_pkg_ubuntu.Prelude.{
  ℕ, Bool, false, not, ◌&&◌, if◌then◌else◌, Option, none, List, [], ◌∷◌, Result, ok, err, ◌>>=◌,
  ◌>>◌,
}
use lxd_pkg_ubuntu.Operations.Status.{pending}
use lxd_pkg_ubuntu.Operations.Operation.{
  Operation, OperationClass, is_websocket, is_token, Resources, Error, connect_not_websocket,
  websocket_no_connect, token_run, token_cancel, no_such_operation,
}

-- The sanity checks of `operationCreate`, in its order.
unfoldable pub check_hooks :
    OperationClass → (on_run on_cancel on_connect : Bool) → Result Error Unit
check_hooks class on_run on_cancel on_connect =
    if not (is_websocket class) && on_connect
    then err connect_not_websocket
    else if is_websocket class && not on_connect
    then err websocket_no_connect
    else if is_token class && on_run
    then err token_run
    else if is_token class && on_cancel
    then err token_cancel
    else ok tt

-- The attributes that `operationCreate` sets. The fresh id and the time are arguments, and so are the
-- hooks.
abbrev pub new_operation :
    {M : Type 0} (id : String) (now : ℕ) (class : OperationClass) (resources : Option Resources)
    (m : M) (on_run on_cancel on_connect : Bool)
    → Operation M
new_operation id now class resources m on_run on_cancel on_connect = record {
  id = id;
  class = class;
  created_at = now;
  updated_at = now;
  status = pending;
  url = "/1.0/operations/" ++ id;
  resources = resources;
  metadata = m;
  fault = none;
  readonly = false;
  canceler = none;
  on_run = on_run;
  on_cancel = on_cancel;
  on_connect = on_connect;
  closes = 0;
}

unfoldable pub create :
    {M : Type 0} (id : String) (now : ℕ) (class : OperationClass) (resources : Option Resources)
    → Result Error M
    → (on_run on_cancel on_connect : Bool) → Result Error (Operation M)
create id now class resources parsed on_run on_cancel on_connect = do
  metadata ← parsed
  check_hooks class on_run on_cancel on_connect
  ok (new_operation id now class resources metadata on_run on_cancel on_connect)

-- The global map of operations, and `operationGet`.
abbrev pub Operations : Type 0 → Type 0
Operations M = List (String × Operation M)

module _ {M : Type 0} where
  unfoldable pub operation_get : String → Operations M → Result Error (Operation M)
  operation_get id [] = err no_such_operation
  operation_get id ((j, op) ∷ ops) = if str_eq j id then ok op else operation_get id ops

  -- `operations[op.id] = &op`
  unfoldable pub put : String → Operation M → Operations M → Operations M
  put id op [] = (id, op) ∷ []
  put id op ((j, o) ∷ ops) = if str_eq j id then (id, op) ∷ ops else (j, o) ∷ put id op ops

  -- `delete(operations, op.id)`, five seconds after `done`.
  unfoldable pub remove : String → Operations M → Operations M
  remove id [] = []
  remove id ((j, o) ∷ ops) = let rest = remove id ops in if str_eq j id then rest else (j, o) ∷ rest

  -- `operationCreate` with the map.
  unfoldable pub register : Result Error (Operation M) → Operations M → Result Error (Operations M)
  register created ops = do op ← created; ok (put op.id op ops)
