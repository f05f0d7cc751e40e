-- ===== src/Operations/Operation.antt =====
-- The operation and its methods (lxd/operations.go). A hook is a Boolean, whether it is set: what it
-- does comes with the event that calls it. Time is a number. `ParseMetadata` works by reflection, so
-- its result is an argument. Log lines and events are not modelled.
pub mod Create
use Prim.Native.String.{String, ◌++◌}
use mathlib.Core.Option
use mathlib.Core.List
use text.Mathlib.Text.{◌==◌ as str_eq}
use lxd_pkg_ubuntu.Prelude.{
  ℕ, ◌≡◌, Bool, true, false, not, ◌&&◌, ◌||◌, if◌then◌else◌, ltb, leb, Option, none, some, List, [],
  ◌∷◌, Result, ok, err, ◌>>=◌, ◌>>◌, suc,
}
use lxd_pkg_ubuntu.Operations.Status.{
  StatusCode, pending, running, cancelled, is_final, status_eq, status_string,
}

pub data OperationClass : Type 0 where
  task websocket token : OperationClass

-- `operationClass.String()`
unfoldable pub class_string : OperationClass → String
class_string task = "task"
class_string websocket = "websocket"
class_string token = "token"

abbrev pub is_websocket : OperationClass → Bool
is_websocket websocket = true
is_websocket _ = false

abbrev pub is_token : OperationClass → Bool
is_token token = true
is_token _ = false

-- The errors that the methods return.
pub data Error : Type 0 where
  only_pending only_running not_cancelable not_cancelable_now not_websocket not_running : Error
  only_pending_or_running read_only bad_metadata : Error
  connect_not_websocket websocket_no_connect token_run token_cancel no_such_operation : Error

-- `Canceler`: the requests whose download can be cancelled.
pub record Canceler : Type 0 where
  pub requests : List ℕ

unfoldable pub cancelable : Canceler → Bool
cancelable c = elim c.requests [ [] ↦ false | _ ↦ true ]

unfoldable pub cancel_requests : Canceler → Result Error Canceler
unfolding cancelable
cancel_requests c =
    if not (cancelable c) then err not_cancelable_now else ok (record c { requests = [] })

abbrev pub Resources : Type 0
Resources = List (String × List String)

pub record Operation (M : Type 0) : Type 0 where
  pub id : String
  pub class : OperationClass
  pub created_at : ℕ
  pub updated_at : ℕ
  pub status : StatusCode
  pub url : String
  pub resources : Option Resources
  pub metadata : M
  pub fault : Option String  -- the field `err`
  pub readonly : Bool
  pub canceler : Option Canceler
  pub on_run : Bool
  pub on_cancel : Bool
  pub on_connect : Bool
  pub closes : ℕ  -- how often `chanDone` has been closed; a second time panics

module _ {M : Type 0} where
  -- The locked part of `done`.
  unfoldable pub close_done : Operation M → Operation M
  close_done op = record op {
    readonly = true;
    on_run = false;
    on_cancel = false;
    on_connect = false;
    closes = suc op.closes;
  }

  -- `done`, where no other thread comes between.
  unfoldable pub done : Operation M → Operation M
  unfolding close_done
  done op = if op.readonly then op else close_done op

  unfoldable pub may_cancel : Operation M → Bool
  unfolding cancelable
  may_cancel op =
      if is_token op.class
      then true
      else if op.on_cancel
      then true
      else elim op.canceler [ none ↦ false | some c ↦ cancelable c ]

  -- The test that both updates make first.
  abbrev pub updatable : Operation M → Bool
  updatable op = status_eq op.status pending || status_eq op.status running

  unfoldable pub update_resources : ℕ → Option Resources → Operation M → Result Error (Operation M)
  update_resources now resources op =
      if not (updatable op)
      then err only_pending_or_running
      else if op.readonly
      then err read_only
      else ok (record op { updated_at = now; resources = resources })

  unfoldable pub update_metadata : ℕ → Result Error M → Operation M → Result Error (Operation M)
  update_metadata now parsed op =
      if not (updatable op)
      then err only_pending_or_running
      else if op.readonly
      then err read_only
      else do metadata ← parsed; ok (record op { updated_at = now; metadata = metadata })

  -- `Connect`, up to the start of the goroutine that runs the hook.
  unfoldable pub connect : Operation M → Result Error Unit
  connect op =
      if not (is_websocket op.class)
      then err not_websocket
      else if not (status_eq op.status running)
      then err not_running
      else ok tt

-- What `Render` shows of an operation (`api.Operation`).
pub record Rendered (M : Type 0) : Type 0 where
  pub id : String
  pub class : String
  pub created_at : ℕ
  pub updated_at : ℕ
  pub status : String
  pub status_code : StatusCode
  pub resources : Option Resources
  pub metadata : M
  pub may_cancel : Bool
  pub fault : Option String

-- "/%s/%s/%s" with the version of the API.
unfoldable pub resource_url : String → String → String
resource_url key c = "/1.0/" ++ key ++ "/" ++ c

abbrev pub resource_urls : String × List String → String × List String
resource_urls (key, values) = (key, List.map (resource_url key) values)

unfoldable pub render : {M : Type 0} → Operation M → String × Rendered M
unfolding class_string status_string resource_url
render op = (
  op.url,
  record {
    id = op.id;
    class = class_string op.class;
    created_at = op.created_at;
    updated_at = op.updated_at;
    status = status_string op.status;
    status_code = op.status;
    resources = Option.map (List.map resource_urls) op.resources;
    metadata = op.metadata;
    may_cancel = may_cancel op;
    fault = op.fault;
  },
)

-- `WaitFinal`: what it answers, or that it waits for `chanDone`, for ever or for some seconds, and
-- then answers. The timeout -1 is `none`.
pub data Wait : Type 0 where
  answer : Bool → Wait
  wait_then : Bool → Wait
  wait_at_most : ℕ → Bool → Wait

unfoldable pub wait_final : {M : Type 0} → Option ℕ → Operation M → Wait
wait_final timeout op = if is_final op.status then answer true else elim timeout [
  | none ↦ wait_then true
  | some t ↦ if ltb 0 t then wait_at_most t false else answer false
]
