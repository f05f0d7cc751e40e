-- ===== src/Operations/Status.antt =====
-- shared/api/status_code.go
use Prim.Native.String.{String}
use lxd_pkg_ubuntu.Prelude.{ℕ, ◌≡◌, Bool, true, leb, ◌==◌, ◌⊎◌, arith}

pub data StatusCode : Type 0 where
  operation_created started stopped running cancelling pending starting stopping : StatusCode
  aborting freezing frozen thawed error success failure cancelled : StatusCode

-- The value of the constant.
unfoldable pub code : StatusCode → ℕ
code operation_created = 100
code started = 101
code stopped = 102
code running = 103
code cancelling = 104
code pending = 105
code starting = 106
code stopping = 107
code aborting = 108
code freezing = 109
code frozen = 110
code thawed = 111
code error = 112
code success = 200
code failure = 400
code cancelled = 401

-- `String()`
unfoldable pub status_string : StatusCode → String
status_string operation_created = "Operation created"
status_string started = "Started"
status_string stopped = "Stopped"
status_string running = "Running"
status_string cancelling = "Cancelling"
status_string pending = "Pending"
status_string starting = "Starting"
status_string stopping = "Stopping"
status_string aborting = "Aborting"
status_string freezing = "Freezing"
status_string frozen = "Frozen"
status_string thawed = "Thawed"
status_string error = "Error"
status_string success = "Success"
status_string failure = "Failure"
status_string cancelled = "Cancelled"

unfoldable pub is_final : StatusCode → Bool
unfolding code
is_final o = leb 200 (code o)

-- `op.status == …`: the codes are different numbers, so this is equality of the codes.
unfoldable pub status_eq : StatusCode → StatusCode → Bool
unfolding code
status_eq a b = code a == code b

code_injective : (a b : StatusCode) → code a ≡ code b → a ≡ b
unfolding code
code_injective a b h = ground arith

pub status_eq→eq : (a b : StatusCode) → status_eq a b ≡ true → a ≡ b
unfolding status_eq
status_eq→eq a b h = ground arith

-- The final codes.
pub is_final-cases :
    (o : StatusCode) → is_final o ≡ true → (o ≡ success) ⊎ (o ≡ failure) ⊎ (o ≡ cancelled)
unfolding is_final
is_final-cases o h = ground arith
