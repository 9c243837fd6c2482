-- ===== src/Confirmation/Tests.antt =====
-- Runs of confirmations.
use go_backend_helpers.Prelude.{String, ◌≡◌, refl, true, false, none, some, [], ◌∷◌, arith}
use go_backend_helpers.Effects.{ok, Result}
use go_backend_helpers.Confirmation.{
  PrepareOperationCmd, InternalService, State, prepare_operation, prepare_check_confirmation,
  handle_cached_phone, check_confirmation, callback_confirmation,
}
use go_backend_helpers.Confirmation.Laws.{user_of, later, handle_cached_phone-prepare_operation}

abbrev service : InternalService
service = record { base_url = "https://confirm"; token_ttl = 60 }

abbrev asked : PrepareOperationCmd
asked = record { id = "op1"; recipient = "79001234567"; failed_url = "https://shop/failed" }

abbrev start : State
start = record {
  cache = [];
  now = 100;
  tenancy = some "t1";
  auth_user = none;
  generic_error = none;
  callbacks = [];
  faults = [];
}

url_run :
    (prepare_operation service (some asked) start).0
    ≡ ok "https://confirm/tenancy/t1/confirmation/operation/op1"
unfolding prepare_operation
url_run = refl

abbrev answered : State
answered = later (record start { now = 150 }) (prepare_operation service (some asked) start).1.cache

handle_cached_phone-prepare_operation_example :
    ((prepare_check_confirmation "op1" answered).0 ≡ ok "https://shop/failed")
    × (handle_cached_phone "op1" answered
        ≡ (ok true, record answered { auth_user = some (user_of "79001234567") }))
handle_cached_phone-prepare_operation_example =
    handle_cached_phone-prepare_operation service asked start (record start { now = 150 })
      "https://confirm/tenancy/t1/confirmation/operation/op1" url_run (omega arith)

abbrev callback : String → String → Result String
callback id code = ok "https://shop/done"

-- Without a check of its own the service reports success, and makes the callback for any operation.
callback_run :
    check_confirmation false callback "op2" none start
    ≡ (ok "https://shop/done", record start { callbacks = ("op2", "success") ∷ [] })
unfolding check_confirmation
callback_run = refl

callback_service_run :
    (callback_confirmation callback
      (some (record { id = "op1"; code_or_status = "1234" }))
      start).1.callbacks
    ≡ ("op1", "1234") ∷ []
unfolding callback_confirmation
callback_service_run = refl
