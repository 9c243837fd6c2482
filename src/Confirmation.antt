-- ===== src/Confirmation.antt =====
-- The confirmation of operations by an external user, pkg/confirmation_control: the services of
-- confirmation_control_api/confirmation_api_service, the token that they share in a cache
-- (confirmation_control_api.go), and the method of authentication by the phone of the token
-- (sms_auth_confirmation/cached_phone_auth_method.go). The cache keeps a value for its time to live,
-- and its calls may fail; the callback and the parsing of requests are given from outside.
pub mod Laws
mod Tests
use Prim.Native.String.{String, ◌++◌ as ◌<>◌}
use go_backend_helpers.Prelude.{
  ℕ, ◌+◌, Bool, true, false, Option, none, some, List, [], ◌∷◌, ◌++◌, ltb, if◌then◌else◌, Dict,
  lookup, insert,
}
use go_backend_helpers.Auth.Context.{User, first_code}
use go_backend_helpers.Effects.{
  Act, Result, ok, err, ◌>>=◌, ◌>>◌, pure, fail, choose, gets, modify, next_fault,
}

pub record OperationCacheToken : Type 0 where
  pub id : String
  pub recipient : String
  pub failed_url : String

pub record PrepareOperationCmd : Type 0 where
  pub id : String
  pub recipient : String
  pub failed_url : String

pub record CallbackConfirmationCmd : Type 0 where
  pub id : String
  pub code_or_status : String

-- `ConfirmationInternalService`
pub record InternalService : Type 0 where
  pub base_url : String
  pub token_ttl : ℕ

-- The cache, with the time until which it keeps an entry, what a request's context has, and the
-- callbacks that were made.
pub record State : Type 0 where
  pub cache : Dict (ℕ × OperationCacheToken)
  pub now : ℕ
  pub tenancy : Option String
  pub auth_user : Option User
  pub generic_error : Option String
  pub callbacks : List (String × String)
  pub faults : List Bool

abbrev pub Op : Type 0 → Type 0
Op A = Act State A

-- Whether the next call of the cache fails
abbrev cache_call : Op Bool
cache_call s = let (f, fs) = next_fault s.faults in (ok f, record s { faults = fs })

abbrev set_code : String → Op (Unit {0})
set_code code = modify (λ s. record s { generic_error = first_code s.generic_error code })

-- `OperationIdCacheKey`
abbrev pub operation_id_cache_key : String → String
operation_id_cache_key id = "confirmation_service" <> ("/" <> id)

abbrev live : ℕ → Option (ℕ × OperationCacheToken) → Option OperationCacheToken
live now none = none
live now (some (until, token)) = if ltb until now then none else some token

-- What the cache has under the key of an operation
unfoldable pub cached : String → State → Option OperationCacheToken
cached id s = live s.now (lookup (operation_id_cache_key id) s.cache)

abbrev answered : Option OperationCacheToken → Op (Option OperationCacheToken)
answered none = do set_code "resource_not_found"; pure none
answered (some token) = pure (some token)

-- `GetTokenFromCache`: without a token it returns nil and no error.
unfoldable pub get_token_from_cache : String → Op (Option OperationCacheToken)
get_token_from_cache id = do
  down ← cache_call
  token ← gets (cached id)
  choose down (do set_code "internal_server_error"; fail "failed to get cache token")
      (answered token)

-- A field of a pointer to a token
unfoldable pub dereference : Option OperationCacheToken → Op OperationCacheToken
dereference none = fail "nil pointer dereference"
dereference (some token) = pure token

-- `PrepareCheckConfirmationEndpoint`
unfoldable pub prepare_check_confirmation : String → Op String
prepare_check_confirmation id = do
  found ← get_token_from_cache id
  token ← dereference found
  pure token.failed_url

-- `CachedPhoneAuthMethod.Handle`
unfoldable pub handle_cached_phone : String → Op Bool
handle_cached_phone id = do
  found ← get_token_from_cache id
  token ← dereference found
  modify (λ s. record s {
    auth_user = some (record {
      id = token.id;
      login = "_none_";
      display = token.id;
      blocked = false;
      phone = some token.recipient;
      credentials = none;
      hmac_secret = none;
    });
  })
  pure true

abbrev operation_url : InternalService → Option String → String → String
operation_url v none id = v.base_url <> ("/confirmation/operation/" <> id)
operation_url v (some tenancy) id =
    v.base_url <> ("/tenancy/" <> (tenancy <> ("/confirmation/operation/" <> id)))

abbrev parsed : {A : Type 0} → Option A → Op A
parsed none = fail "failed to parse/validate command"
parsed (some cmd) = pure cmd

abbrev keep : InternalService → PrepareOperationCmd → State → State
keep v cmd s = record s {
  cache =
      insert (operation_id_cache_key cmd.id)
        (
          s.now + v.token_ttl,
          record { id = ""; recipient = cmd.recipient; failed_url = cmd.failed_url },
        )
        s.cache;
}

-- `PrepareOperationEndpoint`: the token in the cache has no identifier.
unfoldable pub prepare_operation : InternalService → Option PrepareOperationCmd → Op String
prepare_operation v request = do
  cmd ← parsed request
  down ← cache_call
  choose down (fail "failed to store operation in cache") (modify (keep v cmd))
  gets (λ s. operation_url v s.tenancy cmd.id)

-- `ConfirmationCallback` of the handler that a service is given
abbrev invoke : (String → String → Result String) → String → String → Op String
invoke callback id code s =
    (callback id code, record s { callbacks = s.callbacks ++ (id, code) ∷ [] })

-- The code of the request, or the status if the authentication has checked the code
abbrev code_or_status : Bool → Option String → Op String
code_or_status true request = parsed request
code_or_status false request = pure "success"

-- `CheckConfirmationEndpoint`
unfoldable pub check_confirmation :
    Bool → (String → String → Result String) → String → Option String → Op String
check_confirmation check_code callback id request = do
  code ← code_or_status check_code request
  invoke callback id code

-- `CallbackConfirmationEndpoint`
unfoldable pub callback_confirmation :
    (String → String → Result String) → Option CallbackConfirmationCmd → Op String
callback_confirmation callback request = do
  cmd ← parsed request
  invoke callback cmd.id cmd.code_or_status
