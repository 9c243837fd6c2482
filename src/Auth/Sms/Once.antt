-- ===== src/Auth/Sms/Once.antt =====
-- The confirmation of a request by a code, and the cached token afterwards
-- (auth/auth_methods/auth_sms/auth_sms.go).
use go_backend_helpers.Prelude.{
  ◌≡◌, true, false, none, some, [], ◌==◌, arith, eq_iff, erase, lookup-erase,
}
use go_backend_helpers.Auth.Context.{User, World, set_generic_error_code, expired, call_service}
use go_backend_helpers.Auth.Encryption.{value}
use go_backend_helpers.Auth.Sms.{
  AuthSms, SmsToken, cache_get, cache_unset, unset, check_code, check_token, check_cached,
  compare_code, handle,
}
use go_backend_helpers.Auth.Sms.Laws.{request_code, request_token, confirms}

-- While no service fails, a request of a user with a code that is not empty and with a live token,
-- whose cached token is below the limit of tries, has an HMAC that fits the method, path and content
-- of this request, and holds this code, is confirmed with no error and no error code of its own, and
-- the cached token is not found afterwards.
pub handle_confirms_once :
    (a : AuthSms) (user : User) (w : World) (t : SmsToken)
    → w.faults ≡ []
    → w.auth_user ≡ some user
    → (request_code w == "") ≡ false
    → request_token a w ≡ value t
    → expired t.exp w ≡ false
    → confirms a user.id w (cache_get (a.token_key t.id) w) ≡ true
    → ((handle a w).0 ≡ (true, none))
      × ((handle a w).1.generic_error ≡ w.generic_error)
      × (cache_get (a.token_key t.id) (handle a w).1 ≡ none)
unfolding handle check_code check_token check_cached compare_code cache_get cache_unset unset
    call_service
handle_confirms_once a user w t f u c p e h = ground (
  arith,
  lookup-erase (a.token_key t.id) (a.token_key t.id) w.cache,
  lookup-erase (a.delay_key user.id) (a.token_key t.id) (erase (a.token_key t.id) w.cache),
  eq_iff (a.token_key t.id) (a.token_key t.id),
)

-- A live token whose cached token is gone, used or expired in the cache: the handler returns no
-- error and sets the error code alone.
handle_consumed_token :
    (a : AuthSms) (user : User) (w : World) (t : SmsToken)
    → w.auth_user ≡ some user
    → (request_code w == "") ≡ false
    → request_token a w ≡ value t
    → expired t.exp w ≡ false
    → (call_service w).0 ≡ false
    → cache_get (a.token_key t.id) (call_service w).1 ≡ none
    → handle a w ≡ ((true, none), set_generic_error_code "sms_token_expired" (call_service w).1)
unfolding handle check_code check_token
handle_consumed_token a user w t u c p e f g = ground arith
