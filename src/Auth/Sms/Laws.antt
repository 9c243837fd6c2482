-- ===== src/Auth/Sms/Laws.antt =====
-- What a confirmed request has brought, and the requests that come through without a code.
use go_backend_helpers.Prelude.{
  String, ◌≡◌, Bool, true, false, not, Option, none, some, ◌==◌, ◌&&◌, ◌||◌, arith, ltb, is_some,
}
use go_backend_helpers.Auth.Context.{
  User, World, CacheItem, delay_item, token_item, SmsCacheToken, set_generic_error_code, expired,
  call_service, set_auth_parameter,
}
use go_backend_helpers.Auth.Flow.{Flow, next, stop}
use go_backend_helpers.Auth.Encryption.{Parameter, missing, invalid, value}
use go_backend_helpers.Auth.Sms.{
  AuthSms, SmsToken, cache_get, cache_unset, unset, request_parts, set_token, check_code,
  check_cached, check_item, check_token, compare_code, retry, send_code, send_sms, store_code,
  handle,
}

abbrev pub request_code : World → String
request_code w = w.request.param "sms" "sms-code"

abbrev pub request_token : AuthSms → World → Parameter SmsToken
request_token a w = a.encryption.get w "sms" "sms-token"

-- The cached token is below the limit of tries and was made for this request and this code.
abbrev pub confirms : AuthSms → String → World → Option CacheItem → Bool
confirms a user_id w none = false
confirms a user_id w (some (delay_item _)) = false
confirms a user_id w (some (token_item t)) =
    ltb t.tries a.max_tries
    && a.check_hmac (request_parts user_id w) t.checksum
    && request_code w == t.code

abbrev pub accepts : AuthSms → String → World → Parameter SmsToken → Bool
accepts a user_id w missing = false
accepts a user_id w (invalid e) = false
accepts a user_id w (value t) =
    not (expired t.exp w) && confirms a user_id w (cache_get (a.token_key t.id) w)

abbrev stops_with_code : Flow (Bool × Option String) × World → Bool
stops_with_code (next o, w) = false
stops_with_code (stop (b, e), w) = is_some w.generic_error

retry_stops :
    (a : AuthSms) (key : String) (t : SmsCacheToken) (w : World)
    → stops_with_code (retry a key t w) ≡ true
unfolding retry set_token unset set_generic_error_code call_service cache_unset
retry_stops a key t w = ground arith

cached_accepts :
    (a : AuthSms) (user_id key : String) (t : SmsCacheToken) (w : World)
    → confirms a user_id w (some (token_item t)) ≡ false
    → stops_with_code (check_cached a user_id (request_code w) key t w) ≡ true
unfolding check_cached compare_code unset set_generic_error_code cache_unset call_service
cached_accepts a user_id key t w h = ground (arith, retry_stops a key t w)

item_accepts :
    (a : AuthSms) (user_id key : String) (o : Option CacheItem) (w : World)
    → confirms a user_id w o ≡ false
    → stops_with_code (check_item a user_id (request_code w) key o w) ≡ true
unfolding check_item set_generic_error_code
item_accepts a user_id key none w h = ground arith
item_accepts a user_id key (some (delay_item n)) w h = ground arith
item_accepts a user_id key (some (token_item t)) w h = cached_accepts a user_id key t w h

token_accepts :
    (a : AuthSms) (user_id : String) (t : SmsToken) (w : World)
    → confirms a user_id w (cache_get (a.token_key t.id) w) ≡ false
    → stops_with_code (check_token a user_id (request_code w) t w) ≡ true
unfolding check_token set_generic_error_code call_service
token_accepts a user_id t w h = ground (
  arith,
  item_accepts a user_id (a.token_key t.id) (cache_get (a.token_key t.id) w) (call_service w).1,
)

check_code-accepts :
    (a : AuthSms) (user_id : String) (p : Parameter SmsToken) (w : World)
    → accepts a user_id w p ≡ false
    → stops_with_code (check_code a user_id (request_code w) p w) ≡ true
unfolding check_code set_generic_error_code expired
check_code-accepts a user_id missing w h = ground arith
check_code-accepts a user_id (invalid e) w h = ground arith
check_code-accepts a user_id (value t) w h = ground (arith, token_accepts a user_id t w)

-- A request without a code always stops with an error code, or with an error.
abbrev stops_with_error : Flow (Bool × Option String) × World → Bool
stops_with_error (next o, w) = false
stops_with_error (stop (b, e), w) = is_some e || is_some w.generic_error

send_stops : (a : AuthSms) (user : User) (w : World) → stops_with_error (send_code a user w) ≡ true
unfolding send_code send_sms store_code set_generic_error_code call_service set_auth_parameter
send_stops a user w = ground arith

-- A user's request that comes through with no error and no error code brought a code and a live
-- token, whose cached token was made for this very request, holds this code, and was below the
-- limit of tries.
pub handle_confirms :
    (a : AuthSms) (user : User) (w : World)
    → w.auth_user ≡ some user
    → (handle a w).0 ≡ (true, none)
    → is_some (handle a w).1.generic_error ≡ false
    → (not (request_code w == "") && accepts a user.id w (request_token a w)) ≡ true
unfolding handle
handle_confirms a user w u e g =
    ground (arith, check_code-accepts a user.id (request_token a w) w, send_stops a user w)

-- A code without a token: the section counts as not found, with no error.
handle_missing_token :
    (a : AuthSms) (user : User) (w : World)
    → w.auth_user ≡ some user
    → (request_code w == "") ≡ false
    → request_token a w ≡ missing
    → handle a w ≡ ((false, none), set_generic_error_code "sms_token_required" w)
unfolding handle check_code
handle_missing_token a user w u c m = ground arith
