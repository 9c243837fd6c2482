-- ===== src/Auth/Sms.antt =====
-- auth/auth_methods/auth_sms/auth_sms.go: confirmation of a request by a code that is sent by SMS.
-- The cache keeps a token for each request that waits for its code, and the delay before a user may
-- ask for another SMS.
pub mod Laws
pub mod Once
pub mod Tries
pub mod Bound
mod Tests
use go_backend_helpers.Prelude.{
  ℕ, ◌+◌, ◌-◌, String, Bool, true, false, not, Option, none, some, List, [], ◌∷◌, ◌++◌, ◌==◌,
  if◌then◌else◌, ltb, leb, Dict, lookup, insert, erase,
}
use go_backend_helpers.Auth.Context.{
  User, World, Outcome, Handler, CacheItem, delay_item, token_item, SmsCacheToken,
  set_generic_error_code, set_auth_parameter, expired, expiration, call_service,
}
use go_backend_helpers.Auth.Flow.{
  Flow, next, stop, Proc, ◌>>=◌, ◌>>◌, pure, finish, reject, reject_if, modify, gets, attempt,
  choose, run,
}
use go_backend_helpers.Auth.Encryption.{Parameter, missing, invalid, value, Encryption}

-- `SmsToken`: the encrypted token that the client holds.
pub record SmsToken : Type 0 where
  pub exp : ℕ
  pub id : String

-- `AuthSms` with its configuration, and what it takes from outside: the HMAC of a request under
-- the secret, the check of such a sum, the codes and identifiers of the random generators, the text
-- of a message and of a number, and the two kinds of cache keys (`fmt.Sprintf`).
pub record AuthSms : Type 0 where
  pub token_ttl_seconds : ℕ
  pub sms_delay_seconds : ℕ
  pub max_tries : ℕ
  pub encryption : Encryption SmsToken
  pub hmac : List String → String
  pub check_hmac : List String → String → Bool
  pub gen_code : ℕ → String
  pub random_id : ℕ → String
  pub format_message : String → String → String
  pub format_number : ℕ → String
  pub mask_phone : String → String
  pub delay_key : String → String
  pub token_key : String → String

-- `ctx.Cache()`: an item that has expired is not found.
unfoldable pub cache_get : String → World → Option CacheItem
cache_get key w = elim (lookup key w.cache) [
  | none ↦ none
  | some (exp, item) ↦ if ltb w.now exp then some item else none
]

unfoldable pub cache_set : String → CacheItem → ℕ → World → World
cache_set key item ttl w = record w { cache = insert key (w.now + ttl, item) w.cache }

unfoldable pub cache_unset : String → World → World
cache_unset key w = record w { cache = erase key w.cache }

-- What `hmacOfRequest` sums.
abbrev pub request_parts : String → World → List String
request_parts user_id w = user_id ∷ w.request.method ∷ w.request.path ∷ w.request.content ∷ []

-- `ctx.Cache().Unset(key)`, whose error is dropped.
pub unset : String → Proc (Unit {0})
unset key = do down ← attempt; modify (λ w. if down then w else cache_unset key w)

abbrev internal : String
internal = "internal_server_error"

-- `setToken`
pub set_token : AuthSms → SmsCacheToken → String → Proc (Unit {0})
set_token a cache_token id = do
  down ← attempt
  reject_if down internal true (some "failed to save token in cache")
  modify (cache_set (a.token_key id) (token_item cache_token) a.token_ttl_seconds)
  λ w.
      let (e, w') =
        a.encryption.set w "sms" "sms-token"
          (record { exp = expiration a.token_ttl_seconds w; id = id }) in
      elim e [ none ↦ (next tt, w') | some err ↦ reject internal true (some err) w' ]

pub read_token : Parameter SmsToken → Proc SmsToken
read_token missing w = reject "sms_token_required" false none w
read_token (invalid e) w = reject "sms_token_invalid" true (some e) w
read_token (value t) w =
    if expired t.exp w then reject "sms_token_expired" true none w else pure t w

-- Another identifier for the token, and one more try.
pub retry : AuthSms → String → SmsCacheToken → Proc Outcome
retry a old_key t = do
  unset old_key
  id ← gets (λ w. a.random_id w.next_id)
  modify (λ w. record w { next_id = w.next_id + 1 })
  set_token a (record t { tries = t.tries + 1 }) id
  reject "sms_code_invalid" true (some "invalid SMS code")

-- The comparison of the code in the request with the cached one.
pub compare_code : AuthSms → String → String → String → SmsCacheToken → Proc Outcome
compare_code a user_id code key cached =
    choose (not (code == cached.code)) (retry a key cached)
      (do unset key; unset (a.delay_key user_id); finish true none)

-- The checks of the cached token, in order: the tries, the content of the request, the code.
pub check_cached : AuthSms → String → String → String → SmsCacheToken → Proc Outcome
check_cached a user_id code key cached = do
  choose (leb a.max_tries cached.tries)
      (do unset key; reject "sms_too_many_tries" true (some "too many tries")) (pure tt)
  parts ← gets (request_parts user_id)
  reject_if (not (a.check_hmac parts cached.checksum)) "sms_content_mismatch" false
      (some "invalid HMAC")
  compare_code a user_id code key cached

-- What was found in the cache.
pub check_item : AuthSms → String → String → String → Option CacheItem → Proc Outcome
check_item a user_id code key none w = reject "sms_token_expired" true none w
check_item a user_id code key (some (delay_item _)) w =
    reject internal true (some "failed to get cache token") w
check_item a user_id code key (some (token_item t)) w = check_cached a user_id code key t w

pub check_token : AuthSms → String → String → SmsToken → Proc Outcome
unfolding check_item cache_get
check_token a user_id code token = do
  down ← attempt
  reject_if down internal true (some "failed to get cache token")
  λ w. check_item a user_id code (a.token_key token.id) (cache_get (a.token_key token.id) w) w

-- The part of `Handle` for a request that brings a code.
pub check_code : AuthSms → String → String → Parameter SmsToken → Proc Outcome
unfolding read_token
check_code a user_id code parameter = do
  token ← read_token parameter
  check_token a user_id code token

-- The delay that is left since the last SMS.
abbrev pub remaining : ℕ → ℕ → ℕ
remaining total passed = if ltb total passed then 0 else total - passed

pub wait_for_delay : AuthSms → Option CacheItem → Proc (Unit {0})
wait_for_delay a (some (delay_item created)) w =
    reject "sms_wait_delay" true (some "wait for delay") (
      set_auth_parameter "sms" "sms-delay"
        (a.format_number (remaining a.sms_delay_seconds (w.now - created))) w)
wait_for_delay a (some (token_item _)) w = reject internal true (some "failed to parse") w
wait_for_delay a none w = (next tt, w)

pub user_phone : Option String → Proc String
user_phone none w = reject internal true none w
user_phone (some phone) w =
    if phone == "" then reject "sms_invalid_phone" true none w else pure phone w

pub checked_message : Option String → Proc String
checked_message none = reject "invalid_format" true (some "failed to check request content")
checked_message (some m) = pure (if m == "" then "code %s" else m)

-- The token of a code that was sent, and the delay before the next one.
pub store_code : AuthSms → User → SmsCacheToken → String → Proc Outcome
unfolding set_token
store_code a user token id = do
  set_token a token id
  failed ← attempt
  modify (λ w.
      if failed
      then w
      else cache_set (a.delay_key user.id) (delay_item w.now) a.sms_delay_seconds w)
  modify (set_auth_parameter "sms" "sms-delay" (a.format_number a.sms_delay_seconds))
  reject "sms_confirmation_required" true (some "sms code not found")

-- A new code is made up and sent.
pub send_sms : AuthSms → User → String → String → Proc Outcome
send_sms a user message phone = do
  modify (set_auth_parameter "sms" "sms-phone" (a.mask_phone phone))
  n ← gets (λ w. w.next_id)
  modify (λ w. record w { next_id = w.next_id + 3 })
  checksum ← gets (λ w. a.hmac (request_parts user.id w))
  down' ← attempt
  reject_if down' internal true (some "failed to send SMS")
  modify (λ w. record w { sent = w.sent ++ (phone, a.format_message message (a.gen_code n)) ∷ [] })
  store_code a user
      (record { tries = 1; code = a.gen_code n; checksum = checksum; sms_id = a.random_id (n + 2) })
      (a.random_id (n + 1))

-- The part of `Handle` for a request without a code: it sends one.
pub send_code : AuthSms → User → Proc Outcome
unfolding wait_for_delay checked_message user_phone cache_get
send_code a user = do
  down ← attempt
  reject_if down internal true (some "failed to get delay item from cache")
  λ w. wait_for_delay a (cache_get (a.delay_key user.id) w) w
  message ← λ w. checked_message w.request.checked_content w
  phone ← user_phone user.phone
  send_sms a user message phone

pub handle_user : AuthSms → Option User → Proc Outcome
handle_user a none = reject "unauthorized" true none
handle_user a (some user) = do
  code ← gets (λ w. w.request.param "sms" "sms-code")
  choose (not (code == ""))
      (λ w. check_code a user.id code (a.encryption.get w "sms" "sms-token") w) (send_code a user)

unfoldable pub handle : AuthSms → Handler
unfolding handle_user
handle a w = run (handle_user a w.auth_user) w
