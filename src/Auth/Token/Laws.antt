-- ===== src/Auth/Token/Laws.antt =====
-- What a token request that comes through has passed, and what it leaves in the context.
use go_backend_helpers.Prelude.{
  ◌≡◌, Bool, true, false, not, Option, none, some, ◌&&◌, arith, ltb, is_some,
}
use go_backend_helpers.Auth.Context.{
  User, Session, World, set_generic_error_code, expired, call_service,
}
use go_backend_helpers.Auth.Flow.{Flow, next, stop}
use go_backend_helpers.Auth.Encryption.{Parameter, missing, invalid, value}
use go_backend_helpers.Auth.Token.{
  AuthTokenHandler, Token, expired_code, token_name, is_refresh, same_tenancy, identify, handle,
  find_session,
}

abbrev user_accepted : Option User → Bool
user_accepted none = false
user_accepted (some user) = not user.blocked

abbrev session_accepted : World → Session → Bool
session_accepted w s = s.valid && not (ltb s.expiration w.now)

-- What a request must bring: a token that was decrypted, has not expired and is of the request's
-- tenancy, a session that is valid and has not expired, and a known user who is not blocked.
abbrev pub accepts : AuthTokenHandler → World → Parameter Token → Bool
accepts a w missing = false
accepts a w (invalid e) = false
accepts a w (value prev) =
    not (expired prev.exp w)
    && same_tenancy w.tenancy prev.tenancy
    && session_accepted w (find_session prev.session_id w)
    && user_accepted (a.find_user (find_session prev.session_id w).user_login)

abbrev pub request_token : AuthTokenHandler → World → Parameter Token
request_token a w = a.encryption.get w a.protocol (token_name (is_refresh a w))

abbrev stops : Flow (Session × User) → Bool
stops (next x) = false
stops (stop o) = true

identify-accepts :
    (a : AuthTokenHandler) (w : World)
    → accepts a w (request_token a w) ≡ false
    → stops (identify a (is_refresh a w) w).0 ≡ true
unfolding identify find_session call_service expired
identify-accepts a w h = ground arith

identify_stops :
    (a : AuthTokenHandler) (w : World)
    → (identify a (is_refresh a w) w).0 ≡ stop (true, none)
    → is_some (identify a (is_refresh a w) w).1.generic_error ≡ true
unfolding identify set_generic_error_code
identify_stops a w h = ground arith

-- A request that comes through with no error and no error code brought everything that `accepts`
-- asks for.
pub handle_authenticates_token :
    (a : AuthTokenHandler) (w : World)
    → (handle a w).0 ≡ (true, none)
    → is_some (handle a w).1.generic_error ≡ false
    → accepts a w (request_token a w) ≡ true
unfolding handle
handle_authenticates_token a w e g = ground (arith, identify-accepts a w, identify_stops a w)

-- For an expired token the handler returns no error, and sets the error code alone: it reports
-- success to a caller that looks at the error, with the user of the context as it was.
pub handle_expired_token :
    (a : AuthTokenHandler) (w : World) (prev : Token)
    → request_token a w ≡ value prev
    → expired prev.exp w ≡ true
    → handle a w ≡ ((true, none), set_generic_error_code (expired_code (is_refresh a w)) w)
unfolding handle identify
handle_expired_token a w prev g e = ground arith
