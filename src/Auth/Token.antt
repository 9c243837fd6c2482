-- ===== src/Auth/Token.antt =====
-- auth/auth_methods/auth_token/auth_token.go: access and refresh tokens, over the sessions of
-- auth/auth_session/session_controller.go.
mod Sessions
pub mod Laws
pub mod Revocation
pub mod NewToken
pub mod Login
mod Tests
unfoldable pub use Sessions.*
use go_backend_helpers.Prelude.{
  ℕ, ◌+◌, String, Bool, true, false, not, Option, none, some, ◌==◌, ◌&&◌, ◌||◌, if◌then◌else◌, ltb,
  is_some,
}
use go_backend_helpers.Auth.Context.{
  User, Session, World, Outcome, Handler, set_generic_error_code, set_auth_user, expired,
  expiration,
}
use go_backend_helpers.Auth.Flow.{
  next, stop, Flow, Proc, ◌>>=◌, ◌>>◌, pure, finish, reject, reject_if, modify, gets, attempt,
  choose, run,
}
use go_backend_helpers.Auth.Encryption.{Parameter, missing, invalid, value, Encryption}

pub record Token : Type 0 where
  pub exp : ℕ
  pub id : String
  pub user_id : String
  pub user_display : String
  pub session_id : String
  pub tenancy : String

-- `AuthTokenHandler` with its configuration, the users of the user manager and the identifiers
-- that the random generators make up.
pub record AuthTokenHandler : Type 0 where
  pub access_token_ttl_seconds : ℕ
  pub refresh_token_ttl_seconds : ℕ
  pub auto_prolongate_access : Bool
  pub auto_prolongate_refresh : Bool
  pub refresh_path : String
  pub logout_path : String
  pub encryption : Encryption Token
  pub find_user : String → Option User
  pub random_id : ℕ → String
  pub client_hash : String → String → String
  pub protocol : String

abbrev pub expired_code : Bool → String
expired_code refresh = if refresh then "session_expired" else "auth_token_expired"

abbrev pub token_name : Bool → String
token_name refresh = if refresh then "refresh-token" else "access-token"

abbrev pub is_refresh : AuthTokenHandler → World → Bool
is_refresh a w = w.request.path == a.refresh_path

-- The parameter of the request, and its time.
pub read_token : Bool → Parameter Token → Proc Token
read_token refresh missing w = finish false none w
read_token refresh (invalid e) w = reject "auth_token_invalid" true (some e) w
read_token refresh (value prev) w =
    if expired prev.exp w then reject (expired_code refresh) true none w else pure prev w

-- The token's tenancy against the request's.
abbrev pub same_tenancy : Option String → String → Bool
same_tenancy none token_tenancy = token_tenancy == ""
same_tenancy (some id) token_tenancy = token_tenancy == id

pub check_tenancy : Token → Proc (Unit {0})
check_tenancy prev w =
    reject_if (not (same_tenancy w.tenancy prev.tenancy)) "session_expired" true
      (some "invalid tenancy") w

pub check_session : Session → Proc (Unit {0})
check_session session w =
    if not session.valid
    then reject "session_expired" true (some "session invalidated") w
    else reject_if (ltb session.expiration w.now) "session_expired" true (some "session expired") w

pub check_user : Option User → Proc User
check_user none w = reject "unknown_user" true none w
check_user (some user) w =
    if user.blocked then reject "session_expired" true (some "user blocked") w else pure user w

-- An error of a later step is an internal server error.
abbrev pub or_internal : Option String × World → Flow (Unit {0}) × World
or_internal (none, w) = (next tt, w)
or_internal (some e, w) = reject "internal_server_error" true (some e) w

abbrev pub tenancy_text : Option String → String
tenancy_text none = ""
tenancy_text (some t) = t

-- `GenToken`. A user is set by then; without one the source would panic.
pub gen_token : AuthTokenHandler → String → ℕ → World → Option String × World
gen_token a name ttl w = elim w.auth_user [
  | none ↦ (some "nil user", w)
  | some user ↦
      a.encryption.set (record w { next_id = w.next_id + 1 }) a.protocol name
        (record {
          exp = expiration ttl w;
          id = a.random_id w.next_id;
          user_id = user.id;
          user_display = user.display;
          session_id = w.session_id;
          tenancy = tenancy_text w.tenancy;
        })
]

-- `GenRefreshToken`
pub gen_refresh_token : AuthTokenHandler → Session → World → Option String × World
gen_refresh_token a session w =
    let (e, w') =
      update_session_expiration session.id (expiration a.refresh_token_ttl_seconds w) w in
    elim e [
      | some err ↦ (some err, w')
      | none ↦ gen_token a "refresh-token" a.refresh_token_ttl_seconds w'
    ]

when : Bool → (World → Option String × World) → Proc (Unit {0})
when b m w = if b then or_internal (m w) else (next tt, w)

-- The tokens that the response gets.
pub prolongate : AuthTokenHandler → Session → Bool → World → Flow (Unit {0}) × World
unfolding when
prolongate a session refresh = do
  when (refresh || a.auto_prolongate_access) (gen_token a "access-token" a.access_token_ttl_seconds)
  now ← gets (λ w. w.now)
  when
      (a.auto_prolongate_refresh
        && (refresh || ltb session.expiration (now + a.access_token_ttl_seconds)))
      (gen_refresh_token a session)

pub logout : Session → World → Flow (Unit {0}) × World
logout session = do
  modify (set_auth_user none)
  λ w. or_internal (invalidate_session session.user_id session.id w)

-- The part before the first effect: the token, the session and the user of the request.
pub identify : AuthTokenHandler → Bool → Proc (Session × User)
unfolding read_token check_tenancy check_session check_user
identify a refresh = do
  prev ← λ w. read_token refresh (a.encryption.get w a.protocol (token_name refresh)) w
  check_tenancy prev
  down ← attempt
  reject_if down "session_expired" true (some "failed to find session")
  session ← gets (find_session prev.session_id)
  check_session session
  down' ← attempt
  reject_if down' "internal_server_error" true (some "failed to load user")
  user ← check_user (a.find_user session.user_login)
  pure (session, user)

pub serve : AuthTokenHandler → Bool → Session → User → Proc Outcome
serve a refresh session user = do
  modify (set_auth_user (some user))
  modify (λ w. record w { session_id = session.id })
  λ w. or_internal (update_session_client (a.client_hash) (a.random_id) w)
  path ← gets (λ w. w.request.path)
  choose (path == a.logout_path) (logout session) (prolongate a session refresh)
  finish true none

unfoldable pub handle : AuthTokenHandler → Handler
handle a w =
    run (do (session, user) ← identify a (is_refresh a w); serve a (is_refresh a w) session user) w
