-- ===== src/Auth/Login.antt =====
-- auth/auth_methods/auth_login_phash/auth_login_phash.go: login by a hash of the password. The
-- client first asks for its salt with the login alone, and then sends the salted hash.
use go_backend_helpers.Prelude.{
  String, ◌≡◌, Bool, true, false, not, Option, none, some, ◌∷◌, [], ◌++◌, ◌==◌, arith,
  if◌then◌else◌, is_some,
}
use go_backend_helpers.Auth.Context.{
  User, World, Outcome, Handler, set_generic_error_code, set_auth_user, set_auth_parameter,
  call_service, first_code,
}
use go_backend_helpers.Auth.Flow.{
  next, stop, Proc, ◌>>=◌, ◌>>◌, reject, reject_if, gets, attempt, choose, run,
}

-- What the handler takes from outside: whether `ValidateLogin` returns an error, the users of
-- `FindAuthUser`, and the salt that `GenerateString` makes up for this request.
pub record Services : Type 0 where
  pub login_invalid : String → Bool
  pub find_user : String → Option User
  pub fake_salt : String

abbrev pub failed : String
failed = "login_failed"

abbrev pub required : String
required = "login_credentials_required"

abbrev pub put_salt : String → World → World
put_salt salt = set_auth_parameter "login_phash" "login-salt" salt

-- In the first step an unknown login gets a made-up salt.
fake_step : Services → String → Option String → Proc Outcome
fake_step s phash err w =
    if phash == ""
    then reject required true err (put_salt s.fake_salt w)
    else reject failed true err w

check_credentials : User → String → Option (String × String) → Proc Outcome
check_credentials user phash none w = reject "internal_server_error" true none w
check_credentials user phash (some (hash, salt)) w =
    if not (phash == "")
    then (if hash == phash
        then (stop (true, none), set_auth_user (some user) w)
        else reject failed true (some "invalid password hash") w)
    else reject required true (some "credentials not provided") (put_salt salt w)

check_user : Services → String → Option User → Proc Outcome
check_user s phash none w = fake_step s phash none w
check_user s phash (some user) w =
    if user.blocked
    then reject failed true (some "user blocked") w
    else check_credentials user phash user.credentials w

no_section_if : Bool → Proc (Unit {0})
no_section_if true w = (stop (false, none), w)
no_section_if false w = (next tt, w)

unfoldable pub handle : Services → Handler
unfolding no_section_if check_user fake_step check_credentials call_service
handle s = run (do
  phash ← gets (λ w. w.request.param "login_phash" "login-phash")
  login ← gets (λ w. w.request.param "login_phash" "login")
  no_section_if (login == "")
  choose (s.login_invalid login) (fake_step s phash (some "invalid login format")) (do
    down ← attempt
    reject_if down "internal_server_error" true (some "failed to load user")
    check_user s phash (s.find_user login)))

-- The user that a request may log in: known, not blocked, with the hash that the request sends.
abbrev pub matches : String → Option User → Bool
matches phash none = false
matches phash (some user) =
    if user.blocked
    then false
    else elim user.credentials [ none ↦ false | some (h, _) ↦ h == phash ]

-- A login that comes through with no error and no error code was for a known user who is not
-- blocked and whose password hash is the one in the request, and that user is in the context.
pub handle_authenticates_login :
    (s : Services) (w : World)
    → (handle s w).0 ≡ (true, none)
    → is_some (handle s w).1.generic_error ≡ false
    → (matches
          (w.request.param "login_phash" "login-phash")
          (s.find_user (w.request.param "login_phash" "login"))
        ≡ true)
      × ((handle s w).1.auth_user ≡ s.find_user (w.request.param "login_phash" "login"))
unfolding handle set_generic_error_code set_auth_user set_auth_parameter
handle_authenticates_login s w e g = ground arith

-- With a password hash for an unknown login the handler returns no error: only the error code
-- tells that the login failed, and the user of the context stays as it was.
handle_unknown_user :
    (s : Services) (w : World)
    → (w.request.param "login_phash" "login" == "") ≡ false
    → (w.request.param "login_phash" "login-phash" == "") ≡ false
    → s.login_invalid (w.request.param "login_phash" "login") ≡ false
    → s.find_user (w.request.param "login_phash" "login") ≡ none
    → (call_service w).0 ≡ false
    → handle s w ≡ ((true, none), set_generic_error_code failed (call_service w).1)
unfolding handle
handle_unknown_user s w l p v u f = ground arith

-- The salt that the first step shows for a user that was, or was not, found.
abbrev pub shown_salt : Services → Option User → String
shown_salt s none = s.fake_salt
shown_salt s (some user) = elim user.credentials [ none ↦ "" | some (_, salt) ↦ salt ]

abbrev pub may_log_in : Option User → Bool
may_log_in none = true
may_log_in (some user) = if user.blocked then false else is_some user.credentials

-- In the first step of the login, for a well-formed login and while the search for the user does not
-- fail, the code and the response for an unknown user and for a known one who is not blocked and has
-- credentials differ in the value of the salt alone, and the user of the context stays. A known user
-- who is blocked is not among them.
pub handle_first_step :
    (s : Services) (w : World)
    → (w.request.param "login_phash" "login" == "") ≡ false
    → (w.request.param "login_phash" "login-phash" == "") ≡ true
    → s.login_invalid (w.request.param "login_phash" "login") ≡ false
    → may_log_in (s.find_user (w.request.param "login_phash" "login")) ≡ true
    → (call_service w).0 ≡ false
    → ((handle s w).1.generic_error ≡ first_code w.generic_error required)
      × ((handle s w).1.response
          ≡ w.response
            ++ (
              "login_phash",
              "login-salt",
              shown_salt s (s.find_user (w.request.param "login_phash" "login")),
            )
              ∷ [])
      × ((handle s w).1.auth_user ≡ w.auth_user)
unfolding handle set_generic_error_code set_auth_parameter
handle_first_step s w l p v u f = (ground arith, ground arith, ground arith)
