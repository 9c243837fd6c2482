-- ===== src/Auth/Hmac.antt =====
-- auth/auth_methods/auth_hmac/auth_hmac.go: a request signed with a secret that the user and the
-- server share.
use go_backend_helpers.Prelude.{
  String, ◌≡◌, Bool, true, false, not, Option, none, some, List, [], ◌∷◌, ◌==◌, ◌&&◌, arith,
  is_some,
}
use go_backend_helpers.Auth.Context.{User, World, Outcome, Handler, set_generic_error_code}
use go_backend_helpers.Auth.Flow.{
  next, Proc, ◌>>=◌, ◌>>◌, pure, finish, reject, reject_if, gets, run,
}

abbrev pub unauthorized : String
unauthorized = "unauthorized"

-- `ctx.AuthUser()`
auth_user : Option User → Proc User
auth_user none w = reject unauthorized true (some "unknown user") w
auth_user (some user) w = pure user w

-- The assertion to UserWithHmacSecret, whose failure leaves `err` nil.
hmac_secret : Option String → Proc String
hmac_secret none w = reject "internal_server_error" true none w
hmac_secret (some secret) w = pure secret w

-- What `hmac.CheckStr` gives.
checked : Option String → Proc Outcome
checked none w = finish true none w
checked (some e) w = reject "hmac_invalid" true (some e) w

abbrev pub request_parts : World → List String
request_parts w = w.request.method ∷ w.request.path ∷ w.request.content ∷ []

no_section_if : Bool → Proc (Unit {0})
no_section_if true w = finish false none w
no_section_if false w = (next tt, w)

-- `check_hmac secret parts hmac` is the error of comparing with the HMAC of the parts, if any.
module _ (check_hmac : String → List String → String → Option String) where
  unfoldable pub handle : Handler
  unfolding no_section_if auth_user hmac_secret checked
  handle = run (do
    request_hmac ← gets (λ w. w.request.param "hmac" "hmac")
    no_section_if (request_hmac == "")
    known ← gets (λ w. w.auth_user)
    user ← auth_user known
    secret ← hmac_secret user.hmac_secret
    reject_if (secret == "") unauthorized true (some "hmac secret is not set for user")
    λ w. checked (check_hmac secret (request_parts w) request_hmac) w)

  -- A user with a secret under which the request's HMAC is right.
  abbrev pub verifies : World → Option User → Bool
  verifies w none = false
  verifies w (some user) = elim user.hmac_secret [
    | none ↦ false
    | some secret ↦
        not (secret == "")
        && not (is_some (check_hmac secret (request_parts w) (w.request.param "hmac" "hmac")))
  ]

  -- A request whose HMAC section is found and that comes through with no error and no error code has
  -- a user with a secret, and carries the HMAC of its method, path and content under that secret.
  pub handle_verifies_hmac :
      (w : World)
      → (handle w).0 ≡ (true, none)
      → is_some (handle w).1.generic_error ≡ false
      → verifies w w.auth_user ≡ true
  unfolding handle set_generic_error_code
  handle_verifies_hmac w e g = ground arith

  -- For a user of a type without an HMAC secret the handler returns no error and sets the error code
  -- alone: the HMAC is not looked at.
  handle_without_hmac_secret :
      (w : World) (user : User)
      → w.auth_user ≡ some user
      → user.hmac_secret ≡ none
      → (w.request.param "hmac" "hmac" == "") ≡ false
      → handle w ≡ ((true, none), set_generic_error_code "internal_server_error" w)
  unfolding handle
  handle_without_hmac_secret w user u n p = ground arith
