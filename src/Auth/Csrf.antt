-- ===== src/Auth/Csrf.antt =====
-- auth/auth_methods/auth_csrf/auth_csrf.go: the anti-CSRF token.
use go_backend_helpers.Prelude.{
  ℕ, String, ◌≡◌, Bool, true, false, not, Option, none, some, List, [], ◌∷◌, ◌==◌, arith,
  if◌then◌else◌, is_some,
}
use go_backend_helpers.Auth.Context.{World, Handler, set_generic_error_code, expired, expiration}
use go_backend_helpers.Auth.Flow.{next, Proc, ◌>>◌, pure, reject, reject_if, choose, run}
use go_backend_helpers.Auth.Encryption.{Parameter, missing, invalid, value, Encryption}

pub record AuthCsrf : Type 0 where
  pub token_ttl_seconds : ℕ
  pub skip_paths : List String
  pub encryption : Encryption ℕ

-- The set of paths that `Init` builds from IGNORE_PATHS.
pub init_skip_paths : List String → List String
init_skip_paths [] = "/status/check" ∷ []
init_skip_paths (p ∷ ps) = p ∷ ps

unfoldable pub skips : List String → String → Bool
skips [] path = false
skips (p ∷ ps) path = if p == path then true else skips ps path

-- The check of the token in the request.
check_token : Parameter ℕ → Proc (Unit {0})
check_token missing w = reject "anti_csrf_token_required" false (some "CSRF token not found") w
check_token (invalid e) w = reject "anti_csrf_token_invalid" true (some e) w
check_token (value exp) w = reject_if (expired exp w) "anti_csrf_token_expired" true none w

set_token : AuthCsrf → Proc (Bool × Option String)
set_token a w =
    let (e, w') = a.encryption.set w "csrf" "csrf" (expiration a.token_ttl_seconds w) in
    elim e [
      | none ↦ (next (true, none), w')
      | some err ↦ reject "internal_server_error" true (some err) w'
    ]

unfoldable pub handle : AuthCsrf → Handler
unfolding check_token set_token
handle a w =
    run
      (do
        choose (skips a.skip_paths w.request.path) (pure tt)
            (check_token (a.encryption.get w "csrf" "csrf"))
        set_token a)
      w

-- A parameter that was decrypted and has not expired.
abbrev pub is_live : World → Parameter ℕ → Bool
is_live w missing = false
is_live w (invalid e) = false
is_live w (value exp) = not (expired exp w)

-- A request whose path is not skipped and that comes through with no error and no error code
-- carried a CSRF token that could be decrypted and had not expired.
pub handle_protects :
    (a : AuthCsrf) (w : World)
    → skips a.skip_paths w.request.path ≡ false
    → (handle a w).0.1 ≡ none
    → is_some (handle a w).1.generic_error ≡ false
    → is_live w (a.encryption.get w "csrf" "csrf") ≡ true
unfolding handle set_generic_error_code
handle_protects a w s e g = ground arith

-- The handler returns no error for an expired token, and only sets the error code: it reports
-- success to a caller that looks at the error alone. No new token is put into the response.
handle_expired_csrf :
    (a : AuthCsrf) (w : World) (exp : ℕ)
    → skips a.skip_paths w.request.path ≡ false
    → a.encryption.get w "csrf" "csrf" ≡ value exp
    → expired exp w ≡ true
    → handle a w ≡ ((true, none), set_generic_error_code "anti_csrf_token_expired" w)
unfolding handle
handle_expired_csrf a w exp s g e = ground arith
