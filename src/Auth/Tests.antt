-- ===== src/Auth/Tests.antt =====
-- Runs of the login and CSRF handlers, of schemas, and of the way to an endpoint.
use go_backend_helpers.Prelude.{
  ℕ, String, ◌≡◌, refl, true, false, none, some, [], ◌∷◌, is_some, ◌==◌, if◌then◌else◌,
}
use go_backend_helpers.Auth.Context.{
  World, Outcome, set_generic_error_code, set_auth_user, expired, call_service,
}
use go_backend_helpers.Auth.Encryption.{value}
use go_backend_helpers.Auth.Examples.{alice, find_alice, request, world, plain}
use go_backend_helpers.Auth.Login.{
  Services, matches, failed, required, shown_salt, handle_authenticates_login, handle_first_step,
}
use go_backend_helpers.Auth.Login
use go_backend_helpers.Auth.Csrf.{AuthCsrf, skips, is_live, handle_protects}
use go_backend_helpers.Auth.Csrf
use go_backend_helpers.Auth.Schema.{AuthHandler, all_of, any_of, handle_schema}
use go_backend_helpers.Auth.Schema.And.{handle_schema_and}
use go_backend_helpers.Auth.Schema.Or.{handle_schema_or}
use go_backend_helpers.Auth.Token.{AuthTokenHandler, Token}
use go_backend_helpers.Auth.Gate.{
  Server, admit, request_handler, coded, check_token, request_handler_closed_tenancy,
  request_handler-expired_token,
}

abbrev services : Services
services = record { login_invalid = λ l. false; find_user = find_alice; fake_salt = "fake" }

handle_authenticates_login_example :
    (matches "hash" (some alice) ≡ true) × ((Login.handle services world).1.auth_user ≡ some alice)
unfolding Login.handle set_auth_user
handle_authenticates_login_example = handle_authenticates_login services world refl refl

abbrev no_users : Services
no_users = record services { find_user = λ l. none }

abbrev first_params : String → String → String
first_params protocol key = if key == "login" then "alice" else ""

abbrev first_step : World
first_step = record world { request = record request { param = first_params } }

handle_first_step_example :
    ((Login.handle services first_step).1.generic_error ≡ some required)
    × ((Login.handle services first_step).1.response ≡ ("login_phash", "login-salt", "salt") ∷ [])
    × ((Login.handle services first_step).1.auth_user ≡ none)
unfolding call_service
handle_first_step_example = handle_first_step services first_step refl refl refl refl refl

abbrev csrf : ℕ → AuthCsrf
csrf exp = record {
  token_ttl_seconds = 300;
  skip_paths = "/status/check" ∷ [];
  encryption = plain exp;
}

handle_protects_example : is_live world (value 200) ≡ true
unfolding Csrf.handle skips expired
handle_protects_example = handle_protects (csrf 200) world refl refl refl

abbrev answers : Outcome → AuthHandler
answers o = record { name = "h"; is_real = true; handle = λ w. (o, w) }

abbrev passes : AuthHandler
passes = answers (true, none)

abbrev absent : AuthHandler
absent = answers (false, none)

handle_schema_and_example : is_some (handle_schema all_of (absent ∷ passes ∷ []) world).0.1 ≡ false
handle_schema_and_example = handle_schema_and absent (passes ∷ []) world

handle_schema_or_example : handle_schema any_of (absent ∷ passes ∷ []) world ≡ ((true, none), world)
handle_schema_or_example = handle_schema_or (absent ∷ passes ∷ []) world (true, none) world refl

abbrev token : Token
token = record {
  exp = 50;
  id = "t1";
  user_id = "u1";
  user_display = "Alice";
  session_id = "s1";
  tenancy = "";
}

abbrev handler : AuthTokenHandler
handler = record {
  access_token_ttl_seconds = 900;
  refresh_token_ttl_seconds = 43200;
  auto_prolongate_access = true;
  auto_prolongate_refresh = true;
  refresh_path = "/auth/refresh";
  logout_path = "/auth/logout";
  encryption = plain token;
  find_user = find_alice;
  random_id = λ n. "new";
  client_hash = λ a b. "client";
  protocol = "check_token";
}

abbrev server : Server
server = record {
  tenancy_path = none;
  tenancy_by_path = λ p. some (record { id = "ten"; active = false });
  allow_not_active_tenancy = false;
  auth_from_tenancy_db = true;
  csrf = none;
  auth = check_token handler;
  endpoint = λ w. (none, record w { response = ("endpoint", "called", "yes") ∷ [] });
}

abbrev tenancy_server : Server
tenancy_server = record server { tenancy_path = some "closed" }

request_handler_closed_tenancy_example :
    (is_some (request_handler tenancy_server world).0 ≡ true)
    × (is_some (request_handler tenancy_server world).1.generic_error ≡ true)
    × ((request_handler tenancy_server world).1 ≡ (admit tenancy_server world).1)
request_handler_closed_tenancy_example =
    request_handler_closed_tenancy tenancy_server "closed" world refl refl

request_handler-expired_token_example :
    request_handler server world
    ≡ coded "internal_server_error"
        (server.endpoint (set_generic_error_code "auth_token_expired" world))
unfolding expired
request_handler-expired_token_example =
    request_handler-expired_token server handler world token refl refl refl refl refl
