-- ===== src/Auth/Token/Tests.antt =====
-- Runs of the token handler.
use go_backend_helpers.Prelude.{◌≡◌, refl, true, false, [], ◌∷◌, is_some}
use go_backend_helpers.Auth.Context.{World, expired, call_service, set_auth_user}
use go_backend_helpers.Auth.Examples.{find_alice, session, world, plain}
use go_backend_helpers.Auth.Token.{
  AuthTokenHandler, Token, handle, find_session, session_by_id, update_session_client,
  update_session_expiration, identify, serve, prolongate, logout, gen_token, gen_refresh_token,
  check_tenancy, check_session, check_user, read_token, find_client,
}
use go_backend_helpers.Auth.Token.Laws.{accepts, request_token, handle_authenticates_token}
use go_backend_helpers.Auth.Token.Revocation.{handle_revoked}

abbrev token : Token
token = record {
  exp = 200;
  id = "t1";
  user_id = "u1";
  user_display = "Alice";
  session_id = "s1";
  tenancy = "";
}

abbrev handler : AuthTokenHandler
handler = record {
  access_token_ttl_seconds = 900;
  refresh_token_ttl_seconds = 43200;
  auto_prolongate_access = true;
  auto_prolongate_refresh = true;
  refresh_path = "/auth/refresh";
  logout_path = "/auth/logout";
  encryption = plain token;
  find_user = find_alice;
  random_id = λ n. "new";
  client_hash = λ a b. "client";
  protocol = "check_token";
}

handle_authenticates_token_example : accepts handler world (request_token handler world) ≡ true
unfolding handle find_session call_service expired identify session_by_id serve
    update_session_client update_session_expiration prolongate logout gen_token gen_refresh_token
    check_tenancy check_session check_user read_token set_auth_user find_client
handle_authenticates_token_example = handle_authenticates_token handler world refl refl

abbrev revoked : World
revoked = record world { sessions = record session { valid = false } ∷ [] }

handle_revoked_example : is_some (handle handler revoked).0.1 ≡ true
unfolding find_session session_by_id expired
handle_revoked_example = handle_revoked handler revoked token refl refl refl

abbrev two_sessions : World
two_sessions = record world {
  sessions = session ∷ record session { id = "s2"; user_id = "u2" } ∷ [];
}
