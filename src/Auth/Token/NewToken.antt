-- ===== src/Auth/Token/NewToken.antt =====
-- The handler that gives tokens to a user who has logged in, auth_methods/auth_token/auth_new_token.go,
-- with CreateSession of auth/auth_session/session_controller.go.
use go_backend_helpers.Prelude.{◌+◌, Bool, true, false, Option, none, some, [], ◌∷◌, ◌++◌, ◌==◌}
use go_backend_helpers.Auth.Context.{
  User, Session, World, Outcome, Handler, expiration, call_service,
}
use go_backend_helpers.Auth.Flow.{
  next, Flow, Proc, ◌>>=◌, ◌>>◌, pure, finish, reject, modify, gets, attempt, choose, run,
}
use go_backend_helpers.Auth.Token.{
  AuthTokenHandler, find_session, gen_token, gen_refresh_token, update_session_client, or_internal,
}

abbrev pub session_of : AuthTokenHandler → User → World → Session
session_of a user w = record {
  id = a.random_id w.next_id;
  user_id = user.id;
  user_login = user.login;
  valid = true;
  expiration = expiration a.refresh_token_ttl_seconds w;
}

abbrev created : Session → Bool × World → Flow Session × World
created session (true, w) = reject "internal_server_error" true (some "failed to create session") w
created session (false, w) = (next session, record w { sessions = w.sessions ++ session ∷ [] })

-- `CreateSession`, for the user of the context
unfoldable pub create_session : AuthTokenHandler → User → Proc Session
create_session a user w =
    created (session_of a user w) (call_service (record w { next_id = w.next_id + 1 }))

-- A new session, whose identifier the context gets
abbrev start_session : AuthTokenHandler → User → Proc Session
start_session a user = do
  session ← create_session a user
  modify (λ w. record w { session_id = session.id })
  pure session

abbrev known_session : Bool → Proc Session
known_session true = reject "session_expired" true (some "failed to find session")
known_session false = gets (λ w. find_session w.session_id w)

abbrev resume_session : Proc Session
resume_session = do down ← attempt; known_session down

abbrev give_tokens : AuthTokenHandler → User → Proc Outcome
give_tokens a user = do
  id ← gets (λ w. w.session_id)
  session ← choose (id == "") (start_session a user) resume_session
  λ w. or_internal (update_session_client a.client_hash a.random_id w)
  λ w. or_internal (gen_refresh_token a session w)
  λ w. or_internal (gen_token a "access-token" a.access_token_ttl_seconds w)
  λ w. or_internal (gen_refresh_token a session w)
  finish true none

abbrev for_user : AuthTokenHandler → Option User → Proc Outcome
for_user a none = finish false none
for_user a (some user) = give_tokens a user

-- `AuthNewTokenHandler.Handle`
unfoldable pub handle_new_token : AuthTokenHandler → Handler
handle_new_token a w = run (for_user a w.auth_user) w
