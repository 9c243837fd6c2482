-- ===== src/Auth/Token/Sessions.antt =====
-- The operations of SessionControllerBase (auth/auth_session/session_controller.go) that a request
-- makes, over the tables of sessions and of session clients. A row that is not found is the blank
-- object that the builder makes.
use go_backend_helpers.Prelude.{
  ℕ, ◌+◌, String, Bool, true, false, Option, none, some, List, [], ◌∷◌, ◌++◌, map, ◌==◌, ◌&&◌,
  if◌then◌else◌,
}
use go_backend_helpers.Auth.Context.{Session, SessionClient, World, call_service}

abbrev pub blank_session : Session
blank_session = record { id = ""; user_id = ""; user_login = ""; valid = false; expiration = 0 }

unfoldable pub session_by_id : String → List Session → Session
session_by_id id [] = blank_session
session_by_id id (s ∷ ss) = if s.id == id then s else session_by_id id ss

-- `FindSession`: `ReadByField` reports whether the row was found, and the code does not look.
unfoldable pub find_session : String → World → Session
find_session id w = session_by_id id w.sessions

unfoldable pub set_expiration : String → ℕ → Session → Session
set_expiration id exp s = if s.id == id then record s { expiration = exp } else s

-- `UpdateSessionExpiration`
unfoldable pub update_session_expiration : String → ℕ → World → Option String × World
update_session_expiration id exp w =
    let (down, w') = call_service w in
    if down
    then (some "failed to update session expiration", w')
    else (none, record w' { sessions = map (set_expiration id exp) w'.sessions })

unfoldable pub invalidate : (Session → Bool) → Session → Session
invalidate p s = if p s then record s { valid = false } else s

abbrev update_multi : (Session → Bool) → World → Option String × World
update_multi p w =
    let (down, w') = call_service w in
    if down
    then (some "failed to update sessions", w')
    else (none, record w' { sessions = map (invalidate p) w'.sessions })

-- `InvalidateSession`, `InvalidateUserSessions` and `InvalidateAllSessions`
unfoldable pub invalidate_session : String → String → World → Option String × World
invalidate_session user_id session_id =
    update_multi (λ s. s.id == session_id && s.user_id == user_id)

unfoldable pub invalidate_user_sessions : String → World → Option String × World
invalidate_user_sessions user_id = update_multi (λ s. s.user_id == user_id)

unfoldable pub invalidate_all_sessions : World → Option String × World
invalidate_all_sessions = update_multi (λ _. true)

unfoldable pub find_client : String → String → List SessionClient → Option SessionClient
find_client session_id hash [] = none
find_client session_id hash (c ∷ cs) =
    if c.session_id == session_id && c.client_hash == hash
    then some c
    else find_client session_id hash cs

touch : String → ℕ → SessionClient → SessionClient
touch id now c = if c.id == id then record c { updated_at = now } else c

-- The update of the client's time, and its identifier in the context.
unfoldable pub update_client : String → World → Option String × World
unfolding touch
update_client id w =
    let (down, w') = call_service w in
    if down
    then (some "failed to update client in database", w')
    else (none, record w' { clients = map (touch id w'.now) w'.clients; client_id = id })

-- `UpdateSessionClient`: a client that cannot be created is logged and then updated.
unfoldable pub update_session_client :
    (String → String → String) → (ℕ → String) → World → Option String × World
update_session_client client_hash random_id w =
    let hash = client_hash w.request.client_ip w.request.user_agent in
    let (down, w₁) = call_service w in
    if down
    then (some "failed to find client in database", w₁)
    else elim (find_client w₁.session_id hash w₁.clients) [
      | some c ↦ update_client c.id w₁
      | none ↦
          let id = random_id w₁.next_id in
          let (down', w₂) = call_service (record w₁ { next_id = w₁.next_id + 1 }) in
          let client : SessionClient = record {
            id = id;
            session_id = w₂.session_id;
            client_hash = hash;
            updated_at = w₂.now;
          } in
          if down'
          then update_client id w₂
          else (none, record w₂ { clients = w₂.clients ++ client ∷ []; client_id = id })
    ]
