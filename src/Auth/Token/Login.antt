-- ===== src/Auth/Token/Login.antt =====
-- From a login to the requests that bring its access token: auth_methods/auth_token/auth_new_token.go
-- and auth_token.go together.
use go_backend_helpers.Prelude.{
  ℕ, ◌+◌, ◌≤◌, String, ◌≡◌, refl, true, false, Option, none, some, List, [], ◌∷◌, ◌++◌, map, ◌==◌,
  if◌then◌else◌, arith, ltb, eq_refl, All, ap, ◌∙◌,
}
use go_backend_helpers.Auth.Context.{
  User, Session, World, set_auth_parameter, expiration, expired, call_service,
}
use go_backend_helpers.Auth.Flow.{next}
use go_backend_helpers.Auth.Encryption.{value, Encryption}
use go_backend_helpers.Auth.Token.{
  AuthTokenHandler, Token, same_tenancy, find_session, session_by_id, gen_token, gen_refresh_token,
  update_session_client, update_client, update_session_expiration, set_expiration, tenancy_text,
  identify,
}
use go_backend_helpers.Auth.Token.NewToken.{session_of, create_session, handle_new_token}

-- An encryption that does not fail: the text of a value, by the random numbers that it takes, reads
-- as the value.
pub record Seals (e : Encryption Token) : Type 0 where
  pub seal : Token → ℕ → String
  pub sets :
      (w : World) (protocol name : String) (t : Token)
      → e.set w protocol name t ≡ (
        none,
        set_auth_parameter protocol name (seal t w.next_id) (record w { next_id = w.next_id + 1 }),
      )
  pub gets :
      (v : World) (protocol name : String) (t : Token) (k : ℕ)
      → v.request.param protocol name ≡ seal t k
      → e.get v protocol name ≡ value t

-- What `update_session_client` leaves as it is, when no call fails.
pub record Kept (w v : World) : Type 0 where
  pub sessions : v.sessions ≡ w.sessions
  pub auth_user : v.auth_user ≡ w.auth_user
  pub tenancy : v.tenancy ≡ w.tenancy
  pub session_id : v.session_id ≡ w.session_id
  pub now : v.now ≡ w.now
  pub response : v.response ≡ w.response
  pub faults : v.faults ≡ w.faults

update_session_client-Kept :
    (hash : String → String → String) (random : ℕ → String) (w : World)
    → w.faults ≡ []
    → ((update_session_client hash random w).0 ≡ none)
      × Kept w (update_session_client hash random w).1
unfolding update_session_client update_client call_service
update_session_client-Kept hash random w e = ground arith

-- The token that is made of the context
abbrev token_of : AuthTokenHandler → User → ℕ → World → Token
token_of a u ttl w = record {
  exp = w.now + ttl;
  id = a.random_id w.next_id;
  user_id = u.id;
  user_display = u.display;
  session_id = w.session_id;
  tenancy = tenancy_text w.tenancy;
}

module _ (a : AuthTokenHandler) (s : Seals a.encryption) (u : User) where
  abbrev with_token : String → ℕ → World → World
  with_token name ttl w = record w {
    next_id = w.next_id + 1 + 1;
    response = w.response ++ (a.protocol, name, s.seal (token_of a u ttl w) (w.next_id + 1)) ∷ [];
  }

  gen_token_lem :
      (name : String) (ttl : ℕ) (w : World)
      → w.auth_user ≡ some u
      → gen_token a name ttl w ≡ (none, with_token name ttl w)
  unfolding gen_token set_auth_parameter expiration
  gen_token_lem name ttl w e = rw e (
      s.sets (record w { auth_user = some u; next_id = w.next_id + 1 }) a.protocol name
        (token_of a u ttl w))

  abbrev refreshed : Session → World → World
  refreshed session w = record w {
    sessions = map (set_expiration session.id (w.now + a.refresh_token_ttl_seconds)) w.sessions;
    faults = [];
  }

  abbrev with_refresh : Session → World → World
  with_refresh session w =
      with_token "refresh-token" a.refresh_token_ttl_seconds (refreshed session w)

  gen_refresh_token_lem :
      (session : Session) (w : World)
      → w.auth_user ≡ some u
      → w.faults ≡ []
      → gen_refresh_token a session w ≡ (none, with_refresh session w)
  unfolding gen_refresh_token update_session_expiration call_service expiration
  gen_refresh_token_lem session w e f = rw f (
      gen_token_lem "refresh-token" a.refresh_token_ttl_seconds
        (refreshed session (record w { faults = [] })) e)

  -- The context with the session of a user who has logged in.
  abbrev started : World → World
  started w = record w {
    next_id = w.next_id + 1;
    faults = [];
    sessions = w.sessions ++ session_of a u w ∷ [];
    session_id = a.random_id w.next_id;
  }

  abbrev known_client : World → World
  known_client w = (update_session_client a.client_hash a.random_id (started w)).1

  -- The context at the end, with the three tokens.
  abbrev finished : World → World
  finished w =
      let session = session_of a u w in
      with_refresh session (
        with_token "access-token" a.access_token_ttl_seconds
          (with_refresh session (known_client w)))

  -- A context with the user, and with no session yet, in which no call fails.
  abbrev pub logged_in : World → World
  logged_in w = record w { auth_user = some u; session_id = ""; response = []; faults = [] }

  handle_new_token_lem :
      (w : World) → handle_new_token a (logged_in w) ≡ ((true, none), finished (logged_in w))
  unfolding handle_new_token create_session call_service expiration
  handle_new_token_lem w =
      let session = session_of a u (logged_in w) in
      let (o, k) =
        update_session_client-Kept a.client_hash a.random_id (started (logged_in w)) refl in
      let w2 = known_client (logged_in w) in
      let w3 = with_refresh session w2 in
      let w4 = with_token "access-token" a.access_token_ttl_seconds w3 in
      rw
        (
          o,
          gen_refresh_token_lem session w2 k.auth_user k.faults,
          gen_token_lem "access-token" a.access_token_ttl_seconds w3 k.auth_user,
          gen_refresh_token_lem session w4 k.auth_user refl,
        )
        refl

  -- The token that the response gives.
  abbrev access_token : World → Token
  access_token w =
      token_of a u a.access_token_ttl_seconds (with_refresh (session_of a u w) (known_client w))

  -- The handler of tokens with the same configuration, under a protocol of its own.
  abbrev pub reader : String → AuthTokenHandler
  reader protocol = record a { protocol = protocol }

-- The first parameter of a name in a response
abbrev pub issued : String → List (String × String × String) → String
issued name [] = ""
issued name ((protocol, n, x) ∷ rest) = if n == name then x else issued name rest

abbrev pub IsFresh : String → List Session → Type 0
IsFresh id ss = All (λ (s : Session). (s.id == id) ≡ false) ss

new_session :
    (id : String) (exp : ℕ) (ss : List Session) (x : Session)
    → IsFresh id ss
    → (x.id == id) ≡ true
    → session_by_id id (map (set_expiration id exp) (map (set_expiration id exp) (ss ++ x ∷ [])))
      ≡ record x { expiration = exp }
unfolding session_by_id set_expiration
new_session id exp [] x h e = ground (arith, e)
new_session id exp (s ∷ ss) x h e = ground (arith, h.0, new_session id exp ss x h.1 e)

same_tenancy_text : (t : Option String) → same_tenancy t (tenancy_text t) ≡ true
same_tenancy_text none = refl
same_tenancy_text (some id) = eq_refl id

identify_lem :
    (b : AuthTokenHandler) (v : World) (t : Token) (session : Session) (known : User)
    → v.faults ≡ []
    → b.encryption.get v b.protocol "access-token" ≡ value t
    → expired t.exp v ≡ false
    → same_tenancy v.tenancy t.tenancy ≡ true
    → find_session t.session_id v ≡ session
    → session.valid ≡ true
    → ltb session.expiration v.now ≡ false
    → b.find_user session.user_login ≡ some known
    → known.blocked ≡ false
    → (identify b false v).0 ≡ next (session, known)
unfolding identify call_service find_session expired
identify_lem b v t session known f g e m s i x u n = ground arith

module _ (a : AuthTokenHandler) (s : Seals a.encryption) (u : User) (w : World) where
  abbrev after : World
  after = (handle_new_token a (logged_in a s u w)).1

  issued_lem :
      issued "access-token" after.response
      ≡ s.seal (access_token a s u (logged_in a s u w)) (
          (with_refresh a s u
            (session_of a u (logged_in a s u w))
            (known_client a s u (logged_in a s u w))).next_id
          + 1)
  issued_lem =
      let (o, k) =
        update_session_client-Kept a.client_hash a.random_id (started a s u (logged_in a s u w))
          refl in
      ap (λ z. issued "access-token" z.1.response) (handle_new_token_lem a s u w)
      ∙ rw k.response refl

  session_lem :
      IsFresh (a.random_id w.next_id) w.sessions
      → session_by_id (a.random_id w.next_id) after.sessions ≡ session_of a u w
  unfolding expiration
  session_lem h =
      let (o, k) =
        update_session_client-Kept a.client_hash a.random_id (started a s u (logged_in a s u w))
          refl in
      ap (λ z. session_by_id (a.random_id w.next_id) z.1.sessions) (handle_new_token_lem a s u w)
      ∙ rw (k.sessions, k.now)
          (new_session (a.random_id w.next_id) (w.now + a.refresh_token_ttl_seconds) w.sessions
            (session_of a u w) h (eq_refl (a.random_id w.next_id)))

-- After a login that the handler of new tokens answers while no call fails, it returns no error, and
-- a request that brings the access token of its answer, under the protocol of the token handler,
-- comes through to the user, with the session of the login: while neither the token nor the session
-- has expired, for the same tenancy and with the sessions as they were left, when no session had the
-- identifier of the new one before, and the user's login is known and not blocked.
pub login-identify :
    (a : AuthTokenHandler) (s : Seals a.encryption) (u : User) (w v : World) (protocol : String)
    (known : User)
    → IsFresh (a.random_id w.next_id) w.sessions
    → v.request.param protocol "access-token"
      ≡ issued "access-token" (handle_new_token a (logged_in a s u w)).1.response
    → v.sessions ≡ (handle_new_token a (logged_in a s u w)).1.sessions
    → v.tenancy ≡ w.tenancy
    → v.faults ≡ []
    → v.now ≤ w.now + a.access_token_ttl_seconds
    → v.now ≤ w.now + a.refresh_token_ttl_seconds
    → a.find_user u.login ≡ some known
    → known.blocked ≡ false
    → ((handle_new_token a (logged_in a s u w)).0 ≡ (true, none))
      × ((identify (reader a s u protocol) false v).0 ≡ next (session_of a u w, known))
unfolding expired expiration find_session
login-identify a s u w v protocol known h p q t f n m x b =
    let (o, k) =
      update_session_client-Kept a.client_hash a.random_id (started a s u (logged_in a s u w))
        refl in
    let token = access_token a s u (logged_in a s u w) in
    let id : token.session_id ≡ a.random_id w.next_id = k.session_id in
    let now : token.exp ≡ w.now + a.access_token_ttl_seconds =
      ap (λ z. z + a.access_token_ttl_seconds) k.now in
    let tenancy : token.tenancy ≡ tenancy_text w.tenancy = ap tenancy_text k.tenancy in
    (
      ap (λ z. z.0) (handle_new_token_lem a s u w),
      identify_lem (reader a s u protocol) v token (session_of a u w) known f
          (s.gets v protocol "access-token" token _ (p ∙ issued_lem a s u w))
          (ground (arith, now, n)) (rw (tenancy, t) (same_tenancy_text w.tenancy))
          (rw (id, q) (session_lem a s u w h)) refl (ground (arith, m)) x b,
    )
