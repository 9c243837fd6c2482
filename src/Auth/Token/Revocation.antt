-- ===== src/Auth/Token/Revocation.antt =====
-- Requests with the tokens of sessions that are not valid (auth/auth_methods/auth_token/auth_token.go
-- and auth/auth_session/session_controller.go).
use go_backend_helpers.Prelude.{
  String, ◌≡◌, refl, true, false, none, List, [], ◌∷◌, map, ◌==◌, ◌&&◌, arith, eq_iff,
  if◌then◌else◌, is_some,
}
use go_backend_helpers.Auth.Context.{Session, World, expired, call_service}
use go_backend_helpers.Auth.Encryption.{value}
use go_backend_helpers.Auth.Token.{
  AuthTokenHandler, Token, identify, handle, find_session, session_by_id, invalidate,
  invalidate_session, invalidate_user_sessions,
}
use go_backend_helpers.Auth.Token.Laws.{request_token}

session_by_id-invalidate :
    (id user_id : String) (ss : List Session)
    → (session_by_id id ss).user_id ≡ user_id
    → (session_by_id id (map (invalidate (λ s. s.id == id && s.user_id == user_id)) ss)).valid
      ≡ false
unfolding session_by_id invalidate
session_by_id-invalidate id user_id [] h = refl
session_by_id-invalidate id user_id (s ∷ ss) h =
    ground (arith, session_by_id-invalidate id user_id ss, eq_iff s.id id, eq_iff s.user_id user_id)

-- After `InvalidateSession` for the user of a session, the session that is found under that
-- identifier is not valid.
find_session-invalidate_session :
    (w : World) (id : String)
    → (invalidate_session (find_session id w).user_id id w).0 ≡ none
    → (find_session id (invalidate_session (find_session id w).user_id id w).1).valid ≡ false
unfolding invalidate_session find_session call_service
find_session-invalidate_session w id h =
    ground (arith, session_by_id-invalidate id (session_by_id id w.sessions).user_id w.sessions)

-- A token whose session is not valid is refused with an error, whatever else holds.
pub handle_revoked :
    (a : AuthTokenHandler) (w : World) (prev : Token)
    → request_token a w ≡ value prev
    → expired prev.exp w ≡ false
    → (find_session prev.session_id w).valid ≡ false
    → is_some (handle a w).0.1 ≡ true
unfolding handle identify find_session call_service
handle_revoked a w prev g e v = ground arith

-- `InvalidateUserSessions`: the sessions of the user are not valid, and no other session changes.
abbrev pub Revoked : String → Session → Session → Type 0
Revoked user old new =
    (new.id ≡ old.id)
    × (new.valid ≡ (if old.user_id == user then false else old.valid))
    × (new.expiration ≡ old.expiration)

abbrev pub Pairwise : (Session → Session → Type 0) → List Session → List Session → Type 0
Pairwise R [] [] = Unit {0}
Pairwise R (s ∷ ss) (t ∷ ts) = R s t × Pairwise R ss ts
Pairwise R _ _ = ⊥

revoke_all :
    (user : String) (ss : List Session)
    → Pairwise (Revoked user) ss (map (invalidate (λ s. s.user_id == user)) ss)
unfolding invalidate
revoke_all user [] = tt
revoke_all user (s ∷ ss) = ((ground arith, ground arith, ground arith), revoke_all user ss)

sessions-invalidate_user_sessions :
    (w : World) (user : String)
    → (invalidate_user_sessions user w).0 ≡ none
    → (invalidate_user_sessions user w).1.sessions
      ≡ map (invalidate (λ s. s.user_id == user)) w.sessions
unfolding invalidate_user_sessions call_service
sessions-invalidate_user_sessions w user h = ground arith

-- A successful `InvalidateUserSessions` makes every session of the user invalid and leaves the
-- others, and every identifier and expiration, as they were.
invalidate_user_sessions_lem :
    (w : World) (user : String)
    → (invalidate_user_sessions user w).0 ≡ none
    → Pairwise (Revoked user) w.sessions (invalidate_user_sessions user w).1.sessions
invalidate_user_sessions_lem w user h =
    rw (sessions-invalidate_user_sessions w user h) (revoke_all user w.sessions)
