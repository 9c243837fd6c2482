-- ===== src/Auth/Context.antt =====
-- The context that the handlers of pkg/auth share: auth.AuthContext (auth/auth_handler.go), the
-- user (auth/auth_user.go), the sessions (auth/auth_session/session.go) and, of
-- op_context/default_op_context/default_op_context.go, the generic error.
-- The log and the trace of calls are left out. Times are seconds; time stands still while one
-- request is handled.
use go_backend_helpers.Prelude.{
  ℕ, ◌+◌, String, ◌≡◌, Bool, false, Option, none, some, List, [], ◌∷◌, ◌++◌, arith, ltb, Dict,
  is_some,
}

-- A user as the handlers see it. `phone`, `credentials` and `hmac_secret` are `none` where the Go
-- type has not the interface that the handler asks for.
pub record User : Type 0 where
  pub id : String
  pub login : String
  pub display : String
  pub blocked : Bool
  pub phone : Option String
  pub credentials : Option (String × String)  -- password hash, salt
  pub hmac_secret : Option String

pub record Request : Type 0 where
  pub path : String
  pub method : String
  pub content : String
  pub client_ip : String
  pub user_agent : String
  -- the parameter of a protocol by its name, "" if the request has none
  pub param : String → String → String
  -- what `CheckRequestContent` gives: the message for the SMS, or `none` for an error
  pub checked_content : Option String

pub record Session : Type 0 where
  pub id : String
  pub user_id : String
  pub user_login : String
  pub valid : Bool
  pub expiration : ℕ

pub record SessionClient : Type 0 where
  pub id : String
  pub session_id : String
  pub client_hash : String
  pub updated_at : ℕ

pub record SmsCacheToken : Type 0 where
  pub tries : ℕ
  pub code : String
  pub checksum : String
  pub sms_id : String

pub data CacheItem : Type 0 where
  delay_item : ℕ → CacheItem  -- the time of the SMS
  token_item : SmsCacheToken → CacheItem

-- MessageSignature of signature/signature_manager.go, less the fields of every object
pub record MessageSignature : Type 0 where
  pub user_id : String
  pub signature : String
  pub extra_data : List String
  pub pub_key_hash : String
  pub message : String

-- Everything that handling one request reads and writes. `faults` says of each call of a service
-- (database, cache, SMS provider), in order, whether it fails; after its end no call fails.
pub record World : Type 0 where
  pub request : Request
  pub now : ℕ
  pub tenancy : Option String
  pub auth_user : Option User
  pub session_id : String
  pub client_id : String
  pub response : List (String × String × String)
  pub generic_error : Option String
  pub cache : Dict (ℕ × CacheItem)
  pub sessions : List Session
  pub clients : List SessionClient
  pub sent : List (String × String)
  pub signatures : List MessageSignature
  pub faults : List Bool
  pub next_id : ℕ

-- What a handler returns: whether its section was found in the request, and the error.
abbrev pub Outcome : Type 0
Outcome = Bool × Option String

abbrev pub Handler : Type 0
Handler = World → Outcome × World

-- `SetGenericErrorCode` without `override`: the first code stays.
abbrev pub first_code : Option String → String → Option String
first_code none code = some code
first_code (some old) code = some old

unfoldable pub set_generic_error_code : String → World → World
set_generic_error_code code w = record w { generic_error = first_code w.generic_error code }

unfoldable pub set_auth_user : Option User → World → World
set_auth_user user w = record w { auth_user = user }

unfoldable pub set_auth_parameter : String → String → String → World → World
set_auth_parameter protocol key value w = record w {
  response = w.response ++ (protocol, key, value) ∷ [];
}

-- Whether the next call of a service fails.
abbrev next_fault : List Bool → Bool × List Bool
next_fault [] = (false, [])
next_fault (f ∷ fs) = (f, fs)

unfoldable pub call_service : World → Bool × World
call_service w = let (f, fs) = next_fault w.faults in (f, record w { faults = fs })

-- `ExpireToken.Expired`, and `SetTTL`
unfoldable pub expired : ℕ → World → Bool
expired exp w = ltb exp w.now

unfoldable pub expiration : ℕ → World → ℕ
expiration ttl w = w.now + ttl

-- The first code that is set is the one that the client gets.
pub set_generic_error_code-first :
    (a b : String) (w : World)
    → is_some w.generic_error ≡ false
    → (set_generic_error_code b (set_generic_error_code a w)).generic_error ≡ some a
unfolding set_generic_error_code
set_generic_error_code-first a b w h = ground arith
