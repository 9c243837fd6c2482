-- ===== src/Auth/Gate.antt =====
-- `requestHandler` of api/api_server/rest_api_gin_server/server.go: what stands between a request
-- and the handler of its endpoint. Logging, the origin of the request and the HTTP response are
-- left out.
use go_backend_helpers.Prelude.{
  String, ◌≡◌, ap, Bool, true, false, not, Option, none, some, [], ◌∷◌, ◌&&◌, arith, is_some,
  if◌then◌else◌,
}
use go_backend_helpers.Auth.Context.{World, Handler, set_generic_error_code, expired}
use go_backend_helpers.Auth.Encryption.{value}
use go_backend_helpers.Auth.Schema.{all_of, judge, loop, conclude, handle_schema}
use go_backend_helpers.Auth.Token.{AuthTokenHandler, Token, handle, expired_code, is_refresh}
use go_backend_helpers.Auth.Token.Laws.{request_token, handle_expired_token}

pub record Tenancy : Type 0 where
  pub id : String
  pub active : Bool

-- A server and one of its endpoints. `tenancy_path` is the tenancy in the path of the request, for
-- a server with tenancies and a resource within one.
pub record Server : Type 0 where
  pub tenancy_path : Option String
  pub tenancy_by_path : String → Option Tenancy
  pub allow_not_active_tenancy : Bool
  pub auth_from_tenancy_db : Bool
  pub csrf : Option Handler
  pub auth : World → Option String × World  -- Auth().HandleRequest
  pub endpoint : World → Option String × World  -- ep.HandleRequest

abbrev pub set_tenancy : Tenancy → World → World
set_tenancy t w = record w { tenancy = some t.id }

-- What the lookup of the tenancy gives: the error, the tenancy and the context.
abbrev Looked : Type 0
Looked = Option String × Option Tenancy × World

abbrev not_found : String
not_found = "resource_not_found"

check_active : Server → Option Tenancy → World → Looked
check_active s none w = (some "tenancy not found", none, set_generic_error_code not_found w)
check_active s (some t) w =
    if not s.allow_not_active_tenancy && not t.active
    then (some "tenancy is not active", some t, set_generic_error_code not_found w)
    else (none, some t, if s.auth_from_tenancy_db then set_tenancy t w else w)

find_tenancy : Server → Option String → World → Looked
find_tenancy s none w = (none, none, w)
find_tenancy s (some path) w = check_active s (s.tenancy_by_path path) w

-- A step that is made only while there is no error.
abbrev unless_error :
    Option String → (World → Option String × World) → World → Option String × World
unless_error none m w = m w
unless_error (some e) m w = (some e, w)

check_csrf : Option Handler → World → Option String × World
check_csrf none w = (none, w)
check_csrf (some h) w = let (o, w') = h w in (o.1, w')

-- An error sets a code, if none is set yet.
abbrev pub coded : String → Option String × World → Option String × World
coded code (none, w) = (none, w)
coded code (some e, w) = (some e, set_generic_error_code code w)

late_tenancy : Server → Option Tenancy → World → World
late_tenancy s none w = w
late_tenancy s (some t) w = if s.auth_from_tenancy_db then w else set_tenancy t w

-- Everything up to the call of the endpoint's handler.
unfoldable pub admit : Server → World → Option String × World
unfolding find_tenancy check_active check_csrf late_tenancy
admit s w =
    let (e₀, tenancy, w₀) = find_tenancy s s.tenancy_path w in
    let (e₁, w₁) = unless_error e₀ (check_csrf s.csrf) w₀ in
    let (e₂, w₂) = unless_error e₁ (λ v. coded "unauthorized" (s.auth v)) w₁ in
    (e₂, late_tenancy s tenancy w₂)

unfoldable pub request_handler : Server → World → Option String × World
request_handler s w =
    let (e, w') = admit s w in unless_error e (λ v. coded "internal_server_error" (s.endpoint v)) w'

-- Whether the server serves a tenancy.
abbrev pub is_open : Server → Option Tenancy → Bool
is_open s none = false
is_open s (some t) = if s.allow_not_active_tenancy then true else t.active

-- A request to a tenancy that is unknown, or not active where that is not allowed, is answered
-- with an error and a code, in the context that the checks before the endpoint left: the endpoint
-- does not run.
pub request_handler_closed_tenancy :
    (s : Server) (path : String) (w : World)
    → s.tenancy_path ≡ some path
    → is_open s (s.tenancy_by_path path) ≡ false
    → (is_some (request_handler s w).0 ≡ true)
      × (is_some (request_handler s w).1.generic_error ≡ true)
      × ((request_handler s w).1 ≡ (admit s w).1)
unfolding request_handler admit set_generic_error_code
request_handler_closed_tenancy s path w p c = ground arith

-- The schema that checks access tokens, as the one handler of an "and" schema.
abbrev pub check_token : AuthTokenHandler → World → Option String × World
check_token a w =
    let (o, w') =
      handle_schema all_of (record { name = "check_token"; is_real = true; handle = handle a } ∷ [])
        w in
    (o.1, w')

check_token-expired :
    (a : AuthTokenHandler) (w : World) (prev : Token)
    → request_token a w ≡ value prev
    → expired prev.exp w ≡ true
    → check_token a w ≡ (none, set_generic_error_code (expired_code (is_refresh a w)) w)
unfolding handle_schema loop judge conclude
check_token-expired a w prev g x = ground (arith, handle_expired_token a w prev g x)

-- On a server without tenancies and CSRF, whose one schema checks access tokens, the endpoint's
-- handler is called for a request with an expired token, in the context that the request came
-- with, but for the error code.
pub request_handler-expired_token :
    (s : Server) (a : AuthTokenHandler) (w : World) (prev : Token)
    → s.tenancy_path ≡ none
    → s.csrf ≡ none
    → s.auth ≡ check_token a
    → request_token a w ≡ value prev
    → expired prev.exp w ≡ true
    → request_handler s w
      ≡ coded "internal_server_error"
          (s.endpoint (set_generic_error_code (expired_code (is_refresh a w)) w))
unfolding request_handler admit
request_handler-expired_token s a w prev t c au g x =
    ground
      (arith, ap (λ (f : World → Option String × World). f w) au, check_token-expired a w prev g x)
