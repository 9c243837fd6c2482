-- ===== src/Auth/KeyTests.antt =====
-- Runs of the HMAC and signature handlers.
use go_backend_helpers.Prelude.{
  is_some, false, String, ◌≡◌, refl, true, Option, none, some, List, ◌==◌, if◌then◌else◌,
}
use go_backend_helpers.Auth.Context.{User, World, call_service}
use go_backend_helpers.Auth.Examples.{alice, request, world}
use go_backend_helpers.Auth.Hmac.{handle_verifies_hmac}
use go_backend_helpers.Auth.Hmac
use go_backend_helpers.Auth.Signature.{SignatureManager, signed, verify, handle_verifies_signature}
use go_backend_helpers.Auth.Signature

abbrev key_params : String → String → String
key_params protocol key = if key == "hmac" then "sum" else if key == "signature" then "sig" else ""

abbrev bob : User
bob = record alice { id = "u2"; hmac_secret = some "secret" }

abbrev signed_in : User → World
signed_in user = record world {
  auth_user = some user;
  request = record request { param = key_params };
}

abbrev check_hmac : String → List String → String → Option String
check_hmac secret parts hmac = if hmac == "sum" then none else some "invalid HMAC"

handle_verifies_hmac_example : Hmac.verifies check_hmac (signed_in bob) (some bob) ≡ true
unfolding Hmac.handle
handle_verifies_hmac_example = handle_verifies_hmac check_hmac (signed_in bob) refl refl

abbrev manager : SignatureManager
manager = record {
  pub_key = λ u. if u.id == "u2" then some ("key", "key hash") else none;
  load_error = λ key. none;
  verify_error = λ key content signature. if signature == "sig" then none else some "invalid";
  encrypt = none;
}

handle_verifies_signature_example :
    (Signature.verifies manager (signed_in bob) bob ≡ true)
    × ((Signature.handle manager (Signature.moved "DELETE" "/other" (signed_in bob))).0
        ≡ (true, none))
    × (is_some
          (Signature.handle manager
            (Signature.moved "DELETE" "/other" (signed_in bob))).1.generic_error
        ≡ false)
unfolding Signature.handle verify call_service
handle_verifies_signature_example =
    handle_verifies_signature manager (signed_in bob) bob "DELETE" "/other" refl refl refl
