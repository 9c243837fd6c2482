-- ===== src/Auth/Signature.antt =====
-- auth/auth_methods/auth_signature/auth_signature.go, with `Verify` of
-- signature/signature_manager.go: a request signed with the user's key, whose signature is kept.
-- The source panics without a user in the context; here that is an error.
use go_backend_helpers.Prelude.{
  String, ◌≡◌, Bool, true, false, not, Option, none, some, [], ◌∷◌, ◌++◌, ◌==◌, ◌&&◌, arith,
  is_some,
}
use go_backend_helpers.Auth.Context.{
  User, World, MessageSignature, Handler, set_generic_error_code, call_service,
}
use go_backend_helpers.Auth.Flow.{
  next, Proc, ◌>>=◌, ◌>>◌, pure, finish, reject, reject_if, modify, gets, attempt, run,
}

abbrev internal : String
internal = "internal_server_error"

-- A signature manager for the one algorithm that the code supports: the key and its hash of a user
-- that has one, the loading of a key into a verifier (`MakeVerifier`) and the check of a signature on a
-- message (`crypt_utils.VerifySignature`, to which Verify gives no further data), each with its error, and the encryption of
-- kept messages, if on.
pub record SignatureManager : Type 0 where
  pub pub_key : User → Option (String × String)
  pub load_error : String → Option String
  pub verify_error : String → String → String → Option String
  pub encrypt : Option (String → Option String)

no_section_if : Bool → Proc (Unit {0})
no_section_if true w = finish false none w
no_section_if false w = (next tt, w)

signing_user : Option User → Proc User
signing_user none w = finish true (some "nil user") w
signing_user (some user) w = pure user w

-- The assertion to UserWithPubkey, whose failure leaves `err` nil.
key_of : Option (String × String) → Proc (String × String)
key_of none w = reject internal true none w
key_of (some key) w = pure key w

fail_with : String → Option String → Proc (Unit {0})
fail_with code none w = (next tt, w)
fail_with code (some e) w = reject code true (some e) w

-- The message as it is kept.
kept : Option (Option String) → String → Proc String
kept none message w = pure message w
kept (some none) message w = reject internal true (some "failed to encrypt message") w
kept (some (some ciphertext)) message w = pure ciphertext w

abbrev ciphertext : Option (String → Option String) → String → Option (Option String)
ciphertext none message = none
ciphertext (some f) message = some (f message)

-- The object that is saved; `extra_data` is the list whose parts the code joins by "+".
abbrev pub signed : User → String → World → String → MessageSignature
signed user hash w message = record {
  user_id = user.id;
  signature = w.request.param "signature" "signature";
  extra_data = w.request.method ∷ w.request.path ∷ [];
  pub_key_hash = hash;
  message = message;
}

-- `SignatureManagerBase.Verify`
unfoldable pub verify : SignatureManager → User → String → Proc (Unit {0})
unfolding key_of fail_with kept
verify m user signature = do
  (key, hash) ← key_of (m.pub_key user)
  fail_with "invalid_key" (m.load_error key)
  content ← gets (λ w. w.request.content)
  fail_with "invalid_signature" (m.verify_error key content signature)
  message ← kept (ciphertext m.encrypt content) content
  down ← attempt
  reject_if down internal true (some "failed to save message signature in database")
  modify (λ w. record w { signatures = w.signatures ++ signed user hash w message ∷ [] })

-- `AuthSignature.Handle`
unfoldable pub handle : SignatureManager → Handler
unfolding no_section_if signing_user
handle m = run (do
  signature ← gets (λ w. w.request.param "signature" "signature")
  no_section_if (signature == "")
  known ← gets (λ w. w.auth_user)
  user ← signing_user known
  verify m user signature
  finish true none)

-- A user with a key under which the signature is right.
abbrev pub verifies : SignatureManager → World → User → Bool
verifies m w user = elim (m.pub_key user) [
  | none ↦ false
  | some (key, hash) ↦
      not (is_some (m.load_error key))
      && not
          (is_some (m.verify_error key w.request.content (w.request.param "signature" "signature")))
]

-- The same request with another method and path.
abbrev pub moved : String → String → World → World
moved method path w = record w { request = record w.request { method = method; path = path } }

-- A user's request whose signature section is found and that comes through with no error and no error
-- code carries a signature of its content that is right under the user's key; the signature is not
-- checked against the method and the path, so the same request with any other method and path comes
-- through as well.
pub handle_verifies_signature :
    (m : SignatureManager) (w : World) (user : User) (method path : String)
    → w.auth_user ≡ some user
    → (handle m w).0 ≡ (true, none)
    → is_some (handle m w).1.generic_error ≡ false
    → (verifies m w user ≡ true)
      × ((handle m (moved method path w)).0 ≡ (true, none))
      × (is_some (handle m (moved method path w)).1.generic_error ≡ false)
unfolding handle verify set_generic_error_code call_service
handle_verifies_signature m w user method path u e g = (ground arith, ground arith, ground arith)

-- Such a request leaves one more kept signature, the one that was checked, when messages are not
-- encrypted.
handle_keeps_signature :
    (m : SignatureManager) (w : World) (user : User) (key hash : String)
    → w.auth_user ≡ some user
    → m.pub_key user ≡ some (key, hash)
    → m.encrypt ≡ none
    → (handle m w).0 ≡ (true, none)
    → is_some (handle m w).1.generic_error ≡ false
    → (handle m w).1.signatures ≡ w.signatures ++ signed user hash w w.request.content ∷ []
unfolding handle verify set_generic_error_code call_service
handle_keeps_signature m w user key hash u k n e g = ground arith

-- For a user of a type without a public key the handler returns no error and sets the error code
-- alone: the signature is not looked at.
handle_without_pub_key :
    (m : SignatureManager) (w : World) (user : User)
    → w.auth_user ≡ some user
    → m.pub_key user ≡ none
    → (w.request.param "signature" "signature" == "") ≡ false
    → handle m w ≡ ((true, none), set_generic_error_code internal w)
unfolding handle verify
handle_without_pub_key m w user u k p = ground arith
