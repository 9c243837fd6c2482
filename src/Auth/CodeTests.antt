-- ===== src/Auth/CodeTests.antt =====
-- Runs of the encryption of parameters and of a login with its access token.
use Prim.Native.String.{String}
use go_backend_helpers.Prelude.{
  ℕ, zero, suc, ◌<◌, ◌+◌, ◌≡◌, refl, ◌==◌, true, false, Option, none, some, List, [], ◌∷◌,
  if◌then◌else◌, arith, length, ltb,
}
use go_backend_helpers.Auth.Context.{World, set_auth_parameter}
use go_backend_helpers.Auth.Flow.{next}
use go_backend_helpers.Auth.Encryption.{Encryption, value}
use go_backend_helpers.Auth.Encryption.Parameters.{
  Cryptography, AreInverse, sealed, set_encrypted, get_encrypted, get_encrypted-set_encrypted,
}
use go_backend_helpers.Auth.Codes.{
  write_number, read_number, read_number-write_number, write_text, read_text, read_text-write_text,
  write_numbers, read_numbers, read_numbers-write_numbers, write_numbers-seen,
}
use go_backend_helpers.Auth.Examples.{alice, find_alice, world}
use go_backend_helpers.Auth.Token.{AuthTokenHandler, Token, identify}
use go_backend_helpers.Auth.Token.NewToken.{session_of, handle_new_token}
use go_backend_helpers.Auth.Token.Login.{Seals, reader, logged_in, issued, login-identify}

-- Numbers as parameters, with a cipher that adds 1 to each byte.
one_number : List ℕ → Option ℕ
one_number (n ∷ []) = some n
one_number other = none

up : List ℕ → List ℕ
up [] = []
up (n ∷ ns) = suc n ∷ up ns

down : List ℕ → List ℕ
down [] = []
down (zero ∷ ns) = zero ∷ down ns
down (suc n ∷ ns) = n ∷ down ns

down-up : (ns : List ℕ) → down (up ns) ≡ ns
unfolding up down
down-up [] = refl
down-up (n ∷ ns) = rw (down-up ns) refl

abbrev cryptography : Cryptography ℕ
cryptography = record {
  salt_size = 1;
  serialize = λ n. some (n ∷ []);
  parse = one_number;
  random = λ k. some (k ∷ []);
  encrypt = λ s k b. some (up b);
  decrypt = λ s b. some (down b);
  encode = write_numbers;
  decode = λ text. some (read_numbers text);
}

one_number_lem : (t : ℕ) (b : List ℕ) → some (t ∷ []) ≡ some b → one_number b ≡ some t
unfolding one_number
one_number_lem t b e = ground arith

seen_lem : (b : List ℕ) → 0 < length b → (write_numbers b == "") ≡ false
seen_lem [] h = elim h [ ]
seen_lem (n ∷ ns) h = write_numbers-seen n ns

cryptography-AreInverse : AreInverse cryptography
cryptography-AreInverse = record {
  parses = one_number_lem;
  sized = λ k s e. let q : k ∷ [] ≡ s = cc e in rw⁻¹ q refl;
  salted = omega arith;
  decrypts = λ s k b e q. let r : up b ≡ e = cc q in rw⁻¹ r (rw (down-up b) refl);
  decodes = λ b. rw (read_numbers-write_numbers b) refl;
  seen = seen_lem;
}

abbrev number_world : World
number_world = record world {
  request = record world.request { param = λ protocol name. write_numbers (8 ∷ 5 ∷ []) };
  next_id = 5;
}

get_encrypted-set_encrypted_example :
    (set_encrypted cryptography number_world "sms" "token" 7 ≡ (
      none,
      set_auth_parameter "sms" "token"
          (write_numbers (8 ∷ 5 ∷ []))
          (record number_world { next_id = 6 }),
    ))
    × (get_encrypted cryptography number_world "sms" "token" ≡ value 7)
unfolding sealed up
get_encrypted-set_encrypted_example =
    get_encrypted-set_encrypted cryptography cryptography-AreInverse number_world number_world "sms"
      "token" 7 (write_numbers (8 ∷ 5 ∷ [])) refl refl

-- Tokens as texts.
write_token : Token → String
write_token t = write_number t.exp (
    write_text t.id (
      write_text t.user_id
        (write_text t.user_display (write_text t.session_id (write_text t.tenancy "")))))

read_token : String → Token
read_token text =
    let (exp, r1) = read_number text in
    let (id, r2) = read_text r1 in
    let (user_id, r3) = read_text r2 in
    let (user_display, r4) = read_text r3 in
    let (session_id, r5) = read_text r4 in
    let (tenancy, r6) = read_text r5 in
    record {
      exp = exp;
      id = id;
      user_id = user_id;
      user_display = user_display;
      session_id = session_id;
      tenancy = tenancy;
    }

read_token-write_token : (t : Token) → read_token (write_token t) ≡ t
unfolding read_token write_token
read_token-write_token t = simp (read_number-write_number, read_text-write_text)

abbrev token_encryption : Encryption Token
token_encryption = record {
  get = λ w protocol name. value (read_token (w.request.param protocol name));
  set = λ w protocol name t. (
    none,
    set_auth_parameter protocol name (write_token t) (record w { next_id = w.next_id + 1 }),
  );
}

token_encryption-Seals : Seals token_encryption
token_encryption-Seals = record {
  seal = λ t k. write_token t;
  sets = λ w protocol name t. refl;
  gets = λ v protocol name t k e. rw (e, read_token-write_token t) refl;
}

abbrev tokens : AuthTokenHandler
tokens = record {
  access_token_ttl_seconds = 900;
  refresh_token_ttl_seconds = 43200;
  auto_prolongate_access = true;
  auto_prolongate_refresh = true;
  refresh_path = "/auth/refresh";
  logout_path = "/auth/logout";
  encryption = token_encryption;
  find_user = find_alice;
  random_id = λ n. if ltb n 1 then "s2" else "new";
  client_hash = λ a b. "client";
  protocol = "new_token";
}

abbrev login_world : World
login_world = logged_in tokens token_encryption-Seals alice world

-- The next request, ten seconds later, brings the token of the answer.
next_request : World
next_request = record (handle_new_token tokens login_world).1 {
  request = record world.request {
    param = λ protocol name. issued "access-token" (handle_new_token tokens login_world).1.response;
  };
  tenancy = world.tenancy;
  now = world.now + 10;
  faults = [];
}

login-identify_example :
    ((handle_new_token tokens login_world).0 ≡ (true, none))
    × ((identify (reader tokens token_encryption-Seals alice "check_token") false next_request).0
        ≡ next (session_of tokens alice world, alice))
unfolding next_request
login-identify_example =
    login-identify tokens token_encryption-Seals alice world next_request "check_token" alice
      (refl, tt) refl refl refl refl (omega arith) (omega arith) refl refl
