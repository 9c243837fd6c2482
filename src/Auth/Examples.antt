-- ===== src/Auth/Examples.antt =====
-- A request in a small context, from which the tests of pkg/auth are made.
use go_backend_helpers.Prelude.{
  String, true, false, Option, none, some, [], ◌∷◌, ◌==◌, if◌then◌else◌,
}
use go_backend_helpers.Auth.Context.{User, Request, Session, World}
use go_backend_helpers.Auth.Encryption.{Encryption, value}

abbrev pub alice : User
alice = record {
  id = "u1";
  login = "alice";
  display = "Alice";
  blocked = false;
  phone = some "79001234567";
  credentials = some ("hash", "salt");
  hmac_secret = none;
}

abbrev pub find_alice : String → Option User
find_alice login = if login == "alice" then some alice else none

abbrev pub login_params : String → String → String
login_params protocol key =
    if key == "login"
    then "alice"
    else if key == "login-phash"
    then "hash"
    else if key == "sms-code"
    then "1234"
    else ""

abbrev pub request : Request
request = record {
  path = "/orders";
  method = "POST";
  content = "{}";
  client_ip = "10.0.0.1";
  user_agent = "agent";
  param = login_params;
  checked_content = some "";
}

abbrev pub session : Session
session = record { id = "s1"; user_id = "u1"; user_login = "alice"; valid = true; expiration = 500 }

abbrev pub world : World
world = record {
  request = request;
  now = 100;
  tenancy = none;
  auth_user = none;
  session_id = "";
  client_id = "";
  response = [];
  generic_error = none;
  cache = [];
  sessions = session ∷ [];
  clients = [];
  sent = [];
  signatures = [];
  faults = [];
  next_id = 0;
}

-- Encryption that reads one value and writes nothing.
abbrev pub plain : {T : Type 0} → T → Encryption T
plain t = record { get = λ w p n. value t; set = λ w p n x. (none, w) }
