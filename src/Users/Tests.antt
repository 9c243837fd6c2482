-- ===== src/Users/Tests.antt =====
-- Users and keys of pkg/user/users.go and pkg/signature/user_pubkey at concrete tables.
use go_backend_helpers.Prelude.{
  ℕ, zero, suc, String, ◌≡◌, refl, true, false, none, some, [], ◌∷◌, ◌==◌, if◌then◌else◌,
}
use go_backend_helpers.Table.{has, find, has_pair}
use go_backend_helpers.Effects.{ok}
use go_backend_helpers.Auth.Context.{call_service}
use go_backend_helpers.Auth.Login.{handle}
use go_backend_helpers.Auth.Examples.{world}
use go_backend_helpers.Users.{
  User, UserPubkey, State, Services, set_password, find_user, find_by_login, update_user,
}
use go_backend_helpers.Users.Laws.{add_call, perform, IsSound, perform-IsSound}
use go_backend_helpers.Users.Logins.{login_services, handle-set_password}
use go_backend_helpers.Users.Pubkeys.{
  KeyServices, new_key, add_pub_key, find_active_pub_key, has_active,
}
use go_backend_helpers.Users.Pubkeys.Laws.{AreSound}
use go_backend_helpers.Users.Pubkeys.Changes.{
  add_key_call, perform_key, perform_key-AreSound, find_active_pub_key-add_pub_key,
}

abbrev id_of : ℕ → String
id_of zero = "id0"
id_of (suc zero) = "id1"
id_of (suc (suc n)) = "id2"

abbrev services : Services
services = record {
  random_id = id_of;
  random_salt = λ n. "salt";
  phash = λ password salt. "hash";
  login_valid = none;
}

abbrev alice : User
alice = record {
  id = "u1";
  login = "alice";
  phone = "";
  email = "a@x";
  blocked = false;
  password_hash = "old";
  password_salt = "s";
}

abbrev old_key : UserPubkey
old_key = record {
  id = "k1";
  active = true;
  public_key = "pk1";
  public_key_hash = "h1";
  public_key_owner = "u1";
}

abbrev state : State
state = record {
  users = alice ∷ [];
  keys = old_key ∷ [];
  oplogs = [];
  generic_error = none;
  faults = [];
  draws = 0;
}

perform-IsSound_example : IsSound (perform services (add_call "bob" "long enough" []) state).1.users
unfolding has
perform-IsSound_example =
    perform-IsSound services (add_call "bob" "long enough" []) state refl tt
      ((refl, tt), (refl, tt))

abbrev key_services : KeyServices
key_services = record { key_valid = λ k. true; key_hash = λ k. "h2"; new_key_id = λ n. "k2" }

sound : AreSound state.keys
unfolding has has_pair has_active
sound = record { ids = (refl, tt); owned_once = (refl, tt); one_active = (refl, tt) }

perform_key-AreSound_example :
    AreSound (perform_key key_services (add_key_call true "alice" "pk2") state).1.keys
unfolding has
perform_key-AreSound_example =
    perform_key-AreSound key_services (add_key_call true "alice" "pk2") state refl sound

find_active_pub_key-add_pub_key_example :
    ((add_pub_key key_services true "alice" "pk2" state).0 ≡ ok "k2")
    × ((find_active_pub_key true "alice" (add_pub_key key_services true "alice" "pk2" state).1).0
        ≡ ok (new_key key_services alice "pk2" "k2"))
unfolding has has_pair find
find_active_pub_key-add_pub_key_example =
    find_active_pub_key-add_pub_key key_services true "alice" "pk2" state alice refl refl refl refl
      refl sound

abbrev failing : State
failing = record state { faults = false ∷ false ∷ false ∷ false ∷ false ∷ true ∷ [] }

abbrev no_users : State
no_users = record state { users = [] }

handle-set_password_example :
    (handle
      (login_services
        (λ l. true)
        "fake"
        (set_password services true "alice" "new password" state).1)
      world).0
    ≡ (true, if "hash" == "hash" then none else some "invalid password hash")
unfolding set_password find_user find_by_login find update_user call_service
handle-set_password_example =
    handle-set_password services (λ l. true) "fake" "alice" "new password" "hash" state alice world
      refl refl refl refl (refl, refl, refl, refl) refl
