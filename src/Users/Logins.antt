-- ===== src/Users/Logins.antt =====
-- The users that Add and SetPassword of pkg/user/users.go store, at the login of
-- pkg/auth/auth_methods/auth_login_phash/auth_login_phash.go.
use go_backend_helpers.Prelude.{
  String, ◌≡◌, refl, inl, inr, Bool, true, false, not, Option, none, some, List, [], ◌∷◌, arith,
  ◌∙◌, ◌==◌, eq_refl, ◌+◌, if◌then◌else◌, ap, Bool-cases,
}
use go_backend_helpers.Table.{find, update_at}
use go_backend_helpers.Table.Searches.{find-append, find-update_at}
use go_backend_helpers.Effects.{Result, ok, is_ok, Result-cases}
use go_backend_helpers.Users.{
  User, State, Services, Setter, apply_setters, CheckDuplicateField, add, with_password,
  set_password, set_user_fields, check_duplicates,
}
use go_backend_helpers.Users.Steps.{
  found_user, Updates, first_user, after_checks, add-err, add-ok, set_password-Updates,
}
use go_backend_helpers.Auth.Context.{World, set_auth_user, call_service}
use go_backend_helpers.Auth.Context
use go_backend_helpers.Auth.Login.{handle}
use go_backend_helpers.Auth.Login

-- A user as the handlers of authentication see it, by the methods of UserBaseFields and of the user
-- with a password.
abbrev pub auth_user : User → Context.User
auth_user u = record {
  id = u.id;
  login = u.login;
  display = u.login;
  blocked = u.blocked;
  phone = some u.phone;
  credentials = some (u.password_hash, u.password_salt);
  hmac_secret = none;
}

abbrev auth_user_of : Option User → Option Context.User
auth_user_of none = none
auth_user_of (some u) = some (auth_user u)

-- What the login handler finds in the table of users, as `FindAuthUser` does.
abbrev pub login_services : (String → Bool) → String → State → Login.Services
login_services valid fake s = record {
  login_invalid = λ login. not (valid login);
  find_user = λ login. auth_user_of (find User.login login s.users);
  fake_salt = fake;
}

-- The user that Add makes with the fields of user.go.
abbrev pub made_user : Services → String → String → String → String → Bool → State → User
made_user v login password email phone blocked s = record (first_user v login password s) {
  email = email;
  phone = phone;
  blocked = blocked;
}

-- A request for a login with a password hash.
abbrev pub Asks : World → String → String → Type 0
Asks w login phash =
    (w.request.param "login_phash" "login" ≡ login)
    × (w.request.param "login_phash" "login-phash" ≡ phash)
    × ((login == "") ≡ false)
    × ((phash == "") ≡ false)

handle_known :
    (valid : String → Bool) (fake : String) (s : State) (u : User) (login phash : String)
    (w : World)
    → find User.login login s.users ≡ some u
    → u.blocked ≡ false
    → valid login ≡ true
    → Asks w login phash
    → (call_service w).0 ≡ false
    → (u.password_hash == phash) ≡ true
    → handle (login_services valid fake s) w
      ≡ ((true, none), set_auth_user (some (auth_user u)) (call_service w).1)
unfolding handle
handle_known valid fake s u login phash w f b v a c h = ground arith

handle_wrong :
    (valid : String → Bool) (fake : String) (s : State) (u : User) (login phash : String)
    (w : World)
    → find User.login login s.users ≡ some u
    → u.blocked ≡ false
    → valid login ≡ true
    → Asks w login phash
    → (call_service w).0 ≡ false
    → (u.password_hash == phash) ≡ false
    → (handle (login_services valid fake s) w).0 ≡ (true, some "invalid password hash")
unfolding handle
handle_wrong valid fake s u login phash w f b v a c h = ground arith

setter_applied :
    (f : Setter) (ds : List CheckDuplicateField) (u v w : User) (s : State)
    → f u ≡ ok (v, ds)
    → (apply_setters (f ∷ []) u s).0 ≡ ok w
    → w ≡ v
unfolding apply_setters
setter_applied f ds u v w s g h = elim (Result-cases (check_duplicates ds s).0) [
  | inl (e, q) ↦ cc (rw (g, q) at h)
  | inr (t, q) ↦ cc (rw (g, q) at h)
]

fields_applied :
    (email phone : String) (blocked : Bool) (u w : User) (s : State)
    → (apply_setters (set_user_fields email phone blocked ∷ []) u s).0 ≡ ok w
    → w ≡ record u { email = email; phone = phone; blocked = blocked }
unfolding set_user_fields
fields_applied email phone blocked u w s h =
    setter_applied (set_user_fields email phone blocked) _ u
      (record u { email = email; phone = phone; blocked = blocked }) w s refl h

updated_ok :
    (s : State) (o : Option User) (u : User) (f : User → User) (r : Result (Unit {0}) × State)
    → o ≡ some u
    → Updates s o f r
    → is_ok r.0 ≡ true
    → r.1.users ≡ update_at User.id u.id f s.users
updated_ok s none u f (r, s') e c h = cc
updated_ok s (some v) u f (r, s') e (inl c) h = cc (h, c.1)
updated_ok s (some v) u f (r, s') e (inr c) h = cc (c.0, e)

-- A user who was added and is not blocked logs in with the hash of the password.
handle-add :
    (v : Services) (valid : String → Bool) (fake login password email phone : String) (s : State)
    (w : World)
    → is_ok (add v login password (set_user_fields email phone false ∷ []) s).0 ≡ true
    → valid login ≡ true
    → Asks w login (v.phash password (v.random_salt (s.draws + 1)))
    → (call_service w).0 ≡ false
    → handle
        (login_services valid fake
          (add v login password (set_user_fields email phone false ∷ []) s).1)
        w
      ≡ (
        (true, none),
        set_auth_user
            (some (auth_user (made_user v login password email phone false s)))
            (call_service w).1,
      )
handle-add v valid fake login password email phone s w h ok_login a c =
    let setters = set_user_fields email phone false ∷ [] in
    let u₀ = first_user v login password s in
    elim (Result-cases (apply_setters setters u₀ (after_checks s)).0) [
      | inl (e, q) ↦ cc (h, (add-err v login password setters s e q).1)
      | inr (u, q) ↦ elim (add-ok v login password setters s u q) [
        | inl n ↦ cc (h, n.1)
        | inr (done, grown, _, free) ↦
            let made : u ≡ made_user v login password email phone false s =
              fields_applied email phone false u₀ u (after_checks s) q in
            let listed : find User.login login (add v login password setters s).1.users ≡ some u =
              rw grown (find-append User.login login s.users u free (rw made refl)) in
            let m = made_user v login password email phone false s in
            handle_known valid fake (add v login password setters s).1 m login
              (v.phash password (v.random_salt (s.draws + 1))) w (listed ∙ ap some made) refl
              ok_login a c (eq_refl m.password_hash)
      ]
    ]

-- After a change of the password of a user who is not blocked, the login takes the hash of the new
-- password, and refuses every other hash.
pub handle-set_password :
    (v : Services) (valid : String → Bool) (fake login password phash : String) (s : State)
    (u : User) (w : World)
    → is_ok (set_password v true login password s).0 ≡ true
    → find User.login login s.users ≡ some u
    → u.blocked ≡ false
    → valid login ≡ true
    → Asks w login phash
    → (call_service w).0 ≡ false
    → (handle (login_services valid fake (set_password v true login password s).1) w).0 ≡ (
      true,
      if v.phash password (v.random_salt s.draws) == phash
          then none
          else some "invalid password hash",
    )
handle-set_password v valid fake login password phash s u w h f b ok_login a c =
    let s' = (set_password v true login password s).1 in
    let salt = v.random_salt s.draws in
    let g = with_password v password salt in
    let updated : s'.users ≡ update_at User.id u.id g s.users =
      updated_ok s (found_user s true login) u g (set_password v true login password s) f
        (set_password-Updates s true login v password) h in
    let listed : find User.login login s'.users ≡ some (g u) =
      rw updated (find-update_at User.login User.id login g s.users u (λ x. refl) f) in
    elim (Bool-cases (v.phash password salt == phash)) [
      | inl e ↦
          rw e
            (ap (λ r. r.0) (handle_known valid fake s' (g u) login phash w listed b ok_login a c e))
      | inr e ↦ rw e (handle_wrong valid fake s' (g u) login phash w listed b ok_login a c e)
    ]
