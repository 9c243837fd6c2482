-- ===== src/Users.antt =====
-- UserControllerBase and UsersValidator of pkg/user/users.go over a table of users, with the fields of
-- pkg/user/user.go and the password of pkg/auth/auth_methods/auth_login_phash. The validator of
-- logins, the hash of passwords and random values are parameters.
pub mod Steps
pub mod Laws
pub mod Logins
pub mod Fields
pub mod Pubkeys
mod Tests
use Prim.Native.String.{len}
use go_backend_helpers.Prelude.{
  ℕ, ◌+◌, String, Bool, true, false, not, Option, none, some, List, [], ◌∷◌, ◌++◌, ◌==◌, ltb,
  is_some, if◌then◌else◌,
}
use go_backend_helpers.Table.{has, find, update_at}
use go_backend_helpers.Auth.Context.{first_code}
use go_backend_helpers.Effects.{
  Act, Result, ok, err, ◌>>=◌, ◌>>◌, pure, fail, choose, gets, modify, next_fault, answer,
}

-- `UserBaseDB`
pub record User : Type 0 where
  pub id : String
  pub login : String
  pub phone : String
  pub email : String
  pub blocked : Bool
  pub password_hash : String
  pub password_salt : String

-- `UserPubkey`
pub record UserPubkey : Type 0 where
  pub id : String
  pub active : Bool
  pub public_key : String
  pub public_key_hash : String
  pub public_key_owner : String

-- A record of the operation log: OpLogUser, and that of a key, which has the key too.
pub record OpLogUser : Type 0 where
  pub operation : String
  pub user_id : String
  pub login : String
  pub key_id : String
  pub key_hash : String

-- The tables, and of the operation's context the log records and the generic error. `draws` counts
-- the random values that were made.
pub record State : Type 0 where
  pub users : List User
  pub keys : List UserPubkey
  pub oplogs : List OpLogUser
  pub generic_error : Option String
  pub faults : List Bool
  pub draws : ℕ

abbrev pub Op : Type 0 → Type 0
Op A = Act State A

-- What the controller is given from outside: random identifiers and salts, the hash of a password,
-- and the validation of logins, which may be missing with the user validators.
pub record Services : Type 0 where
  pub random_id : ℕ → String
  pub random_salt : ℕ → String
  pub phash : String → String → String
  pub login_valid : Option (String → Bool)

abbrev pub call : Op (Unit {0})
call s = let (f, fs) = next_fault s.faults in (answer f, record s { faults = fs })

-- `ctx.SetGenericErrorCode(code); return errors.New(e)`
abbrev pub refuse : {A : Type 0} → String → String → Op A
refuse code e s = (err e, record s { generic_error = first_code s.generic_error code })

abbrev pub refuse_if : Bool → String → String → Op (Unit {0})
refuse_if true code e s = refuse code e s
refuse_if false code e s = (ok tt, s)

abbrev pub draw : (ℕ → String) → Op String
draw f s = (ok (f s.draws), record s { draws = s.draws + 1 })

-- `ValidateLogin`, `ValidatePassword`
unfoldable pub validate_login : (String → Bool) → String → Op (Unit {0})
validate_login valid login = choose (valid login) (pure tt) (fail "Invalid format of login")

unfoldable pub validate_password : String → Op (Unit {0})
validate_password password =
    choose (ltb (len password) 8) (fail "Password must be at least 8 characters") (pure tt)

abbrev validate : Option (String → Bool) → String → String → Op (Unit {0})
validate none login password s = (ok tt, s)
validate (some valid) login password s =
    (validate_login valid login >> validate_password password) s

abbrev validate_new_password : Option (String → Bool) → String → Op (Unit {0})
validate_new_password none password s = (ok tt, s)
validate_new_password (some valid) password s = validate_password password s

-- `CheckDuplicateField`: the column by its name, none for a name that the table does not have.
pub record CheckDuplicateField : Type 0 where
  pub name : String
  pub value : String
  pub error_code : String

abbrev pub column : String → Option (User → String)
column name =
    if name == "login"
    then some User.login
    else (if name == "phone"
        then some User.phone
        else (if name == "email"
            then some User.email
            else (if name == "id" then some User.id else none)))

-- `FindUsers` with a filter on one field, as the check that some user has the value
unfoldable pub exists_user : String → String → Op Bool
exists_user name value = do
  call
  elim (column name) [
    | none ↦ fail "no such column"
    | some field ↦ gets (λ s. has field value s.users)
  ]

-- `SetUserFields`: what a setter of extra fields makes of the new user, and the fields to check.
abbrev pub Setter : Type 0
Setter = User → Result (User × List CheckDuplicateField)

-- The one for phone, email and blocking (user.go).
abbrev pub field_if_given : String → String → String → List CheckDuplicateField
field_if_given name value code =
    if value == "" then [] else record { name = name; value = value; error_code = code } ∷ []

unfoldable pub set_user_fields : String → String → Bool → Setter
set_user_fields email phone blocked u = ok (
  record u { email = email; phone = phone; blocked = blocked },
  field_if_given "email" email "duplicate_email" ++ field_if_given "phone" phone "duplicate_phone",
)

unfoldable pub check_duplicates : List CheckDuplicateField → Op (Unit {0})
check_duplicates [] = pure tt
check_duplicates (d ∷ ds) = do
  taken ← exists_user d.name d.value
  refuse_if taken d.error_code "duplicate field"
  check_duplicates ds

abbrev set_by : Setter → User → Op (User × List CheckDuplicateField)
set_by setter u s = (setter u, s)

unfoldable pub apply_setters : List Setter → User → Op User
apply_setters [] u = pure u
apply_setters (setter ∷ setters) u = do
  r ← set_by setter u
  check_duplicates r.1
  apply_setters setters r.0

abbrev pub op_log : String → User → State → State
op_log operation u s = record s {
  oplogs =
      s.oplogs
      ++ record {
        operation = operation;
        user_id = u.id;
        login = u.login;
        key_id = "";
        key_hash = "";
      }
        ∷ [];
}

abbrev pub new_user : Services → String → String → String → String → User
new_user v id login password salt = record {
  id = id;
  login = login;
  phone = "";
  email = "";
  blocked = false;
  password_hash = v.phash password salt;
  password_salt = salt;
}

-- `Create`, and the log of it
unfoldable pub create_user : User → Op User
create_user u = do
  call
  modify (λ s. record s { users = s.users ++ u ∷ [] })
  modify (op_log "add" u)
  pure u

-- `Add`
unfoldable pub add : Services → String → String → List Setter → Op User
add v login password setters = do
  validate v.login_valid login password
  taken ← exists_user "login" login
  refuse_if taken "duplicate_login" "duplicate login"
  id ← draw v.random_id
  salt ← draw v.random_salt
  u ← apply_setters setters (new_user v id login password salt)
  create_user u

abbrev found_by : String → Option User → Op User
found_by e none = refuse "resource_not_found" e
found_by e (some u) = pure u

-- `Find`, `FindByLogin` and `FindUser`
unfoldable pub find_by_id : String → Op User
find_by_id id = do
  call
  u ← gets (λ s. find User.id id s.users)
  found_by "user with such ID does not exist" u

unfoldable pub find_by_login : String → Op User
find_by_login login = do
  call
  u ← gets (λ s. find User.login login s.users)
  found_by "user with such login does not exist" u

unfoldable pub find_user : Bool → String → Op User
find_user id_is_login id = choose id_is_login (find_by_login id) (find_by_id id)

-- `FindAuthUser`: a user that is not there is no error.
unfoldable pub find_auth_user : String → Op (Option User)
find_auth_user login = do call; gets (λ s. find User.login login s.users)

-- `Update` of a user that was found, and the log of it
unfoldable pub update_user : String → User → (User → User) → Op (Unit {0})
update_user operation u f = do
  call
  modify (λ s. record s { users = update_at User.id u.id f s.users })
  modify (op_log operation u)

abbrev pub with_password : Services → String → String → User → User
with_password v password salt u = record u {
  password_hash = v.phash password salt;
  password_salt = salt;
}

abbrev pub with_phone : String → User → User
with_phone phone u = record u { phone = phone }

abbrev pub with_email : String → User → User
with_email email u = record u { email = email }

abbrev pub with_blocked : Bool → User → User
with_blocked blocked u = record u { blocked = blocked }

-- `SetPassword`, `SetPhone`, `SetEmail`, `SetBlocked`
unfoldable pub set_password : Services → Bool → String → String → Op (Unit {0})
set_password v id_is_login id password = do
  validate_new_password v.login_valid password
  u ← find_user id_is_login id
  salt ← draw v.random_salt
  update_user "set_password" u (with_password v password salt)

unfoldable pub set_phone : Bool → String → String → Op (Unit {0})
set_phone id_is_login id phone = do
  u ← find_user id_is_login id
  update_user "set_phone" u (with_phone phone)

unfoldable pub set_email : Bool → String → String → Op (Unit {0})
set_email id_is_login id email = do
  u ← find_user id_is_login id
  update_user "set_email" u (with_email email)

unfoldable pub set_blocked : Bool → String → Bool → Op (Unit {0})
set_blocked id_is_login id blocked = do
  u ← find_user id_is_login id
  update_user "set_blocked" u (with_blocked blocked)
