-- ===== src/Users/Pubkeys.antt =====
-- PubkeyControllerBase of pkg/signature/user_pubkey/user_pubkey_controller.go over the tables of users
-- and of their keys. The check of a key's format and the hash of a key are parameters. A transaction
-- (pkg/db/db_gorm/gorm_db.go hands it to the database) takes the tables back when its handler or the
-- commit fails; the context of the operation is in memory and keeps its log records.
pub mod Active
pub mod Steps
pub mod Laws
pub mod Changes
use go_backend_helpers.Prelude.{
  ℕ, ◌+◌, String, Bool, true, false, not, Option, none, some, List, [], ◌∷◌, ◌++◌, ◌==◌, ◌&&◌, ◌||◌,
  if◌then◌else◌, ◌≡◌,
}
use go_backend_helpers.Table.{update_at, has_pair}
use go_backend_helpers.Effects.{
  Result, ok, err, ◌>>=◌, ◌>>◌, pure, fail, choose, gets, modify, next_fault, answer,
}
use go_backend_helpers.Users.{
  User, UserPubkey, OpLogUser, State, Op, call, refuse, refuse_if, draw, find_user,
}

-- What the controller is given: `CheckPubKey` of the signature manager, the hash, and identifiers.
pub record KeyServices : Type 0 where
  pub key_valid : String → Bool
  pub key_hash : String → String
  pub new_key_id : ℕ → String

abbrev pub rolled_back : State → State → State
rolled_back before s = record s { users = before.users; keys = before.keys }

-- The end of a transaction: a rollback after an error, or the commit.
abbrev end_transaction : {A : Type 0} → State → Result A × State → Result A × State
end_transaction before (err e, s) = (err e, rolled_back before s)
end_transaction before (ok a, s) =
    let (f, fs) = next_fault s.faults in
    if f
    then (err "failed to commit", rolled_back before (record s { faults = fs }))
    else (ok a, record s { faults = fs })

abbrev run_in : {A : Type 0} → State → Op A → State → Result A × State
run_in before handler s = end_transaction before (handler s)

-- `Transaction`
unfoldable pub transaction : {A : Type 0} → Op A → Op A
transaction handler before = (call >> run_in before handler) before

-- The key that the filter on owner, activity and, if it is given, identifier finds.
abbrev pub key_fits : String → String → UserPubkey → Bool
key_fits owner key_id k =
    k.active && k.public_key_owner == owner && (key_id == "" || k.id == key_id)

unfoldable pub find_key : String → String → List UserPubkey → Option UserPubkey
find_key owner key_id [] = none
find_key owner key_id (k ∷ ks) =
    if key_fits owner key_id k then some k else find_key owner key_id ks

abbrev pub deactivated : UserPubkey → UserPubkey
deactivated k = record k { active = false }

-- `OpLog`
abbrev log_key : String → User → UserPubkey → State → State
log_key operation u k s = record s {
  oplogs =
      s.oplogs
      ++ record {
        operation = operation;
        user_id = u.id;
        login = u.login;
        key_id = k.id;
        key_hash = k.public_key_hash;
      }
        ∷ [];
}

abbrev deactivate_found : User → Option UserPubkey → Op (Unit {0})
deactivate_found u none = pure tt
deactivate_found u (some k) = do
  call
  modify (λ s. record s { keys = update_at UserPubkey.id k.id deactivated s.keys })
  modify (log_key "deactivate_pubkey" u k)

-- `deactivateKey`, with an empty identifier when none is given
unfoldable pub deactivate_key : User → String → Op (Unit {0})
deactivate_key u key_id = do call; k ← gets (λ s. find_key u.id key_id s.keys); deactivate_found u k

abbrev pub new_key : KeyServices → User → String → String → UserPubkey
new_key v u key id = record {
  id = id;
  active = true;
  public_key = key;
  public_key_hash = v.key_hash key;
  public_key_owner = u.id;
}

-- The body of the transaction of `AddPubKey`
unfoldable pub replace_key : KeyServices → User → String → Op String
replace_key v u key = do
  call
  exists ← gets (λ s.
      has_pair UserPubkey.public_key_owner UserPubkey.public_key_hash u.id (v.key_hash key) s.keys)
  refuse_if exists "duplicate_pubkey" "duplicate pubkey"
  deactivate_key u ""
  id ← draw v.new_key_id
  call
  modify (λ s. record s { keys = s.keys ++ new_key v u key id ∷ [] })
  modify (log_key "add_pubkey" u (new_key v u key id))
  pure id

-- `AddPubKey`
unfoldable pub add_pub_key : KeyServices → Bool → String → String → Op String
add_pub_key v id_is_login user_id key = do
  choose (v.key_valid key) (pure tt) (fail "invalid key format")
  u ← find_user id_is_login user_id
  transaction (replace_key v u key)

-- `DeactivatePubKey`
unfoldable pub deactivate_pub_key : Bool → String → String → Op (Unit {0})
deactivate_pub_key id_is_login user_id key_id = do
  u ← find_user id_is_login user_id
  deactivate_key u key_id

abbrev found_key : Option UserPubkey → Op UserPubkey
found_key none = refuse "active_pubkey_not_found" "key not found"
found_key (some k) = pure k

-- `FindActivePubKey`
unfoldable pub find_active_pub_key : Bool → String → Op UserPubkey
find_active_pub_key id_is_login user_id = do
  u ← find_user id_is_login user_id
  call
  k ← gets (λ s. find_key u.id "" s.keys)
  found_key k

-- Whether the owner has an active key.
unfoldable pub has_active : String → List UserPubkey → Bool
has_active owner [] = false
has_active owner (k ∷ ks) = (k.active && k.public_key_owner == owner) || has_active owner ks

-- No owner has two active keys.
abbrev pub HasOneActive : List UserPubkey → Type 0
HasOneActive [] = Unit {0}
HasOneActive (k ∷ ks) = ((k.active && has_active k.public_key_owner ks) ≡ false) × HasOneActive ks
