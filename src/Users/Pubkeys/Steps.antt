-- ===== src/Users/Pubkeys/Steps.antt =====
-- What each step of pkg/signature/user_pubkey/user_pubkey_controller.go does to the table of keys.
use go_backend_helpers.Prelude.{
  String, ◌≡◌, refl, ◌⊎◌, inl, inr, Bool, true, false, Option, none, some, [], ◌∷◌, ◌++◌, arith,
}
use go_backend_helpers.Table.{update_at, has_pair}
use go_backend_helpers.Effects.{Result, ok, is_ok, Result-cases, next_fault}
use go_backend_helpers.Users.{User, UserPubkey, State, Op, find_user, find_by_id, find_by_login}
use go_backend_helpers.Users.Pubkeys.{
  KeyServices, transaction, find_key, deactivated, deactivate_key, new_key, replace_key,
}

-- The state after a call of the database.
abbrev pub called : State → State
called s = record s { faults = (next_fault s.faults).1 }

-- A transaction fails and leaves the tables as they were, or its handler has run to its end.
pub transaction_lem :
    {A : Type 0} (handler : Op A) (s : State)
    → (((transaction handler s).1.keys ≡ s.keys) × (is_ok (transaction handler s).0 ≡ false))
      ⊎ ((a : A) × ((handler (called s)).0 ≡ ok a)
          × ((transaction handler s).0 ≡ ok a)
          × ((transaction handler s).1.keys ≡ (handler (called s)).1.keys)
          × ((transaction handler s).1.users ≡ (handler (called s)).1.users))
unfolding transaction
transaction_lem handler s = elim (Result-cases (handler (called s)).0) [
  | inl (e, h) ↦ ground arith
  | inr (a, h) ↦ ground arith
]

-- `deactivateKey`, by what the search for the key gives.
abbrev pub Deactivates : State → Option UserPubkey → Result (Unit {0}) × State → Type 0
Deactivates s none (r, s') = s'.keys ≡ s.keys
Deactivates s (some k) (r, s') =
    ((s'.keys ≡ s.keys) × (is_ok r ≡ false))
    ⊎ ((s'.keys ≡ update_at UserPubkey.id k.id deactivated s.keys) × (is_ok r ≡ true))

deactivate_key_found :
    (u : User) (key_id : String) (s : State) (o : Option UserPubkey)
    → find_key u.id key_id s.keys ≡ o
    → Deactivates s o (deactivate_key u key_id s)
unfolding deactivate_key
deactivate_key_found u key_id s none h = ground arith
deactivate_key_found u key_id s (some k) h = ground arith

pub deactivate_key_lem :
    (u : User) (key_id : String) (s : State)
    → Deactivates s (find_key u.id key_id s.keys) (deactivate_key u key_id s)
deactivate_key_lem u key_id s = deactivate_key_found u key_id s (find_key u.id key_id s.keys) refl

pub deactivate_key_rest :
    (u : User) (key_id : String) (s : State)
    → ((deactivate_key u key_id s).1.draws ≡ s.draws)
      × ((deactivate_key u key_id s).1.users ≡ s.users)
unfolding deactivate_key
deactivate_key_rest u key_id s = ground arith

pub find_user_draws : (b : Bool) (id : String) (s : State) → (find_user b id s).1.draws ≡ s.draws
unfolding find_user find_by_id find_by_login
find_user_draws b id s = ground arith

-- The body of AddPubKey, when it succeeds.
pub replace_key_lem :
    (v : KeyServices) (u : User) (key id : String) (s : State)
    → (replace_key v u key s).0 ≡ ok id
    → (has_pair UserPubkey.public_key_owner UserPubkey.public_key_hash u.id (v.key_hash key) s.keys
        ≡ false)
      × (is_ok (deactivate_key u "" (called s)).0 ≡ true)
      × (id ≡ v.new_key_id s.draws)
      × ((replace_key v u key s).1.keys
          ≡ (deactivate_key u "" (called s)).1.keys ++ new_key v u key id ∷ [])
      × ((replace_key v u key s).1.users ≡ s.users)
unfolding replace_key
replace_key_lem v u key id s h =
    let d = deactivate_key_rest u "" (called s) in
    elim (Result-cases (deactivate_key u "" (called s)).0) [
      | inl (e, q) ↦ ground arith
      | inr (t, q) ↦ ground arith
    ]
