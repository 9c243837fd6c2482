-- ===== src/Users/Pubkeys/Changes.antt =====
-- The operations of pkg/signature/user_pubkey/user_pubkey_controller.go, whatever their arguments and
-- whichever calls of the database fail.
use go_backend_helpers.Prelude.{
  String, ◌≡◌, refl, ◌⊎◌, inl, inr, Bool, true, false, Option, none, some, List, [], ◌∷◌, ◌++◌, ap,
  sym, ◌∙◌, Bool-cases, false≢true,
}
use go_backend_helpers.Table.{has, find, has_pair}
use go_backend_helpers.Effects.{Result, ok, err, is_ok, Result-cases}
use go_backend_helpers.Users.{User, UserPubkey, State, find_user, find_by_id, find_by_login}
use go_backend_helpers.Users.Steps.{find_user-Same, found_user}
use go_backend_helpers.Users.Pubkeys.{
  KeyServices, transaction, find_key, deactivate_key, new_key, replace_key, add_pub_key,
  deactivate_pub_key, find_active_pub_key,
}
use go_backend_helpers.Users.Pubkeys.Steps.{
  called, transaction_lem, Deactivates, deactivate_key_lem, find_user_draws,
}
use go_backend_helpers.Users.Pubkeys.Laws.{AreSound, Kept-by, Kept-AreSound, replaced}

pub data KeyCall : Type 0 where
  add_key_call : Bool → String → String → KeyCall
  deactivate_key_call : Bool → String → String → KeyCall

abbrev outcome : {A : Type 0} → Result A × State → Bool × State
outcome (r, s) = (is_ok r, s)

unfoldable pub perform_key : KeyServices → KeyCall → State → Bool × State
perform_key v (add_key_call b user_id key) s = outcome (add_pub_key v b user_id key s)
perform_key v (deactivate_key_call b user_id key_id) s =
    outcome (deactivate_pub_key b user_id key_id s)

-- `AddPubKey` fails and leaves the keys, or its transaction has run to its end.
add_pub_key_lem :
    (v : KeyServices) (b : Bool) (user_id key : String) (s : State)
    → (((add_pub_key v b user_id key s).1.keys ≡ s.keys)
        × (is_ok (add_pub_key v b user_id key s).0 ≡ false))
      ⊎ ((u : User) × (id : String) × ((find_user b user_id s).0 ≡ ok u)
          × ((replace_key v u key (called (find_user b user_id s).1)).0 ≡ ok id)
          × ((add_pub_key v b user_id key s).0 ≡ ok id)
          × ((add_pub_key v b user_id key s).1.keys
              ≡ (replace_key v u key (called (find_user b user_id s).1)).1.keys))
unfolding add_pub_key
add_pub_key_lem v b user_id key s =
    let s₁ = (find_user b user_id s).1 in
    let same = (find_user-Same b user_id s).1 in
    elim (Bool-cases (v.key_valid key)) [
      | inl valid ↦ elim (Result-cases (find_user b user_id s).0) [
        | inl (e, h) ↦ rw (valid, h) (inl (same, refl))
        | inr (u, h) ↦ elim (transaction_lem (replace_key v u key) s₁) [
          | inl t ↦ rw (valid, h) (inl (t.0 ∙ same, t.1))
          | inr (id, done, gives, keys, _) ↦ rw (valid, h) (inr (u, id, refl, done, gives, keys))
        ]
      ]
      | inr e ↦ rw e (inl (refl, refl))
    ]

deactivate_pub_key-AreSound :
    (b : Bool) (user_id key_id : String) (s : State)
    → AreSound s.keys
    → AreSound (deactivate_pub_key b user_id key_id s).1.keys
unfolding deactivate_pub_key
deactivate_pub_key-AreSound b user_id key_id s h =
    let s₁ = (find_user b user_id s).1 in
    let same = (find_user-Same b user_id s).1 in
    elim (Result-cases (find_user b user_id s).0) [
      | inl (e, q) ↦ rw (q, same) h
      | inr (u, q) ↦ rw q (
          Kept-AreSound s₁ (deactivate_key u key_id s₁).1.keys
            (Kept-by s₁ (find_key u.id key_id s₁.keys) (deactivate_key u key_id s₁)
              (deactivate_key_lem u key_id s₁))
            (rw same h))
    ]

-- AddPubKey and DeactivatePubKey, whatever their arguments and whichever calls of the database
-- fail, keep keys' identifiers unique, no owner with a key twice and none with two active keys,
-- if a new identifier is not in use.
pub perform_key-AreSound :
    (v : KeyServices) (c : KeyCall) (s : State)
    → has UserPubkey.id (v.new_key_id s.draws) s.keys ≡ false
    → AreSound s.keys
    → AreSound (perform_key v c s).1.keys
unfolding perform_key
perform_key-AreSound v (add_key_call b user_id key) s n h =
    elim (add_pub_key_lem v b user_id key s) [
      | inl c ↦ rw c.0 h
      | inr (u, id, _, done, _, keys) ↦
          let s₁ = called (find_user b user_id s).1 in
          let same = (find_user-Same b user_id s).1 in
          let draws = find_user_draws b user_id s in
          rw keys (replaced v u key id s₁ (rw same h) (rw (draws, same) n) done).0
    ]
perform_key-AreSound v (deactivate_key_call b user_id key_id) s n h =
    deactivate_pub_key-AreSound b user_id key_id s h

deactivate_refused :
    (s : State) (o : Option UserPubkey) (r : Result (Unit {0}) × State)
    → Deactivates s o r
    → is_ok r.0 ≡ false
    → r.1.keys ≡ s.keys
deactivate_refused s none (r, s') h e = h
deactivate_refused s (some k) (r, s') (inl h) e = h.0
deactivate_refused s (some k) (r, s') (inr h) e = cc (h.1, e)

-- When AddPubKey or DeactivatePubKey fails, the table of keys has not changed.
perform_key_refused :
    (v : KeyServices) (c : KeyCall) (s : State)
    → (perform_key v c s).0 ≡ false
    → (perform_key v c s).1.keys ≡ s.keys
unfolding perform_key deactivate_pub_key
perform_key_refused v (add_key_call b user_id key) s e = elim (add_pub_key_lem v b user_id key s) [
  | inl c ↦ c.0
  | inr (u, id, _, _, done, _) ↦ cc (rw done at e)
]
perform_key_refused v (deactivate_key_call b user_id key_id) s e =
    let s₁ = (find_user b user_id s).1 in
    let same = (find_user-Same b user_id s).1 in
    elim (Result-cases (find_user b user_id s).0) [
      | inl (m, q) ↦ rw q same
      | inr (u, q) ↦ rw q (
          deactivate_refused s₁ (find_key u.id key_id s₁.keys) (deactivate_key u key_id s₁)
            (deactivate_key_lem u key_id s₁) (rw q at e)
          ∙ same)
    ]

find_user_found :
    (b : Bool) (id : String) (s : State) (u : User)
    → s.faults ≡ []
    → found_user s b id ≡ some u
    → ((find_user b id s).0 ≡ ok u) × ((find_user b id s).1.faults ≡ [])
unfolding find_user find_by_id find_by_login
find_user_found true id s u f h = rw (f, h) (refl, refl)
find_user_found false id s u f h = rw (f, h) (refl, refl)

-- AddPubKey while no call fails.
add_pub_key_quiet :
    (v : KeyServices) (b : Bool) (user_id key : String) (s : State) (u : User)
    (o : Option UserPubkey)
    → s.faults ≡ []
    → v.key_valid key ≡ true
    → found_user s b user_id ≡ some u
    → has_pair UserPubkey.public_key_owner UserPubkey.public_key_hash u.id (v.key_hash key) s.keys
      ≡ false
    → find_key u.id "" s.keys ≡ o
    → ((add_pub_key v b user_id key s).0 ≡ ok (v.new_key_id s.draws))
      × ((add_pub_key v b user_id key s).1.users ≡ s.users)
      × ((add_pub_key v b user_id key s).1.faults ≡ [])
unfolding add_pub_key transaction replace_key deactivate_key find_user find_by_id find_by_login
add_pub_key_quiet v true user_id key s u none f valid found free k =
    rw (valid, f, found, free, k) (refl, refl, refl)
add_pub_key_quiet v true user_id key s u (some old) f valid found free k =
    rw (valid, f, found, free, k) (refl, refl, refl)
add_pub_key_quiet v false user_id key s u none f valid found free k =
    rw (valid, f, found, free, k) (refl, refl, refl)
add_pub_key_quiet v false user_id key s u (some old) f valid found free k =
    rw (valid, f, found, free, k) (refl, refl, refl)

found_user_same :
    (b : Bool) (id : String) (s s' : State)
    → s'.users ≡ s.users
    → found_user s' b id ≡ found_user s b id
found_user_same true id s s' h = rw h refl
found_user_same false id s s' h = rw h refl

active_found :
    (b : Bool) (user_id : String) (s : State) (u : User) (k : UserPubkey)
    → s.faults ≡ []
    → found_user s b user_id ≡ some u
    → find_key u.id "" s.keys ≡ some k
    → (find_active_pub_key b user_id s).0 ≡ ok k
unfolding find_active_pub_key find_user find_by_id find_by_login
active_found true user_id s u k f h e = rw (f, h, e) refl
active_found false user_id s u k f h e = rw (f, h, e) refl

-- While no call fails, a key of the right format that its owner does not have is added, and is the
-- one that FindActivePubKey gives then.
pub find_active_pub_key-add_pub_key :
    (v : KeyServices) (b : Bool) (user_id key : String) (s : State) (u : User)
    → s.faults ≡ []
    → v.key_valid key ≡ true
    → found_user s b user_id ≡ some u
    → has_pair UserPubkey.public_key_owner UserPubkey.public_key_hash u.id (v.key_hash key) s.keys
      ≡ false
    → has UserPubkey.id (v.new_key_id s.draws) s.keys ≡ false
    → AreSound s.keys
    → ((add_pub_key v b user_id key s).0 ≡ ok (v.new_key_id s.draws))
      × ((find_active_pub_key b user_id (add_pub_key v b user_id key s).1).0
          ≡ ok (new_key v u key (v.new_key_id s.draws)))
find_active_pub_key-add_pub_key v b user_id key s u f valid found free n h =
    let s' = (add_pub_key v b user_id key s).1 in
    let q =
      add_pub_key_quiet v b user_id key s u (find_key u.id "" s.keys) f valid found free refl in
    let still = found_user_same b user_id s s' q.1 ∙ found in
    elim (add_pub_key_lem v b user_id key s) [
      | inl c ↦ absurd (false≢true (sym c.1 ∙ ap is_ok q.0))
      | inr (w, id, who, done, gives, keys) ↦
          let s₁ = called (find_user b user_id s).1 in
          let same = (find_user-Same b user_id s).1 in
          let draws = find_user_draws b user_id s in
          let owner : w ≡ u = cc (who, (find_user_found b user_id s u f found).0) in
          let named : id ≡ v.new_key_id s.draws = cc (gives, q.0) in
          let r = (replaced v w key id s₁ (rw same h) (rw (draws, same) n) done).1 in
          (
            q.0,
            active_found b user_id s' u (new_key v u key (v.new_key_id s.draws)) q.2 still
                (rw (keys, owner) (rw (owner, named) at r)),
          )
    ]

-- The transaction is rolled back when the new key cannot be stored; the log record of the
-- deactivation of the old key stays with the operation.
add_pub_key_log :
    (v : KeyServices) (user_id key : String) (s : State) (u : User) (k : UserPubkey)
    (fs : List Bool)
    → s.faults ≡ false ∷ false ∷ false ∷ false ∷ false ∷ true ∷ fs
    → v.key_valid key ≡ true
    → find User.id user_id s.users ≡ some u
    → has_pair UserPubkey.public_key_owner UserPubkey.public_key_hash u.id (v.key_hash key) s.keys
      ≡ false
    → find_key u.id "" s.keys ≡ some k
    → ((add_pub_key v false user_id key s).0 ≡ err "database failure")
      × ((add_pub_key v false user_id key s).1.keys ≡ s.keys)
      × ((add_pub_key v false user_id key s).1.oplogs
          ≡ s.oplogs
            ++ record {
              operation = "deactivate_pubkey";
              user_id = u.id;
              login = u.login;
              key_id = k.id;
              key_hash = k.public_key_hash;
            }
              ∷ [])
unfolding add_pub_key transaction replace_key deactivate_key find_user find_by_id
add_pub_key_log v user_id key s u k fs f valid found free active =
    rw (valid, f, found, free, active) (refl, refl, refl)
