-- ===== src/Users/Steps.antt =====
-- What each operation of pkg/user/users.go changes in the tables.
use go_backend_helpers.Prelude.{
  ◌+◌, String, ◌≡◌, refl, ◌⊎◌, inl, inr, Bool, true, false, Option, none, some, List, [], ◌∷◌, ◌++◌,
  arith, ◌∙◌,
}
use go_backend_helpers.Table.{has, find, update_at}
use go_backend_helpers.Effects.{Result, ok, err, ◌>>=◌, is_ok, Result-cases, next_fault}
use go_backend_helpers.Users.{
  User, State, Services, Setter, CheckDuplicateField, exists_user, check_duplicates, apply_setters,
  create_user, add, find_user, find_by_id, find_by_login, update_user, with_password, with_phone,
  with_email, with_blocked, set_password, set_phone, set_email, set_blocked, validate_password,
  validate_login, new_user,
}

abbrev pub found_user : State → Bool → String → Option User
found_user s true login = find User.login login s.users
found_user s false id = find User.id id s.users

-- The tables and the log records are as before.
abbrev pub Same : State → State → Type 0
Same s s' = (s'.users ≡ s.users) × (s'.keys ≡ s.keys) × (s'.oplogs ≡ s.oplogs)

pub exists_user-Same : (name value : String) (s : State) → Same s (exists_user name value s).1
unfolding exists_user
exists_user-Same name value s = ground arith

check_duplicates-Same :
    (ds : List CheckDuplicateField) (s : State) → Same s (check_duplicates ds s).1
unfolding check_duplicates
check_duplicates-Same [] s = (refl, refl, refl)
check_duplicates-Same (d ∷ ds) s = ground (
  arith,
  exists_user-Same d.name d.value s,
  check_duplicates-Same ds (exists_user d.name d.value s).1,
)

pub find_user-Same : (b : Bool) (id : String) (s : State) → Same s (find_user b id s).1
unfolding find_user find_by_id find_by_login
find_user-Same b id s = ground arith

-- The setters that keep the identifier and the login.
abbrev pub KeepsKeys : List Setter → Type 0
KeepsKeys [] = Unit {0}
KeepsKeys (f ∷ fs) =
    ((u v : User) (ds : List CheckDuplicateField)
      → f u ≡ ok (v, ds)
      → (v.id ≡ u.id) × (v.login ≡ u.login))
    × KeepsKeys fs

pub apply_setters-Same : (fs : List Setter) (u : User) (s : State) → Same s (apply_setters fs u s).1
unfolding apply_setters
apply_setters-Same [] u s = (refl, refl, refl)
apply_setters-Same (f ∷ fs) u s = elim (Result-cases (f u)) [
  | inl (e, h) ↦ rw h (refl, refl, refl)
  | inr ((v, ds), h) ↦ rw h (
      ground (arith, check_duplicates-Same ds s, apply_setters-Same fs v (check_duplicates ds s).1))
]

pub apply_setters_keys :
    (fs : List Setter) (u v : User) (s : State)
    → KeepsKeys fs
    → (apply_setters fs u s).0 ≡ ok v
    → (v.id ≡ u.id) × (v.login ≡ u.login)
unfolding apply_setters
apply_setters_keys [] u v s k h = ground arith
apply_setters_keys (f ∷ fs) u v s k h = elim (Result-cases (f u)) [
  | inl (e, q) ↦ cc (rw q at h)
  | inr ((w, ds), q) ↦ elim (Result-cases (check_duplicates ds s).0) [
    | inl (e, r) ↦ cc (rw (q, r) at h)
    | inr (t, r) ↦
        let a = k.0 u w ds q in
        let b = apply_setters_keys fs w v (check_duplicates ds s).1 k.1 (rw (q, r) at h) in
        (b.0 ∙ a.0, b.1 ∙ a.1)
  ]
]

-- The new user before the setters, and the state in which they are applied.
abbrev pub first_user : Services → String → String → State → User
first_user v login password s =
    new_user v (v.random_id s.draws) login password (v.random_salt (s.draws + 1))

abbrev pub after_checks : State → State
after_checks s = record s { faults = (next_fault s.faults).1; draws = s.draws + 1 + 1 }

module _ (v : Services) (login password : String) (setters : List Setter) (s : State) where
  pub add-err :
      (e : String)
      → (apply_setters setters (first_user v login password s) (after_checks s)).0 ≡ err e
      → Same s (add v login password setters s).1
        × (is_ok (add v login password setters s).0 ≡ false)
  unfolding add exists_user validate_login validate_password
  add-err e h =
      ground (arith, apply_setters-Same setters (first_user v login password s) (after_checks s))

  -- What Add does when the setters make `u`: nothing and an error, or the new row.
  pub add-ok :
      (u : User)
      → (apply_setters setters (first_user v login password s) (after_checks s)).0 ≡ ok u
      → (Same s (add v login password setters s).1
          × (is_ok (add v login password setters s).0 ≡ false))
        ⊎ (((add v login password setters s).0 ≡ ok u)
            × ((add v login password setters s).1.users ≡ s.users ++ u ∷ [])
            × ((add v login password setters s).1.keys ≡ s.keys)
            × (has User.login login s.users ≡ false))
  unfolding add exists_user validate_login validate_password create_user
  add-ok u h =
      ground (arith, apply_setters-Same setters (first_user v login password s) (after_checks s))

-- A change of a user, by identifier or login: an error and no change when the user is not found, or
-- when a call fails, and else the update of the user that was found.
abbrev pub Updates : State → Option User → (User → User) → Result (Unit {0}) × State → Type 0
Updates s none f (r, s') = Same s s' × (is_ok r ≡ false)
Updates s (some u) f (r, s') =
    (Same s s' × (is_ok r ≡ false))
    ⊎ ((s'.users ≡ update_at User.id u.id f s.users) × (s'.keys ≡ s.keys) × (is_ok r ≡ true))

module _ (s : State) (b : Bool) (id : String) where
  change_found :
      (operation : String) (f : User → User) (o : Option User)
      → found_user s b id ≡ o
      → Updates s o f ((find_user b id >>= λ u. update_user operation u f) s)
  unfolding find_user find_by_id find_by_login update_user
  change_found operation f none h = ground arith
  change_found operation f (some u) h = ground arith

  pub set_phone-Updates :
      (phone : String) → Updates s (found_user s b id) (with_phone phone) (set_phone b id phone s)
  unfolding set_phone
  set_phone-Updates phone = change_found "set_phone" (with_phone phone) (found_user s b id) refl

  pub set_email-Updates :
      (email : String) → Updates s (found_user s b id) (with_email email) (set_email b id email s)
  unfolding set_email
  set_email-Updates email = change_found "set_email" (with_email email) (found_user s b id) refl

  pub set_blocked-Updates :
      (blocked : Bool)
      → Updates s (found_user s b id) (with_blocked blocked) (set_blocked b id blocked s)
  unfolding set_blocked
  set_blocked-Updates blocked =
      change_found "set_blocked" (with_blocked blocked) (found_user s b id) refl

  set_password_found :
      (v : Services) (password : String) (o : Option User)
      → found_user s b id ≡ o
      → Updates s o
          (with_password v password (v.random_salt s.draws))
          (set_password v b id password s)
  unfolding set_password validate_password find_user find_by_id find_by_login update_user
  set_password_found v password none h = ground arith
  set_password_found v password (some u) h = ground arith

  pub set_password-Updates :
      (v : Services) (password : String)
      → Updates s
          (found_user s b id)
          (with_password v password (v.random_salt s.draws))
          (set_password v b id password s)
  set_password-Updates v password = set_password_found v password (found_user s b id) refl
