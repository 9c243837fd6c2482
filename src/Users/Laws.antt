-- ===== src/Users/Laws.antt =====
-- The invariant of the table of users over one operation of pkg/user/users.go, and operations that
-- are refused.
use go_backend_helpers.Prelude.{
  String, ◌≡◌, refl, inl, inr, Bool, false, Option, none, some, List, arith,
}
use go_backend_helpers.Table.{has, IsUnique}
use go_backend_helpers.Table.Laws.{append-IsUnique, update_at-IsUnique}
use go_backend_helpers.Effects.{Result, is_ok, Result-cases}
use go_backend_helpers.Users.{
  User, State, Services, Setter, apply_setters, add, with_password, with_phone, with_email,
  with_blocked, set_password, set_phone, set_email, set_blocked,
}
use go_backend_helpers.Users.Steps.{
  Same, KeepsKeys, apply_setters_keys, found_user, Updates, first_user, after_checks, add-err,
  add-ok, set_phone-Updates, set_email-Updates, set_blocked-Updates, set_password-Updates,
}

-- The operations that change users, with their arguments.
pub data UserCall : Type 0 where
  add_call : String → String → List Setter → UserCall
  set_password_call : Bool → String → String → UserCall
  set_phone_call : Bool → String → String → UserCall
  set_email_call : Bool → String → String → UserCall
  set_blocked_call : Bool → String → Bool → UserCall

abbrev outcome : {A : Type 0} → Result A × State → Bool × State
outcome (r, s) = (is_ok r, s)

unfoldable pub perform : Services → UserCall → State → Bool × State
perform v (add_call login password setters) s = outcome (add v login password setters s)
perform v (set_password_call b id password) s = outcome (set_password v b id password s)
perform v (set_phone_call b id phone) s = outcome (set_phone b id phone s)
perform v (set_email_call b id email) s = outcome (set_email b id email s)
perform v (set_blocked_call b id blocked) s = outcome (set_blocked b id blocked s)

-- The setters that a call brings keep identifier and login.
abbrev pub CallKeepsKeys : UserCall → Type 0
CallKeepsKeys (add_call login password setters) = KeepsKeys setters
CallKeepsKeys (set_password_call b id password) = Unit {0}
CallKeepsKeys (set_phone_call b id phone) = Unit {0}
CallKeepsKeys (set_email_call b id email) = Unit {0}
CallKeepsKeys (set_blocked_call b id blocked) = Unit {0}

-- No two users have the same identifier, and no two the same login.
abbrev pub IsSound : List User → Type 0
IsSound us = IsUnique User.id us × IsUnique User.login us

updated-IsSound :
    (s : State) (o : Option User) (f : User → User) (r : Result (Unit {0}) × State)
    → ((u : User) → (f u).id ≡ u.id)
    → ((u : User) → (f u).login ≡ u.login)
    → Updates s o f r
    → IsSound s.users
    → IsSound r.1.users
updated-IsSound s none f (r, s') i l c h = rw c.0.0 h
updated-IsSound s (some u) f (r, s') i l (inl c) h = rw c.0.0 h
updated-IsSound s (some u) f (r, s') i l (inr c) h = rw c.0 (
  update_at-IsUnique User.id User.id u.id f s.users i h.0,
  update_at-IsUnique User.login User.id u.id f s.users l h.1,
)

updated_refused :
    (s : State) (o : Option User) (f : User → User) (r : Result (Unit {0}) × State)
    → Updates s o f r
    → is_ok r.0 ≡ false
    → Same s r.1
updated_refused s none f (r, s') c h = c.0
updated_refused s (some u) f (r, s') (inl c) h = c.0
updated_refused s (some u) f (r, s') (inr c) h = ground arith

added-IsSound :
    (v : Services) (login password : String) (setters : List Setter) (s : State)
    → has User.id (v.random_id s.draws) s.users ≡ false
    → KeepsKeys setters
    → IsSound s.users
    → IsSound (add v login password setters s).1.users
added-IsSound v login password setters s n k h =
    let u₀ = first_user v login password s in
    elim (Result-cases (apply_setters setters u₀ (after_checks s)).0) [
      | inl (e, q) ↦ rw (add-err v login password setters s e q).0.0 h
      | inr (u, q) ↦ elim (add-ok v login password setters s u q) [
        | inl c ↦ rw c.0.0 h
        | inr (_, grown, _, free) ↦
            let keys = apply_setters_keys setters u₀ u (after_checks s) k q in
            rw grown (
              append-IsUnique User.id s.users u (rw keys.0 n) h.0,
              append-IsUnique User.login s.users u (rw keys.1 free) h.1,
            )
      ]
    ]

-- Add, SetPassword, SetPhone, SetEmail and SetBlocked, whatever their arguments and whichever
-- calls of the database fail, keep users' identifiers and logins unique, if a new identifier is
-- not in use and setters of extra fields keep identifier and login.
pub perform-IsSound :
    (v : Services) (c : UserCall) (s : State)
    → has User.id (v.random_id s.draws) s.users ≡ false
    → CallKeepsKeys c
    → IsSound s.users
    → IsSound (perform v c s).1.users
unfolding perform
perform-IsSound v (add_call login password setters) s n k h =
    added-IsSound v login password setters s n k h
perform-IsSound v (set_password_call b id password) s n k h =
    updated-IsSound s (found_user s b id) (with_password v password (v.random_salt s.draws))
      (set_password v b id password s) (λ u. refl) (λ u. refl)
      (set_password-Updates s b id v password) h
perform-IsSound v (set_phone_call b id phone) s n k h =
    updated-IsSound s (found_user s b id) (with_phone phone) (set_phone b id phone s) (λ u. refl)
      (λ u. refl) (set_phone-Updates s b id phone) h
perform-IsSound v (set_email_call b id email) s n k h =
    updated-IsSound s (found_user s b id) (with_email email) (set_email b id email s) (λ u. refl)
      (λ u. refl) (set_email-Updates s b id email) h
perform-IsSound v (set_blocked_call b id blocked) s n k h =
    updated-IsSound s (found_user s b id) (with_blocked blocked) (set_blocked b id blocked s)
      (λ u. refl) (λ u. refl) (set_blocked-Updates s b id blocked) h

add_refused :
    (v : Services) (login password : String) (setters : List Setter) (s : State)
    → is_ok (add v login password setters s).0 ≡ false
    → Same s (add v login password setters s).1
add_refused v login password setters s h =
    let u₀ = first_user v login password s in
    elim (Result-cases (apply_setters setters u₀ (after_checks s)).0) [
      | inl (e, q) ↦ (add-err v login password setters s e q).0
      | inr (u, q) ↦ elim (add-ok v login password setters s u q) [
        | inl c ↦ c.0
        | inr (done, _, _, _) ↦ ground arith
      ]
    ]

-- When an operation of the user controller fails, the tables and the log records have not
-- changed.
perform_refused :
    (v : Services) (c : UserCall) (s : State) → (perform v c s).0 ≡ false → Same s (perform v c s).1
unfolding perform
perform_refused v (add_call login password setters) s h = add_refused v login password setters s h
perform_refused v (set_password_call b id password) s h =
    updated_refused s (found_user s b id) (with_password v password (v.random_salt s.draws))
      (set_password v b id password s) (set_password-Updates s b id v password) h
perform_refused v (set_phone_call b id phone) s h =
    updated_refused s (found_user s b id) (with_phone phone) (set_phone b id phone s)
      (set_phone-Updates s b id phone) h
perform_refused v (set_email_call b id email) s h =
    updated_refused s (found_user s b id) (with_email email) (set_email b id email s)
      (set_email-Updates s b id email) h
perform_refused v (set_blocked_call b id blocked) s h =
    updated_refused s (found_user s b id) (with_blocked blocked) (set_blocked b id blocked s)
      (set_blocked-Updates s b id blocked) h
