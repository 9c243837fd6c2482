-- ===== src/Users/Fields.antt =====
-- The extra fields that Add takes with a new user (pkg/user/users.go and SetUserFields of
-- pkg/user/user.go).
use go_backend_helpers.Prelude.{
  String, ◌≡◌, refl, ◌⊎◌, inl, inr, Bool, true, false, Option, none, some, List, [], ◌∷◌, ◌++◌,
  arith, ◌==◌, Bool-cases, false≢true, ap, sym, ◌∙◌,
}
use go_backend_helpers.Table.{has}
use go_backend_helpers.Effects.{ok, err, is_ok, Result-cases}
use go_backend_helpers.Users.{
  User, State, Services, CheckDuplicateField, Setter, field_if_given, apply_setters, add,
  set_user_fields, check_duplicates, exists_user, column,
}
use go_backend_helpers.Users.Steps.{first_user, after_checks, add-err, add-ok, exists_user-Same}

abbrev FreeIn : Option (User → String) → String → List User → Type 0
FreeIn none value us = Unit {0}
FreeIn (some field) value us = has field value us ≡ false

abbrev Free : List CheckDuplicateField → List User → Type 0
Free [] us = Unit {0}
Free (d ∷ ds) us = FreeIn (column d.name) d.value us × Free ds us

err≢ok : {A : Type 0} {e : String} {a : A} → ¬ (err e ≡ ok a)
err≢ok h = false≢true (ap is_ok h)

free_value :
    (o : Option (User → String)) (name value : String) (s : State)
    → column name ≡ o
    → (exists_user name value s).0 ≡ ok false
    → FreeIn o value s.users
unfolding exists_user
free_value none name value s e h = tt
free_value (some field) name value s e h = ground arith

check_duplicates-Free :
    (ds : List CheckDuplicateField) (s : State)
    → (check_duplicates ds s).0 ≡ ok tt
    → Free ds s.users
unfolding check_duplicates
check_duplicates-Free [] s h = tt
check_duplicates-Free (d ∷ ds) s h =
    let s₁ = (exists_user d.name d.value s).1 in
    let same : s₁.users ≡ s.users = (exists_user-Same d.name d.value s).0 in
    elim (Result-cases (exists_user d.name d.value s).0) [
      | inl (e, q) ↦ absurd (err≢ok (rw q at h))
      | inr (true, q) ↦ absurd (err≢ok (rw q at h))
      | inr (false, q) ↦ (
        free_value (column d.name) d.name d.value s refl q,
        rw (sym same) (check_duplicates-Free ds s₁ (rw q at h)),
      )
    ]

checked_duplicates :
    (f : Setter) (u v w : User) (ds : List CheckDuplicateField) (s : State)
    → f u ≡ ok (v, ds)
    → (apply_setters (f ∷ []) u s).0 ≡ ok w
    → (check_duplicates ds s).0 ≡ ok tt
unfolding apply_setters
checked_duplicates f u v w ds s g h = elim (Result-cases (check_duplicates ds s).0) [
  | inl (e, q) ↦ cc (rw (g, q) at h)
  | inr (t, q) ↦ q
]

-- The check of the fields that were given covers both.
Free-fields :
    (email phone : String) (us : List User)
    → Free
        (field_if_given "email" email "duplicate_email"
          ++ field_if_given "phone" phone "duplicate_phone")
        us
    → (((email == "") ≡ true) ⊎ (has User.email email us ≡ false))
      × (((phone == "") ≡ true) ⊎ (has User.phone phone us ≡ false))
Free-fields email phone us h = elim (Bool-cases (email == "")) [
  | inl e ↦ elim (Bool-cases (phone == "")) [
    | inl p ↦ (inl e, inl p)
    | inr p ↦ (inl e, inr (rw (e, p) at h).0)
  ]
  | inr e ↦ elim (Bool-cases (phone == "")) [
    | inl p ↦ (inr (rw (e, p) at h).0, inl p)
    | inr p ↦ let k = rw (e, p) at h in (inr k.0, inr k.1.0)
  ]
]

-- A user was added with an email and a phone: no user had them before, each if it was given.
add_fresh_fields :
    (v : Services) (login password email phone : String) (blocked : Bool) (s : State)
    → is_ok (add v login password (set_user_fields email phone blocked ∷ []) s).0 ≡ true
    → (((email == "") ≡ true) ⊎ (has User.email email s.users ≡ false))
      × (((phone == "") ≡ true) ⊎ (has User.phone phone s.users ≡ false))
      × (has User.login login s.users ≡ false)
unfolding set_user_fields
add_fresh_fields v login password email phone blocked s h =
    let setter = set_user_fields email phone blocked in
    let u₀ = first_user v login password s in
    elim (Result-cases (apply_setters (setter ∷ []) u₀ (after_checks s)).0) [
      | inl (e, q) ↦ absurd (false≢true (sym (add-err v login password (setter ∷ []) s e q).1 ∙ h))
      | inr (u, q) ↦ elim (add-ok v login password (setter ∷ []) s u q) [
        | inl n ↦ absurd (false≢true (sym n.1 ∙ h))
        | inr (_, _, _, free) ↦
            let checked = checked_duplicates setter u₀ _ u _ (after_checks s) refl q in
            let fields =
              Free-fields email phone s.users (check_duplicates-Free _ (after_checks s) checked) in
            (fields.0, fields.1, free)
      ]
    ]
