-- ===== src/Effects.antt =====
-- Go functions with an error over a state, as the controllers are: a chain of steps that stops at the
-- first error.
use go_backend_helpers.Prelude.{Bool, true, false, List, [], ◌∷◌, String, ◌≡◌, ◌⊎◌, inl, inr, refl}

-- A Go result with an error.
pub data Result (A : Type 0) : Type 0 where
  ok : A → Result A
  err : String → Result A

abbrev pub Act : Type 0 → Type 0 → Type 0
Act S A = S → Result A × S

module _ {S : Type 0} where
  abbrev continue : {A B : Type 0} → Result A → (A → Act S B) → Act S B
  continue (ok a) f s = f a s
  continue (err e) f s = (err e, s)

  infixl 5 ◌>>=◌ ◌>>◌
  abbrev pub ◌>>=◌ : {A B : Type 0} → Act S A → (A → Act S B) → Act S B
  ◌>>=◌ m f s = let (r, s') = m s in continue r f s'

  abbrev pub ◌>>◌ : {A B : Type 0} → Act S A → Act S B → Act S B
  m >> k = m >>= λ _. k

  abbrev pub pure : {A : Type 0} → A → Act S A
  pure a s = (ok a, s)

  abbrev pub fail : {A : Type 0} → String → Act S A
  fail e s = (err e, s)

  -- `if b { … } else { … }`
  abbrev pub choose : {A : Type 0} → Bool → Act S A → Act S A → Act S A
  choose true m n s = m s
  choose false m n s = n s

  abbrev pub gets : {A : Type 0} → (S → A) → Act S A
  gets f s = (ok (f s), s)

  abbrev pub modify : (S → S) → Act S (Unit {0})
  modify f s = (ok tt, f s)

-- What the next call of a service gives, by a schedule of failures.
abbrev pub next_fault : List Bool → Bool × List Bool
next_fault [] = (false, [])
next_fault (f ∷ fs) = (f, fs)

abbrev pub answer : Bool → Result (Unit {0})
answer true = err "database failure"
answer false = ok tt

abbrev pub is_ok : {A : Type 0} → Result A → Bool
is_ok (ok a) = true
is_ok (err e) = false

pub Result-cases :
    {A : Type 0} (x : Result A) → ((e : String) × (x ≡ err e)) ⊎ ((a : A) × (x ≡ ok a))
Result-cases (ok a) = inr (a, refl)
Result-cases (err e) = inl (e, refl)
