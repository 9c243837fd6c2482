-- ===== src/Results.antt =====
-- Chains of Go calls that return an error and keep no state.
use go_backend_helpers.Prelude.{◌≡◌, refl, String, Option, none, some}
use go_backend_helpers.Effects.{Result, ok, err}

infixl 5 ◌>>=◌
abbrev pub ◌>>=◌ : {A B : Type 0} → Result A → (A → Result B) → Result B
ok a >>= f = f a
err e >>= f = err e

-- `if err != nil { return err }` for a call whose error has the message.
abbrev pub or_error : {A : Type 0} → String → Option A → Result A
or_error e none = err e
or_error e (some a) = ok a

pub ok-injective : {A : Type 0} {a b : A} → ok a ≡ ok b → a ≡ b
ok-injective h = cc h

pub bind-ok :
    {A B : Type 0} (m : Result A) (f : A → Result B) (b : B)
    → (m >>= f) ≡ ok b
    → (a : A) × (m ≡ ok a) × (f a ≡ ok b)
bind-ok (ok a) f b h = (a, refl, h)
bind-ok (err e) f b h = cc
