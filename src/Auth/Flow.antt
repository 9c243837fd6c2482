-- ===== src/Auth/Flow.antt =====
-- A handler's body: a chain of steps on the context, each of which may return early, as the `if`
-- statements with a `return` in the Go handlers do.
use go_backend_helpers.Prelude.{String, ◌≡◌, refl, ◌⊎◌, inl, inr, Bool, true, false, Option}
use go_backend_helpers.Auth.Context.{World, Outcome, Handler, set_generic_error_code, call_service}

pub data Flow (A : Type 0) : Type 0 where
  next : A → Flow A
  stop : Outcome → Flow A

abbrev pub Proc : Type 0 → Type 0
Proc A = World → Flow A × World

abbrev continue : {A B : Type 0} → Flow A → (A → Proc B) → Proc B
continue (next a) f w = f a w
continue (stop o) f w = (stop o, w)

infixl 5 ◌>>=◌ ◌>>◌
abbrev pub ◌>>=◌ : {A B : Type 0} → Proc A → (A → Proc B) → Proc B
◌>>=◌ m f w = let (r, w') = m w in continue r f w'

abbrev pub ◌>>◌ : {A B : Type 0} → Proc A → Proc B → Proc B
m >> k = m >>= λ _. k

abbrev pub pure : {A : Type 0} → A → Proc A
pure a w = (next a, w)

-- `return found, err`
abbrev pub finish : {A : Type 0} → Bool → Option String → Proc A
finish found err w = (stop (found, err), w)

-- `ctx.SetGenericErrorCode(code); return found, err`
abbrev pub reject : {A : Type 0} → String → Bool → Option String → Proc A
reject code found err w = (stop (found, err), set_generic_error_code code w)

abbrev pub reject_if : Bool → String → Bool → Option String → Proc (Unit {0})
reject_if true code found err w = reject code found err w
reject_if false code found err w = (next tt, w)

-- `if b { … } else { … }`
abbrev pub choose : {A : Type 0} → Bool → Proc A → Proc A → Proc A
choose true m n w = m w
choose false m n w = n w

abbrev pub modify : (World → World) → Proc (Unit {0})
modify f w = (next tt, f w)

abbrev pub gets : {A : Type 0} → (World → A) → Proc A
gets f w = (next (f w), w)

-- A call whose error is logged or dropped: it tells whether the call failed.
abbrev pub attempt : Proc Bool
attempt w = let (f, w') = call_service w in (next f, w')

abbrev outcome : Flow Outcome → Outcome
outcome (next o) = o
outcome (stop o) = o

abbrev pub run : Proc Outcome → Handler
run m w = let (r, w') = m w in (outcome r, w')

pub Flow-cases :
    {A : Type 0} (x : Flow A) → ((a : A) × (x ≡ next a)) ⊎ ((o : Outcome) × (x ≡ stop o))
Flow-cases (next a) = inl (a, refl)
Flow-cases (stop o) = inr (o, refl)
