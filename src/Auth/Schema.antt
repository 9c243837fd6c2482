-- ===== src/Auth/Schema.antt =====
-- auth/auth_schema.go, auth/auth_manager.go, auth/endpoint_config.go and auth/auth.go: from a
-- request to the handlers that authenticate it.
pub mod And
pub mod Or
use go_backend_helpers.Prelude.{
  ℕ, String, Bool, true, false, not, Option, none, some, List, [], ◌∷◌, ◌&&◌, ◌||◌, ◌==◌, Dict,
  lookup, insert, if◌then◌else◌, is_some,
}
use go_backend_helpers.AccessControl.Mask.{check}
use go_backend_helpers.Auth.Context.{World, Outcome, Handler, set_generic_error_code}
use go_backend_helpers.Auth.Flow.{next, stop, Flow}

-- The part of the interface `AuthHandler` that runs requests.
pub record AuthHandler : Type 0 where
  pub name : String
  pub is_real : Bool
  pub handle : Handler

pub data Aggregation : Type 0 where
  all_of any_of : Aggregation  -- "and", "or"

abbrev pub is_or : Aggregation → Bool
is_or all_of = false
is_or any_of = true

abbrev unauthorized : String
unauthorized = "unauthorized"

-- What the loop does with the outcome of one handler; `rest` is the loop over the others.
unfoldable pub judge :
    Aggregation → Bool → Bool → Outcome → (Bool → Flow Bool × World) → World → Flow Bool × World
judge g found real (section, none) rest w =
    if not real || (not section && is_or g)
    then rest found
    else if is_or g
    then (stop (section, none), w)
    else rest (found || section)
judge g found real (section, some err) rest w =
    if not real || (not section && is_or g)
    then rest found
    else (stop (section, some err), set_generic_error_code unauthorized w)

-- The loop over the handlers, with `authMethodFound`.
unfoldable pub loop : Aggregation → List AuthHandler → Bool → World → Flow Bool × World
loop g [] found w = (next found, w)
loop g (h ∷ hs) found w =
    let (o, w') = h.handle w in judge g found h.is_real o (λ b. loop g hs b w') w'

abbrev pub has_any : List AuthHandler → Bool
has_any [] = false
has_any (_ ∷ _) = true

-- The end of `AuthSchema.Handle`, after the loop.
unfoldable pub conclude : Bool → Flow Bool × World → Outcome × World
conclude any (stop o, w) = (o, w)
conclude any (next found, w) =
    if any && not found
    then ((false, some "no auth section in request"), set_generic_error_code unauthorized w)
    else ((found, none), w)

-- `AuthSchema.Handle`
unfoldable pub handle_schema : Aggregation → List AuthHandler → Handler
unfolding conclude
handle_schema g hs w = conclude (has_any hs) (loop g hs false w)

-- `HandlerStoreBase.AddHandler`: the first handler of a name stays.
unfoldable pub add_handler : AuthHandler → Dict AuthHandler → Dict AuthHandler
add_handler h store = if is_some (lookup h.name store) then store else insert h.name h store

-- `AuthManagerBase.Handle`, over the store of schemas
unfoldable pub handle_manager : Dict AuthHandler → String → World → Option String × World
handle_manager schemas name w = elim (lookup name schemas) [
  | none ↦ (some "unknown authorization handler", set_generic_error_code "invalid_auth_schema" w)
  | some h ↦ let (o, w') = h.handle w in (o.1, w')
]

-- The schemas of one endpoint, in order: the access that each is for, and its name.
unfoldable pub first_schema : ℕ → List (ℕ × String) → Option String
first_schema access [] = none
first_schema access ((a, s) ∷ rest) = if check a access then some s else first_schema access rest

-- `EndpointsAuthConfigBase.Schema`
unfoldable pub endpoint_schema : Dict (List (ℕ × String)) → String → ℕ → Option String
endpoint_schema endpoints path access = elim (lookup path endpoints) [
  | none ↦ none
  | some schemas ↦ first_schema access schemas
]

pub record AuthBase : Type 0 where
  pub default_schema : String
  pub schemas : Dict AuthHandler
  pub endpoints : Dict (List (ℕ × String))

abbrev pub chosen_schema : AuthBase → String → ℕ → String
chosen_schema a path access = elim (endpoint_schema a.endpoints path access) [
  | none ↦ a.default_schema
  | some s ↦ s
]

-- `AuthBase.HandleRequest`
unfoldable pub handle_request : AuthBase → String → ℕ → World → Option String × World
handle_request a path access w = handle_manager a.schemas (chosen_schema a path access) w
