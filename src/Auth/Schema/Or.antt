-- ===== src/Auth/Schema/Or.antt =====
-- A schema that joins its handlers by "or".
use go_backend_helpers.Prelude.{
  ◌≡◌, Bool, true, false, Option, none, some, List, [], ◌∷◌, ◌&&◌, arith, is_some,
}
use go_backend_helpers.Auth.Context.{World, Outcome, set_generic_error_code}
use go_backend_helpers.Auth.Flow.{Flow, next, stop}
use go_backend_helpers.Auth.Schema.{AuthHandler, any_of, judge, loop, handle_schema}

-- The outcome of the first real handler that finds its section, and the context that it leaves.
abbrev pub first_section : List AuthHandler → World → Option (Outcome × World)
first_section [] w = none
first_section (h ∷ hs) w =
    let (o, w') = h.handle w in
    let rest = first_section hs w' in elim (h.is_real && o.0) [ true ↦ some (o, w') | false ↦ rest ]

-- An error of that handler gets the code of an unauthorized request, if it has set none.
abbrev pub marked : Outcome × World → Outcome × World
marked ((section, none), w) = ((section, none), w)
marked ((section, some err), w) = ((section, some err), set_generic_error_code "unauthorized" w)

-- The context after all handlers have run.
abbrev last_world : List AuthHandler → World → World
last_world [] w = w
last_world (h ∷ hs) w = last_world hs (h.handle w).1

abbrev settle : Option (Outcome × World) → World → Flow Bool × World
settle none w = (next false, w)
settle (some x) w = (stop (marked x).0, (marked x).1)

loop_or :
    (hs : List AuthHandler) (w : World)
    → loop any_of hs false w ≡ settle (first_section hs w) (last_world hs w)
unfolding loop judge
loop_or [] w = ground arith
loop_or (h ∷ hs) w = ground (arith, loop_or hs (h.handle w).1)

-- A schema with "or" answers with the outcome of the first real handler that finds its section in
-- the request, whatever the handlers behind it would say.
pub handle_schema_or :
    (hs : List AuthHandler) (w : World) (o : Outcome) (w' : World)
    → first_section hs w ≡ some (o, w')
    → handle_schema any_of hs w ≡ marked (o, w')
unfolding handle_schema
handle_schema_or hs w o w' e = ground (arith, loop_or hs w)

-- If no real handler finds its section, the request is refused as unauthorized.
handle_schema_or_none :
    (h : AuthHandler) (hs : List AuthHandler) (w : World)
    → first_section (h ∷ hs) w ≡ none
    → ((handle_schema any_of (h ∷ hs) w).0 ≡ (false, some "no auth section in request"))
      × (is_some (handle_schema any_of (h ∷ hs) w).1.generic_error ≡ true)
unfolding handle_schema set_generic_error_code
handle_schema_or_none h hs w e = ground (arith, loop_or (h ∷ hs) w)
