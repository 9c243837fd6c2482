-- ===== src/Auth/Schema/And.antt =====
-- A schema that joins its handlers by "and".
use go_backend_helpers.Prelude.{
  ◌≡◌, Bool, true, false, not, List, [], ◌∷◌, ◌&&◌, ◌||◌, arith, is_some,
}
use go_backend_helpers.Auth.Context.{World, Outcome}
use go_backend_helpers.Auth.Flow.{Flow, next, stop}
use go_backend_helpers.Auth.Schema.{AuthHandler, all_of, judge, loop, handle_schema}

-- The outcomes of the real handlers when all handlers run in turn, each on the context that the
-- one before it left.
abbrev pub outcomes : List AuthHandler → World → List Outcome
outcomes [] w = []
outcomes (h ∷ hs) w =
    let (o, w') = h.handle w in
    let rest = outcomes hs w' in elim h.is_real [ true ↦ o ∷ rest | false ↦ rest ]

abbrev pub no_errors : List Outcome → Bool
no_errors [] = true
no_errors ((section, err) ∷ os) = not (is_some err) && no_errors os

abbrev pub some_section : List Outcome → Bool
some_section [] = false
some_section ((section, err) ∷ os) = section || some_section os

abbrev ends_well : Flow Bool → Bool
ends_well (next found) = found
ends_well (stop (section, err)) = not (is_some err)

loop_and :
    (hs : List AuthHandler) (found : Bool) (w : World)
    → ends_well (loop all_of hs found w).0
      ≡ (no_errors (outcomes hs w) && (found || some_section (outcomes hs w)))
unfolding loop judge
loop_and [] found w = ground arith
loop_and (h ∷ hs) found w =
    ground (arith, loop_and hs found (h.handle w).1, loop_and hs true (h.handle w).1)

-- A schema with "and" and at least one handler passes a request exactly when no real handler
-- returns an error and one of them finds its section in the request.
pub handle_schema_and :
    (h : AuthHandler) (hs : List AuthHandler) (w : World)
    → is_some (handle_schema all_of (h ∷ hs) w).0.1
      ≡ not (no_errors (outcomes (h ∷ hs) w) && some_section (outcomes (h ∷ hs) w))
unfolding handle_schema
handle_schema_and h hs w = ground (arith, loop_and (h ∷ hs) false w)
