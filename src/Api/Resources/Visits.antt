-- ===== src/Api/Resources/Visits.antt =====
-- `EachOperation` of pkg/api/resource.go: a handler with an error on every operation of a tree.
use go_backend_helpers.Prelude.{◌≡◌, refl, Bool, true, List, [], ◌∷◌, ◌++◌, ◌∙◌, inl, inr, sym}
use go_backend_helpers.Effects.{Act, ◌>>◌, pure, choose, Result-cases}
use go_backend_helpers.Api.Operations.{Operation}
use go_backend_helpers.Api.Resources.{Resource, resource, Resources, no_children, child}

module _ {S : Type 0} where
  -- The loop over operations: the first error ends it.
  unfoldable pub each : (Operation → Act S (Unit {0})) → List Operation → Act S (Unit {0})
  each handler [] = pure tt
  each handler (op ∷ ops) = handler op >> each handler ops

  -- `EachOperation`; the children are visited with theirs.
  unfoldable mutual
    unfolding each

    pub each_operation : (Operation → Act S (Unit {0})) → Bool → Resource → Act S (Unit {0})
    each_operation handler recursive (resource n rs) =
        each handler n.operations >> choose recursive (each_of_children handler rs) (pure tt)

    pub each_of_children : (Operation → Act S (Unit {0})) → Resources → Act S (Unit {0})
    each_of_children handler no_children = pure tt
    each_of_children handler (child r rs) =
        each_operation handler true r >> each_of_children handler rs

-- All operations of a tree, those of a resource before those of its children.
unfoldable mutual
  pub all_operations : Resource → List Operation
  all_operations (resource n rs) = n.operations ++ all_of_children rs

  pub all_of_children : Resources → List Operation
  all_of_children no_children = []
  all_of_children (child r rs) = all_operations r ++ all_of_children rs

module _ {S : Type 0} (handler : Operation → Act S (Unit {0})) where
  each-append :
      (xs ys : List Operation) (s : S)
      → each handler (xs ++ ys) s ≡ (each handler xs >> each handler ys) s
  unfolding each
  each-append [] ys s = refl
  each-append (x ∷ xs) ys s = elim (Result-cases (handler x s).0) [
    | inl (e, h) ↦ rw h refl
    | inr (t, h) ↦ rw h (each-append xs ys (handler x s).1)
  ]

  then_same :
      (m k k' : Act S (Unit {0})) (s : S) → ((t : S) → k t ≡ k' t) → (m >> k) s ≡ (m >> k') s
  then_same m k k' s h = elim (Result-cases (m s).0) [
    | inl (e, q) ↦ rw q refl
    | inr (t, q) ↦ rw q (h (m s).1)
  ]

  mutual
    unfolding each_operation all_operations each

    visit_all :
        (r : Resource) (s : S) → each_operation handler true r s ≡ each handler (all_operations r) s
    visit_all (resource n rs) s =
        then_same (each handler n.operations) (each_of_children handler rs)
          (each handler (all_of_children rs)) s (visit_children rs)
        ∙ sym (each-append n.operations (all_of_children rs) s)

    visit_children :
        (rs : Resources) (s : S)
        → each_of_children handler rs s ≡ each handler (all_of_children rs) s
    visit_children no_children s = refl
    visit_children (child r rs) s =
        (rw (visit_all r s) (
          then_same (each handler (all_operations r)) (each_of_children handler rs)
            (each handler (all_of_children rs)) s (visit_children rs)))
        ∙ sym (each-append (all_operations r) (all_of_children rs) s)

  -- EachOperation runs the handler on all operations of the tree, those of a resource before those of
  -- its children, up to the first error.
  each_operation_lem :
      (r : Resource) (s : S) → each_operation handler true r s ≡ each handler (all_operations r) s
  each_operation_lem = visit_all
