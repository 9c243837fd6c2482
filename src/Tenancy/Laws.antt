-- ===== src/Tenancy/Laws.antt =====
-- The invariant of the table of tenancies over the changes of tenancy_controller.go, and additions
-- (pkg/multitenancy/tenancy_manager).
use go_backend_helpers.Prelude.{
  String, ◌≡◌, inl, inr, refl, Bool, true, false, none, some, List, [], ◌∷◌, ◌++◌, Option-cases,
}
use go_backend_helpers.Table.{find, update_at, delete_at, IsUnique, has_pair, HasUniquePairs}
use go_backend_helpers.Table.Laws.{update_at-IsUnique, delete_at-IsUnique}
use go_backend_helpers.Effects.{Result-cases}
use go_backend_helpers.Tenancy.Store.{Tenancy, Customer, LoadedPool, State}
use go_backend_helpers.Table.Pairs.{
  delete_at-HasUniquePairs, update_at-HasUniquePairs, moved-HasUniquePairs,
}
use go_backend_helpers.Tenancy.Controller.{
  find_tenancy, check_duplicate_role, check_duplicate_path, with_path, with_role, with_customer,
  with_active, set_path, set_role, set_active, find_customer, retry_by_login, set_customer,
  delete_tenancy, pool_by, or_text, new_tenancy, TenancyData, Services, create_tenancy, add_tenancy,
}
use go_backend_helpers.Tenancy.Steps.{
  set_path-none, set_path-some, set_role-none, set_role-some, set_active-none, set_active-some,
  set_customer-none, set_customer-err, set_customer-some, delete_tenancy-none, delete_tenancy-some,
}

pub record IsOrderly (ts : List Tenancy) : Type 0 where
  pub ids : IsUnique Tenancy.id ts
  pub roles : HasUniquePairs Tenancy.customer_id Tenancy.role ts
  pub paths : HasUniquePairs Tenancy.pool_id Tenancy.path ts

module _ (ts : List Tenancy) (id : String) (c : IsOrderly ts) where
  path_moved :
      (path : String) (t : Tenancy)
      → find Tenancy.id id ts ≡ some t
      → has_pair Tenancy.pool_id Tenancy.path t.pool_id path ts ≡ false
      → IsOrderly (update_at Tenancy.id id (with_path path) ts)
  path_moved path t e h = record {
    ids = update_at-IsUnique Tenancy.id Tenancy.id id (with_path path) ts (λ r. refl) c.ids;
    roles =
        update_at-HasUniquePairs Tenancy.customer_id Tenancy.role Tenancy.id id (with_path path) ts
          (λ r. refl) (λ r. refl) c.roles;
    paths =
        moved-HasUniquePairs Tenancy.pool_id Tenancy.path Tenancy.id id t.pool_id path
          (with_path path) ts t e c.ids refl refl h c.paths;
  }

  role_moved :
      (role : String) (t : Tenancy)
      → find Tenancy.id id ts ≡ some t
      → has_pair Tenancy.customer_id Tenancy.role t.customer_id role ts ≡ false
      → IsOrderly (update_at Tenancy.id id (with_role role) ts)
  role_moved role t e h = record {
    ids = update_at-IsUnique Tenancy.id Tenancy.id id (with_role role) ts (λ r. refl) c.ids;
    roles =
        moved-HasUniquePairs Tenancy.customer_id Tenancy.role Tenancy.id id t.customer_id role
          (with_role role) ts t e c.ids refl refl h c.roles;
    paths =
        update_at-HasUniquePairs Tenancy.pool_id Tenancy.path Tenancy.id id (with_role role) ts
          (λ r. refl) (λ r. refl) c.paths;
  }

  customer_moved :
      (customer_id : String) (t : Tenancy)
      → find Tenancy.id id ts ≡ some t
      → has_pair Tenancy.customer_id Tenancy.role customer_id t.role ts ≡ false
      → IsOrderly (update_at Tenancy.id id (with_customer customer_id) ts)
  customer_moved customer_id t e h = record {
    ids =
        update_at-IsUnique Tenancy.id Tenancy.id id (with_customer customer_id) ts (λ r. refl)
          c.ids;
    roles =
        moved-HasUniquePairs Tenancy.customer_id Tenancy.role Tenancy.id id customer_id t.role
          (with_customer customer_id) ts t e c.ids refl refl h c.roles;
    paths =
        update_at-HasUniquePairs Tenancy.pool_id Tenancy.path Tenancy.id id
          (with_customer customer_id) ts (λ r. refl) (λ r. refl) c.paths;
  }

  active_changed : (active : Bool) → IsOrderly (update_at Tenancy.id id (with_active active) ts)
  active_changed active = record {
    ids = update_at-IsUnique Tenancy.id Tenancy.id id (with_active active) ts (λ r. refl) c.ids;
    roles =
        update_at-HasUniquePairs Tenancy.customer_id Tenancy.role Tenancy.id id (with_active active)
          ts (λ r. refl) (λ r. refl) c.roles;
    paths =
        update_at-HasUniquePairs Tenancy.pool_id Tenancy.path Tenancy.id id (with_active active) ts
          (λ r. refl) (λ r. refl) c.paths;
  }

  deleted : IsOrderly (delete_at Tenancy.id id ts)
  deleted = record {
    ids = delete_at-IsUnique Tenancy.id Tenancy.id id ts c.ids;
    roles = delete_at-HasUniquePairs Tenancy.customer_id Tenancy.role Tenancy.id id ts c.roles;
    paths = delete_at-HasUniquePairs Tenancy.pool_id Tenancy.path Tenancy.id id ts c.paths;
  }

-- The changes of a tenancy that is there, with their arguments.
pub data TenancyCall : Type 0 where
  set_path_call : String → String → TenancyCall
  set_role_call : String → String → TenancyCall
  set_active_call : Bool → String → TenancyCall
  set_customer_call : String → String → TenancyCall
  delete_call : String → Bool → TenancyCall

abbrev pub change : TenancyCall → State → State
change (set_path_call id path) s = (set_path id path s).1
change (set_role_call id role) s = (set_role id role s).1
change (set_active_call active id) s = (set_active active id s).1
change (set_customer_call id customer) s = (set_customer id customer s).1
change (delete_call id b) s = (delete_tenancy id b s).1

-- `SetPath`, `SetRole`, `Activate`, `Deactivate`, `SetCustomer` and `Delete`, whatever their arguments
-- and whichever calls of the database fail, keep what holds of the table: identifiers unique, no two
-- tenancies of one customer with the same role, and no two in one pool with the same path.
pub change-IsOrderly :
    (call : TenancyCall) (s : State) → IsOrderly s.tenancies → IsOrderly (change call s).tenancies
change-IsOrderly (set_path_call id path) s c =
    elim (Option-cases (find Tenancy.id id s.tenancies)) [
      | inl e ↦ rw (set_path-none s id path e) c
      | inr (t, e) ↦ elim (set_path-some s id path t e) [
        | inl same ↦ rw same c
        | inr (moved, free) ↦ rw moved (path_moved s.tenancies id c path t e free)
      ]
    ]
change-IsOrderly (set_role_call id role) s c =
    elim (Option-cases (find Tenancy.id id s.tenancies)) [
      | inl e ↦ rw (set_role-none s id role e) c
      | inr (t, e) ↦ elim (set_role-some s id role t e) [
        | inl same ↦ rw same c
        | inr (moved, free) ↦ rw moved (role_moved s.tenancies id c role t e free)
      ]
    ]
change-IsOrderly (set_active_call active id) s c =
    elim (Option-cases (find Tenancy.id id s.tenancies)) [
      | inl e ↦ rw (set_active-none s id active e) c
      | inr (t, e) ↦ elim (set_active-some s id active t e) [
        | inl same ↦ rw same c
        | inr moved ↦ rw moved (active_changed s.tenancies id c active)
      ]
    ]
change-IsOrderly (set_customer_call id customer) s c =
    elim (Option-cases (find Tenancy.id id s.tenancies)) [
      | inl e ↦ rw (set_customer-none s id customer e) c
      | inr (t, e) ↦ elim (Result-cases (find_customer customer (find_tenancy id s).1).0) [
        | inl (m, h) ↦ rw (set_customer-err s id customer m h) c
        | inr (k, h) ↦ elim (set_customer-some s id customer t k e h) [
          | inl same ↦ rw same c
          | inr (moved, free) ↦ rw moved (customer_moved s.tenancies id c k.id t e free)
        ]
      ]
    ]
change-IsOrderly (delete_call id b) s c = elim (Option-cases (find Tenancy.id id s.tenancies)) [
  | inl e ↦ rw (delete_tenancy-none s id b e) c
  | inr (t, e) ↦ elim (delete_tenancy-some s id b t e) [
    | inl same ↦ rw same c
    | inr moved ↦ rw moved (deleted s.tenancies id c)
  ]
]

-- `Add` for a customer by login and a pool by identifier: while no call fails, the pool is active, no
-- tenancy has that login as the identifier of its customer, the path is free and the database is new,
-- the tenancy is added whatever roles the customer has, also when one has the same role.
add_tenancy_by_login :
    (v : Services) (asked : TenancyData) (s : State) (c : Customer) (p : LoadedPool)
    → s.faults ≡ []
    → s.generic_error ≡ none
    → find Customer.id asked.customer s.customers ≡ none
    → find Customer.login asked.customer s.customers ≡ some c
    → pool_by asked.pool s ≡ some p
    → p.active ≡ true
    → has_pair Tenancy.customer_id Tenancy.role asked.customer asked.role s.tenancies ≡ false
    → has_pair Tenancy.pool_id Tenancy.path asked.pool asked.path s.tenancies ≡ false
    → v.metas (or_text asked.db_name (v.database_name c.login asked.role)) ≡ []
    → (add_tenancy v asked s).1.tenancies
      ≡ s.tenancies
        ++ new_tenancy asked c p
            (v.random_id s.next_id)
            (v.random_path s.next_id)
            (v.database_name c.login asked.role)
          ∷ []
unfolding add_tenancy create_tenancy find_customer retry_by_login check_duplicate_role
    check_duplicate_path
add_tenancy_by_login v asked s c p f g n l q a r t m = rw (f, n, g, l, q, a, r, t, m) refl
