-- ===== src/Tenancy/Steps.antt =====
-- What each change of a tenancy (pkg/multitenancy/tenancy_manager/tenancy_controller.go) makes of the
-- table.
use go_backend_helpers.Prelude.{String, ◌≡◌, ◌⊎◌, Bool, false, none, some, arith}
use go_backend_helpers.Table.{find, update_at, delete_at, has_pair}
use go_backend_helpers.Table.Laws.{key-find}
use go_backend_helpers.Effects.{ok, err}
use go_backend_helpers.Tenancy.Store.{Tenancy, Customer, State}
use go_backend_helpers.Tenancy.Controller.{
  joined, find_tenancy, check_duplicate_role, check_duplicate_path, update_tenancy, with_path,
  with_role, with_customer, with_active, set_path, set_role, set_active, find_customer,
  retry_by_login, set_customer, delete_tenancy,
}

module _ (s : State) (id : String) where
  pub set_path-none :
      (path : String)
      → find Tenancy.id id s.tenancies ≡ none
      → (set_path id path s).1.tenancies ≡ s.tenancies
  unfolding set_path find_tenancy joined
  set_path-none path e = ground arith

  pub set_path-some :
      (path : String) (t : Tenancy)
      → find Tenancy.id id s.tenancies ≡ some t
      → ((set_path id path s).1.tenancies ≡ s.tenancies)
        ⊎ (((set_path id path s).1.tenancies ≡ update_at Tenancy.id id (with_path path) s.tenancies)
            × (has_pair Tenancy.pool_id Tenancy.path t.pool_id path s.tenancies ≡ false))
  unfolding set_path find_tenancy joined check_duplicate_path update_tenancy
  set_path-some path t e = ground (arith, key-find Tenancy.id id s.tenancies t e)

  pub set_role-none :
      (role : String)
      → find Tenancy.id id s.tenancies ≡ none
      → (set_role id role s).1.tenancies ≡ s.tenancies
  unfolding set_role find_tenancy joined
  set_role-none role e = ground arith

  pub set_role-some :
      (role : String) (t : Tenancy)
      → find Tenancy.id id s.tenancies ≡ some t
      → ((set_role id role s).1.tenancies ≡ s.tenancies)
        ⊎ (((set_role id role s).1.tenancies ≡ update_at Tenancy.id id (with_role role) s.tenancies)
            × (has_pair Tenancy.customer_id Tenancy.role t.customer_id role s.tenancies ≡ false))
  unfolding set_role find_tenancy joined check_duplicate_role update_tenancy
  set_role-some role t e = ground (arith, key-find Tenancy.id id s.tenancies t e)

  pub set_active-none :
      (active : Bool)
      → find Tenancy.id id s.tenancies ≡ none
      → (set_active active id s).1.tenancies ≡ s.tenancies
  unfolding set_active find_tenancy joined
  set_active-none active e = ground arith

  pub set_active-some :
      (active : Bool) (t : Tenancy)
      → find Tenancy.id id s.tenancies ≡ some t
      → ((set_active active id s).1.tenancies ≡ s.tenancies)
        ⊎ ((set_active active id s).1.tenancies
            ≡ update_at Tenancy.id id (with_active active) s.tenancies)
  unfolding set_active find_tenancy joined update_tenancy
  set_active-some active t e = ground (arith, key-find Tenancy.id id s.tenancies t e)

  pub delete_tenancy-none :
      (b : Bool)
      → find Tenancy.id id s.tenancies ≡ none
      → (delete_tenancy id b s).1.tenancies ≡ s.tenancies
  unfolding delete_tenancy find_tenancy joined
  delete_tenancy-none b e = ground arith

  pub delete_tenancy-some :
      (b : Bool) (t : Tenancy)
      → find Tenancy.id id s.tenancies ≡ some t
      → ((delete_tenancy id b s).1.tenancies ≡ s.tenancies)
        ⊎ ((delete_tenancy id b s).1.tenancies ≡ delete_at Tenancy.id id s.tenancies)
  unfolding delete_tenancy find_tenancy joined
  delete_tenancy-some b t e = ground (arith, key-find Tenancy.id id s.tenancies t e)

  tenancies-find_tenancy : (find_tenancy id s).1.tenancies ≡ s.tenancies
  unfolding find_tenancy joined
  tenancies-find_tenancy = ground arith

  tenancies-find_customer : (find_customer id s).1.tenancies ≡ s.tenancies
  unfolding find_customer retry_by_login
  tenancies-find_customer = ground arith

module _ (s : State) (id customer : String) where
  pub set_customer-err :
      (e : String)
      → (find_customer customer (find_tenancy id s).1).0 ≡ err e
      → (set_customer id customer s).1.tenancies ≡ s.tenancies
  unfolding set_customer
  set_customer-err e h =
      ground
        (arith, tenancies-find_tenancy s id, tenancies-find_customer (find_tenancy id s).1 customer)

  pub set_customer-some :
      (t : Tenancy) (c : Customer)
      → find Tenancy.id id s.tenancies ≡ some t
      → (find_customer customer (find_tenancy id s).1).0 ≡ ok c
      → ((set_customer id customer s).1.tenancies ≡ s.tenancies)
        ⊎ (((set_customer id customer s).1.tenancies
              ≡ update_at Tenancy.id id (with_customer c.id) s.tenancies)
            × (has_pair Tenancy.customer_id Tenancy.role c.id t.role s.tenancies ≡ false))
  unfolding set_customer find_tenancy joined check_duplicate_role update_tenancy
  set_customer-some t c e h = ground (
    arith,
    key-find Tenancy.id id s.tenancies t e,
    tenancies-find_tenancy s id,
    tenancies-find_customer (find_tenancy id s).1 customer,
  )

  pub set_customer-none :
      find Tenancy.id id s.tenancies ≡ none → (set_customer id customer s).1.tenancies ≡ s.tenancies
  unfolding set_customer find_tenancy joined
  set_customer-none e = ground arith
