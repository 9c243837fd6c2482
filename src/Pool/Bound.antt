-- ===== src/Pool/Bound.antt =====
-- Services that were bound to a pool, in a store that is loaded afterwards (pkg/pool).
use go_backend_helpers.Prelude.{
  ℕ, String, ◌≡◌, refl, Bool, true, some, List, [], ◌∷◌, ◌++◌, ◌==◌, if◌then◌else◌, arith, eq_refl,
  Dict, lookup, insert, lookup-insert, All, sym, ◌∙◌, ap,
}
use mathlib.Core.List.{append_assoc}
use go_backend_helpers.Table.{find, IsUnique}
use go_backend_helpers.Effects.{ok, is_ok}
use go_backend_helpers.Pool.Store.{
  Pool, PoolService, Association, Db, pool_field, service_field, op_log,
}
use go_backend_helpers.Pool.Controller.{find_pool, find_service}
use go_backend_helpers.Pool.Bindings.{
  PoolServiceBinding, join, join_row, set_services, add_service_to_pool, bind_service,
}
use go_backend_helpers.Pool.Stores.{Loaded, PoolStore, load_all, init, pool_by_id, service}
use go_backend_helpers.Pool.Loading.{
  find_by, HasId, services_of, quiet, keep_all_lem, load_each_lem,
}

set_services-last :
    (bs : List PoolServiceBinding) (b : PoolServiceBinding) (d : Dict PoolServiceBinding)
    → set_services (bs ++ b ∷ []) d ≡ insert b.role b (set_services bs d)
unfolding set_services
set_services-last [] b d = refl
set_services-last (c ∷ bs) b d = set_services-last bs b (insert c.role c d)

join-append :
    (f : Association → Bool) (db : Db) (rest : List Association) (a : Association)
    → join f db (rest ++ a ∷ []) ≡ join f db rest ++ join f db (a ∷ [])
unfolding join
join-append f db [] a = refl
join-append f db (r ∷ rest) a =
    let rows =
      join_row (find Pool.id r.pool_id db.pools) (find PoolService.id r.service_id db.services) r in
    rw (join-append f db rest a)
      (sym (append_assoc (if f r then rows else []) (join f db rest) (join f db (a ∷ []))))

bound_lem :
    (random_id : ℕ → String) (by_name : Bool) (pool_id service_id role : String) (p : Pool)
    (s : PoolService) (db : Db)
    → find (pool_field by_name) pool_id db.pools ≡ some p
    → find (service_field by_name) service_id db.services ≡ some s
    → is_ok (add_service_to_pool random_id by_name pool_id service_id role db).0 ≡ true
    → ((add_service_to_pool random_id by_name pool_id service_id role db).1.associations
        ≡ db.associations
          ++ record { id = random_id db.next_id; pool_id = p.id; service_id = s.id; role = role }
            ∷ [])
      × ((add_service_to_pool random_id by_name pool_id service_id role db).1.pools ≡ db.pools)
      × ((add_service_to_pool random_id by_name pool_id service_id role db).1.services
          ≡ db.services)
unfolding add_service_to_pool find_pool find_service bind_service op_log
bound_lem random_id by_name pool_id service_id role p s db e f h = ground arith

abbrev pub binding_of : Pool → PoolService → String → String → PoolServiceBinding
binding_of p s id role = record {
  id = id;
  role = role;
  pool_id = p.id;
  pool_name = p.name;
  service_id = s.id;
  service_name = s.name;
  active = s.active;
}

lookup-services_of :
    (db : Db) (p : Pool) (s : PoolService) (id role : String) (rest : List Association)
    → db.associations
      ≡ rest ++ record { id = id; pool_id = p.id; service_id = s.id; role = role } ∷ []
    → find Pool.id p.id db.pools ≡ some p
    → find PoolService.id s.id db.services ≡ some s
    → lookup role (services_of db p) ≡ some (binding_of p s id role)
unfolding join join_row
lookup-services_of db p s id role rest e f g =
    let keep : Association → Bool = λ a. a.pool_id == p.id in
    let row : Association = record { id = id; pool_id = p.id; service_id = s.id; role = role } in
    let b = binding_of p s id role in
    let last : join keep db (row ∷ []) ≡ b ∷ [] = rw (eq_refl p.id, f, g) refl in
    ap (λ z. lookup role (set_services (join keep db z) [])) e
    ∙ ap (λ z. lookup role (set_services z []))
        (join-append keep db rest row ∙ ap (λ z. join keep db rest ++ z) last)
    ∙ ap (λ z. lookup role z) (set_services-last (join keep db rest) b [])
    ∙ lookup-insert role role b (set_services (join keep db rest) [])
    ∙ rw (eq_refl role) refl

module _ (random_id : ℕ → String) (by_name : Bool) (pool_id service_id role : String) (p : Pool)
    (s : PoolService) (db : Db) (store : PoolStore) (pools : IsUnique Pool.id db.pools)
    (services : IsUnique PoolService.id db.services) (ids : All HasId db.pools)
    (has_pool : find (pool_field by_name) pool_id db.pools ≡ some p)
    (has_service : find (service_field by_name) service_id db.services ≡ some s)
    (bound : is_ok (add_service_to_pool random_id by_name pool_id service_id role db).0
      ≡ true) where
  abbrev pub after : Db
  after = (add_service_to_pool random_id by_name pool_id service_id role db).1

  abbrev pub binding : PoolServiceBinding
  binding = binding_of p s (random_id db.next_id) role

  services-bound : lookup role (services_of (record after { faults = [] }) p) ≡ some binding
  services-bound =
      let (rows, same_pools, same_services) =
        bound_lem random_id by_name pool_id service_id role p s db has_pool has_service bound in
      lookup-services_of (record after { faults = [] }) p s (random_id db.next_id) role
        db.associations rows
        (rw same_pools (find_by Pool.id (pool_field by_name) pool_id db.pools p pools has_pool))
        (rw same_services (
          find_by PoolService.id (service_field by_name) service_id db.services s services
            has_service))

  -- A service that AddServiceToPool has bound to a pool for a role is what the pool gives for the role
  -- after Init of a PoolStore without a self pool, while no call of Init fails, where the identifiers
  -- of pools and of services are unique and no pool has an empty one; Init returns no error.
  pub init-add_service_to_pool :
      ((init (some "") (quiet after store)).0 ≡ ok tt)
      × (l : Loaded) × (pool_by_id p.id (init (some "") (quiet after store)).1.store ≡ ok l)
      × (l.0 ≡ p)
      × (service role l ≡ ok binding)
  unfolding init load_all pool_by_id service
  init-add_service_to_pool =
      let (rows, same_pools, same_services) =
        bound_lem random_id by_name pool_id service_id role p s db has_pool has_service bound in
      let named : PoolStore = record store { pool_name = "" } in
      let done = load_each_lem after.pools after named (rw same_pools ids) in
      let here =
        keep_all_lem (record after { faults = [] }) p.id p after.pools named (rw same_pools pools)
          (rw same_pools
            (find_by Pool.id (pool_field by_name) pool_id db.pools p pools has_pool)) in
      rw done (
        refl,
        (p, services_of (record after { faults = [] }) p),
        rw here refl,
        refl,
        rw services-bound refl,
      )
