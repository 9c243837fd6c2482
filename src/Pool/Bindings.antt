-- ===== src/Pool/Bindings.antt =====
-- PoolControllerBase of pkg/pool/pool_controller.go: which services a pool has, by role, with
-- `LoadPool` and PoolBase's map of services (pkg/pool/pool.go).
use go_backend_helpers.Prelude.{
  ℕ, ◌+◌, String, Bool, false, Option, none, some, List, [], ◌∷◌, ◌++◌, ◌==◌, if◌then◌else◌, Dict,
  insert,
}
use go_backend_helpers.Table.{find, delete_at}
use go_backend_helpers.Pool.Store.{
  Pool, PoolService, Association, OpLogPool, Db, Op, ◌>>=◌, ◌>>◌, pure, fail, fail_if, choose, gets,
  modify, call, clear_error, op_log, has_role, find_role,
}
use go_backend_helpers.Pool.Controller.{
  blank_oplog, given_name, find_pool, find_service, pool_id_of, service_id_of,
}

abbrev known_pool : Option Pool → Op Pool
known_pool none = fail "pool not found"
known_pool (some p) = pure p

abbrev known_service : Option PoolService → Op PoolService
known_service none = fail "unknown service"
known_service (some s) = pure s

module _ (random_id : ℕ → String) where
  -- The check and the writes of `AddServiceToPool` once pool and service are found.
  unfoldable pub bind_service : Pool → PoolService → String → Op (Unit {0})
  bind_service pool service role = do
    call
    exists ← gets (λ db. has_role pool.id role db.associations)
    fail_if exists "service_role_conflict" "pool already has service with such role"
    n ← gets (λ db. db.next_id)
    modify (λ db. record db { next_id = db.next_id + 1 })
    call
    modify (λ db. record db {
      associations =
          db.associations
          ++ record { id = random_id n; pool_id = pool.id; service_id = service.id; role = role }
            ∷ [];
    })
    op_log (record {
      operation = "add_service_to_pool";
      pool_id = pool.id;
      pool_name = pool.name;
      service_id = service.id;
      service_name = service.name;
      role = role;
    })

  -- `AddServiceToPool`
  unfoldable pub add_service_to_pool : Bool → String → String → String → Op (Unit {0})
  add_service_to_pool by_name pool_id service_id role = do
    found_pool ← find_pool by_name pool_id
    pool ← known_pool found_pool
    found_service ← find_service by_name service_id
    service ← known_service found_service
    bind_service pool service role

unfoldable pub remove_found : OpLogPool → Option Association → Op (Unit {0})
remove_found oplog none = pure tt
remove_found oplog (some a) = do
  call
  modify (λ db. record db { associations = delete_at Association.id a.id db.associations })
  op_log oplog

unfoldable pub remove_role : Bool → String → String → String → Op (Unit {0})
remove_role by_name id pool_id role = do
  call
  found ← gets (λ db. find_role pool_id role db.associations)
  remove_found
      (record blank_oplog {
        operation = "remove_service_from_pool";
        pool_id = pool_id;
        pool_name = given_name by_name id;
        role = role;
      })
      found

-- `RemoveServiceFromPool`
unfoldable pub remove_service_from_pool : Bool → String → String → Op (Unit {0})
remove_service_from_pool by_name id role = do
  pool_id ← pool_id_of by_name id
  choose (pool_id == "") clear_error (remove_role by_name id pool_id role)

unfoldable pub remove_by_pool : Bool → String → String → Op (Unit {0})
remove_by_pool by_name id pool_id = do
  call
  modify (λ db. record db { associations = delete_at Association.pool_id pool_id db.associations })
  op_log (record blank_oplog {
    operation = "remove_all_services_from_pool";
    pool_id = pool_id;
    pool_name = given_name by_name id;
  })

-- `RemoveAllServicesFromPool`
unfoldable pub remove_all_services_from_pool : Bool → String → Op (Unit {0})
remove_all_services_from_pool by_name id = do
  pool_id ← pool_id_of by_name id
  choose (pool_id == "") clear_error (remove_by_pool by_name id pool_id)

unfoldable pub remove_by_service : Bool → String → String → Op (Unit {0})
remove_by_service by_name id service_id = do
  call
  modify (λ db. record db {
    associations = delete_at Association.service_id service_id db.associations;
  })
  op_log (record blank_oplog {
    operation = "remove_service_from_all_pools";
    service_id = service_id;
    service_name = given_name by_name id;
  })

-- `RemoveServiceFromAllPools`
unfoldable pub remove_service_from_all_pools : Bool → String → Op (Unit {0})
remove_service_from_all_pools by_name id = do
  service_id ← service_id_of by_name id
  choose (service_id == "") clear_error (remove_by_service by_name id service_id)

-- PoolServiceBinding, less the service's own settings
pub record PoolServiceBinding : Type 0 where
  pub id : String
  pub role : String
  pub pool_id : String
  pub pool_name : String
  pub service_id : String
  pub service_name : String
  pub active : Bool

-- A row of the join, if the association has both its pool and its service.
unfoldable pub join_row : Option Pool → Option PoolService → Association → List PoolServiceBinding
join_row (some p) (some s) a =
    record {
      id = a.id;
      role = a.role;
      pool_id = p.id;
      pool_name = p.name;
      service_id = s.id;
      service_name = s.name;
      active = s.active;
    }
    ∷ []
join_row _ _ a = []

-- The join of the three tables, of the associations for which `keep` holds.
unfoldable pub join : (Association → Bool) → Db → List Association → List PoolServiceBinding
join keep db [] = []
join keep db (a ∷ rest) =
    let rows =
      join_row (find Pool.id a.pool_id db.pools) (find PoolService.id a.service_id db.services) a in
    (if keep a then rows else []) ++ join keep db rest

unfoldable pub read_bindings : (Association → Bool) → Op (List PoolServiceBinding)
read_bindings keep = call >> gets (λ db. join keep db db.associations)

-- `GetPoolBindings`: the filter compares with `id`, also when that is a name.
unfoldable pub get_pool_bindings : Bool → String → Op (List PoolServiceBinding)
get_pool_bindings by_name id = do
  pool_id ← pool_id_of by_name id
  choose (pool_id == "") (clear_error >> pure []) (read_bindings (λ a. a.pool_id == id))

-- `GetServiceBindings`, with the same filter
unfoldable pub get_service_bindings : Bool → String → Op (List PoolServiceBinding)
get_service_bindings by_name id = do
  service_id ← service_id_of by_name id
  choose (service_id == "") (clear_error >> pure []) (read_bindings (λ a. a.service_id == id))

-- `SetServices`: the map from a role to the service, the last of a role stays.
unfoldable pub set_services :
    List PoolServiceBinding → Dict PoolServiceBinding → Dict PoolServiceBinding
set_services [] services = services
set_services (b ∷ bs) services = set_services bs (insert b.role b services)

unfoldable pub load_found : Option Pool → Op (Option (Pool × Dict PoolServiceBinding))
load_found none = pure none
load_found (some p) = do
  bindings ← get_pool_bindings false p.id
  pure (some (p, set_services bindings []))

-- `LoadPool`: the pool and the services by role
unfoldable pub load_pool : Bool → String → Op (Option (Pool × Dict PoolServiceBinding))
load_pool by_name id = find_pool by_name id >>= load_found
