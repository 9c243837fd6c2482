-- ===== src/Pool/Calls.antt =====
-- What the operations of PoolControllerBase (pkg/pool/pool_controller.go) change in the three tables.
use go_backend_helpers.Prelude.{
  ℕ, String, ◌≡◌, ◌⊎◌, Bool, true, false, not, Option, none, some, List, [], ◌∷◌, ◌++◌, arith,
  is_some,
}
use go_backend_helpers.Table.{has, find, update_at, delete_at}
use go_backend_helpers.Pool.Store.{
  Pool, PoolService, Association, Fields, Db, pool_field, service_field, op_log, has_role,
  find_role,
}
use go_backend_helpers.Pool.Controller.{
  add_pool, add_service, update_pool, update_service, delete_pool, delete_service,
  delete_pool_by_id, delete_service_by_id, find_pool, find_service, find_update_pool,
  find_update_service, check_pool_name_unique, check_service_name_unique, pool_id_of, service_id_of,
  update_pool_row, update_service_row, check_if_activate,
}
use go_backend_helpers.Pool.Bindings.{
  bind_service, add_service_to_pool, remove_found, remove_role, remove_service_from_pool,
  remove_by_pool, remove_all_services_from_pool, remove_by_service, remove_service_from_all_pools,
}

abbrev pub Tables : Type 0
Tables = List Pool × List PoolService × List Association

abbrev pub tables : Db → Tables
tables db = (db.pools, db.services, db.associations)

abbrev pub Changes : Db → Db → Tables → Type 0 → Type 0
Changes db db' t P = (tables db' ≡ tables db) ⊎ ((tables db' ≡ t) × P)

abbrev pub is_free : {A : Type 0} → (A → String) → Option String → List A → Bool
is_free key none rs = true
is_free key (some name) rs = not (has key name rs)

-- The identifier of the pool, or "" if there is none.
abbrev pub pool_key : Bool → String → List Pool → String
pool_key true id ps = elim (find (pool_field true) id ps) [ none ↦ "" | some p ↦ p.id ]
pool_key false id ps = id

abbrev pub service_key : Bool → String → List PoolService → String
service_key true id ss = elim (find (service_field true) id ss) [ none ↦ "" | some s ↦ s.id ]
service_key false id ss = id

-- The identifier of the row that an update changes.
abbrev pub found_pool : Bool → String → List Pool → String
found_pool by_name id ps = elim (find (pool_field by_name) id ps) [ none ↦ "" | some p ↦ p.id ]

abbrev pub found_service : Bool → String → List PoolService → String
found_service by_name id ss = elim (find (service_field by_name) id ss) [
  | none ↦ ""
  | some s ↦ s.id
]

-- The identifier of the association that a role of a pool has.
abbrev pub bound_id : String → String → List Association → String
bound_id pool_id role rs = elim (find_role pool_id role rs) [ none ↦ "" | some a ↦ a.id ]

module _ (random_id : ℕ → String) (db : Db) where
  pub add_pool-Changes :
      (p : Pool)
      → Changes db
          (add_pool random_id p db).1
          (db.pools ++ record p { id = random_id db.next_id } ∷ [], db.services, db.associations)
          (has Pool.name p.name db.pools ≡ false)
  unfolding add_pool check_pool_name_unique pool_field op_log
  add_pool-Changes p = ground arith

  pub add_service-Changes :
      (s : PoolService)
      → Changes db
          (add_service random_id s db).1
          (db.pools, db.services ++ record s { id = random_id db.next_id } ∷ [], db.associations)
          (has PoolService.name s.name db.services ≡ false)
  unfolding add_service check_service_name_unique service_field op_log
  add_service-Changes s = ground arith

  pub add_service_to_pool-Changes :
      (by_name : Bool) (pool_id service_id role : String)
      → Changes db
          (add_service_to_pool random_id by_name pool_id service_id role db).1
          (
            db.pools,
            db.services,
            db.associations
                ++ record {
                  id = random_id db.next_id;
                  pool_id = found_pool by_name pool_id db.pools;
                  service_id = found_service by_name service_id db.services;
                  role = role;
                }
                  ∷ [],
          )
          ((is_some (find (pool_field by_name) pool_id db.pools) ≡ true)
            × (is_some (find (service_field by_name) service_id db.services) ≡ true)
            × (has_role (found_pool by_name pool_id db.pools) role db.associations ≡ false))
  unfolding add_service_to_pool bind_service find_pool find_service op_log
  add_service_to_pool-Changes by_name pool_id service_id role = ground arith

module _ (db : Db) (by_name : Bool) (id : String) where
  pub update_pool-Changes :
      (f : Fields)
      → Changes db
          (update_pool by_name id f db).1
          (
            update_at Pool.id (found_pool by_name id db.pools) (update_pool_row f) db.pools,
            db.services,
            db.associations,
          )
          (is_free Pool.name f.name db.pools ≡ true)
  unfolding update_pool find_update_pool find_pool check_pool_name_unique pool_field op_log
      check_if_activate
  update_pool-Changes f = ground arith

  pub update_service-Changes :
      (f : Fields)
      → Changes db
          (update_service by_name id f db).1
          (
            db.pools,
            update_at PoolService.id
                (found_service by_name id db.services)
                (update_service_row f)
                db.services,
            db.associations,
          )
          (is_free PoolService.name f.name db.services ≡ true)
  unfolding update_service find_update_service find_service check_service_name_unique service_field
      op_log check_if_activate
  update_service-Changes f = ground arith

  pub delete_pool-Changes :
      Changes db
        (delete_pool by_name id db).1
        (delete_at Pool.id (pool_key by_name id db.pools) db.pools, db.services, db.associations)
        (has Association.pool_id (pool_key by_name id db.pools) db.associations ≡ false)
  unfolding delete_pool delete_pool_by_id pool_id_of find_pool pool_field op_log
  delete_pool-Changes = ground arith

  pub delete_service-Changes :
      Changes db
        (delete_service by_name id db).1
        (
          db.pools,
          delete_at PoolService.id (service_key by_name id db.services) db.services,
          db.associations,
        )
        (has Association.service_id (service_key by_name id db.services) db.associations ≡ false)
  unfolding delete_service delete_service_by_id service_id_of find_service service_field op_log
  delete_service-Changes = ground arith

  pub remove_all_services_from_pool-Changes :
      Changes db
        (remove_all_services_from_pool by_name id db).1
        (
          db.pools,
          db.services,
          delete_at Association.pool_id (pool_key by_name id db.pools) db.associations,
        )
        (Unit {0})
  unfolding remove_all_services_from_pool remove_by_pool pool_id_of find_pool pool_field op_log
  remove_all_services_from_pool-Changes = ground arith

  pub remove_service_from_all_pools-Changes :
      Changes db
        (remove_service_from_all_pools by_name id db).1
        (
          db.pools,
          db.services,
          delete_at Association.service_id (service_key by_name id db.services) db.associations,
        )
        (Unit {0})
  unfolding remove_service_from_all_pools remove_by_service service_id_of find_service service_field
      op_log
  remove_service_from_all_pools-Changes = ground arith

  pub remove_service_from_pool-Changes :
      (role : String)
      → Changes db
          (remove_service_from_pool by_name id role db).1
          (
            db.pools,
            db.services,
            delete_at Association.id
                (bound_id (pool_key by_name id db.pools) role db.associations)
                db.associations,
          )
          (Unit {0})
  unfolding remove_service_from_pool remove_role remove_found pool_id_of find_pool pool_field op_log
  remove_service_from_pool-Changes role = ground arith
