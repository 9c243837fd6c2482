-- ===== src/Pool/Laws.antt =====
-- The operations of PoolControllerBase (pkg/pool/pool_controller.go) that change a table, as calls with
-- their arguments, and the invariant of the tables over one call.
use go_backend_helpers.Prelude.{ℕ, String, ◌≡◌, inl, inr, Bool, true, false, arith}
use go_backend_helpers.Table.{has}
use go_backend_helpers.Pool.Store.{Pool, PoolService, Association, Fields, Db, Result, ok, err}
use go_backend_helpers.Pool.Controller.{
  add_pool, add_service, update_pool, update_service, delete_pool, delete_service,
}
use go_backend_helpers.Pool.Bindings.{
  add_service_to_pool, remove_service_from_pool, remove_all_services_from_pool,
  remove_service_from_all_pools,
}
use go_backend_helpers.Pool.Calls.{
  Tables, tables, Changes, found_pool, found_service, pool_key, service_key, add_pool-Changes,
  add_service-Changes, add_service_to_pool-Changes, update_pool-Changes, update_service-Changes,
  delete_pool-Changes, delete_service-Changes, remove_all_services_from_pool-Changes,
  remove_service_from_all_pools-Changes, remove_service_from_pool-Changes,
}
use go_backend_helpers.Pool.Consistency.{IsConsistent}
use go_backend_helpers.Pool.Changes.{
  pool_added, service_added, pool_updated, service_updated, pool_deleted, service_deleted,
  association_added, association_deleted, found_pool-has, found_service-has,
}

-- The operations that change a table, with their arguments.
pub data Call : Type 0 where
  add_pool_call : Pool → Call
  add_service_call : PoolService → Call
  update_pool_call : Bool → String → Fields → Call
  update_service_call : Bool → String → Fields → Call
  delete_pool_call : Bool → String → Call
  delete_service_call : Bool → String → Call
  bind_call : Bool → String → String → String → Call
  unbind_call : Bool → String → String → Call
  unbind_pool_call : Bool → String → Call
  unbind_service_call : Bool → String → Call

abbrev dropped : {A : Type 0} → Result A × Db → Bool × Db
dropped (ok a, db) = (true, db)
dropped (err e, db) = (false, db)

-- Whether the operation succeeds, and the state after it.
abbrev pub perform : (ℕ → String) → Call → Db → Bool × Db
perform random_id (add_pool_call p) db = dropped (add_pool random_id p db)
perform random_id (add_service_call s) db = dropped (add_service random_id s db)
perform random_id (update_pool_call n id f) db = dropped (update_pool n id f db)
perform random_id (update_service_call n id f) db = dropped (update_service n id f db)
perform random_id (delete_pool_call n id) db = dropped (delete_pool n id db)
perform random_id (delete_service_call n id) db = dropped (delete_service n id db)
perform random_id (bind_call n p s role) db = dropped (add_service_to_pool random_id n p s role db)
perform random_id (unbind_call n id role) db = dropped (remove_service_from_pool n id role db)
perform random_id (unbind_pool_call n id) db = dropped (remove_all_services_from_pool n id db)
perform random_id (unbind_service_call n id) db = dropped (remove_service_from_all_pools n id db)

-- The next identifier that is drawn is not in use.
abbrev pub HasFreshId : (ℕ → String) → Db → Type 0
HasFreshId random_id db =
    (has Pool.id (random_id db.next_id) db.pools ≡ false)
    × (has PoolService.id (random_id db.next_id) db.services ≡ false)

dropped_state : {A : Type 0} (x : Result A × Db) → (dropped x).1 ≡ x.1
dropped_state x = ground arith

after :
    {A P : Type 0} (db : Db) (x : Result A × Db) (t : Tables)
    → Changes db x.1 t P
    → IsConsistent (tables db)
    → (P → IsConsistent t)
    → IsConsistent (tables (dropped x).1)
after db x t (inl same) c k = rw (dropped_state x) (rw same c)
after db x t (inr (e, p)) c k = rw (dropped_state x) (rw e (k p))

-- Every operation of the controller on pools, services and bindings, whatever its arguments and
-- whichever of its database calls fail, leaves the tables consistent if they were: identifiers and
-- names of pools and of services unique, at most one service for a role of a pool, and both ends of
-- each binding there. The identifier that is drawn must not be in use.
pub perform-IsConsistent :
    (random_id : ℕ → String) (c : Call) (db : Db)
    → HasFreshId random_id db
    → IsConsistent (tables db)
    → IsConsistent (tables (perform random_id c db).1)
perform-IsConsistent random_id (add_pool_call p) db fresh h =
    after db (add_pool random_id p db) _ (add_pool-Changes random_id db p) h
      (pool_added (tables db) (record p { id = random_id db.next_id }) fresh.0 h)
perform-IsConsistent random_id (add_service_call s) db fresh h =
    after db (add_service random_id s db) _ (add_service-Changes random_id db s) h
      (service_added (tables db) (record s { id = random_id db.next_id }) fresh.1 h)
perform-IsConsistent random_id (update_pool_call n id f) db fresh h =
    after db (update_pool n id f db) _ (update_pool-Changes db n id f) h
      (pool_updated (tables db) (found_pool n id db.pools) f h)
perform-IsConsistent random_id (update_service_call n id f) db fresh h =
    after db (update_service n id f db) _ (update_service-Changes db n id f) h
      (service_updated (tables db) (found_service n id db.services) f h)
perform-IsConsistent random_id (delete_pool_call n id) db fresh h =
    after db (delete_pool n id db) _ (delete_pool-Changes db n id) h
      (pool_deleted (tables db) (pool_key n id db.pools) h)
perform-IsConsistent random_id (delete_service_call n id) db fresh h =
    after db (delete_service n id db) _ (delete_service-Changes db n id) h
      (service_deleted (tables db) (service_key n id db.services) h)
perform-IsConsistent random_id (bind_call n p s role) db fresh h =
    after db (add_service_to_pool random_id n p s role db) _
      (add_service_to_pool-Changes random_id db n p s role) h
      (λ e.
        association_added (tables db) _ h
          (found_pool-has n p db.pools e.0, found_service-has n s db.services e.1) e.2)
perform-IsConsistent random_id (unbind_call n id role) db fresh h =
    after db (remove_service_from_pool n id role db) _
      (remove_service_from_pool-Changes db n id role) h
      (λ e. association_deleted (tables db) Association.id _ h)
perform-IsConsistent random_id (unbind_pool_call n id) db fresh h =
    after db (remove_all_services_from_pool n id db) _
      (remove_all_services_from_pool-Changes db n id) h
      (λ e. association_deleted (tables db) Association.pool_id _ h)
perform-IsConsistent random_id (unbind_service_call n id) db fresh h =
    after db (remove_service_from_all_pools n id db) _
      (remove_service_from_all_pools-Changes db n id) h
      (λ e. association_deleted (tables db) Association.service_id _ h)
