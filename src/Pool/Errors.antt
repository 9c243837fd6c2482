-- ===== src/Pool/Errors.antt =====
-- Failing operations of PoolControllerBase, and the tables after deletions
-- (pkg/pool/pool_controller.go).
use go_backend_helpers.Prelude.{
  ℕ, String, ◌≡◌, refl, Bool, true, false, none, List, [], ◌∷◌, ◌==◌, arith, eq_iff, eq_refl,
}
use go_backend_helpers.Table.{has, delete_at}
use go_backend_helpers.Table.Laws.{has-delete_at_same}
use go_backend_helpers.Pool.Store.{
  is_ok, Pool, Association, Db, ok, has_role, find_role, pool_field, service_field, op_log, call,
}
use go_backend_helpers.Pool.Controller.{
  add_pool, add_service, delete_pool, delete_service, check_pool_name_unique,
  check_service_name_unique, pool_id_of, service_id_of, delete_pool_by_id, delete_service_by_id,
  find_pool, find_service,
}
use go_backend_helpers.Pool.Bindings.{
  add_service_to_pool, remove_service_from_pool, remove_all_services_from_pool,
  remove_service_from_all_pools, bind_service, remove_role, remove_found, remove_by_pool,
  remove_by_service, get_pool_bindings, read_bindings, join,
}
use go_backend_helpers.Pool.Calls.{tables, bound_id}
use go_backend_helpers.Pool.Consistency.{HasUniqueRoles, has_role-delete_at}
use go_backend_helpers.Pool.Laws.{
  Call, add_pool_call, add_service_call, update_pool_call, update_service_call, delete_pool_call,
  delete_service_call, bind_call, unbind_call, unbind_pool_call, unbind_service_call, perform,
}

-- The operations other than `UpdatePool` and `UpdateService`.
abbrev pub is_update : Call → Bool
is_update (update_pool_call n id f) = true
is_update (update_service_call n id f) = true
is_update _ = false

-- When an operation other than the two updates fails, at whichever call of the database or check,
-- no table has changed.
pub perform_failed :
    (random_id : ℕ → String) (c : Call) (db : Db)
    → is_update c ≡ false
    → (perform random_id c db).0 ≡ false
    → tables (perform random_id c db).1 ≡ tables db
unfolding add_pool add_service delete_pool delete_service add_service_to_pool
    remove_service_from_pool remove_all_services_from_pool remove_service_from_all_pools
    bind_service remove_role remove_found remove_by_pool remove_by_service check_pool_name_unique
    check_service_name_unique pool_id_of service_id_of delete_pool_by_id delete_service_by_id
    find_pool find_service pool_field service_field op_log
perform_failed random_id (add_pool_call p) db u h = ground arith
perform_failed random_id (add_service_call s) db u h = ground arith
perform_failed random_id (update_pool_call n id f) db u h = cc
perform_failed random_id (update_service_call n id f) db u h = cc
perform_failed random_id (delete_pool_call n id) db u h = ground arith
perform_failed random_id (delete_service_call n id) db u h = ground arith
perform_failed random_id (bind_call n p s role) db u h = ground arith
perform_failed random_id (unbind_call n id role) db u h = ground arith
perform_failed random_id (unbind_pool_call n id) db u h = ground arith
perform_failed random_id (unbind_service_call n id) db u h = ground arith

delete_pool_by_id_gone :
    (by_name : Bool) (id k : String) (db : Db)
    → is_ok (delete_pool_by_id by_name id k db).0 ≡ true
    → (has Pool.id k (delete_pool_by_id by_name id k db).1.pools ≡ false)
      × (has Association.pool_id k db.associations ≡ false)
unfolding delete_pool_by_id op_log
delete_pool_by_id_gone by_name id k db h = ground (arith, has-delete_at_same Pool.id k db.pools)

associations-pool_id_of :
    (by_name : Bool) (id : String) (db : Db)
    → (pool_id_of by_name id db).1.associations ≡ db.associations
unfolding pool_id_of find_pool
associations-pool_id_of by_name id db = ground arith

-- After a successful `DeletePool` of a pool whose identifier `PoolId` gives as `k`, not empty, no
-- pool has that identifier, and no binding was for it.
delete_pool_gone :
    (by_name : Bool) (id k : String) (db : Db)
    → (pool_id_of by_name id db).0 ≡ ok k
    → (k == "") ≡ false
    → is_ok (delete_pool by_name id db).0 ≡ true
    → (has Pool.id k (delete_pool by_name id db).1.pools ≡ false)
      × (has Association.pool_id k db.associations ≡ false)
unfolding delete_pool
delete_pool_gone by_name id k db e ne h = ground (
  arith,
  delete_pool_by_id_gone by_name id k (pool_id_of by_name id db).1,
  associations-pool_id_of by_name id db,
)

-- A role that no pool has twice is free once the association that is found for it is deleted.
has_role-unbound :
    (pool_id role : String) (rs : List Association)
    → HasUniqueRoles rs
    → has_role pool_id role (delete_at Association.id (bound_id pool_id role rs) rs) ≡ false
unfolding has_role find_role delete_at
has_role-unbound pool_id role [] u = refl
has_role-unbound pool_id role (r ∷ rs) u = ground (
  arith,
  has_role-unbound pool_id role rs,
  u.0,
  u.1,
  eq_refl r.id,
  eq_iff r.pool_id pool_id,
  eq_iff r.role role,
  has_role-delete_at Association.id r.id pool_id role rs,
)

has_role-find_role :
    (pool_id role : String) (rs : List Association)
    → find_role pool_id role rs ≡ none
    → has_role pool_id role rs ≡ false
unfolding has_role find_role
has_role-find_role pool_id role [] h = refl
has_role-find_role pool_id role (r ∷ rs) h = ground (arith, has_role-find_role pool_id role rs)

has_role-remove_role :
    (by_name : Bool) (id k role : String) (db : Db)
    → HasUniqueRoles db.associations
    → is_ok (remove_role by_name id k role db).0 ≡ true
    → has_role k role (remove_role by_name id k role db).1.associations ≡ false
unfolding remove_role remove_found op_log
has_role-remove_role by_name id k role db u h =
    ground
      (arith, has_role-unbound k role db.associations u, has_role-find_role k role db.associations)

-- When no pool has two services for one role, a successful `RemoveServiceFromPool` for a pool whose
-- identifier `PoolId` gives as `k`, not empty, leaves that pool without a service for the role.
has_role-remove_service_from_pool :
    (by_name : Bool) (id k role : String) (db : Db)
    → HasUniqueRoles db.associations
    → (pool_id_of by_name id db).0 ≡ ok k
    → (k == "") ≡ false
    → is_ok (remove_service_from_pool by_name id role db).0 ≡ true
    → has_role k role (remove_service_from_pool by_name id role db).1.associations ≡ false
unfolding remove_service_from_pool
has_role-remove_service_from_pool by_name id k role db u e ne h = ground (
  arith,
  has_role-remove_role by_name id k role (pool_id_of by_name id db).1
      (rw (associations-pool_id_of by_name id db) u),
)

join-none :
    (k : String) (db : Db) (rs : List Association)
    → has Association.pool_id k rs ≡ false
    → join (λ a. a.pool_id == k) db rs ≡ []
unfolding has join
join-none k db [] h = refl
join-none k db (r ∷ rs) h = ground (arith, join-none k db rs)

read_bindings_none :
    (k : String) (db : Db)
    → has Association.pool_id k db.associations ≡ false
    → is_ok (read_bindings (λ a. a.pool_id == k) db).0 ≡ true
    → (read_bindings (λ a. a.pool_id == k) db).0 ≡ ok []
unfolding read_bindings
read_bindings_none k db h e =
    ground (arith, join-none k (record db { faults = (call db).1.faults }) db.associations h)

-- A successful `GetPoolBindings` with a pool's name gives no binding, whatever is bound to that pool,
-- unless some binding has that name as the identifier of its pool.
get_pool_bindings_by_name :
    (name : String) (db : Db)
    → has Association.pool_id name db.associations ≡ false
    → is_ok (get_pool_bindings true name db).0 ≡ true
    → (get_pool_bindings true name db).0 ≡ ok []
unfolding get_pool_bindings
get_pool_bindings_by_name name db h e = ground (
  arith,
  read_bindings_none name (pool_id_of true name db).1,
  associations-pool_id_of true name db,
)
