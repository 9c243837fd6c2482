-- ===== src/Pool/Changes.antt =====
-- The single changes of the tables of pkg/pool, each under the condition that the code checks for it.
use go_backend_helpers.Prelude.{
  String, ◌≡◌, inl, inr, refl, Bool, true, false, List, [], ◌∷◌, ◌++◌, arith, Option-cases, is_some,
}
use go_backend_helpers.Table.{has, find, update_at, delete_at, IsUnique}
use go_backend_helpers.Table.Laws.{
  append-IsUnique, delete_at-IsUnique, has-append, has-update_at, update_at-IsUnique, has-find_by,
  rename-IsUnique,
}
use go_backend_helpers.Pool.Store.{
  Pool, PoolService, Association, Fields, has_role, pool_field, service_field,
}
use go_backend_helpers.Pool.Controller.{update_pool_row, update_service_row}
use go_backend_helpers.Pool.Calls.{Tables, is_free, found_pool, found_service}
use go_backend_helpers.Pool.Consistency.{
  IsConsistent, IsBound, IsBound-mono, IsBound-append, IsBound-delete, IsBound-without_pool,
  IsBound-without_service, roles_append, roles_delete,
}

pub pool_added :
    (t : Tables) (p : Pool)
    → has Pool.id p.id t.0 ≡ false
    → IsConsistent t
    → has Pool.name p.name t.0 ≡ false
    → IsConsistent (t.0 ++ p ∷ [], t.1, t.2)
pool_added t p fresh c free = record {
  pool_ids = append-IsUnique Pool.id t.0 p fresh c.pool_ids;
  pool_names = append-IsUnique Pool.name t.0 p free c.pool_names;
  service_ids = c.service_ids;
  service_names = c.service_names;
  roles = c.roles;
  bound =
      IsBound-mono t.0 (t.0 ++ p ∷ []) t.1 t.1 t.2
        (λ k h. ground (arith, has-append Pool.id k t.0 p)) (λ k h. h) c.bound;
}

pub service_added :
    (t : Tables) (s : PoolService)
    → has PoolService.id s.id t.1 ≡ false
    → IsConsistent t
    → has PoolService.name s.name t.1 ≡ false
    → IsConsistent (t.0, t.1 ++ s ∷ [], t.2)
service_added t s fresh c free = record {
  pool_ids = c.pool_ids;
  pool_names = c.pool_names;
  service_ids = append-IsUnique PoolService.id t.1 s fresh c.service_ids;
  service_names = append-IsUnique PoolService.name t.1 s free c.service_names;
  roles = c.roles;
  bound =
      IsBound-mono t.0 t.0 t.1 (t.1 ++ s ∷ []) t.2 (λ k h. h)
        (λ k h. ground (arith, has-append PoolService.id k t.1 s)) c.bound;
}

pool_names_updated :
    (k : String) (f : Fields) (ps : List Pool)
    → IsUnique Pool.id ps
    → IsUnique Pool.name ps
    → is_free Pool.name f.name ps ≡ true
    → IsUnique Pool.name (update_at Pool.id k (update_pool_row f) ps)
unfolding update_pool_row
pool_names_updated k f ps v u h = elim (Option-cases f.name) [
  | inl e ↦ update_at-IsUnique Pool.name Pool.id k (update_pool_row f) ps (λ r. rw e refl) u
  | inr (n, e) ↦
      rename-IsUnique Pool.name Pool.id k n (update_pool_row f) ps (λ r. rw e refl) (ground arith) v
        u
]

pub pool_updated :
    (t : Tables) (k : String) (f : Fields)
    → IsConsistent t
    → is_free Pool.name f.name t.0 ≡ true
    → IsConsistent (update_at Pool.id k (update_pool_row f) t.0, t.1, t.2)
unfolding update_pool_row
pool_updated t k f c free = record {
  pool_ids = update_at-IsUnique Pool.id Pool.id k (update_pool_row f) t.0 (λ r. refl) c.pool_ids;
  pool_names = pool_names_updated k f t.0 c.pool_ids c.pool_names free;
  service_ids = c.service_ids;
  service_names = c.service_names;
  roles = c.roles;
  bound =
      IsBound-mono t.0 (update_at Pool.id k (update_pool_row f) t.0) t.1 t.1 t.2
        (λ j h. rw (has-update_at Pool.id Pool.id k j (update_pool_row f) t.0 (λ r. refl)) h)
        (λ j h. h) c.bound;
}

service_names_updated :
    (k : String) (f : Fields) (ss : List PoolService)
    → IsUnique PoolService.id ss
    → IsUnique PoolService.name ss
    → is_free PoolService.name f.name ss ≡ true
    → IsUnique PoolService.name (update_at PoolService.id k (update_service_row f) ss)
unfolding update_service_row
service_names_updated k f ss v u h = elim (Option-cases f.name) [
  | inl e ↦
      update_at-IsUnique PoolService.name PoolService.id k (update_service_row f) ss
        (λ r. rw e refl) u
  | inr (n, e) ↦
      rename-IsUnique PoolService.name PoolService.id k n (update_service_row f) ss (λ r. rw e refl)
        (ground arith) v u
]

pub service_updated :
    (t : Tables) (k : String) (f : Fields)
    → IsConsistent t
    → is_free PoolService.name f.name t.1 ≡ true
    → IsConsistent (t.0, update_at PoolService.id k (update_service_row f) t.1, t.2)
unfolding update_service_row
service_updated t k f c free = record {
  pool_ids = c.pool_ids;
  pool_names = c.pool_names;
  service_ids =
      update_at-IsUnique PoolService.id PoolService.id k (update_service_row f) t.1 (λ r. refl)
        c.service_ids;
  service_names = service_names_updated k f t.1 c.service_ids c.service_names free;
  roles = c.roles;
  bound =
      IsBound-mono t.0 t.0 t.1 (update_at PoolService.id k (update_service_row f) t.1) t.2
        (λ j h. h)
        (λ j h.
          rw
            (has-update_at PoolService.id PoolService.id k j (update_service_row f) t.1 (λ r. refl))
            h)
        c.bound;
}

pub pool_deleted :
    (t : Tables) (k : String)
    → IsConsistent t
    → has Association.pool_id k t.2 ≡ false
    → IsConsistent (delete_at Pool.id k t.0, t.1, t.2)
pool_deleted t k c free = record {
  pool_ids = delete_at-IsUnique Pool.id Pool.id k t.0 c.pool_ids;
  pool_names = delete_at-IsUnique Pool.name Pool.id k t.0 c.pool_names;
  service_ids = c.service_ids;
  service_names = c.service_names;
  roles = c.roles;
  bound = IsBound-without_pool k t.0 t.1 t.2 free c.bound;
}

pub service_deleted :
    (t : Tables) (k : String)
    → IsConsistent t
    → has Association.service_id k t.2 ≡ false
    → IsConsistent (t.0, delete_at PoolService.id k t.1, t.2)
service_deleted t k c free = record {
  pool_ids = c.pool_ids;
  pool_names = c.pool_names;
  service_ids = delete_at-IsUnique PoolService.id PoolService.id k t.1 c.service_ids;
  service_names = delete_at-IsUnique PoolService.name PoolService.id k t.1 c.service_names;
  roles = c.roles;
  bound = IsBound-without_service k t.0 t.1 t.2 free c.bound;
}

pub association_added :
    (t : Tables) (a : Association)
    → IsConsistent t
    → IsBound t.0 t.1 a
    → has_role a.pool_id a.role t.2 ≡ false
    → IsConsistent (t.0, t.1, t.2 ++ a ∷ [])
association_added t a c b free = record {
  pool_ids = c.pool_ids;
  pool_names = c.pool_names;
  service_ids = c.service_ids;
  service_names = c.service_names;
  roles = roles_append t.2 a c.roles free;
  bound = IsBound-append t.0 t.1 t.2 a c.bound b;
}

pub association_deleted :
    (t : Tables) (key : Association → String) (k : String)
    → IsConsistent t
    → IsConsistent (t.0, t.1, delete_at key k t.2)
association_deleted t key k c = record {
  pool_ids = c.pool_ids;
  pool_names = c.pool_names;
  service_ids = c.service_ids;
  service_names = c.service_names;
  roles = roles_delete key k t.2 c.roles;
  bound = IsBound-delete key k t.0 t.1 t.2 c.bound;
}

-- A row that is found is there.
pub found_pool-has :
    (by_name : Bool) (id : String) (ps : List Pool)
    → is_some (find (pool_field by_name) id ps) ≡ true
    → has Pool.id (found_pool by_name id ps) ps ≡ true
found_pool-has by_name id ps h = elim (Option-cases (find (pool_field by_name) id ps)) [
  | inl e ↦ cc
  | inr (p, e) ↦ rw (e, found_pool) (has-find_by Pool.id (pool_field by_name) id ps p e)
]

pub found_service-has :
    (by_name : Bool) (id : String) (ss : List PoolService)
    → is_some (find (service_field by_name) id ss) ≡ true
    → has PoolService.id (found_service by_name id ss) ss ≡ true
found_service-has by_name id ss h = elim (Option-cases (find (service_field by_name) id ss)) [
  | inl e ↦ cc
  | inr (s, e) ↦
      rw (e, found_service) (has-find_by PoolService.id (service_field by_name) id ss s e)
]
