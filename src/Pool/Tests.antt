-- ===== src/Pool/Tests.antt =====
-- Runs of the pool controller.
use go_backend_helpers.Prelude.{ℕ, String, ◌≡◌, refl, true, none, some, [], ◌∷◌}
use go_backend_helpers.Table.{has, find}
use go_backend_helpers.Pool.Store.{
  Pool, PoolService, Association, Db, has_role, op_log, pool_field, service_field,
}
use go_backend_helpers.Pool.Controller.{find_pool, find_service}
use go_backend_helpers.Pool.Bindings.{add_service_to_pool, bind_service}
use go_backend_helpers.Pool.Calls.{tables}
use go_backend_helpers.Pool.Consistency.{IsConsistent}
use go_backend_helpers.Pool.Laws.{bind_call, perform, perform-IsConsistent}
use go_backend_helpers.Pool.Errors.{perform_failed}
use go_backend_helpers.Effects.{ok, err}
use go_backend_helpers.Pool.Stores.{Loaded, new_pool_store, init, pool_by_id, service, load_self}
use go_backend_helpers.Pool.Loading.{quiet}
use go_backend_helpers.Pool.Bound.{binding_of, init-add_service_to_pool}

abbrev random_id : ℕ → String
random_id n = "new"

abbrev main : Pool
main = record { id = "p1"; name = "main"; long_name = ""; description = ""; active = true }

abbrev spare : Pool
spare = record { id = "p2"; name = "spare"; long_name = ""; description = ""; active = true }

abbrev sql : PoolService
sql = record { id = "s1"; name = "sql"; long_name = ""; description = ""; active = true }

abbrev binding : Association
binding = record { id = "a1"; pool_id = "p1"; service_id = "s1"; role = "db" }

abbrev db : Db
db = record {
  pools = main ∷ spare ∷ [];
  services = sql ∷ [];
  associations = binding ∷ [];
  oplogs = [];
  generic_error = none;
  faults = [];
  next_id = 0;
}

db-IsConsistent : IsConsistent (tables db)
unfolding has has_role
db-IsConsistent = record {
  pool_ids = (refl, (refl, tt));
  pool_names = (refl, (refl, tt));
  service_ids = (refl, tt);
  service_names = (refl, tt);
  roles = (refl, tt);
  bound = ((refl, refl), tt);
}

perform-IsConsistent_example :
    IsConsistent (tables (perform random_id (bind_call true "spare" "sql" "db") db).1)
unfolding has
perform-IsConsistent_example =
    perform-IsConsistent random_id (bind_call true "spare" "sql" "db") db (refl, refl)
      db-IsConsistent

perform_failed_example :
    tables (perform random_id (bind_call true "main" "sql" "db") db).1 ≡ tables db
unfolding add_service_to_pool find_pool find pool_field find_service service_field bind_service
    has_role
perform_failed_example = perform_failed random_id (bind_call true "main" "sql" "db") db refl refl

abbrev bound : Db
bound = (add_service_to_pool random_id true "spare" "sql" "db" db).1

init-add_service_to_pool_example :
    ((init (some "") (quiet bound new_pool_store)).0 ≡ ok tt)
    × (l : Loaded) × (pool_by_id "p2" (init (some "") (quiet bound new_pool_store)).1.store ≡ ok l)
    × (l.0 ≡ spare)
    × (service "db" l ≡ ok (binding_of spare sql "new" "db"))
unfolding has find pool_field service_field add_service_to_pool find_pool find_service bind_service
    has_role op_log
init-add_service_to_pool_example =
    init-add_service_to_pool random_id true "spare" "sql" "db" spare sql db new_pool_store
      (refl, (refl, tt)) (refl, tt) (refl, (refl, tt)) refl refl refl

-- A self pool that is not there.
unknown_self_run : (init (some "other") (quiet bound new_pool_store)).0 ≡ err "self pool not found"
unfolding init find_pool find pool_field load_self add_service_to_pool find_service service_field
    bind_service has_role op_log
unknown_self_run = refl
