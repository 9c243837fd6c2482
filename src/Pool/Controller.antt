-- ===== src/Pool/Controller.antt =====
-- PoolControllerBase of pkg/pool/pool_controller.go: the operations on pools and on services, with
-- FindByField, FindUpdate and Delete of pkg/crud/crud.go written out where they are called. Of the
-- operations' errors the text stays, the trace of calls is left out.
use go_backend_helpers.Prelude.{
  ℕ, ◌+◌, String, Bool, true, false, Option, none, some, [], ◌∷◌, ◌++◌, ◌==◌, ◌||◌, is_some,
}
use go_backend_helpers.Table.{has, find, update_at, delete_at}
use go_backend_helpers.Pool.Store.{
  Pool, PoolService, Association, OpLogPool, Fields, Op, ◌>>=◌, ◌>>◌, pure, fail, fail_if, choose,
  gets, modify, call, set_generic_error_code, clear_error, op_log, pool_field, service_field,
}

abbrev or_else {ℓ} : {A : Type ℓ} → Option A → A → A
or_else none b = b
or_else (some a) b = a

-- What an update makes of a row.
unfoldable pub update_pool_row : Fields → Pool → Pool
update_pool_row f p = record p {
  name = or_else f.name p.name;
  long_name = or_else f.long_name p.long_name;
  description = or_else f.description p.description;
  active = or_else f.active p.active;
}

unfoldable pub update_service_row : Fields → PoolService → PoolService
update_service_row f s = record s {
  name = or_else f.name s.name;
  long_name = or_else f.long_name s.long_name;
  description = or_else f.description s.description;
  active = or_else f.active s.active;
}

-- `CheckIfActivate`: the value that `active` is set to, and whether the update has other fields.
unfoldable pub check_if_activate : Fields → Option Bool × Bool
check_if_activate f = elim f.active [
  | none ↦ (none, true)
  | some activate ↦ (some activate, is_some f.name || is_some f.long_name || is_some f.description)
]

-- The log entry of an update: `activate` and `other` are the names of the operations.
abbrev activate_name : Bool → String → String → String
activate_name true on off = on
activate_name false on off = off

abbrev log_activate : Option Bool → String → String → OpLogPool → Op (Unit {0})
log_activate none on off o = pure tt
log_activate (some active) on off o = op_log (record o { operation = activate_name active on off })

abbrev log_other : Bool → String → OpLogPool → Op (Unit {0})
log_other b name o = choose b (op_log (record o { operation = name })) (pure tt)

abbrev pub blank_oplog : OpLogPool
blank_oplog = record {
  operation = "";
  pool_id = "";
  pool_name = "";
  service_id = "";
  service_name = "";
  role = "";
}

abbrev some_pool : Option Pool → Op Pool
some_pool none = set_generic_error_code "pool_not_found" >> fail "pool not found"
some_pool (some p) = pure p

abbrev some_service : Option PoolService → Op PoolService
some_service none = set_generic_error_code "service_not_found" >> fail "service not found"
some_service (some s) = pure s

-- `utils.OptionalArg` of a name for the log
abbrev pub given_name : Bool → String → String
given_name true id = id
given_name false id = ""

-- `FindPool`
unfoldable pub find_pool : Bool → String → Op (Option Pool)
find_pool by_name id = do
  call
  pool ← gets (λ db. find (pool_field by_name) id db.pools)
  choose (is_some pool) (pure pool) (set_generic_error_code "pool_not_found" >> pure none)

-- `FindService`
unfoldable pub find_service : Bool → String → Op (Option PoolService)
find_service by_name id = do
  call
  service ← gets (λ db. find (service_field by_name) id db.services)
  choose (is_some service) (pure service) (set_generic_error_code "service_not_found" >> pure none)

-- `CheckPoolNameUnique`
unfoldable pub check_pool_name_unique : String → Op (Unit {0})
check_pool_name_unique name = do
  call
  exists ← gets (λ db. has (pool_field true) name db.pools)
  fail_if exists "pool_name_conflict" "pool with desired name exists"

-- `CheckServiceNameUnique`
unfoldable pub check_service_name_unique : String → Op (Unit {0})
check_service_name_unique name = do
  call
  exists ← gets (λ db. has (service_field true) name db.services)
  fail_if exists "service_name_conflict" "service with such name exists"

abbrev check_new_name : (String → Op (Unit {0})) → Option String → Op (Unit {0})
check_new_name check none = pure tt
check_new_name check (some name) = check name

-- `random_id` is `InitObject` of pkg/common, which draws the identifier of a new row.
module _ (random_id : ℕ → String) where
  -- `AddPool`
  unfoldable pub add_pool : Pool → Op Pool
  add_pool pool = do
    check_pool_name_unique pool.name
    n ← gets (λ db. db.next_id)
    modify (λ db. record db { next_id = db.next_id + 1 })
    call
    modify (λ db. record db { pools = db.pools ++ record pool { id = random_id n } ∷ [] })
    op_log (record blank_oplog {
      operation = "add_pool";
      pool_id = random_id n;
      pool_name = pool.name;
    })
    pure (record pool { id = random_id n })

  -- `AddService`
  unfoldable pub add_service : PoolService → Op PoolService
  add_service service = do
    check_service_name_unique service.name
    n ← gets (λ db. db.next_id)
    modify (λ db. record db { next_id = db.next_id + 1 })
    call
    modify (λ db. record db { services = db.services ++ record service { id = random_id n } ∷ [] })
    op_log (record blank_oplog {
      operation = "add_service";
      service_id = random_id n;
      service_name = service.name;
    })
    pure (record service { id = random_id n })

abbrev update_found_pool : Fields → Option Pool → Op (Option Pool)
update_found_pool fields none = pure none
update_found_pool fields (some p) = do
  call
  modify (λ db. record db { pools = update_at Pool.id p.id (update_pool_row fields) db.pools })
  pure (some (update_pool_row fields p))

abbrev update_found_service : Fields → Option PoolService → Op (Option PoolService)
update_found_service fields none = pure none
update_found_service fields (some s) = do
  call
  modify (λ db. record db {
    services = update_at PoolService.id s.id (update_service_row fields) db.services;
  })
  pure (some (update_service_row fields s))

-- `FindUpdate` on the pools, which gives the row as it is after the update
unfoldable pub find_update_pool : Bool → String → Fields → Op (Option Pool)
find_update_pool by_name id fields = do
  call
  pool ← gets (λ db. find (pool_field by_name) id db.pools)
  update_found_pool fields pool

unfoldable pub find_update_service : Bool → String → Fields → Op (Option PoolService)
find_update_service by_name id fields = do
  call
  service ← gets (λ db. find (service_field by_name) id db.services)
  update_found_service fields service

-- `UpdatePool`
unfoldable pub update_pool : Bool → String → Fields → Op Pool
update_pool by_name id fields = do
  check_new_name check_pool_name_unique fields.name
  found ← find_update_pool by_name id fields
  obj ← some_pool found
  log_activate (check_if_activate fields).0 "activate_pool" "deactivate_pool"
      (record blank_oplog { service_id = obj.id; service_name = obj.name })
  log_other (check_if_activate fields).1 "update_pool"
      (record blank_oplog { service_id = obj.id; service_name = obj.name })
  p ← find_pool false obj.id
  some_pool p

-- `UpdateService`, whose last test is on `obj`, which is not nil there
unfoldable pub update_service : Bool → String → Fields → Op (Option PoolService)
update_service by_name id fields = do
  check_new_name check_service_name_unique fields.name
  found ← find_update_service by_name id fields
  obj ← some_service found
  log_activate (check_if_activate fields).0 "activate_service" "deactivate_service"
      (record blank_oplog { service_id = obj.id; service_name = obj.name })
  log_other (check_if_activate fields).1 "update_service"
      (record blank_oplog { service_id = obj.id; service_name = obj.name })
  find_service false obj.id

abbrev pub set_active : Bool → Fields
set_active b = record { name = none; long_name = none; description = none; active = some b }

-- `ActivatePool`, `DeactivatePool`
unfoldable pub activate_pool : Bool → String → Op Pool
activate_pool by_name id = update_pool by_name id (set_active true)

unfoldable pub deactivate_pool : Bool → String → Op Pool
deactivate_pool by_name id = update_pool by_name id (set_active false)

-- `ActivateService`, `DeactivateService`
unfoldable pub activate_service : Bool → String → Op (Option PoolService)
activate_service by_name id = update_service by_name id (set_active true)

unfoldable pub deactivate_service : Bool → String → Op (Option PoolService)
deactivate_service by_name id = update_service by_name id (set_active false)

abbrev id_of_pool : Option Pool → String
id_of_pool none = ""
id_of_pool (some p) = p.id

abbrev id_of_service : Option PoolService → String
id_of_service none = ""
id_of_service (some s) = s.id

-- `PoolId`
unfoldable pub pool_id_of : Bool → String → Op String
pool_id_of by_name id = choose by_name (find_pool true id >>= λ p. pure (id_of_pool p)) (pure id)

-- `ServiceId`
unfoldable pub service_id_of : Bool → String → Op String
service_id_of by_name id =
    choose by_name (find_service true id >>= λ s. pure (id_of_service s)) (pure id)

-- `crud.Delete` reads the row and deletes it.
unfoldable pub delete_pool_by_id : Bool → String → String → Op (Unit {0})
delete_pool_by_id by_name id pool_id = do
  call
  exists ← gets (λ db. has Association.pool_id pool_id db.associations)
  fail_if exists "pool_service_bindings_exist" "can not delete pool with services"
  call
  found ← gets (λ db. has Pool.id pool_id db.pools)
  choose found (call >> modify (λ db. record db { pools = delete_at Pool.id pool_id db.pools }))
      (pure tt)
  op_log (record blank_oplog {
    operation = "delete_pool";
    pool_id = pool_id;
    pool_name = given_name by_name id;
  })

unfoldable pub delete_service_by_id : Bool → String → String → Op (Unit {0})
delete_service_by_id by_name id service_id = do
  call
  exists ← gets (λ db. has Association.service_id service_id db.associations)
  fail_if exists "service_bound_to_pool" "can not delete service bound to pools"
  call
  found ← gets (λ db. has PoolService.id service_id db.services)
  choose found
      (call
        >> modify (λ db. record db { services = delete_at PoolService.id service_id db.services }))
      (pure tt)
  op_log (record blank_oplog {
    operation = "delete_service";
    service_id = service_id;
    service_name = given_name by_name id;
  })

-- `DeletePool`
unfoldable pub delete_pool : Bool → String → Op (Unit {0})
delete_pool by_name id = do
  pool_id ← pool_id_of by_name id
  choose (pool_id == "") clear_error (delete_pool_by_id by_name id pool_id)

-- `DeleteService`
unfoldable pub delete_service : Bool → String → Op (Unit {0})
delete_service by_name id = do
  service_id ← service_id_of by_name id
  choose (service_id == "") clear_error (delete_service_by_id by_name id service_id)
