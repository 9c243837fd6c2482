-- ===== src/Tenancy/Controller.antt =====
-- TenancyController of pkg/multitenancy/tenancy_manager/tenancy_controller.go, for tenancies that are
-- named by identifier, with the checks and `CreateTenancy` of tenancy_manager.go. The calls of the
-- tenancy's own database are calls that may fail.
use go_backend_helpers.Prelude.{
  ℕ, ◌+◌, String, Bool, false, not, Option, none, some, List, [], ◌∷◌, ◌++◌, ◌==◌, if◌then◌else◌,
}
use go_backend_helpers.Table.{has, find, update_at, delete_at, has_pair}
use go_backend_helpers.Auth.Context.{first_code}
use go_backend_helpers.Effects.{Result, ok, err, ◌>>=◌, ◌>>◌, pure, fail, choose, gets, modify}
use go_backend_helpers.Tenancy.Store.{
  attempt, Tenancy, Customer, LoadedPool, State, Op, call, refuse, refuse_if,
}

-- The join of a tenancy with its customer and its pool.
unfoldable pub joined : State → Option Tenancy → Option Tenancy
joined s none = none
joined s (some t) =
    if has Customer.id t.customer_id s.customers
    then (if has LoadedPool.id t.pool_id s.pools then some t else none)
    else none

abbrev found : Option Tenancy → Op Tenancy
found none = refuse "tenancy_not_found" "tenancy not found"
found (some t) = pure t

-- `FindTenancy`
unfoldable pub find_tenancy : String → Op Tenancy
find_tenancy id = do call; t ← gets (λ s. joined s (find Tenancy.id id s.tenancies)); found t

-- `CheckDuplicateRole`, `CheckDuplicatePath`
unfoldable pub check_duplicate_role : String → String → Op (Unit {0})
check_duplicate_role customer_id role = do
  call
  exists ← gets (λ s. has_pair Tenancy.customer_id Tenancy.role customer_id role s.tenancies)
  refuse_if exists "tenancy_conflict_role" "tenancy already exists with such role for that customer"

unfoldable pub check_duplicate_path : String → String → Op (Unit {0})
check_duplicate_path pool_id path = do
  call
  exists ← gets (λ s. has_pair Tenancy.pool_id Tenancy.path pool_id path s.tenancies)
  refuse_if exists "tenancy_conflict_path" "tenancy already exists with such path in that pool"

-- The log record and the notification of an operation, `OpLog` and `PublishOp`.
abbrev log_and_publish : String → Tenancy → State → State
log_and_publish op t s = record s {
  oplogs = s.oplogs ++ (op, t.id) ∷ [];
  published = s.published ++ (op, t.id, t.pool_id) ∷ [];
}

-- `CRUD.Update` of a tenancy, with the log and the notification
unfoldable pub update_tenancy : String → Tenancy → (Tenancy → Tenancy) → Op (Unit {0})
update_tenancy op t f = do
  call
  modify (λ s. record s { tenancies = update_at Tenancy.id t.id f s.tenancies })
  modify (log_and_publish op t)

abbrev pub with_path : String → Tenancy → Tenancy
with_path path t = record t { path = path }

abbrev pub with_role : String → Tenancy → Tenancy
with_role role t = record t { role = role }

abbrev pub with_customer : String → Tenancy → Tenancy
with_customer id t = record t { customer_id = id }

abbrev pub with_active : Bool → Tenancy → Tenancy
with_active active t = record t { active = active }

-- `SetPath`
unfoldable pub set_path : String → String → Op (Unit {0})
set_path id path = do
  t ← find_tenancy id
  check_duplicate_path t.pool_id path
  update_tenancy "set_path" t (with_path path)

-- `SetRole`
unfoldable pub set_role : String → String → Op (Unit {0})
set_role id role = do
  t ← find_tenancy id
  check_duplicate_role t.customer_id role
  update_tenancy "set_role" t (with_role role)

-- `Activate`, `Deactivate`
unfoldable pub set_active : Bool → String → Op (Unit {0})
set_active active id = do
  t ← find_tenancy id
  update_tenancy (if active then "activate" else "deactivate") t (with_active active)

abbrev code_is : String → Option String → Bool
code_is code none = false
code_is code (some c) = c == code

abbrev pub customer_or : String → Option Customer → Op Customer
customer_or e none = refuse "resource_not_found" e
customer_or e (some c) = pure c

abbrev find_by_login : String → Op Customer
find_by_login login = do
  call
  c ← gets (λ s. find Customer.login login s.customers)
  customer_or "user with such login does not exist" c

-- What `FindCustomer` does after an error of the search by identifier, whatever its reason: it looks
-- for the login if the code of the context is now that of a missing resource.
unfoldable pub retry_by_login : String → String → Op Customer
retry_by_login id e = do
  missing ← gets (λ s. code_is "resource_not_found" s.generic_error)
  choose missing (modify (λ s. record s { generic_error = none }) >> find_by_login id) (fail e)

abbrev found_customer : String → Option Customer → Op Customer
found_customer id none = do
  modify (λ s. record s { generic_error = first_code s.generic_error "resource_not_found" })
  retry_by_login id "user with such ID does not exist"
found_customer id (some c) = pure c

-- `FindCustomer`
unfoldable pub find_customer : String → Op Customer
find_customer id = do
  down ← attempt
  c ← gets (λ s. find Customer.id id s.customers)
  choose down (retry_by_login id "database failure") (found_customer id c)

-- `SetCustomer`
unfoldable pub set_customer : String → String → Op (Unit {0})
set_customer id customer = do
  t ← find_tenancy id
  c ← find_customer customer
  check_duplicate_role c.id t.role
  update_tenancy "set_customer" t (with_customer c.id)

-- `Delete`
unfoldable pub delete_tenancy : String → Bool → Op (Unit {0})
delete_tenancy id with_database = do
  refuse_if with_database "operation_unsupported" "database can not be dropped"
  t ← find_tenancy id
  call
  modify (λ s. record s { tenancies = delete_at Tenancy.id t.id s.tenancies })
  modify (log_and_publish "delete" t)

-- `FindPool`: by identifier, and then by name
abbrev pub pool_by : String → State → Option LoadedPool
pool_by id s = elim (find LoadedPool.id id s.pools) [
  | none ↦ find LoadedPool.name id s.pools
  | some p ↦ some p
]

abbrev pub known_pool : Option LoadedPool → Op LoadedPool
known_pool none = refuse "pool_not_found" "pool not found"
known_pool (some p) = pure p

abbrev pub or_text : String → String → String
or_text text other = if text == "" then other else text

-- What is asked for: TenancyData with the customer and the pool by identifier or name.
pub record TenancyData : Type 0 where
  pub customer : String
  pub pool : String
  pub path : String
  pub role : String
  pub db_name : String

abbrev pub new_tenancy : TenancyData → Customer → LoadedPool → String → String → String → Tenancy
new_tenancy asked customer pool id path db_name = record {
  id = id;
  path = or_text asked.path path;
  role = asked.role;
  active = false;
  customer_id = customer.id;
  pool_id = pool.id;
  db_name = or_text asked.db_name db_name;
}

-- What a new tenancy takes from outside: the identifiers of `InitObject`, the paths of
-- `GenerateString`, the name of the database for the customer and the role, and the tenancies that a
-- database says it belongs to.
pub record Services : Type 0 where
  pub random_id : ℕ → String
  pub random_path : ℕ → String
  pub database_name : String → String → String
  pub metas : String → List String

abbrev check_metas : List String → String → Op (Unit {0})
check_metas [] id = call
check_metas (meta ∷ rest) id =
    refuse_if (not (meta == id)) "foreign_tenancy_database"
      "created database already belongs to other tenancy"

abbrev coded_call : Result (Unit {0}) × State → Result (Unit {0}) × State
coded_call (ok u, s) = (ok u, s)
coded_call (err e, s) = refuse "tenancy_db_initialization_failed" e s

-- The call of `UpgradeTenancyDatabase`
abbrev upgrade_database : Op (Unit {0})
upgrade_database s = coded_call (call s)

-- `CreateTenancy`: the checks for duplicates are on the customer, pool and path of the request.
unfoldable pub create_tenancy : Services → TenancyData → Op Tenancy
create_tenancy v asked = do
  c ← find_customer asked.customer
  loaded ← gets (pool_by asked.pool)
  p ← known_pool loaded
  refuse_if (not p.active) "pool_not_active" "pool not active"
  check_duplicate_role asked.customer asked.role
  n ← gets (λ s. s.next_id)
  modify (λ s. record s { next_id = s.next_id + 1 })
  check_duplicate_path asked.pool asked.path
  call
  upgrade_database
  call
  check_metas (v.metas (or_text asked.db_name (v.database_name c.login asked.role))) (v.random_id n)
  pure
      (new_tenancy asked c p (v.random_id n) (v.random_path n) (v.database_name c.login asked.role))

-- `Add`
unfoldable pub add_tenancy : Services → TenancyData → Op Tenancy
add_tenancy v asked = do
  t ← create_tenancy v asked
  call
  modify (λ s. record s { tenancies = s.tenancies ++ t ∷ [] })
  modify (log_and_publish "add" t)
  pure t
