-- ===== src/Tenancy/Loading.antt =====
-- The tenancies that a TenancyManager has loaded (pkg/multitenancy/tenancy_manager/tenancy_manager.go)
-- with the databases that they have open (tenancy_base.go). What ConnectDatabase
-- asks of the pool's service and of the database are calls that may fail, each with its code.
use go_backend_helpers.Prelude.{
  ◌&&◌, Bool, not, ℕ, ◌+◌, String, Option, none, some, List, [], ◌∷◌, ◌==◌, eqb, Dict, lookup,
  insert, erase, if◌then◌else◌,
}
use go_backend_helpers.Table.{has, find}
use go_backend_helpers.Effects.{Act, Result, ok, err, ◌>>=◌, ◌>>◌, pure, choose, gets, modify}
use go_backend_helpers.Tenancy.Store.{Tenancy, Customer, LoadedPool, State, call, refuse, refuse_if}
use go_backend_helpers.Tenancy.Controller.{find_tenancy, customer_or, known_pool}

-- `TenancyBase`: the data, and the connection to its database.
pub record LoadedTenancy : Type 0 where
  pub data_of : Tenancy
  pub connection : ℕ

-- `TenancyManager`: the two maps, over the tables; `open_connections` are those not closed yet, and
-- `belongs` says for a database if it has a row of TenancyMeta for the identifier.
pub record Manager : Type 0 where
  pub store : State
  pub by_id : Dict LoadedTenancy
  pub by_path : Dict LoadedTenancy
  pub open_connections : List ℕ
  pub connections : ℕ
  pub belongs : String → String → Bool

abbrev pub Op : Type 0 → Type 0
Op A = Act Manager A

-- An operation on the tables.
abbrev on_store : {A : Type 0} → Act State A → Op A
on_store f m = let (r, s) = f m.store in (r, record m { store = s })

unfoldable pub closed : ℕ → List ℕ → List ℕ
closed c [] = []
closed c (d ∷ ds) = let rest = closed c ds in if eqb c d then rest else d ∷ rest

-- `UnloadTenancy` of what is loaded closes the database, then deletes both entries.
abbrev unload_found : String → Option LoadedTenancy → Manager → Manager
unload_found id none m = m
unload_found id (some t) m = record m {
  open_connections = closed t.connection m.open_connections;
  by_id = erase id m.by_id;
  by_path = erase t.data_of.path m.by_path;
}

-- `UnloadTenancy`
unfoldable pub unload_tenancy : String → Manager → Manager
unload_tenancy id m = unload_found id (lookup id m.by_id) m

abbrev coded : String → Result (Unit {0}) × State → Result (Unit {0}) × State
coded code (ok u, s) = (ok u, s)
coded code (err e, s) = refuse code e s

-- A call whose failure has a code.
abbrev coded_call : String → Op (Unit {0})
coded_call code = on_store (λ s. coded code (call s))

-- `ConnectDatabase` without a new database
unfoldable pub connect_database : Op ℕ
connect_database = do
  coded_call "no_service_with_role"
  coded_call "service_not_active"
  coded_call "invalid_service_configuration"
  coded_call "service_initialization_failed"
  c ← gets Manager.connections
  modify (λ m. record m { connections = c + 1; open_connections = c ∷ m.open_connections })
  pure c

-- `CheckTenancyDatabase`
unfoldable pub check_tenancy_database : Tenancy → Op (Unit {0})
check_tenancy_database t = do
  on_store call
  m ← gets (λ m. m)
  on_store (
      refuse_if (not (m.belongs t.db_name t.id)) "foreign_tenancy_database"
        "database does not belong to this tenancy")

abbrev or_close : ℕ → Result (Unit {0}) × Manager → Result (Unit {0}) × Manager
or_close c (ok u, m) = (ok u, m)
or_close c (err e, m) = (err e, record m { open_connections = closed c m.open_connections })

abbrev connected : Tenancy → Op (Option LoadedTenancy)
connected t = do
  c ← connect_database
  (λ m. or_close c (check_tenancy_database t m))
  pure (some (record { data_of = t; connection = c }))

-- `Init` of a tenancy: none for one that is skipped since its pool is not active
unfoldable pub init_tenancy : Tenancy → Op (Option LoadedTenancy)
init_tenancy t = do
  on_store call
  c ← gets (λ m. find Customer.id t.customer_id m.store.customers)
  on_store (customer_or "user with such ID does not exist" c)
  p ← gets (λ m. find LoadedPool.id t.pool_id m.store.pools)
  pool ← on_store (known_pool p)
  choose pool.active (connected t) (pure none)

abbrev pub keep : Option LoadedTenancy → Manager → Manager
keep none m = m
keep (some t) m = record m {
  by_id = insert t.data_of.id t m.by_id;
  by_path = insert t.data_of.path t m.by_path;
}

-- `LoadTenancyFromData`
unfoldable pub load_tenancy_from_data : Tenancy → Op (Option LoadedTenancy)
load_tenancy_from_data t = do l ← init_tenancy t; modify (keep l); pure l

-- `LoadTenancy`
unfoldable pub load_tenancy : String → Op (Option LoadedTenancy)
load_tenancy id = do t ← on_store (find_tenancy id); load_tenancy_from_data t

-- The handler of the notification of an operation on a tenancy
unfoldable pub handle_notification : String → String → Op (Unit {0})
handle_notification operation id = do
  modify (unload_tenancy id)
  choose (operation == "delete") (pure tt) (load_tenancy id >> pure tt)

-- `LoadTenancies`: the tenancies of the self pool, or of all
unfoldable pub load_each : List Tenancy → Op (Unit {0})
load_each [] = pure tt
load_each (t ∷ ts) = load_tenancy_from_data t >> load_each ts

unfoldable pub of_pool : Option String → List Tenancy → List Tenancy
of_pool none ts = ts
of_pool (some pool_id) [] = []
of_pool (some pool_id) (t ∷ ts) =
    let rest = of_pool (some pool_id) ts in if t.pool_id == pool_id then t ∷ rest else rest

-- `List`: the inner join has the tenancies whose customer and pool are there.
unfoldable pub list_tenancies : State → List Tenancy → List Tenancy
list_tenancies s [] = []
list_tenancies s (t ∷ ts) =
    let rest = list_tenancies s ts in
    if has Customer.id t.customer_id s.customers && has LoadedPool.id t.pool_id s.pools
    then t ∷ rest
    else rest

unfoldable pub load_tenancies : Option String → Op (Unit {0})
load_tenancies self_pool = do
  on_store call
  ts ← gets (λ m. of_pool self_pool (list_tenancies m.store m.store.tenancies))
  load_each ts

-- `Tenancy` and `TenancyByPath`
abbrev pub tenancy_by_id : String → Manager → Option LoadedTenancy
tenancy_by_id id m = lookup id m.by_id

abbrev pub tenancy_by_path : String → Manager → Option LoadedTenancy
tenancy_by_path path m = lookup path m.by_path
