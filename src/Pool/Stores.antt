-- ===== src/Pool/Stores.antt =====
-- The pools that a process has loaded, PoolStoreBase of pkg/pool/pool_store.go, with the services of
-- PoolBase (pkg/pool/pool.go). Reading the configuration is given from outside; pools are gone through
-- in the order of their rows.
use go_backend_helpers.Prelude.{
  String, true, false, Option, none, some, List, [], ◌∷◌, ◌==◌, Dict, lookup, insert,
}
use go_backend_helpers.Effects.{Act, Result, ok, err, ◌>>=◌, ◌>>◌, pure, fail, choose, gets, modify}
use go_backend_helpers.Pool.Store.{Pool, Db, Op, call}
use go_backend_helpers.Pool.Controller.{find_pool}
use go_backend_helpers.Pool.Bindings.{PoolServiceBinding, get_pool_bindings, set_services}

-- A pool with its services by role
abbrev pub Loaded : Type 0
Loaded = Pool × Dict PoolServiceBinding

-- `PoolStoreBase`, less its controller
pub record PoolStore : Type 0 where
  pub pool_name : String
  pub self_pool : Option Loaded
  pub pools_by_name : Dict Loaded
  pub pools_by_id : Dict Loaded

-- A store with the tables that it is loaded from
pub record State : Type 0 where
  pub db : Db
  pub store : PoolStore

-- `NewPoolStore`
abbrev pub new_pool_store : PoolStore
new_pool_store = record { pool_name = ""; self_pool = none; pools_by_name = []; pools_by_id = [] }

abbrev pub on_db : {A : Type 0} → Op A → Act State A
on_db m s = let (r, db) = m s.db in (r, record s { db = db })

-- `GetPools` without a filter
abbrev pub get_pools : Op (List Pool)
get_pools = call >> gets (λ db. db.pools)

-- `loadServices`
unfoldable pub load_services : Pool → Act State Loaded
load_services pool = do
  services ← on_db (get_pool_bindings false pool.id)
  pure (pool, set_services services [])

abbrev pub keep : Loaded → PoolStore → PoolStore
keep l p = record p {
  pools_by_id = insert l.0.id l p.pools_by_id;
  pools_by_name = insert l.0.name l p.pools_by_name;
}

unfoldable pub load_each : List Pool → Act State (Unit {0})
load_each [] = pure tt
load_each (pool ∷ pools) = do
  l ← load_services pool
  modify (λ s. record s { store = keep l s.store })
  load_each pools

unfoldable pub load_self : Option Pool → Act State (Unit {0})
load_self none = fail "self pool not found"
load_self (some pool) = do
  l ← load_services pool
  modify (λ s. record s { store = record (keep l s.store) { self_pool = some l } })

unfoldable pub load_all : Act State (Unit {0})
load_all = do pools ← on_db get_pools; load_each pools

abbrev find_self : String → Act State (Unit {0})
find_self name = do pool ← on_db (find_pool true name); load_self pool

-- `Init`, with the name of the self pool that the configuration has
unfoldable pub init : Option String → Act State (Unit {0})
init none = fail "failed to init PoolStore"
init (some name) = do
  modify (λ s. record s { store = record s.store { pool_name = name } })
  choose (name == "") load_all (find_self name)

abbrev or_missing : {A : Type 0} → String → Option A → Result A
or_missing e none = err e
or_missing e (some a) = ok a

-- `SelfPool`, `Pool`, `PoolByName`, and `Service` of a pool
unfoldable pub self_pool_of : PoolStore → Result Loaded
self_pool_of p = or_missing "self pool undefined" p.self_pool

unfoldable pub pool_by_id : String → PoolStore → Result Loaded
pool_by_id id p = or_missing "pool not found" (lookup id p.pools_by_id)

unfoldable pub pool_by_name : String → PoolStore → Result Loaded
pool_by_name name p = or_missing "pool not found" (lookup name p.pools_by_name)

unfoldable pub service : String → Loaded → Result PoolServiceBinding
service role l = or_missing "service not found" (lookup role l.1)
