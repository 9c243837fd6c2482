-- ===== src/Pubsub/Tests.antt =====
-- Runs of subscribers, and of the publishers of pools.
use go_backend_helpers.Prelude.{
  String, ◌≡◌, refl, Bool, true, false, none, some, [], ◌∷◌, lookup, insert, erase,
}
use go_backend_helpers.Table.{has}
use go_backend_helpers.Effects.{ok}
use go_backend_helpers.Pubsub.{
  Topic, State, Services, new_topic, add_topic, delete_topic, handle, handle_topic, handle_topics,
  subscribe_client, unsubscribe_client, deliveries,
}
use go_backend_helpers.Pubsub.Laws.{IsIn, handle-subscribe_client}
use go_backend_helpers.Pool.Store.{Pool}
use go_backend_helpers.Pool.Bindings.{PoolServiceBinding}
use go_backend_helpers.Pool.Stores.{Loaded, PoolStore, new_pool_store, service}
use go_backend_helpers.Pubsub.Pools
use go_backend_helpers.Pubsub.Pools.{
  init, new_pubsub, connect_self, connect_pools, connect_pool, make_publisher, make_subscriber,
}
use go_backend_helpers.Pubsub.Pools.Calls.{shutdown, shut_all, publish_pools, publish_each}
use go_backend_helpers.Pubsub.Pools.Laws.{connection, init-connection}
use go_backend_helpers.Pool.Store.{Db, pool_field, op_log}
use go_backend_helpers.Pool.Controller.{
  deactivate_pool, update_pool, find_update_pool, find_pool, update_pool_row, pool_id_of,
  check_if_activate,
}
use go_backend_helpers.Table.{find, update_at}
use go_backend_helpers.Pool.Bindings.{
  get_pool_bindings, read_bindings, join, join_row, set_services,
}
use go_backend_helpers.Pool.Stores
use go_backend_helpers.Pool.Stores.{load_all, load_each, load_services}
use go_backend_helpers.Pubsub.Pools.Restart.{init-deactivate_pool}

abbrev services : Services
services = record { random_id = λ n. "s1"; parse_message = λ ref msg. some msg }

-- A topic that is known and has one client, and another name that has a topic.
abbrev start : State
start = record {
  heap =
      ("t1", record { name = "orders"; subscribers = ("audit", tt) ∷ [] })
      ∷ ("t2", new_topic "users")
      ∷ [];
  topics = ("users", ("s0", "t2") ∷ []) ∷ [];
  next_id = 1;
  delivered = [];
}

abbrev orders : Topic
orders = record { name = "orders"; subscribers = ("audit", tt) ∷ [] }

abbrev asked : State
asked = subscribe_client "t1" "mail" (add_topic services "t1" start).1

handle-subscribe_client_example :
    ((handle services "orders" "hello" asked).0 ≡ ok tt)
    × IsIn ("mail", "hello") (handle services "orders" "hello" asked).1.delivered
unfolding lookup insert
handle-subscribe_client_example =
    handle-subscribe_client services "t1" "mail" "hello" "hello" start orders refl (refl, tt) refl

-- The name is gone with its only topic.
deleted_run : (delete_topic "users" (some "s0") start).1.topics ≡ []
unfolding delete_topic lookup erase
deleted_run = refl

unsubscribed_run :
    (handle services "orders" "hello" (unsubscribe_client "t1" "audit" asked)).1.delivered
    ≡ ("mail", "hello") ∷ []
unfolding handle handle_topics handle_topic subscribe_client unsubscribe_client add_topic lookup
    insert erase deliveries
unsubscribed_run = refl

abbrev pool_of : String → Bool → Pool
pool_of id active = record { id = id; name = id; long_name = ""; description = ""; active = active }

abbrev redis : Bool → PoolServiceBinding
redis active = record {
  id = "a1";
  role = "pubsub";
  pool_id = "p1";
  pool_name = "p1";
  service_id = "s1";
  service_name = "redis";
  active = active;
}

-- A pool that is active, one that is not, and one whose service is not.
abbrev first : Loaded
first = (pool_of "p1" true, ("pubsub", redis true) ∷ [])

abbrev second : Loaded
second = (pool_of "p2" false, [])

abbrev third : Loaded
third = (pool_of "p3" true, ("pubsub", redis false) ∷ [])

abbrev loaded : PoolStore
loaded = record new_pool_store { pools_by_id = ("p1", first) ∷ ("p2", second) ∷ ("p3", third) ∷ [] }

abbrev factory : Pools.Services
factory = record {
  make_publisher = λ b. ok "publisher";
  make_subscriber = λ b. ok "subscriber";
  error_of = λ n. none;
  subscription_id = λ n. "n1";
}

abbrev fresh : Pools.State
fresh = record { pubsub = new_pubsub; log = []; calls = 0 }

init-connection_example :
    (lookup "p1" (init factory loaded fresh).1.pubsub.publishers
      ≡ connection factory.make_publisher (lookup "p1" loaded.pools_by_id))
    × (lookup "p1" (init factory loaded fresh).1.pubsub.subscribers
        ≡ connection factory.make_subscriber (lookup "p1" loaded.pools_by_id))
unfolding has init connect_pools connect_pool make_publisher make_subscriber service lookup insert
init-connection_example =
    init-connection factory loaded fresh "p1" refl
      ((refl, (refl, (refl, tt))), (refl, (refl, (refl, tt)))) refl refl

-- With a self pool, Shutdown shuts its publisher down twice; without one, no subscriber.
self_shutdown_run :
    (shutdown factory (init factory (record loaded { self_pool = some first }) fresh).1).1.log
    ≡ Pools.shut_down "publisher" ∷ Pools.shut_down "subscriber" ∷ Pools.shut_down "publisher" ∷ []
unfolding shutdown shut_all init connect_self make_publisher make_subscriber service lookup insert
self_shutdown_run = refl

shutdown_run :
    (shutdown factory (init factory loaded fresh).1).1.log ≡ Pools.shut_down "publisher" ∷ []
unfolding shutdown shut_all init connect_pools connect_pool make_publisher make_subscriber service
    lookup insert
shutdown_run = refl

published_run :
    (publish_pools factory "orders" "hello" ("p2" ∷ "p1" ∷ []) (init factory loaded fresh).1).1.log
    ≡ Pools.published "publisher" "orders" "hello" ∷ []
unfolding publish_pools publish_each init connect_pools connect_pool make_publisher make_subscriber
    service lookup insert
published_run = refl

-- A pool with a service for messages.
abbrev tables : Db
tables = record {
  pools = pool_of "p1" true ∷ [];
  services =
      record { id = "s1"; name = "redis"; long_name = ""; description = ""; active = true } ∷ [];
  associations = record { id = "a1"; pool_id = "p1"; service_id = "s1"; role = "pubsub" } ∷ [];
  oplogs = [];
  generic_error = none;
  faults = [];
  next_id = 0;
}

abbrev restarted : PoolStore
restarted =
    (Stores.init (some "") (record {
      db = record (deactivate_pool true "p1" tables).1 { faults = [] };
      store = new_pool_store;
    })).1.store

init-deactivate_pool_example :
    (lookup "p1" (init factory restarted fresh).1.pubsub.publishers ≡ none)
    × (lookup "p1" (init factory restarted fresh).1.pubsub.subscribers ≡ none)
unfolding has find pool_field deactivate_pool update_pool find_update_pool find_pool update_pool_row
    update_at op_log Stores.init load_all load_each load_services get_pool_bindings pool_id_of
    read_bindings join join_row set_services insert init connect_pools connect_pool
    check_if_activate
init-deactivate_pool_example =
    init-deactivate_pool true "p1" (pool_of "p1" true) tables (refl, tt) (refl, tt) refl refl
      factory fresh refl refl
