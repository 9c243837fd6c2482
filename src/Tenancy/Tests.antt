-- ===== src/Tenancy/Tests.antt =====
-- Runs of the tenancy controller.
use go_backend_helpers.Prelude.{◌≡◌, refl, true, none, [], ◌∷◌}
use go_backend_helpers.Table.{find, has_pair}
use go_backend_helpers.Tenancy.Store.{Tenancy, Customer, LoadedPool, State}
use go_backend_helpers.Tenancy.Controller.{TenancyData, Services}
use go_backend_helpers.Tenancy.Laws.{IsOrderly, set_role_call, change, change-IsOrderly}
use go_backend_helpers.Table.{has}
use mathlib.Core.Path.{subst}
use go_backend_helpers.Prelude.{All}
use go_backend_helpers.Effects.{ok}
use go_backend_helpers.Tenancy.Startup.{IsReady, IsLoaded, load_tenancies-IsLoaded}
use go_backend_helpers.Tenancy.Controller.{find_tenancy, joined}
use go_backend_helpers.Tenancy.Loading.{
  LoadedTenancy, Manager, tenancy_by_id, tenancy_by_path, handle_notification, unload_tenancy,
  load_tenancy, load_tenancy_from_data, init_tenancy, connect_database, check_tenancy_database,
  closed, load_tenancies, load_each, of_pool, list_tenancies,
}
use go_backend_helpers.Tenancy.Agreement.{Agree}
use go_backend_helpers.Tenancy.Loaded.{handle_notification-Agree}
use go_backend_helpers.Prelude.{String, some, lookup, insert, erase, sym, ap, ◌∙◌, eq_iff, arith}

abbrev first : Tenancy
first = record {
  id = "t1";
  path = "first";
  role = "main";
  active = true;
  customer_id = "c1";
  pool_id = "p1";
  db_name = "db1";
}

abbrev second : Tenancy
second = record first { id = "t2"; path = "second"; role = "test" }

abbrev acme : Customer
acme = record { id = "c1"; login = "acme" }

abbrev pool : LoadedPool
pool = record { id = "p1"; name = "main"; active = true }

abbrev state : State
state = record {
  tenancies = first ∷ second ∷ [];
  customers = acme ∷ [];
  pools = pool ∷ [];
  oplogs = [];
  published = [];
  generic_error = none;
  faults = [];
  next_id = 0;
}

state-IsOrderly : IsOrderly state.tenancies
unfolding has has_pair
state-IsOrderly = record {
  ids = (refl, (refl, tt));
  roles = (refl, (refl, tt));
  paths = (refl, (refl, tt));
}

change-IsOrderly_example : IsOrderly (change (set_role_call "t1" "test") state).tenancies
change-IsOrderly_example = change-IsOrderly (set_role_call "t1" "test") state state-IsOrderly

abbrev services : Services
services = record {
  random_id = λ n. "t3";
  random_path = λ n. "random";
  database_name = λ login role. "db";
  metas = λ db. [];
}

abbrev asked : TenancyData
asked = record { customer = "acme"; pool = "p1"; path = "third"; role = "main"; db_name = "" }

-- The first tenancy is loaded, and its path has changed in the table.
abbrev loaded : LoadedTenancy
loaded = record { data_of = record first { path = "old" }; connection = 0 }

abbrev manager : Manager
manager = record {
  store = state;
  by_id = ("t1", loaded) ∷ [];
  by_path = ("old", loaded) ∷ [];
  open_connections = 0 ∷ [];
  connections = 1;
  belongs = λ name id. true;
}

sole_lookup :
    (k j : String) (v u : LoadedTenancy) → lookup j ((k, v) ∷ []) ≡ some u → (k ≡ j) × (v ≡ u)
unfolding lookup
sole_lookup k j v u e = ground (arith, eq_iff k j)

manager-Agree : Agree manager
unfolding lookup
manager-Agree = record {
  ids = λ i u q. let (a, b) = sole_lookup "t1" i loaded u q in sym (ap (λ x. x.data_of.id) b) ∙ a;
  paths = λ i u q.
      let (a, b) = sole_lookup "old" i loaded u q in
      (
        sym (ap (λ x. x.data_of.path) b) ∙ a,
        subst (λ x. lookup x.data_of.id manager.by_id ≡ some x) b refl,
      );
  listed = λ i u q.
      let (a, b) = sole_lookup "t1" i loaded u q in
      subst (λ x. lookup x.data_of.path manager.by_path ≡ some x) b refl;
}

own_path :
    (t : Tenancy) (u : LoadedTenancy)
    → find Tenancy.id "t1" state.tenancies ≡ some t
    → lookup t.path manager.by_path ≡ some u
    → u.data_of.id ≡ "t1"
own_path t u e f =
    let (a, b) = sole_lookup "old" t.path loaded u f in sym (ap (λ x. x.data_of.id) b)

handle_notification-Agree_example :
    Agree (handle_notification "set_path" "t1" manager).1
    × (◌≡◌ {A = String} "set_path" "delete"
        → lookup "t1" (handle_notification "set_path" "t1" manager).1.by_id ≡ none)
    × ((l : LoadedTenancy)
        → lookup "t1" (handle_notification "set_path" "t1" manager).1.by_id ≡ some l
        → find Tenancy.id "t1" manager.store.tenancies ≡ some l.data_of)
handle_notification-Agree_example =
    handle_notification-Agree "set_path" "t1" manager manager-Agree own_path

-- The tenancy is found by its new path and not by the old one, and its old connection is closed.
handle_notification_run :
    let m = (handle_notification "set_path" "t1" manager).1 in
    (tenancy_by_path "first" m ≡ some (record { data_of = first; connection = 1 }))
    × (tenancy_by_path "old" m ≡ none)
    × (m.open_connections ≡ 1 ∷ [])
unfolding handle_notification unload_tenancy load_tenancy load_tenancy_from_data init_tenancy
    connect_database check_tenancy_database find_tenancy joined lookup insert erase find has closed
handle_notification_run = (refl, refl, refl)

-- All tenancies of the self pool are loaded.
load_tenancies_run :
    let m = (load_tenancies (some "p1") (record manager { by_id = []; by_path = [] })).1 in
    (tenancy_by_id "t2" m ≡ some (record { data_of = second; connection = 2 }))
    × (tenancy_by_id "t1" m ≡ some (record { data_of = first; connection = 1 }))
unfolding load_tenancies load_each of_pool list_tenancies has load_tenancy_from_data init_tenancy
    connect_database check_tenancy_database lookup insert find
load_tenancies_run = (refl, refl)

abbrev idle : Manager
idle = record manager { by_id = []; by_path = [] }

first-IsReady : IsReady state idle.belongs first
unfolding find
first-IsReady = record {
  customer = acme;
  pool = pool;
  has_customer = refl;
  has_pool = refl;
  is_active = refl;
  is_own = refl;
}

second-IsReady : IsReady state idle.belongs second
unfolding find
second-IsReady = record {
  customer = acme;
  pool = pool;
  has_customer = refl;
  has_pool = refl;
  is_active = refl;
  is_own = refl;
}

idle-IsReady : All (IsReady state idle.belongs) (of_pool (some "p1") state.tenancies)
unfolding of_pool
idle-IsReady = (first-IsReady, (second-IsReady, tt))

load_tenancies-IsLoaded_example :
    ((load_tenancies (some "p1") idle).0 ≡ ok tt)
    × All (IsLoaded (load_tenancies (some "p1") idle).1) (of_pool (some "p1") state.tenancies)
load_tenancies-IsLoaded_example =
    load_tenancies-IsLoaded (some "p1") idle refl state-IsOrderly.ids idle-IsReady
