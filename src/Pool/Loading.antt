-- ===== src/Pool/Loading.antt =====
-- The pools of a store after Init of pkg/pool/pool_store.go, while no call fails.
use go_backend_helpers.Prelude.{
  String, ◌≡◌, refl, inl, inr, false, some, List, [], ◌∷◌, ◌==◌, ◌||◌, arith, eq_iff, eq_refl, Dict,
  lookup, insert, lookup-insert, All, Bool-cases, ap,
}
use go_backend_helpers.Table.{has, find, IsUnique}
use go_backend_helpers.Table.Laws.{has-find_by}
use go_backend_helpers.Effects.{ok}
use go_backend_helpers.Pool.Store.{Pool, Db}
use go_backend_helpers.Pool.Controller.{pool_id_of}
use go_backend_helpers.Pool.Bindings.{
  PoolServiceBinding, join, get_pool_bindings, read_bindings, set_services,
}
use go_backend_helpers.Pool.Stores.{
  Loaded, PoolStore, State, load_services, load_each, load_all, init, keep,
}

-- The row that is found by one unique key is found by another.
pub find_by :
    {A : Type 0} (key other : A → String) (k : String) (rs : List A) (r : A)
    → IsUnique key rs
    → find other k rs ≡ some r
    → find key (key r) rs ≡ some r
unfolding has find
find_by key other k [] r u e = cc e
find_by key other k (s ∷ rs) r u e = elim (Bool-cases (other s == k)) [
  | inl t ↦ ground (arith, eq_refl (key s))
  | inr t ↦
      ground
        (arith, find_by key other k rs r u.1, has-find_by key other k rs r, eq_iff (key s) (key r))
]

-- The services by role of a pool.
abbrev pub services_of : Db → Pool → Dict PoolServiceBinding
services_of db p = set_services (join (λ a. a.pool_id == p.id) db db.associations) []

-- A store and its tables while no call fails.
abbrev pub quiet : Db → PoolStore → State
quiet db store = record { db = record db { faults = [] }; store = store }

abbrev pub HasId : Pool → Type 0
HasId p = (p.id == "") ≡ false

pub load_services_lem :
    (p : Pool) (db : Db) (store : PoolStore)
    → HasId p
    → load_services p (quiet db store)
      ≡ (ok (p, services_of (record db { faults = [] }) p), quiet db store)
unfolding load_services get_pool_bindings pool_id_of read_bindings
load_services_lem p db store n = rw n refl

unfoldable pub keep_all : Db → List Pool → PoolStore → PoolStore
keep_all db [] store = store
keep_all db (p ∷ ps) store = keep_all db ps (keep (p, services_of db p) store)

pub load_each_lem :
    (ps : List Pool) (db : Db) (store : PoolStore)
    → All HasId ps
    → load_each ps (quiet db store)
      ≡ (ok tt, quiet db (keep_all (record db { faults = [] }) ps store))
unfolding load_each keep_all
load_each_lem [] db store h = refl
load_each_lem (p ∷ ps) db store h =
    rw (load_services_lem p db store h.0)
      (load_each_lem ps db (keep (p, services_of (record db { faults = [] }) p) store) h.1)

pub keep_all-kept :
    (db : Db) (k : String) (ps : List Pool) (store : PoolStore)
    → has Pool.id k ps ≡ false
    → lookup k (keep_all db ps store).pools_by_id ≡ lookup k store.pools_by_id
unfolding keep_all has
keep_all-kept db k [] store h = refl
keep_all-kept db k (p ∷ ps) store h = ground (
  arith,
  keep_all-kept db k ps (keep (p, services_of db p) store),
  lookup-insert p.id k (p, services_of db p) store.pools_by_id,
)

pub keep_all_lem :
    (db : Db) (k : String) (p : Pool) (ps : List Pool) (store : PoolStore)
    → IsUnique Pool.id ps
    → find Pool.id k ps ≡ some p
    → lookup k (keep_all db ps store).pools_by_id ≡ some (p, services_of db p)
unfolding keep_all find
keep_all_lem db k p [] store u e = cc e
keep_all_lem db k p (q ∷ ps) store u e = elim (Bool-cases (q.id == k)) [
  | inl t ↦
      let same : q ≡ p = cc (rw t at e) in
      rw
        (
          keep_all-kept db k ps (keep (q, services_of db q) store)
              (rw ((eq_iff q.id k).0 t) at (u.0)),
          lookup-insert q.id k (q, services_of db q) store.pools_by_id,
          t,
        )
        (ap (λ z. some (z, services_of db z)) same)
  | inr t ↦ keep_all_lem db k p ps (keep (q, services_of db q) store) u.1 (rw t at e)
]

-- `Init` without a self pool.
pub init_lem :
    (db : Db) (store : PoolStore)
    → All HasId db.pools
    → init (some "") (quiet db store) ≡ (
      ok tt,
      quiet db (keep_all (record db { faults = [] }) db.pools (record store { pool_name = "" })),
    )
unfolding init load_all
init_lem db store ids = load_each_lem db.pools db (record store { pool_name = "" }) ids

-- Pools that stand under their own identifiers, each once.
abbrev pub IsById : Dict Loaded → Type 0
IsById d =
    IsUnique (λ (e : String × Loaded). e.0) d × All (λ (e : String × Loaded). e.1.0.id ≡ e.0) d

has-insert :
    (k j : String) (l : Loaded) (d : Dict Loaded)
    → has (λ (e : String × Loaded). e.0) j (insert k l d)
      ≡ (k == j || has (λ (e : String × Loaded). e.0) j d)
unfolding has insert
has-insert k j l [] = refl
has-insert k j l ((i, m) ∷ d) =
    ground (arith, has-insert k j l d, eq_iff i k, eq_iff k j, eq_iff i j)

insert-IsById : (l : Loaded) (d : Dict Loaded) → IsById d → IsById (insert l.0.id l d)
unfolding has insert
insert-IsById l [] u = ((refl, tt), (refl, tt))
insert-IsById l ((i, m) ∷ d) u = elim (Bool-cases (i == l.0.id)) [
  | inl t ↦ rw t ((rw ((eq_iff i l.0.id).0 t) at (u.0.0), u.0.1), (refl, u.1.1))
  | inr t ↦
      let (x, y) = insert-IsById l d (u.0.1, u.1.1) in
      rw t (
        (ground (arith, has-insert l.0.id i l d, u.0.0, eq_iff i l.0.id, eq_iff l.0.id i), x),
        (u.1.0, y),
      )
]

pub keep_all-IsById :
    (db : Db) (ps : List Pool) (store : PoolStore)
    → IsById store.pools_by_id
    → IsById (keep_all db ps store).pools_by_id
unfolding keep_all
keep_all-IsById db [] store u = u
keep_all-IsById db (p ∷ ps) store u =
    keep_all-IsById db ps (keep (p, services_of db p) store)
      (insert-IsById (p, services_of db p) store.pools_by_id u)

pub keep_all-self_pool :
    (db : Db) (ps : List Pool) (store : PoolStore)
    → (keep_all db ps store).self_pool ≡ store.self_pool
unfolding keep_all
keep_all-self_pool db [] store = refl
keep_all-self_pool db (p ∷ ps) store = keep_all-self_pool db ps (keep (p, services_of db p) store)
