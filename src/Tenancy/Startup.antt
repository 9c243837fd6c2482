-- ===== src/Tenancy/Startup.antt =====
-- The loading of all tenancies, LoadTenancies of pkg/multitenancy/tenancy_manager/tenancy_manager.go,
-- while no call fails.
use mathlib.Core.Path.{subst}
use go_backend_helpers.Prelude.{
  String, ◌≡◌, ◌≢◌, refl, inl, inr, Bool, true, false, Option, none, some, List, [], ◌∷◌, ◌==◌,
  ◌&&◌, ap, arith, lookup, insert, Bool-cases, eq_iff, sym, All,
}
use go_backend_helpers.Tenancy.Entries.{other-insert, same-insert}
use go_backend_helpers.Effects.{ok}
use go_backend_helpers.Table.{find, has, IsUnique}
use go_backend_helpers.Table.Laws.{has-find}
use go_backend_helpers.Tenancy.Store.{Tenancy, Customer, LoadedPool, State}
use go_backend_helpers.Tenancy.Loading.{
  LoadedTenancy, Manager, init_tenancy, connect_database, check_tenancy_database,
  load_tenancy_from_data, load_each, of_pool, list_tenancies, load_tenancies, tenancy_by_id,
}

-- A tenancy can be loaded: its customer and its pool exist, the pool is active, and the database has
-- the tenancy's row.
pub record IsReady (s : State) (belongs : String → String → Bool) (t : Tenancy) : Type 0 where
  pub customer : Customer
  pub pool : LoadedPool
  pub has_customer : find Customer.id t.customer_id s.customers ≡ some customer
  pub has_pool : find LoadedPool.id t.pool_id s.pools ≡ some pool
  pub is_active : pool.active ≡ true
  pub is_own : belongs t.db_name t.id ≡ true

-- What a tenancy is loaded as.
abbrev loaded_as : Tenancy → Manager → LoadedTenancy
loaded_as t m = record { data_of = t; connection = m.connections }

ready_lem :
    (t : Tenancy) (m : Manager) (r : IsReady m.store m.belongs t)
    → m.store.faults ≡ []
    → ((load_tenancy_from_data t m).0 ≡ ok (some (loaded_as t m)))
      × ((load_tenancy_from_data t m).1.by_id ≡ insert t.id (loaded_as t m) m.by_id)
      × ((load_tenancy_from_data t m).1.store.faults ≡ [])
      × ((load_tenancy_from_data t m).1.store.customers ≡ m.store.customers)
      × ((load_tenancy_from_data t m).1.store.pools ≡ m.store.pools)
      × ((load_tenancy_from_data t m).1.belongs ≡ m.belongs)
unfolding load_tenancy_from_data init_tenancy connect_database check_tenancy_database
ready_lem t m r e =
    rw (e, r.has_customer, r.has_pool, r.is_active, r.is_own) (refl, refl, refl, refl, refl, refl)

moved-IsReady :
    (s r : State) (b c : String → String → Bool) (t : Tenancy)
    → r.customers ≡ s.customers
    → r.pools ≡ s.pools
    → c ≡ b
    → IsReady s b t
    → IsReady r c t
moved-IsReady s r b c t p q e h = record {
  customer = h.customer;
  pool = h.pool;
  has_customer = rw p h.has_customer;
  has_pool = rw q h.has_pool;
  is_active = h.is_active;
  is_own = rw e h.is_own;
}

moved-All :
    (s r : State) (b c : String → String → Bool) (ts : List Tenancy)
    → r.customers ≡ s.customers
    → r.pools ≡ s.pools
    → c ≡ b
    → All (IsReady s b) ts
    → All (IsReady r c) ts
moved-All s r b c [] p q e h = tt
moved-All s r b c (t ∷ ts) p q e h =
    (moved-IsReady s r b c t p q e h.0, moved-All s r b c ts p q e h.1)

-- The manager has a tenancy with these data under their identifier.
unfoldable pub IsLoaded : Manager → Tenancy → Type 0
IsLoaded m t = (l : LoadedTenancy) × (tenancy_by_id t.id m ≡ some l) × (l.data_of ≡ t)

has-IsLoaded :
    (k : String) (t : Tenancy) (ts : List Tenancy)
    → has Tenancy.id k (t ∷ ts) ≡ false
    → (t.id ≢ k) × (has Tenancy.id k ts ≡ false)
unfolding has
has-IsLoaded k t ts e = ground (arith, eq_iff t.id k)

load_each-kept :
    (k : String) (l : LoadedTenancy) (ts : List Tenancy) (m : Manager)
    → m.store.faults ≡ []
    → All (IsReady m.store m.belongs) ts
    → has Tenancy.id k ts ≡ false
    → lookup k m.by_id ≡ some l
    → lookup k (load_each ts m).1.by_id ≡ some l
unfolding load_each
load_each-kept k l [] m f h a e = e
load_each-kept k l (t ∷ ts) m f h a e =
    let (r, i, g, c, p, b) = ready_lem t m h.0 f in
    let n = (load_tenancy_from_data t m).1 in
    let (d, a') = has-IsLoaded k t ts a in
    let kept : lookup k n.by_id ≡ some l =
      rw i (other-insert t.id k (loaded_as t m) l m.by_id d e) in
    rw r (
      load_each-kept k l ts n g (moved-All m.store n.store m.belongs n.belongs ts c p b h.1) a'
        kept)

load_each_lem :
    (ts : List Tenancy) (m : Manager)
    → m.store.faults ≡ []
    → All (IsReady m.store m.belongs) ts
    → IsUnique Tenancy.id ts
    → ((load_each ts m).0 ≡ ok tt) × All (IsLoaded (load_each ts m).1) ts
unfolding load_each IsLoaded
load_each_lem [] m f h u = (refl, tt)
load_each_lem (t ∷ ts) m f h u =
    let (r, i, g, c, p, b) = ready_lem t m h.0 f in
    let n = (load_tenancy_from_data t m).1 in
    let ready = moved-All m.store n.store m.belongs n.belongs ts c p b h.1 in
    let here : lookup t.id n.by_id ≡ some (loaded_as t m) =
      rw i (same-insert t.id (loaded_as t m) m.by_id) in
    let (x, y) = load_each_lem ts n g ready u.1 in
    let after : load_each (t ∷ ts) m ≡ load_each ts n = rw r refl in
    subst (λ o. (o.0 ≡ ok tt) × All (IsLoaded o.1) (t ∷ ts)) (sym after)
      (x, ((loaded_as t m, load_each-kept t.id (loaded_as t m) ts n g ready u.0 here, refl), y))

-- What is left of a table has no more keys.
has-of_pool :
    (k : String) (self : Option String) (ts : List Tenancy)
    → has Tenancy.id k ts ≡ false
    → has Tenancy.id k (of_pool self ts) ≡ false
unfolding has of_pool
has-of_pool k none ts e = e
has-of_pool k (some p) [] e = refl
has-of_pool k (some p) (t ∷ ts) e = ground (arith, has-of_pool k (some p) ts)

of_pool-IsUnique :
    (self : Option String) (ts : List Tenancy)
    → IsUnique Tenancy.id ts
    → IsUnique Tenancy.id (of_pool self ts)
unfolding of_pool
of_pool-IsUnique none ts u = u
of_pool-IsUnique (some p) [] u = tt
of_pool-IsUnique (some p) (t ∷ ts) u = elim (Bool-cases (t.pool_id == p)) [
  | inl e ↦ rw e (has-of_pool t.id (some p) ts u.0, of_pool-IsUnique (some p) ts u.1)
  | inr e ↦ rw e (of_pool-IsUnique (some p) ts u.1)
]

-- The join drops none of the tenancies that can be loaded.
listed :
    (s : State) (b : String → String → Bool) (self : Option String) (ts : List Tenancy)
    → All (IsReady s b) (of_pool self ts)
    → of_pool self (list_tenancies s ts) ≡ of_pool self ts
unfolding of_pool list_tenancies
listed s b none [] h = refl
listed s b (some p) [] h = refl
listed s b none (t ∷ ts) h =
    rw
      (
        has-find Customer.id t.customer_id s.customers h.0.customer h.0.has_customer,
        has-find LoadedPool.id t.pool_id s.pools h.0.pool h.0.has_pool,
      )
      (ap (λ z. t ∷ z) (listed s b none ts h.1))
listed s b (some p) (t ∷ ts) h = elim (Bool-cases (t.pool_id == p)) [
  | inl own ↦
      let (r, rest) : IsReady s b t × All (IsReady s b) (of_pool (some p) ts) = rw own at h in
      rw
        (
          has-find Customer.id t.customer_id s.customers r.customer r.has_customer,
          has-find LoadedPool.id t.pool_id s.pools r.pool r.has_pool,
          own,
        )
        (ap (λ z. t ∷ z) (listed s b (some p) ts rest))
  | inr other ↦
      let same = listed s b (some p) ts (rw other at h) in
      elim (Bool-cases
        (has Customer.id t.customer_id s.customers && has LoadedPool.id t.pool_id s.pools)) [
          | inl there ↦ rw (there, other) same
          | inr gone ↦ rw (gone, other) same
        ]
]

-- While no call of the database or of a service fails, LoadTenancies returns no error, and afterwards
-- the manager has every tenancy of the table that is in the self pool, or every one without a self
-- pool, by its identifier with its data, where the identifiers are unique, and each of these tenancies
-- has a customer, an active pool and a database with its row.
pub load_tenancies-IsLoaded :
    (self : Option String) (m : Manager)
    → m.store.faults ≡ []
    → IsUnique Tenancy.id m.store.tenancies
    → All (IsReady m.store m.belongs) (of_pool self m.store.tenancies)
    → ((load_tenancies self m).0 ≡ ok tt)
      × All (IsLoaded (load_tenancies self m).1) (of_pool self m.store.tenancies)
unfolding load_tenancies
load_tenancies-IsLoaded self m f u h =
    let ts = of_pool self m.store.tenancies in
    let n = record m { store = record m.store { faults = [] } } in
    let ready = moved-All m.store n.store m.belongs n.belongs ts refl refl refl h in
    rw (f, listed n.store n.belongs self m.store.tenancies ready)
      (load_each_lem ts n refl (moved-All m.store n.store m.belongs n.belongs ts refl refl refl h)
        (of_pool-IsUnique self m.store.tenancies u))
