-- ===== src/Pubsub/Pools/Restart.antt =====
-- A process that starts after a pool was deactivated: DeactivatePool of pkg/pool/pool_controller.go, then
-- Init of pkg/pool/pool_store.go and of pkg/pubsub/pool_pubsub/pool_pubsub.go.
use go_backend_helpers.Prelude.{
  String, ◌≡◌, refl, inl, inr, Bool, true, false, none, some, List, [], ◌∷◌, ◌==◌, arith, lookup,
  All, Bool-cases, ap, sym, ◌∙◌,
}
use mathlib.Core.Path.{subst}
use go_backend_helpers.Table.{find, update_at, IsUnique}
use go_backend_helpers.Table.Laws.{update_at-IsUnique}
use go_backend_helpers.Table.Searches.{find-update_at}
use go_backend_helpers.Effects.{ok, is_ok}
use go_backend_helpers.Pool.Store.{Pool, Db, pool_field, op_log}
use go_backend_helpers.Pool.Controller.{
  update_pool, update_pool_row, set_active, deactivate_pool, find_update_pool, find_pool,
}
use go_backend_helpers.Pool.Stores
use go_backend_helpers.Pool.Stores.{PoolStore, new_pool_store}
use go_backend_helpers.Pool.Loading.{
  find_by, HasId, IsById, services_of, quiet, keep_all, keep_all_lem, keep_all-IsById,
  keep_all-self_pool, init_lem,
}
use go_backend_helpers.Pubsub.Pools
use go_backend_helpers.Pubsub.Pools.{Services, new_pubsub}
use go_backend_helpers.Pubsub.Pools.Laws.{connection, init-connection}

deactivated :
    (by_name : Bool) (id : String) (p : Pool) (db : Db)
    → find (pool_field by_name) id db.pools ≡ some p
    → is_ok (deactivate_pool by_name id db).0 ≡ true
    → (deactivate_pool by_name id db).1.pools
      ≡ update_at Pool.id p.id (update_pool_row (set_active false)) db.pools
unfolding deactivate_pool update_pool find_update_pool find_pool op_log
deactivated by_name id p db e h = ground arith

kept_id : (p : Pool) → (update_pool_row (set_active false) p).id ≡ p.id
unfolding update_pool_row
kept_id p = refl

update_at-HasId :
    (k : String) (ps : List Pool)
    → All HasId ps
    → All HasId (update_at Pool.id k (update_pool_row (set_active false)) ps)
unfolding update_at update_pool_row
update_at-HasId k [] h = tt
update_at-HasId k (p ∷ ps) h = elim (Bool-cases (p.id == k)) [
  | inl t ↦ rw t (h.0, update_at-HasId k ps h.1)
  | inr t ↦ rw t (h.0, update_at-HasId k ps h.1)
]

module _ (by_name : Bool) (id : String) (p : Pool) (db : Db) (unique : IsUnique Pool.id db.pools)
    (ids : All HasId db.pools) (has_pool : find (pool_field by_name) id db.pools ≡ some p)
    (done : is_ok (deactivate_pool by_name id db).0 ≡ true) where
  abbrev pub after : Db
  after = (deactivate_pool by_name id db).1

  -- The pools as the next process loads them.
  abbrev pub loaded : PoolStore
  loaded = (Stores.init (some "") (quiet after new_pool_store)).1.store

  abbrev kept : PoolStore
  kept = keep_all (record after { faults = [] }) after.pools new_pool_store

  abbrev inactive : Pool
  inactive = update_pool_row (set_active false) p

  loaded_lem : loaded ≡ kept
  loaded_lem =
      let pools = deactivated by_name id p db has_pool done in
      ap (λ z. z.1.store)
        (init_lem after new_pool_store (rw pools (update_at-HasId p.id db.pools ids)))

  found :
      lookup p.id kept.pools_by_id
      ≡ some (inactive, services_of (record after { faults = [] }) inactive)
  found =
      let pools = deactivated by_name id p db has_pool done in
      let here = find_by Pool.id (pool_field by_name) id db.pools p unique has_pool in
      keep_all_lem (record after { faults = [] }) p.id inactive after.pools new_pool_store
        (rw pools (
          update_at-IsUnique Pool.id Pool.id p.id (update_pool_row (set_active false)) db.pools
            kept_id unique))
        (rw pools (
          find-update_at Pool.id Pool.id p.id (update_pool_row (set_active false)) db.pools p
            kept_id here))

  -- After a successful DeactivatePool, a process that loads its pools without a self pool, while no call
  -- of this fails, and then connects to them without an error, has neither a publisher nor a subscriber
  -- of the pool, where the identifiers of pools are unique and none is empty.
  pub init-deactivate_pool :
      (v : Services) (s : Pools.State)
      → s.pubsub ≡ new_pubsub
      → (Pools.init v loaded s).0 ≡ ok tt
      → (lookup p.id (Pools.init v loaded s).1.pubsub.publishers ≡ none)
        × (lookup p.id (Pools.init v loaded s).1.pubsub.subscribers ≡ none)
  unfolding update_pool_row
  init-deactivate_pool v s n h =
      let self : loaded.self_pool ≡ none =
        ap PoolStore.self_pool loaded_lem
        ∙ keep_all-self_pool (record after { faults = [] }) after.pools new_pool_store in
      let by_id : IsById loaded.pools_by_id =
        subst (λ z. IsById z.pools_by_id) (sym loaded_lem)
          (keep_all-IsById (record after { faults = [] }) after.pools new_pool_store (tt, tt)) in
      let here : lookup p.id loaded.pools_by_id
          ≡ some (inactive, services_of (record after { faults = [] }) inactive) =
        ap (λ (z : PoolStore). lookup p.id z.pools_by_id) loaded_lem ∙ found in
      let (publishers, subscribers) = init-connection v loaded s p.id self by_id n h in
      (
        publishers ∙ ap (connection v.make_publisher) here,
        subscribers ∙ ap (connection v.make_subscriber) here,
      )
