-- ===== src/Pubsub/Pools/Laws.antt =====
-- Which pools have a publisher and a subscriber.
use go_backend_helpers.Prelude.{
  String, ◌≡◌, refl, inl, inr, false, Option, none, some, [], ◌∷◌, ◌==◌, if◌then◌else◌, arith,
  eq_iff, Dict, lookup, insert, lookup-insert, Bool-cases, ◌∙◌, ap, sym,
}
use go_backend_helpers.Table.{has}
use go_backend_helpers.Effects.{Result, ok, err, Result-cases}
use go_backend_helpers.Pool.Bindings.{PoolServiceBinding}
use go_backend_helpers.Pool.Loading.{IsById}
use go_backend_helpers.Pool.Stores.{Loaded, PoolStore, service}
use go_backend_helpers.Pubsub.Pools.{
  State, Services, PoolPubsub, new_pubsub, make_publisher, make_subscriber, connect_pool,
  connect_pools, init,
}

abbrev made : Result String → Option String
made (ok h) = some h
made (err e) = none

abbrev of_service : (PoolServiceBinding → Result String) → Result PoolServiceBinding → Option String
of_service f (ok b) = if b.active then made (f b) else none
of_service f (err e) = none

-- What an active pool with an active service of the role "pubsub" is connected by.
abbrev pub connection : (PoolServiceBinding → Result String) → Option Loaded → Option String
connection f none = none
connection f (some l) = if l.0.active then of_service f (service "pubsub" l) else none

abbrev put : String → Option String → Dict String → Dict String
put k none d = d
put k (some h) d = insert k h d

abbrev over : Option String → Option String → Option String
over none x = x
over (some h) x = some h

over-none : (x : Option String) → over x none ≡ x
over-none none = refl
over-none (some h) = refl

lookup-put :
    (k id : String) (o : Option String) (d : Dict String)
    → lookup id (put k o d) ≡ (if k == id then over o (lookup id d) else lookup id d)
lookup-put k id none d = ground arith
lookup-put k id (some h) d = lookup-insert k id h d

connect_pool_lem :
    (v : Services) (l : Loaded) (s : State)
    → (connect_pool v l s).0 ≡ ok tt
    → ((connect_pool v l s).1.pubsub.publishers
        ≡ put l.0.id (connection v.make_publisher (some l)) s.pubsub.publishers)
      × ((connect_pool v l s).1.pubsub.subscribers
          ≡ put l.0.id (connection v.make_subscriber (some l)) s.pubsub.subscribers)
unfolding connect_pool make_publisher make_subscriber
connect_pool_lem v l s h = ground arith

lookup-has :
    (id : String) (d : Dict Loaded)
    → has (λ (e : String × Loaded). e.0) id d ≡ false
    → lookup id d ≡ none
unfolding lookup has
lookup-has id [] h = refl
lookup-has id ((k, l) ∷ d) h = ground (arith, lookup-has id d)

-- A map of connections after one pool, and after the others.
connected :
    (f : PoolServiceBinding → Result String) (id k : String) (l : Loaded) (rest : Dict Loaded)
    (old new last : Dict String)
    → l.0.id ≡ k
    → has (λ (e : String × Loaded). e.0) k rest ≡ false
    → new ≡ put l.0.id (connection f (some l)) old
    → lookup id last ≡ over (connection f (lookup id rest)) (lookup id new)
    → lookup id last ≡ over (connection f (lookup id ((k, l) ∷ rest))) (lookup id old)
unfolding lookup
connected f id k l rest old new last same once step after =
    let new_lem : lookup id new
        ≡ (if k == id then over (connection f (some l)) (lookup id old) else lookup id old) =
      ap (λ z. lookup id z) step
      ∙ lookup-put l.0.id id (connection f (some l)) old
      ∙ ap (λ z. if z == id then over (connection f (some l)) (lookup id old) else lookup id old)
          same in
    elim (Bool-cases (k == id)) [
      | inl t ↦
          let gone : lookup id rest ≡ none = lookup-has id rest (rw ((eq_iff k id).0 t) at once) in
          let here : lookup id last ≡ lookup id new = rw gone at after in
          rw t (here ∙ (rw t at new_lem))
      | inr t ↦ rw t (after ∙ ap (λ z. over (connection f (lookup id rest)) z) (rw t at new_lem))
    ]

connect_pools_lem :
    (v : Services) (id : String) (d : Dict Loaded) (s : State)
    → IsById d
    → (connect_pools v d s).0 ≡ ok tt
    → (lookup id (connect_pools v d s).1.pubsub.publishers
        ≡ over (connection v.make_publisher (lookup id d)) (lookup id s.pubsub.publishers))
      × (lookup id (connect_pools v d s).1.pubsub.subscribers
          ≡ over (connection v.make_subscriber (lookup id d)) (lookup id s.pubsub.subscribers))
unfolding connect_pools lookup
connect_pools_lem v id [] s u h = (refl, refl)
connect_pools_lem v id ((k, l) ∷ rest) s u h = elim (Result-cases (connect_pool v l s).0) [
  | inl (e, x) ↦ cc (rw x at h)
  | inr (a, x) ↦
      let n = (connect_pool v l s).1 in
      let (p, q) = connect_pool_lem v l s x in
      let (p', q') = connect_pools_lem v id rest n (u.0.1, u.1.1) (rw x at h) in
      rw x (
        connected v.make_publisher id k l rest s.pubsub.publishers n.pubsub.publishers
            (connect_pools v rest n).1.pubsub.publishers (u.1.0) (u.0.0) p p',
        connected v.make_subscriber id k l rest s.pubsub.subscribers n.pubsub.subscribers
            (connect_pools v rest n).1.pubsub.subscribers (u.1.0) (u.0.0) q q',
      )
]

-- After a successful Init without a self pool, of an object that is new, over pools that stand under
-- their own identifiers: a pool has a publisher exactly when it is active and has an active service of
-- the role "pubsub", and then it is the one that the factory makes for this service; the same holds
-- of its subscriber.
pub init-connection :
    (v : Services) (store : PoolStore) (s : State) (id : String)
    → store.self_pool ≡ none
    → IsById store.pools_by_id
    → s.pubsub ≡ new_pubsub
    → (init v store s).0 ≡ ok tt
    → (lookup id (init v store s).1.pubsub.publishers
        ≡ connection v.make_publisher (lookup id store.pools_by_id))
      × (lookup id (init v store s).1.pubsub.subscribers
          ≡ connection v.make_subscriber (lookup id store.pools_by_id))
unfolding init lookup
init-connection v store s id e u n h =
    let start : (init v store s) ≡ connect_pools v store.pools_by_id s = rw e refl in
    let (p, q) = connect_pools_lem v id store.pools_by_id s u (ap (λ z. z.0) (sym start) ∙ h) in
    (
      ap (λ (z : Result (Unit {0}) × State). lookup id z.1.pubsub.publishers) start
          ∙ p
          ∙ ap
              (λ (z : PoolPubsub).
                over (connection v.make_publisher (lookup id store.pools_by_id))
                  (lookup id z.publishers))
              n
          ∙ over-none (connection v.make_publisher (lookup id store.pools_by_id)),
      ap (λ (z : Result (Unit {0}) × State). lookup id z.1.pubsub.subscribers) start
          ∙ q
          ∙ ap
              (λ (z : PoolPubsub).
                over (connection v.make_subscriber (lookup id store.pools_by_id))
                  (lookup id z.subscribers))
              n
          ∙ over-none (connection v.make_subscriber (lookup id store.pools_by_id)),
    )
