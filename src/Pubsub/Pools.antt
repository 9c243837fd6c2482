-- ===== src/Pubsub/Pools.antt =====
-- Publishers and subscribers of pools, PoolPubsubBase of pkg/pubsub/pool_pubsub/pool_pubsub.go, over the
-- pools that a PoolStore has loaded. The factory is given from outside, and so are the answers of
-- publishers and subscribers, which stand here by name; the log has the calls of them in order, and
-- maps are gone through in the order of their entries.
pub mod Calls
pub mod Laws
pub mod Restart
use go_backend_helpers.Prelude.{
  ℕ, String, Bool, true, false, Option, none, some, List, [], ◌∷◌, Dict, insert,
}
use go_backend_helpers.Effects.{Act, Result, ◌>>=◌, ◌>>◌, pure, choose, modify}
use go_backend_helpers.Pool.Bindings.{PoolServiceBinding}
use go_backend_helpers.Pool.Stores.{Loaded, PoolStore, service}

-- Calls of publishers and subscribers
pub data Event : Type 0 where
  published : String → String → String → Event
  subscribed : String → String → Event
  unsubscribed : String → String → Event
  shut_down : String → Event

-- `PoolPubsubBase`
pub record PoolPubsub : Type 0 where
  pub self_pool_subscriber : Option String
  pub publishers : Dict String
  pub self_pool_publisher : Option String
  pub subscribers : Dict String

-- With the log, and the number of calls that were made
pub record State : Type 0 where
  pub pubsub : PoolPubsub
  pub log : List Event
  pub calls : ℕ

abbrev pub Op : Type 0 → Type 0
Op A = Act State A

-- `PubsubFactory`, the error of a call, if any, and the identifier of a subscription, by its number.
pub record Services : Type 0 where
  pub make_publisher : PoolServiceBinding → Result String
  pub make_subscriber : PoolServiceBinding → Result String
  pub error_of : ℕ → Option String
  pub subscription_id : ℕ → String

abbrev pub change : (PoolPubsub → PoolPubsub) → Op (Unit {0})
change f = modify (λ s. record s { pubsub = f s.pubsub })

abbrev lift : {A : Type 0} → Result A → Op A
lift r s = (r, s)

-- `NewPubsub`
abbrev pub new_pubsub : PoolPubsub
new_pubsub = record {
  self_pool_subscriber = none;
  publishers = [];
  self_pool_publisher = none;
  subscribers = [];
}

module _ (v : Services) where
  -- `makePublisher`: the publisher of an active service, with the service for the subscriber
  abbrev connect_publisher : Loaded → PoolServiceBinding → Op (Option (String × PoolServiceBinding))
  connect_publisher l b = do
    publisher ← lift (v.make_publisher b)
    change (λ p. record p { publishers = insert l.0.id publisher p.publishers })
    pure (some (publisher, b))

  unfoldable pub make_publisher : Loaded → Op (Option (String × PoolServiceBinding))
  make_publisher l = do
    b ← lift (service "pubsub" l)
    choose b.active (connect_publisher l b) (pure none)

  -- `makeSubscriber`
  unfoldable pub make_subscriber : Loaded → PoolServiceBinding → Op String
  make_subscriber l b = do
    subscriber ← lift (v.make_subscriber b)
    change (λ p. record p { subscribers = insert l.0.id subscriber p.subscribers })
    pure subscriber

  abbrev subscribe_pool : Loaded → Option (String × PoolServiceBinding) → Op (Unit {0})
  subscribe_pool l none = pure tt
  subscribe_pool l (some (publisher, b)) = make_subscriber l b >> pure tt

  -- The loop of `Init` over the pools
  unfoldable pub connect_pool : Loaded → Op (Unit {0})
  connect_pool l = choose l.0.active (make_publisher l >>= subscribe_pool l) (pure tt)

  unfoldable pub connect_pools : Dict Loaded → Op (Unit {0})
  connect_pools [] = pure tt
  connect_pools ((id, l) ∷ rest) = connect_pool l >> connect_pools rest

  abbrev subscribe_self : Loaded → Option (String × PoolServiceBinding) → Op (Unit {0})
  subscribe_self l none = pure tt
  subscribe_self l (some (publisher, b)) = do
    change (λ p. record p { self_pool_publisher = some publisher; self_pool_subscriber = none })
    subscriber ← make_subscriber l b
    change (λ p. record p { self_pool_subscriber = some subscriber })

  unfoldable pub connect_self : Loaded → Op (Unit {0})
  connect_self l = do
    change (λ p. record p { self_pool_publisher = none })
    publisher ← make_publisher l
    subscribe_self l publisher

  abbrev connect : PoolStore → Option Loaded → Op (Unit {0})
  connect store none = connect_pools store.pools_by_id
  connect store (some l) = choose l.0.active (connect_self l) (pure tt)

  -- `Init`
  unfoldable pub init : PoolStore → Op (Unit {0})
  init store = connect store store.self_pool
