-- ===== src/Pubsub/Pools/Calls.antt =====
-- What PoolPubsubBase of pkg/pubsub/pool_pubsub/pool_pubsub.go does with its publishers and subscribers:
-- messages, subscriptions and the shutdown.
use Prim.Native.String.{◌++◌ as ◌<>◌}
use go_backend_helpers.Prelude.{
  ℕ, ◌+◌, String, Option, none, some, List, [], ◌∷◌, ◌++◌, Dict, lookup, insert,
}
use go_backend_helpers.Effects.{ok, ◌>>=◌, ◌>>◌, pure, fail, gets}
use go_backend_helpers.Pubsub.Pools.{
  Event, published, subscribed, unsubscribed, shut_down, State, Op, Services,
}

module _ (v : Services) where
  -- The next call, with its error, if any.
  abbrev pub invoke : Event → Op (Option String)
  invoke e s = (ok (v.error_of s.calls), record s { log = s.log ++ e ∷ []; calls = s.calls + 1 })

  abbrev later_error : Option String → Option String → Option String
  later_error last none = last
  later_error last (some e) = some e

  -- `Shutdown`: the last error, after all calls
  abbrev shut : Option String → Option String → Op (Option String)
  shut last none = pure last
  shut last (some h) = do e ← invoke (shut_down h); pure (later_error last e)

  unfoldable pub shut_all : Option String → Dict String → Op (Option String)
  shut_all last [] = pure last
  shut_all last ((id, h) ∷ rest) = do last' ← shut last (some h); shut_all last' rest

  unfoldable pub shutdown : Op (Option String)
  shutdown = do
    p ← gets (λ s. s.pubsub)
    first ← shut none p.self_pool_publisher
    second ← shut first p.self_pool_subscriber
    shut_all second p.publishers

  abbrev fail_with : String → Option String → Op (Unit {0})
  fail_with message none = pure tt
  fail_with message (some e) = fail message

  abbrev publish_to : String → String → String → String → Op (Unit {0})
  publish_to topic msg id h = do
    e ← invoke (published h topic msg)
    fail_with ("failed to publish to " <> (id <> " pool")) e

  -- The loops of `PublishPools`
  unfoldable pub publish_all : String → String → Dict String → Op (Unit {0})
  publish_all topic msg [] = pure tt
  publish_all topic msg ((id, h) ∷ rest) = publish_to topic msg id h >> publish_all topic msg rest

  abbrev publish_known : String → String → String → Option String → Op (Unit {0})
  publish_known topic msg id none = pure tt
  publish_known topic msg id (some h) = publish_to topic msg id h

  unfoldable pub publish_each : String → String → List String → Op (Unit {0})
  publish_each topic msg [] = pure tt
  publish_each topic msg (id ∷ ids) = do
    h ← gets (λ s. lookup id s.pubsub.publishers)
    publish_known topic msg id h
    publish_each topic msg ids

  -- `PublishPools`: no identifiers stand for all pools.
  unfoldable pub publish_pools : String → String → List String → Op (Unit {0})
  publish_pools topic msg [] = do
    publishers ← gets (λ s. s.pubsub.publishers)
    publish_all topic msg publishers
  publish_pools topic msg (id ∷ ids) = publish_each topic msg (id ∷ ids)

  abbrev returned : Option String → Op (Unit {0})
  returned none = pure tt
  returned (some e) = fail e

  abbrev publish_by : String → String → Option String → Op (Unit {0})
  publish_by topic msg none = fail "self publisher not set"
  publish_by topic msg (some h) = do e ← invoke (published h topic msg); returned e

  -- `PublishSelfPool`
  unfoldable pub publish_self_pool : String → String → Op (Unit {0})
  publish_self_pool topic msg = do
    h ← gets (λ s. s.pubsub.self_pool_publisher)
    publish_by topic msg h

  abbrev subscribe_by : Option String → ℕ → Op String
  subscribe_by none n = pure (v.subscription_id n)
  subscribe_by (some e) n = fail e

  -- A subscriber's `Subscribe`, with the identifier that it gives
  unfoldable pub subscribe : String → String → Op String
  subscribe topic h = do n ← gets (λ s. s.calls); e ← invoke (subscribed h topic); subscribe_by e n

  abbrev subscribe_with : String → Option String → Op String
  subscribe_with topic none = fail "self pool subscriber not set"
  subscribe_with topic (some h) = subscribe topic h

  -- `SubscribeSelfPool`
  unfoldable pub subscribe_self_pool : String → Op String
  subscribe_self_pool topic = do
    h ← gets (λ s. s.pubsub.self_pool_subscriber)
    subscribe_with topic h

  -- The loops of `SubscribePools`
  unfoldable pub subscribe_all : String → Dict String → Dict String → Op (Dict String)
  subscribe_all topic [] ids = pure ids
  subscribe_all topic ((pool_id, h) ∷ rest) ids = do
    id ← subscribe topic h
    subscribe_all topic rest (insert pool_id id ids)

  abbrev subscribe_known : String → String → Option String → Dict String → Op (Dict String)
  subscribe_known topic pool_id none ids = pure ids
  subscribe_known topic pool_id (some h) ids = do
    id ← subscribe topic h
    pure (insert pool_id id ids)

  unfoldable pub subscribe_each : String → List String → Dict String → Op (Dict String)
  subscribe_each topic [] ids = pure ids
  subscribe_each topic (pool_id ∷ rest) ids = do
    h ← gets (λ s. lookup pool_id s.pubsub.subscribers)
    ids' ← subscribe_known topic pool_id h ids
    subscribe_each topic rest ids'

  -- `SubscribePools`: the subscriptions by pool
  unfoldable pub subscribe_pools : String → List String → Op (Dict String)
  subscribe_pools topic [] = do
    subscribers ← gets (λ s. s.pubsub.subscribers)
    subscribe_all topic subscribers []
  subscribe_pools topic (id ∷ ids) = subscribe_each topic (id ∷ ids) []

-- A call of `Unsubscribe`, which returns nothing
abbrev pub unsubscribe : String → Option String → State → State
unsubscribe topic none s = s
unsubscribe topic (some h) s = record s {
  log = s.log ++ unsubscribed h topic ∷ [];
  calls = s.calls + 1;
}

-- `UnsubscribeSelfPool`
unfoldable pub unsubscribe_self_pool : String → State → State
unsubscribe_self_pool topic s = unsubscribe topic s.pubsub.self_pool_subscriber s

-- The loops of `UnsubscribePools`
unfoldable pub unsubscribe_all : String → Dict String → State → State
unsubscribe_all topic [] s = s
unsubscribe_all topic ((id, h) ∷ rest) s = unsubscribe_all topic rest (unsubscribe topic (some h) s)

unfoldable pub unsubscribe_each : String → List String → State → State
unsubscribe_each topic [] s = s
unsubscribe_each topic (id ∷ ids) s =
    unsubscribe_each topic ids (unsubscribe topic (lookup id s.pubsub.subscribers) s)

-- `UnsubscribePools`
unfoldable pub unsubscribe_pools : String → List String → State → State
unsubscribe_pools topic [] s = unsubscribe_all topic s.pubsub.subscribers s
unsubscribe_pools topic (id ∷ ids) s = unsubscribe_each topic (id ∷ ids) s
