-- ===== src/Pubsub.antt =====
-- Subscribers of messages, pkg/pubsub/pubsub_subscriber: the topics that a SubscriberBase has by name
-- (subscriber.go) and the clients of a topic (topic.go). Topics are shared objects: the heap has them
-- by reference. A client handles a message outside of this code; the log has what each client got.
pub mod Pools
pub mod Laws
mod Tests
use go_backend_helpers.Prelude.{
  ℕ, ◌+◌, String, Bool, true, false, Option, none, some, List, [], ◌∷◌, ◌++◌, Dict, lookup, insert,
  erase,
}
use go_backend_helpers.Effects.{Act, Result, ok, err, ◌>>=◌, ◌>>◌, pure, fail, choose, gets, modify}

-- `TopicBase`, with the names of its clients
pub record Topic : Type 0 where
  pub name : String
  pub subscribers : Dict (Unit {0})

-- The topics by reference; `SubscriberBase.topics` with references by name and subscription.
pub record State : Type 0 where
  pub heap : Dict Topic
  pub topics : Dict (Dict String)
  pub next_id : ℕ
  pub delivered : List (String × String)

abbrev pub Op : Type 0 → Type 0
Op A = Act State A

-- The random identifiers of subscriptions, and what a topic's message is parsed to.
pub record Services : Type 0 where
  pub random_id : ℕ → String
  pub parse_message : String → String → Option String

-- `New` of a topic
abbrev pub new_topic : String → Topic
new_topic name = record { name = name; subscribers = [] }

abbrev at_topic : (Topic → Topic) → String → Option Topic → Dict Topic → Dict Topic
at_topic f ref none heap = heap
at_topic f ref (some t) heap = insert ref (f t) heap

abbrev change_topic : String → (Topic → Topic) → State → State
change_topic ref f s = record s { heap = at_topic f ref (lookup ref s.heap) s.heap }

-- `TopicBase.Subscribe`, `TopicBase.Unsubscribe`
unfoldable pub subscribe_client : String → String → State → State
subscribe_client ref client =
    change_topic ref (λ t. record t { subscribers = insert client tt t.subscribers })

unfoldable pub unsubscribe_client : String → String → State → State
unsubscribe_client ref client =
    change_topic ref (λ t. record t { subscribers = erase client t.subscribers })

-- One delivery to each client; an error of a client is logged as a warning.
unfoldable pub deliveries : String → Dict (Unit {0}) → List (String × String)
deliveries msg [] = []
deliveries msg ((client, _) ∷ rest) = (client, msg) ∷ deliveries msg rest

abbrev clients_of : Option Topic → Dict (Unit {0})
clients_of none = []
clients_of (some t) = t.subscribers

abbrev deliver : Option String → Dict (Unit {0}) → Op (Unit {0})
deliver none clients = fail "failed to unmarshal message"
deliver (some msg) clients =
    modify (λ s. record s { delivered = s.delivered ++ deliveries msg clients })

-- `TopicBase.Handle`
unfoldable pub handle_topic : Services → String → String → Op (Unit {0})
handle_topic v ref msg s = deliver (v.parse_message ref msg) (clients_of (lookup ref s.heap)) s

abbrev pub or_empty : {A : Type 0} → Option (Dict A) → Dict A
or_empty none = []
or_empty (some d) = d

-- `SubscriberBase.Handle`: the topics in order, up to an error
unfoldable pub handle_topics : Services → String → Dict String → Op (Unit {0})
handle_topics v msg [] = pure tt
handle_topics v msg ((id, ref) ∷ rest) = handle_topic v ref msg >> handle_topics v msg rest

unfoldable pub handle : Services → String → String → Op (Unit {0})
handle v name msg s = handle_topics v msg (or_empty (lookup name s.topics)) s

abbrev name_of : Option Topic → String
name_of none = ""
name_of (some t) = t.name

-- `AddTopic`
unfoldable pub add_topic : Services → String → State → String × State
add_topic v ref s =
    let id = v.random_id s.next_id in
    let name = name_of (lookup ref s.heap) in
    (
      id,
      record s {
        next_id = s.next_id + 1;
        topics = insert name (insert id ref (or_empty (lookup name s.topics))) s.topics;
      },
    )

-- What is left of a name: the result tells whether it is gone.
abbrev put_back : String → Dict String → State → Bool × State
put_back name [] s = (true, record s { topics = erase name s.topics })
put_back name (t ∷ ts) s = (false, record s { topics = insert name (t ∷ ts) s.topics })

abbrev without : String → String → Option (Dict String) → State → Bool × State
without name id none s = (true, s)
without name id (some topics) s = put_back name (erase id topics) s

-- `DeleteTopic`, of a name or of one subscription
unfoldable pub delete_topic : String → Option String → State → Bool × State
delete_topic name none s = (true, record s { topics = erase name s.topics })
delete_topic name (some id) s = without name id (lookup name s.topics) s
