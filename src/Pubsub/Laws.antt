-- ===== src/Pubsub/Laws.antt =====
-- What subscribers get, and which topics are left.
use go_backend_helpers.Prelude.{
  String, ◌≡◌, ◌≢◌, refl, ◌⊎◌, inl, inr, ◌↔◌, true, false, Option, none, some, List, [], ◌∷◌, ◌++◌,
  ◌==◌, Dict, lookup, insert, erase, lookup-insert, lookup-erase, eq_iff, eq_refl, Bool-cases,
  Option-cases, All, sym, ap, ◌∙◌, is_some,
}
use mathlib.Core.List.{append_assoc, append-nil}
use go_backend_helpers.Effects.{ok}
use go_backend_helpers.Pubsub.{
  Topic, State, Services, deliveries, handle_topic, handle_topics, handle, add_topic, delete_topic,
  subscribe_client, or_empty, clients_of, put_back,
}

abbrev deliveries_of : Option String → Dict (Unit {0}) → List (String × String)
deliveries_of none clients = []
deliveries_of (some msg) clients = deliveries msg clients

-- The deliveries of a message to all clients of some topics.
unfoldable pub all_deliveries :
    Services → String → Dict Topic → Dict String → List (String × String)
all_deliveries v msg heap [] = []
all_deliveries v msg heap ((id, ref) ∷ rest) =
    deliveries_of (v.parse_message ref msg) (clients_of (lookup ref heap))
    ++ all_deliveries v msg heap rest

-- Every topic of the list can parse the message.
abbrev pub AllParse : Services → String → Dict String → Type 0
AllParse v msg refs = All (λ (e : String × String). is_some (v.parse_message e.1 msg) ≡ true) refs

handle_topics_lem :
    (v : Services) (msg : String) (refs : Dict String) (s : State)
    → AllParse v msg refs
    → handle_topics v msg refs s
      ≡ (ok tt, record s { delivered = s.delivered ++ all_deliveries v msg s.heap refs })
unfolding handle_topics all_deliveries handle_topic
handle_topics_lem v msg [] s h = rw (append-nil s.delivered) refl
handle_topics_lem v msg ((id, ref) ∷ refs) s h = elim (Option-cases (v.parse_message ref msg)) [
  | inl e ↦ cc (rw e at (h.0))
  | inr (m, e) ↦
      let first = deliveries m (clients_of (lookup ref s.heap)) in
      rw e (
        handle_topics_lem v msg refs (record s { delivered = s.delivered ++ first }) h.1
        ∙ ap (λ z. (ok tt, record s { delivered = z }))
            (append_assoc s.delivered first (all_deliveries v msg s.heap refs)))
]

abbrev pub IsIn : String × String → List (String × String) → Type 0
IsIn x [] = ⊥
IsIn x (y ∷ ys) = (x ≡ y) ⊎ IsIn x ys

IsIn-left : (x : String × String) (xs ys : List (String × String)) → IsIn x xs → IsIn x (xs ++ ys)
IsIn-left x [] ys h = absurd h
IsIn-left x (y ∷ xs) ys (inl e) = inl e
IsIn-left x (y ∷ xs) ys (inr h) = inr (IsIn-left x xs ys h)

IsIn-right : (x : String × String) (xs ys : List (String × String)) → IsIn x ys → IsIn x (xs ++ ys)
IsIn-right x [] ys h = h
IsIn-right x (y ∷ xs) ys h = inr (IsIn-right x xs ys h)

client_delivery :
    (client msg : String) (d : Dict (Unit {0}))
    → lookup client d ≡ some tt
    → IsIn (client, msg) (deliveries msg d)
unfolding lookup deliveries
client_delivery client msg [] e = cc e
client_delivery client msg ((c, u) ∷ d) e = elim (Bool-cases (c == client)) [
  | inl t ↦ inl (ap (λ z. (z, msg)) (sym ((eq_iff c client).0 t)))
  | inr t ↦ inr (client_delivery client msg d (rw t at e))
]

topic_delivery :
    (v : Services) (msg m id ref client : String) (heap : Dict Topic) (t : Topic) (d : Dict String)
    → lookup id d ≡ some ref
    → v.parse_message ref msg ≡ some m
    → lookup ref heap ≡ some t
    → lookup client t.subscribers ≡ some tt
    → IsIn (client, m) (all_deliveries v msg heap d)
unfolding lookup all_deliveries
topic_delivery v msg m id ref client heap t [] e p h c = cc e
topic_delivery v msg m id ref client heap t ((j, r) ∷ d) e p h c = elim (Bool-cases (j == id)) [
  | inl q ↦
      let same : r ≡ ref = cc (rw q at e) in
      IsIn-left (client, m) _ (all_deliveries v msg heap d)
        (rw (same, p, h) (client_delivery client m t.subscribers c))
  | inr q ↦
      IsIn-right (client, m) (deliveries_of (v.parse_message r msg) (clients_of (lookup r heap))) _
        (topic_delivery v msg m id ref client heap t d (rw q at e) p h c)
]

module _ (v : Services) (ref client msg m : String) (s : State) (t : Topic)
    (known : lookup ref s.heap ≡ some t) where
  -- The topic is added, and then gets the client.
  abbrev pub ready : State
  ready = subscribe_client ref client (add_topic v ref s).1

  abbrev refs : Dict String
  refs = insert (v.random_id s.next_id) ref (or_empty (lookup t.name s.topics))

  ready-topics : lookup t.name ready.topics ≡ some refs
  unfolding add_topic subscribe_client
  ready-topics = rw known (lookup-insert t.name t.name refs s.topics ∙ rw (eq_refl t.name) refl)

  ready-heap :
      lookup ref ready.heap ≡ some (record t { subscribers = insert client tt t.subscribers })
  unfolding add_topic subscribe_client
  ready-heap = rw known (
      lookup-insert ref ref (record t { subscribers = insert client tt t.subscribers }) s.heap
      ∙ rw (eq_refl ref) refl)

  -- A client that subscribes to a topic after the topic was added to the subscriber gets a message
  -- for the topic's name, as the topic parses it, when all topics of the name can parse it; the
  -- handling returns no error.
  pub handle-subscribe_client :
      AllParse v msg refs
      → v.parse_message ref msg ≡ some m
      → ((handle v t.name msg ready).0 ≡ ok tt)
        × IsIn (client, m) (handle v t.name msg ready).1.delivered
  unfolding handle
  handle-subscribe_client h p =
      let done : handle_topics v msg refs ready ≡ (
        ok tt,
        record ready { delivered = ready.delivered ++ all_deliveries v msg ready.heap refs },
      ) =
        handle_topics_lem v msg refs ready h in
      let got =
        topic_delivery v msg m (v.random_id s.next_id) ref client ready.heap
          (record t { subscribers = insert client tt t.subscribers }) refs
          (lookup-insert (v.random_id s.next_id) (v.random_id s.next_id) ref
              (or_empty (lookup t.name s.topics))
            ∙ rw (eq_refl (v.random_id s.next_id)) refl)
          p ready-heap (lookup-insert client client tt t.subscribers ∙ rw (eq_refl client) refl) in
      rw (ready-topics, done) (refl, IsIn-right (client, m) ready.delivered _ got)

other_name : (n m : String) → n ≢ m → (n == m) ≡ false
other_name n m h = elim (Bool-cases (n == m)) [ inl e ↦ absurd (h ((eq_iff n m).0 e)) | inr e ↦ e ]

put_back_lem :
    (n other : String) (d : Dict String) (s : State)
    → n ≢ other
    → (((put_back n d s).0 ≡ true) ↔ (lookup n (put_back n d s).1.topics ≡ none))
      × (lookup other (put_back n d s).1.topics ≡ lookup other s.topics)
put_back_lem n other [] s h = (
  (λ _. lookup-erase n n s.topics ∙ rw (eq_refl n) refl, λ _. refl),
  lookup-erase n other s.topics ∙ rw (other_name n other h) refl,
)
put_back_lem n other (t ∷ ts) s h =
    let put : lookup n (insert n (t ∷ ts) s.topics) ≡ some (t ∷ ts) =
      lookup-insert n n (t ∷ ts) s.topics ∙ rw (eq_refl n) refl in
    (
      (λ e. cc e, λ e. cc (sym put ∙ e)),
      lookup-insert n other (t ∷ ts) s.topics ∙ rw (other_name n other h) refl,
    )

-- DeleteTopic of a name or of one subscription reports that the name is gone exactly when no topic
-- of the name is left, and leaves the topics of the other names.
delete_topic_lem :
    (n other : String) (id : Option String) (s : State)
    → n ≢ other
    → (((delete_topic n id s).0 ≡ true) ↔ (lookup n (delete_topic n id s).1.topics ≡ none))
      × (lookup other (delete_topic n id s).1.topics ≡ lookup other s.topics)
unfolding delete_topic
delete_topic_lem n other none s h = (
  (λ _. lookup-erase n n s.topics ∙ rw (eq_refl n) refl, λ _. refl),
  lookup-erase n other s.topics ∙ rw (other_name n other h) refl,
)
delete_topic_lem n other (some id) s h = elim (Option-cases (lookup n s.topics)) [
  | inl e ↦ rw e ((λ _. e, λ _. refl), refl)
  | inr (d, e) ↦ rw e (put_back_lem n other (erase id d) s h)
]
