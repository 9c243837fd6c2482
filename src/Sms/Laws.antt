-- ===== src/Sms/Laws.antt =====
-- Init and Send of pkg/sms/sms_manager.go.
use go_backend_helpers.Prelude.{
  ◌+◌, String, ◌≡◌, refl, ◌⊎◌, inl, inr, false, Option, none, some, List, [], ◌∷◌, ◌++◌, arith,
  Dict,
}
use go_backend_helpers.Table.{has, find, update_at}
use go_backend_helpers.Table.Searches.{find-append, find-update_at}
use go_backend_helpers.Effects.{Result, ok, err}
use go_backend_helpers.Sms.{
  Provider, ProviderResponse, SmsDestination, SmsDestinationConfig, SmsMessage, SmsManager, State,
  Sender, sort, with_providers, init, provider_of, find_provider, answered, new_message, send,
  send_text,
}
use go_backend_helpers.Sms.Destinations.{longest, first_destination-sort}

init_destinations :
    (cipher : Option (String → Result String)) (name : String) (providers : Dict Provider)
    (configs : List SmsDestinationConfig) (m : SmsManager) (ds : List SmsDestination)
    → with_providers providers configs ≡ some ds
    → init cipher name providers configs ≡ some m
    → m.destinations ≡ sort ds
unfolding init
init_destinations cipher name providers configs m ds d h = ground arith

-- After Init with known providers, the provider for a number is that of the first destination, in
-- the order of the configuration, with the longest of the prefixes that the number has, or the
-- default one.
pub find_provider-init :
    (cipher : Option (String → Result String)) (name recipient : String) (providers : Dict Provider)
    (configs : List SmsDestinationConfig) (m : SmsManager) (ds : List SmsDestination)
    → with_providers providers configs ≡ some ds
    → init cipher name providers configs ≡ some m
    → find_provider m recipient ≡ provider_of m.default_provider (longest recipient ds)
unfolding find_provider
find_provider-init cipher name recipient providers configs m ds d h =
    rw
      (
        init_destinations cipher name providers configs m ds d h,
        first_destination-sort recipient ds,
      )
      refl

-- The text to be stored, when there is no cipher or by the cipher.
abbrev pub text_of : Option (String → Result String) → String → Result String
text_of none message = ok message
text_of (some encrypt) message = encrypt message

-- The answer of the provider to a message.
abbrev pub answer_to :
    SmsManager → String → String → State → Option ProviderResponse × Option String
answer_to m message recipient s =
    (find_provider m recipient).deliver (s.draws + 1) message recipient

-- What Send returns and leaves: an error and the table as it was, or the new row, with the answer of
-- the provider or, when it could not be updated, without.
abbrev pub Stored :
    SmsManager
    → Sender
    → String
    → String
    → String
    → State
    → Result (String × Option String) × State
    → Type 0
Stored m c message recipient text s (r, s') =
    ((r ≡ err "database failure") × (s'.messages ≡ s.messages))
    ⊎ ((r ≡ ok (c.random_id s.draws, (answer_to m message recipient s).1))
        × ((s'.messages ≡ s.messages ++ new_message m c (c.random_id s.draws) text recipient ∷ [])
            ⊎ (s'.messages
                ≡ update_at SmsMessage.id (c.random_id s.draws)
                    (answered (answer_to m message recipient s).0
                      (answer_to m message recipient s).1)
                    (s.messages ++ new_message m c (c.random_id s.draws) text recipient ∷ []))))

send_text-Stored :
    (m : SmsManager) (c : Sender) (message recipient text : String) (s : State)
    → Stored m c message recipient text s (
        send_text m c message recipient
          (c.random_id s.draws)
          text
          (record s { draws = s.draws + 1 }))
unfolding send_text
send_text-Stored m c message recipient text s = ground arith

send_by :
    (m : SmsManager) (c : Sender) (message recipient text : String) (s : State)
    (o : Option (String → Result String))
    → m.cipher ≡ o
    → text_of o message ≡ ok text
    → send m c message recipient s
      ≡ send_text m c message recipient
          (c.random_id s.draws)
          text
          (record s { draws = s.draws + 1 })
unfolding send
send_by m c message recipient text s none h t = rw h (ground arith)
send_by m c message recipient text s (some encrypt) h t = rw (h, t) refl

-- When the cipher fails, Send fails and stores nothing, and the message is logged as sent.
send_refused :
    (m : SmsManager) (c : Sender) (message recipient e : String) (s : State)
    → text_of m.cipher message ≡ err e
    → ((send m c message recipient s).0 ≡ err e)
      × ((send m c message recipient s).1.messages ≡ s.messages)
      × ((send m c message recipient s).1.sent_logs ≡ s.sent_logs ++ c.random_id s.draws ∷ [])
unfolding send
send_refused m c message recipient e s t = ground arith

answered_id :
    (a : Option ProviderResponse) (e : Option String) (m : SmsMessage) → (answered a e m).id ≡ m.id
answered_id none e m = refl
answered_id (some r) e m = refl

-- The message that Send leaves under its identifier.
abbrev pub IsStoredAs : String → SmsMessage → SmsMessage → State → Type 0
IsStoredAs id sending done s =
    (find SmsMessage.id id s.messages ≡ some sending)
    ⊎ (find SmsMessage.id id s.messages ≡ some done)

found-Stored :
    (m : SmsManager) (c : Sender) (message recipient text : String) (s : State)
    (x : Result (String × Option String) × State)
    → has SmsMessage.id (c.random_id s.draws) s.messages ≡ false
    → Stored m c message recipient text s x
    → ((x.0 ≡ err "database failure") × (x.1.messages ≡ s.messages))
      ⊎ ((x.0 ≡ ok (c.random_id s.draws, (answer_to m message recipient s).1))
          × IsStoredAs
              (c.random_id s.draws)
              (new_message m c (c.random_id s.draws) text recipient)
              (answered
                (answer_to m message recipient s).0
                (answer_to m message recipient s).1
                (new_message m c (c.random_id s.draws) text recipient))
              x.1)
found-Stored m c message recipient text s (r, s') free (inl h) = inl h
found-Stored m c message recipient text s (r, s') free (inr (done, inl grown)) =
    let new = new_message m c (c.random_id s.draws) text recipient in
    inr (
      done,
      inl (rw grown (find-append SmsMessage.id (c.random_id s.draws) s.messages new free refl)),
    )
found-Stored m c message recipient text s (r, s') free (inr (done, inr updated)) =
    let new = new_message m c (c.random_id s.draws) text recipient in
    let a = answer_to m message recipient s in
    inr (
      done,
      inr (
          rw updated (
            find-update_at SmsMessage.id SmsMessage.id (c.random_id s.draws) (answered a.0 a.1)
              (s.messages ++ new ∷ []) new (λ x. answered_id a.0 a.1 x)
              (find-append SmsMessage.id (c.random_id s.draws) s.messages new free refl))),
    )

-- Send of a message whose text to be stored is known, under an identifier that is not in use: it
-- fails and stores nothing, or gives the identifier and the provider's error, and the message is
-- found under the identifier with that text, as still being sent or with the provider's answer.
pub send_lem :
    (m : SmsManager) (c : Sender) (message recipient text : String) (s : State)
    → text_of m.cipher message ≡ ok text
    → has SmsMessage.id (c.random_id s.draws) s.messages ≡ false
    → (((send m c message recipient s).0 ≡ err "database failure")
        × ((send m c message recipient s).1.messages ≡ s.messages))
      ⊎ (((send m c message recipient s).0
            ≡ ok (c.random_id s.draws, (answer_to m message recipient s).1))
          × IsStoredAs
              (c.random_id s.draws)
              (new_message m c (c.random_id s.draws) text recipient)
              (answered
                (answer_to m message recipient s).0
                (answer_to m message recipient s).1
                (new_message m c (c.random_id s.draws) text recipient))
              (send m c message recipient s).1)
send_lem m c message recipient text s t free =
    rw (send_by m c message recipient text s m.cipher refl t) (
      found-Stored m c message recipient text s
        (send_text m c message recipient (c.random_id s.draws) text
          (record s { draws = s.draws + 1 }))
        free (send_text-Stored m c message recipient text s))
