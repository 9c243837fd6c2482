-- ===== src/Sms.antt =====
-- SmsManagerBase of pkg/sms/sms_manager.go: the choice of a provider for a number, and the message in
-- the database before and after it is sent. Providers, the cipher and random identifiers are
-- parameters; a provider's answer depends on how many values were drawn before.
pub mod Destinations
pub mod Laws
mod Tests
use Prim.Native.String.{len}
use text.Mathlib.Text.{starts_with}
use go_backend_helpers.Prelude.{
  ℕ, ◌+◌, String, Bool, true, false, not, Option, none, some, List, [], ◌∷◌, ◌++◌, ◌==◌, ltb,
  is_some, if◌then◌else◌, Dict, lookup,
}
use go_backend_helpers.Table.{find, update_at}
use go_backend_helpers.Auth.Context.{first_code}
use go_backend_helpers.Effects.{
  Act, Result, ok, err, ◌>>=◌, ◌>>◌, pure, fail, choose, gets, modify, next_fault, answer,
}

-- What a provider answers, if it does.
pub record ProviderResponse : Type 0 where
  pub raw_content : String
  pub provider_message_id : String

pub record Provider : Type 0 where
  pub name : String
  pub deliver : ℕ → String → String → Option ProviderResponse × Option String

-- `SmsDestination`
pub record SmsDestination : Type 0 where
  pub prefix : String
  pub provider : Provider

-- `SmsDestinationConfig`
pub record SmsDestinationConfig : Type 0 where
  pub prefix : String
  pub provider_name : String

-- `SmsMessage`
pub record SmsMessage : Type 0 where
  pub id : String
  pub foreign_id : String
  pub phone : String
  pub operation : String
  pub provider : String
  pub status : String
  pub tenancy : String
  pub user : String
  pub message : String
  pub raw_response : String

-- `SmsManagerBase`; the cipher is there when messages are stored encrypted, and encodes what it
-- encrypts, or fails.
pub record SmsManager : Type 0 where
  pub default_provider : Provider
  pub destinations : List SmsDestination
  pub cipher : Option (String → Result String)

-- The table of messages, the generic error, and whether "sms sent" was logged for a message.
pub record State : Type 0 where
  pub messages : List SmsMessage
  pub generic_error : Option String
  pub sent_logs : List String
  pub faults : List Bool
  pub draws : ℕ

-- The context of a request: its user, tenancy and operation.
pub record Sender : Type 0 where
  pub user : String
  pub tenancy : String
  pub operation : String
  pub random_id : ℕ → String

abbrev pub Op : Type 0 → Type 0
Op A = Act State A

abbrev pub call : Op (Unit {0})
call s = let (f, fs) = next_fault s.faults in (answer f, record s { faults = fs })

-- `sort.SliceStable` by the length of the prefix, the longest first
unfoldable pub place : SmsDestination → List SmsDestination → List SmsDestination
place d [] = d ∷ []
place d (e ∷ es) = if ltb (len d.prefix) (len e.prefix) then e ∷ place d es else d ∷ e ∷ es

unfoldable pub sort : List SmsDestination → List SmsDestination
sort [] = []
sort (d ∷ ds) = place d (sort ds)

-- The providers of the destinations by name, as `Init` looks them up.
unfoldable pub with_providers :
    Dict Provider → List SmsDestinationConfig → Option (List SmsDestination)
with_providers providers [] = some []
with_providers providers (c ∷ cs) = elim (lookup c.provider_name providers) [
  | none ↦ none
  | some p ↦ elim (with_providers providers cs) [
    | none ↦ none
    | some ds ↦ some (record { prefix = c.prefix; provider = p } ∷ ds)
  ]
]

-- `Init` after the configuration was loaded
unfoldable pub init :
    Option (String → Result String)
    → String
    → Dict Provider
    → List SmsDestinationConfig
    → Option SmsManager
init cipher default_name providers configs = elim (lookup default_name providers) [
  | none ↦ none
  | some p ↦ elim (with_providers providers configs) [
    | none ↦ none
    | some ds ↦ some (record { default_provider = p; destinations = sort ds; cipher = cipher })
  ]
]

-- The loop over the destinations that `Send` leaves at the first prefix of the number
unfoldable pub first_destination : String → List SmsDestination → Option SmsDestination
first_destination recipient [] = none
first_destination recipient (d ∷ ds) =
    if starts_with recipient d.prefix then some d else first_destination recipient ds

abbrev pub provider_of : Provider → Option SmsDestination → Provider
provider_of default none = default
provider_of default (some d) = d.provider

unfoldable pub find_provider : SmsManager → String → Provider
find_provider m recipient =
    provider_of m.default_provider (first_destination recipient m.destinations)

-- The generic error of an internal failure, and the error
abbrev internal : {A : Type 0} → String → Op A
internal e s =
    (err e, record s { generic_error = first_code s.generic_error "internal_server_error" })

-- The log of an exit without an error.
abbrev log_sent : String → State → State
log_sent id s = record s { sent_logs = s.sent_logs ++ id ∷ [] }

-- The text that is stored. The error of the cipher is a variable of the inner block, so the exit
-- handler sees no error and logs the message as sent.
abbrev encrypted : String → Result String → Op String
encrypted id (ok text) = pure text
encrypted id (err e) = modify (log_sent id) >> internal e

abbrev stored_text : Option (String → Result String) → String → String → Op String
stored_text none id message = pure message
stored_text (some encrypt) id message = encrypted id (encrypt message)

abbrev saved : Result (Unit {0}) → Op (Unit {0})
saved (ok _) = pure tt
saved (err e) = internal e

abbrev try_call : Op (Result (Unit {0}))
try_call s = let (r, s') = call s in (ok r, s')

abbrev pub answered : Option ProviderResponse → Option String → SmsMessage → SmsMessage
answered none e m = record m { status = if is_some e then "fail" else "success" }
answered (some r) e m = record m {
  status = if is_some e then "fail" else "success";
  raw_response = r.raw_content;
  foreign_id = r.provider_message_id;
}

-- The update of the message, whose error is logged only.
abbrev store_answer : String → (SmsMessage → SmsMessage) → Result (Unit {0}) → State → State
store_answer id f (ok _) s = record s { messages = update_at SmsMessage.id id f s.messages }
store_answer id f (err e) s = s

abbrev log_if_sent : String → Option String → State → State
log_if_sent id none s = log_sent id s
log_if_sent id (some e) s = s

abbrev pub new_message : SmsManager → Sender → String → String → String → SmsMessage
new_message m c id text recipient = record {
  id = id;
  foreign_id = "";
  phone = recipient;
  operation = c.operation;
  provider = (find_provider m recipient).name;
  status = "sending";
  tenancy = c.tenancy;
  user = c.user;
  message = text;
  raw_response = "";
}

-- `Send` from the creation of the row on
unfoldable pub send_text :
    SmsManager → Sender → String → String → String → String → Op (String × Option String)
send_text m c message recipient id text = do
  created ← try_call
  saved created
  modify (λ s. record s { messages = s.messages ++ new_message m c id text recipient ∷ [] })
  r ← gets (λ s. (find_provider m recipient).deliver s.draws message recipient)
  updated ← try_call
  modify (store_answer id (answered r.0 r.1) updated)
  modify (log_if_sent id r.1)
  pure (id, r.1)

-- `Send`: the identifier of the message with the error of the provider, or an error before it.
unfoldable pub send : SmsManager → Sender → String → String → Op (String × Option String)
send m c message recipient = do
  id ← gets (λ s. c.random_id s.draws)
  modify (λ s. record s { draws = s.draws + 1 })
  text ← stored_text m.cipher id message
  send_text m c message recipient id text

abbrev found_sms : Option SmsMessage → Op SmsMessage
found_sms none = fail "SMS not found"
found_sms (some m) = pure m

-- `FindSms`
unfoldable pub find_sms : String → Op SmsMessage
find_sms id = do call; m ← gets (λ s. find SmsMessage.id id s.messages); found_sms m
