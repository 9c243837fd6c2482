-- ===== src/Sms/Tests.antt =====
-- The SMS manager of pkg/sms/sms_manager.go with two providers.
use go_backend_helpers.Prelude.{◌≡◌, refl, ◌⊎◌, none, some, List, [], ◌∷◌, Dict, lookup}
use go_backend_helpers.Table.{has}
use go_backend_helpers.Effects.{ok, err}
use go_backend_helpers.Sms.{
  Provider, SmsDestination, SmsDestinationConfig, SmsManager, State, Sender, sort, place,
  with_providers, init, provider_of, find_provider, first_destination, new_message, answered, send,
}
use go_backend_helpers.Sms.Destinations.{longest}
use go_backend_helpers.Sms.Laws.{find_provider-init, answer_to, IsStoredAs, send_lem}

abbrev near : Provider
near = record {
  name = "near";
  deliver = λ n m r. (some (record { raw_content = "{}"; provider_message_id = "f1" }), none);
}

abbrev far : Provider
far = record { name = "far"; deliver = λ n m r. (none, some "unreachable") }

abbrev providers : Dict Provider
providers = ("near", near) ∷ ("far", far) ∷ []

abbrev configs : List SmsDestinationConfig
configs =
    record { prefix = "7"; provider_name = "far" }
    ∷ record { prefix = "79"; provider_name = "near" }
    ∷ []

abbrev destinations : List SmsDestination
destinations =
    record { prefix = "7"; provider = far } ∷ record { prefix = "79"; provider = near } ∷ []

abbrev manager : SmsManager
manager = record {
  default_provider = far;
  destinations =
      record { prefix = "79"; provider = near } ∷ record { prefix = "7"; provider = far } ∷ [];
  cipher = none;
}

find_provider-init_example :
    find_provider manager "79001234567" ≡ provider_of far (longest "79001234567" destinations)
unfolding with_providers init sort place lookup
find_provider-init_example =
    find_provider-init none "far" "79001234567" providers configs manager destinations refl refl

provider_found : find_provider manager "79001234567" ≡ near
unfolding find_provider first_destination
provider_found = refl

abbrev state : State
state = record { messages = []; generic_error = none; sent_logs = []; faults = []; draws = 0 }

abbrev sender : Sender
sender = record { user = "u1"; tenancy = ""; operation = "login"; random_id = λ n. "m1" }

send_lem_example :
    (((send manager sender "code 1" "79001234567" state).0 ≡ err "database failure")
      × ((send manager sender "code 1" "79001234567" state).1.messages ≡ state.messages))
    ⊎ (((send manager sender "code 1" "79001234567" state).0
          ≡ ok ("m1", (answer_to manager "code 1" "79001234567" state).1))
        × IsStoredAs "m1"
            (new_message manager sender "m1" "code 1" "79001234567")
            (answered
              (answer_to manager "code 1" "79001234567" state).0
              (answer_to manager "code 1" "79001234567" state).1
              (new_message manager sender "m1" "code 1" "79001234567"))
            (send manager sender "code 1" "79001234567" state).1)
unfolding has
send_lem_example = send_lem manager sender "code 1" "79001234567" "code 1" state refl refl

abbrev broken : SmsManager
broken = record manager { cipher = some (λ m. err "cipher") }
