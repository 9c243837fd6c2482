-- ===== src/Auth/Sms/Tests.antt =====
-- Runs of the SMS handler.
use go_backend_helpers.Prelude.{
  ◌≡◌, refl, arith, true, not, none, some, [], ◌∷◌, ◌&&◌, ◌==◌, lookup,
}
use go_backend_helpers.Auth.Context.{World, SmsCacheToken, token_item, expired, call_service}
use go_backend_helpers.Auth.Encryption.{missing}
use go_backend_helpers.Auth.Examples.{alice, world, plain}
use go_backend_helpers.Auth.Sms.{
  AuthSms, SmsToken, handle, check_code, check_token, check_cached, compare_code, cache_get,
  cache_unset, unset,
}
use go_backend_helpers.Auth.Sms.Laws.{request_code, request_token, accepts, handle_confirms}
use go_backend_helpers.Auth.Sms.Tries.{IsBounded}
use go_backend_helpers.Auth.Sms.Bound.{handle-IsBounded}
use go_backend_helpers.Auth.Sms.Once.{handle_confirms_once}

abbrev sms_token : SmsToken
sms_token = record { exp = 200; id = "t1" }

abbrev cached : SmsCacheToken
cached = record { tries = 1; code = "1234"; checksum = "sum"; sms_id = "sms" }

abbrev sms : AuthSms
sms = record {
  token_ttl_seconds = 300;
  sms_delay_seconds = 30;
  max_tries = 3;
  encryption = plain sms_token;
  hmac = λ parts. "sum";
  check_hmac = λ parts sum. sum == "sum";
  gen_code = λ n. "1234";
  random_id = λ n. "new";
  format_message = λ m c. c;
  format_number = λ n. "30";
  mask_phone = λ p. p;
  delay_key = λ u. "delay";
  token_key = λ t. "token";
}

abbrev waiting : World
waiting = record world { auth_user = some alice; cache = ("token", (400, token_item cached)) ∷ [] }

handle_confirms_example :
    (not (request_code waiting == "") && accepts sms "u1" waiting (request_token sms waiting))
    ≡ true
unfolding handle check_code expired check_token call_service lookup check_cached compare_code unset
    cache_unset
handle_confirms_example = handle_confirms sms alice waiting refl refl refl

handle_confirms_once_example :
    ((handle sms waiting).0 ≡ (true, none))
    × ((handle sms waiting).1.generic_error ≡ none)
    × (cache_get "token" (handle sms waiting).1 ≡ none)
unfolding cache_get lookup expired
handle_confirms_once_example =
    handle_confirms_once sms alice waiting sms_token refl refl refl refl refl refl

abbrev without_token : AuthSms
without_token = record sms {
  encryption = record { get = λ w p n. missing; set = λ w p n x. (none, w) };
}

abbrev used : World
used = record waiting { cache = [] }

handle-IsBounded_example : IsBounded sms (handle sms waiting).1
handle-IsBounded_example =
    handle-IsBounded sms (λ w p n t. refl) waiting (omega arith) (omega arith, tt)
