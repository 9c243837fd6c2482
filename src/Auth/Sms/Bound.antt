-- ===== src/Auth/Sms/Bound.antt =====
-- The tries of all cached tokens over one request (auth/auth_methods/auth_sms/auth_sms.go).
use go_backend_helpers.Prelude.{
  ◌+◌, ◌≤◌, ◌<◌, String, ◌≡◌, ◌⊎◌, refl, not, Option, none, some, ◌==◌, arith, inl, inr, Bool-cases,
  insert, if◌then◌else◌, All-insert,
}
use go_backend_helpers.Auth.Context.{
  World, CacheItem, delay_item, token_item, SmsCacheToken, call_service, set_generic_error_code,
  set_auth_parameter, User, expired,
}
use go_backend_helpers.Auth.Flow.{Flow-cases, ◌>>=◌}
use go_backend_helpers.Auth.Encryption.{Parameter, missing, invalid, value}
use go_backend_helpers.Auth.Sms.{
  AuthSms, SmsToken, cache_get, cache_set, unset, check_code, check_cached, check_item, check_token,
  read_token, retry, check_item, check_token, read_token, send_code, handle_user, handle, send_sms,
  store_code, wait_for_delay, checked_message, user_phone, set_token,
}
use go_backend_helpers.Auth.Sms.Tries.{
  FewTries, IsBounded, KeepsCache, unset-IsBounded, set_token-IsBounded, retry-cache,
  compare_code-cache, check_cached-cache,
}

module _ (a : AuthSms) (k : KeepsCache a) where
  retry-IsBounded :
      (key : String) (t : SmsCacheToken) (w : World)
      → t.tries < a.max_tries
      → IsBounded a w
      → IsBounded a (retry a key t w).1
  retry-IsBounded key t w b h =
      let w₁ = (unset key w).1 in
      rw (retry-cache a key t w) (
        set_token-IsBounded a (record t { tries = t.tries + 1 }) (a.random_id w₁.next_id)
          (record w₁ { next_id = w₁.next_id + 1 }) k (omega (arith, b)) (unset-IsBounded a key w h))

  check_cached-IsBounded :
      (user_id code key : String) (t : SmsCacheToken) (w : World)
      → IsBounded a w
      → IsBounded a (check_cached a user_id code key t w).1
  check_cached-IsBounded user_id code key t w h =
      let unset_key = unset-IsBounded a key w h in
      elim (check_cached-cache a user_id code key t w) [
        | inl e ↦ rw e h
        | inr (inl e) ↦ rw e unset_key
        | inr (inr (e, few)) ↦ elim (compare_code-cache a user_id code key t w) [
          | inl q ↦ rw (e, q) (retry-IsBounded key t w few h)
          | inr q ↦ rw (e, q) (unset-IsBounded a (a.delay_key user_id) (unset key w).1 unset_key)
        ]
      ]

  check_item-IsBounded :
      (user_id code key : String) (o : Option CacheItem) (w : World)
      → IsBounded a w
      → IsBounded a (check_item a user_id code key o w).1
  unfolding check_item set_generic_error_code
  check_item-IsBounded user_id code key none w h = h
  check_item-IsBounded user_id code key (some (delay_item d)) w h = h
  check_item-IsBounded user_id code key (some (token_item t)) w h =
      check_cached-IsBounded user_id code key t w h

  check_code-IsBounded :
      (user_id code : String) (p : Parameter SmsToken) (w : World)
      → IsBounded a w
      → IsBounded a (check_code a user_id code p w).1
  unfolding check_code read_token check_token set_generic_error_code call_service
  check_code-IsBounded user_id code missing w h = h
  check_code-IsBounded user_id code (invalid e) w h = h
  check_code-IsBounded user_id code (value token) w h = elim (Bool-cases (expired token.exp w)) [
    | inl late ↦ rw late h
    | inr live ↦ elim (Bool-cases (call_service w).0) [
      | inl down ↦ rw (live, down) h
      | inr up ↦
          let w₁ = (call_service w).1 in
          let key = a.token_key token.id in
          rw (live, up) (check_item-IsBounded user_id code key (cache_get key w₁) w₁ h)
    ]
  ]

  store_code-cache :
      (user : User) (t : SmsCacheToken) (id : String) (w : World)
      → ((store_code a user t id w).1.cache ≡ (set_token a t id w).1.cache)
        ⊎ ((store_code a user t id w).1.cache
            ≡ insert
                (a.delay_key user.id)
                (
                  (set_token a t id w).1.now + a.sms_delay_seconds,
                  delay_item (set_token a t id w).1.now,
                )
                (set_token a t id w).1.cache)
  unfolding store_code set_generic_error_code set_auth_parameter call_service cache_set
  store_code-cache user t id w = ground arith

  store_code-IsBounded :
      (user : User) (t : SmsCacheToken) (id : String) (w : World)
      → t.tries ≤ a.max_tries
      → IsBounded a w
      → IsBounded a (store_code a user t id w).1
  store_code-IsBounded user t id w b h =
      let stored = set_token-IsBounded a t id w k b h in
      let w₁ = (set_token a t id w).1 in
      elim (store_code-cache user t id w) [
        | inl e ↦ rw e stored
        | inr e ↦ rw e (
            All-insert (FewTries a.max_tries) (a.delay_key user.id)
              (w₁.now + a.sms_delay_seconds, delay_item w₁.now) w₁.cache tt stored)
      ]

  send_sms-IsBounded :
      (user : User) (message phone : String) (w : World)
      → 1 ≤ a.max_tries
      → IsBounded a w
      → IsBounded a (send_sms a user message phone w).1
  unfolding send_sms set_generic_error_code set_auth_parameter call_service
  send_sms-IsBounded user message phone w b h = elim (Bool-cases (call_service w).0) [
    | inl down ↦ rw down h
    | inr up ↦ rw up (store_code-IsBounded user _ _ _ b h)
  ]

  phone-IsBounded :
      (user : User) (message : String) (o : Option String) (w : World)
      → 1 ≤ a.max_tries
      → IsBounded a w
      → IsBounded a ((user_phone o >>= λ phone. send_sms a user message phone) w).1
  unfolding user_phone set_generic_error_code
  phone-IsBounded user message none w b h = h
  phone-IsBounded user message (some phone) w b h = elim (Bool-cases (phone == "")) [
    | inl e ↦ rw e h
    | inr e ↦ rw e (send_sms-IsBounded user message phone w b h)
  ]

  message-IsBounded :
      (user : User) (o : Option String) (w : World)
      → 1 ≤ a.max_tries
      → IsBounded a w
      → IsBounded a
          ((checked_message o >>= λ message.
              user_phone user.phone >>= λ phone. send_sms a user message phone)
            w).1
  unfolding checked_message set_generic_error_code
  message-IsBounded user none w b h = h
  message-IsBounded user (some m) w b h =
      phone-IsBounded user (if m == "" then "code %s" else m) user.phone w b h

  wait_for_delay-same :
      (o : Option CacheItem) (w : World) → (wait_for_delay a o w).1.cache ≡ w.cache
  unfolding wait_for_delay set_generic_error_code set_auth_parameter
  wait_for_delay-same none w = refl
  wait_for_delay-same (some (delay_item d)) w = refl
  wait_for_delay-same (some (token_item t)) w = refl

  send_code-IsBounded :
      (user : User) (w : World)
      → 1 ≤ a.max_tries
      → IsBounded a w
      → IsBounded a (send_code a user w).1
  unfolding send_code set_generic_error_code call_service
  send_code-IsBounded user w b h =
      let w₁ = (call_service w).1 in
      let o = cache_get (a.delay_key user.id) w₁ in
      let w₂ = (wait_for_delay a o w₁).1 in
      let h₂ : IsBounded a w₂ = rw (wait_for_delay-same o w₁) h in
      elim (Bool-cases (call_service w).0) [
        | inl down ↦ rw down h
        | inr up ↦ elim (Flow-cases (wait_for_delay a o w₁).0) [
          | inr (r, q) ↦ rw (up, q) h₂
          | inl (_, q) ↦ rw (up, q) (message-IsBounded user w₂.request.checked_content w₂ b h₂)
        ]
      ]

  handle_user-IsBounded :
      (o : Option User) (w : World)
      → 1 ≤ a.max_tries
      → IsBounded a w
      → IsBounded a (handle_user a o w).1
  unfolding handle_user set_generic_error_code
  handle_user-IsBounded none w b h = h
  handle_user-IsBounded (some user) w b h =
      let code = w.request.param "sms" "sms-code" in
      elim (Bool-cases (not (code == ""))) [
        | inl given ↦
            rw given (check_code-IsBounded user.id code (a.encryption.get w "sms" "sms-token") w h)
        | inr none_given ↦ rw none_given (send_code-IsBounded user w b h)
      ]

  -- When a token may be tried at least once, no request leaves a cached token with more tries than the
  -- configuration allows, if there was none before and the encryption leaves the cache alone.
  pub handle-IsBounded : (w : World) → 1 ≤ a.max_tries → IsBounded a w → IsBounded a (handle a w).1
  unfolding handle
  handle-IsBounded w b h = handle_user-IsBounded w.auth_user w b h
