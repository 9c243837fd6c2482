-- ===== src/Auth/Sms/Tries.antt =====
-- The number of tries that cached tokens have (auth/auth_methods/auth_sms/auth_sms.go).
use go_backend_helpers.Prelude.{
  ℕ, ◌+◌, ◌≤◌, ◌<◌, String, ◌≡◌, ◌⊎◌, refl, arith, inl, inr, Bool-cases, insert, if◌then◌else◌, All,
  All-insert, All-erase,
}
use go_backend_helpers.Auth.Context.{
  World, CacheItem, delay_item, token_item, SmsCacheToken, call_service, expiration,
  set_generic_error_code,
}
use go_backend_helpers.Auth.Flow.{next}
use go_backend_helpers.Auth.Sms.{
  AuthSms, SmsToken, cache_set, cache_unset, unset, check_cached, compare_code, retry, compare_code,
  set_token,
}

abbrev pub FewTries : ℕ → ℕ × CacheItem → Type 0
FewTries max (exp, delay_item n) = Unit {0}
FewTries max (exp, token_item t) = t.tries ≤ max

-- No cached token has more tries than the configuration allows.
abbrev pub IsBounded : AuthSms → World → Type 0
IsBounded a w = All (λ (e : String × (ℕ × CacheItem)). FewTries a.max_tries e.1) w.cache

pub unset-IsBounded :
    (a : AuthSms) (key : String) (w : World) → IsBounded a w → IsBounded a (unset key w).1
unfolding unset cache_unset call_service
unset-IsBounded a key w h = elim (Bool-cases (call_service w).0) [
  | inl down ↦ rw down h
  | inr up ↦ rw up (All-erase (FewTries a.max_tries) key w.cache h)
]

-- An interface that leaves the cache alone.
abbrev pub KeepsCache : AuthSms → Type 0
KeepsCache a =
    (w : World) (protocol name : String) (t : SmsToken)
    → (a.encryption.set w protocol name t).1.cache ≡ w.cache

cache-set_token :
    (a : AuthSms) (t : SmsCacheToken) (id : String) (w : World)
    → KeepsCache a
    → (set_token a t id w).1.cache ≡ (
        if (call_service w).0
        then w.cache
        else insert (a.token_key id) (w.now + a.token_ttl_seconds, token_item t) w.cache)
unfolding set_token cache_set call_service set_generic_error_code expiration
cache-set_token a t id w k = ground (
  arith,
  k (cache_set (a.token_key id) (token_item t) a.token_ttl_seconds (call_service w).1) "sms"
      "sms-token" (record { exp = w.now + a.token_ttl_seconds; id = id }),
)

pub set_token-IsBounded :
    (a : AuthSms) (t : SmsCacheToken) (id : String) (w : World)
    → KeepsCache a
    → t.tries ≤ a.max_tries
    → IsBounded a w
    → IsBounded a (set_token a t id w).1
set_token-IsBounded a t id w k b h = elim (Bool-cases (call_service w).0) [
  | inl down ↦ rw (cache-set_token a t id w k, down) h
  | inr up ↦
      rw (cache-set_token a t id w k, up)
        (All-insert (FewTries a.max_tries) (a.token_key id)
          (w.now + a.token_ttl_seconds, token_item t) w.cache b h)
]

pub unset-next : (key : String) (w : World) → (unset key w).0 ≡ next tt
unfolding unset
unset-next key w = refl

-- A wrong code takes the old token away and puts one with one more try in its place.
pub retry-cache :
    (a : AuthSms) (key : String) (t : SmsCacheToken) (w : World)
    → (retry a key t w).1.cache
      ≡ (set_token a
          (record t { tries = t.tries + 1 })
          (a.random_id (unset key w).1.next_id)
          (record (unset key w).1 { next_id = (unset key w).1.next_id + 1 })).1.cache
unfolding retry set_generic_error_code
retry-cache a key t w = ground (arith, unset-next key w)

pub compare_code-cache :
    (a : AuthSms) (user_id code key : String) (t : SmsCacheToken) (w : World)
    → ((compare_code a user_id code key t w).1.cache ≡ (retry a key t w).1.cache)
      ⊎ ((compare_code a user_id code key t w).1.cache
          ≡ (unset (a.delay_key user_id) (unset key w).1).1.cache)
unfolding compare_code
compare_code-cache a user_id code key t w =
    ground (arith, unset-next key w, unset-next (a.delay_key user_id) (unset key w).1)

-- What the checks of a cached token leave in the cache; a token is put back below the limit alone.
pub check_cached-cache :
    (a : AuthSms) (user_id code key : String) (t : SmsCacheToken) (w : World)
    → ((check_cached a user_id code key t w).1.cache ≡ w.cache)
      ⊎ ((check_cached a user_id code key t w).1.cache ≡ (unset key w).1.cache)
      ⊎ (((check_cached a user_id code key t w).1.cache
            ≡ (compare_code a user_id code key t w).1.cache)
          × (t.tries < a.max_tries))
unfolding check_cached set_generic_error_code
check_cached-cache a user_id code key t w = ground (arith, unset-next key w)
