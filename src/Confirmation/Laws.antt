-- ===== src/Confirmation/Laws.antt =====
-- What the services and the authentication make of a prepared operation.
use go_backend_helpers.Prelude.{
  ℕ, ◌+◌, ◌≤◌, String, ◌≡◌, refl, true, false, none, some, [], Dict, lookup, lookup-insert, eq_refl,
  arith,
}
use go_backend_helpers.Auth.Context.{User, first_code}
use go_backend_helpers.Effects.{ok, err}
use go_backend_helpers.Confirmation.{
  OperationCacheToken, PrepareOperationCmd, InternalService, State, operation_id_cache_key, cached,
  get_token_from_cache, dereference, prepare_check_confirmation, handle_cached_phone,
  prepare_operation,
}

-- The user of an operation that was prepared for a recipient
abbrev pub user_of : String → User
user_of recipient = record {
  id = "";
  login = "_none_";
  display = "";
  blocked = false;
  phone = some recipient;
  credentials = none;
  hmac_secret = none;
}

cached_lem :
    (v : InternalService) (cmd : PrepareOperationCmd) (s : State) (url : String)
    → (prepare_operation v (some cmd) s).0 ≡ ok url
    → lookup (operation_id_cache_key cmd.id) (prepare_operation v (some cmd) s).1.cache
      ≡ some (
        s.now + v.token_ttl,
        record { id = ""; recipient = cmd.recipient; failed_url = cmd.failed_url },
      )
unfolding prepare_operation
cached_lem v cmd s url e = ground (
  arith,
  lookup-insert (operation_id_cache_key cmd.id) (operation_id_cache_key cmd.id)
      (
        s.now + v.token_ttl,
        record { id = ""; recipient = cmd.recipient; failed_url = cmd.failed_url },
      )
      s.cache,
  eq_refl (operation_id_cache_key cmd.id),
)

-- What is in the cache until its end.
cached_later :
    (id : String) (t : State) (until : ℕ) (token : OperationCacheToken)
    → lookup (operation_id_cache_key id) t.cache ≡ some (until, token)
    → t.now ≤ until
    → cached id t ≡ some token
unfolding cached
cached_later id t until token e h = rw e (ground (arith, h))

-- A context in which no call of the cache fails, when the cache is as an operation left it.
abbrev pub later : State → Dict (ℕ × OperationCacheToken) → State
later t cache = record t { cache = cache; faults = [] }

module _ (v : InternalService) (cmd : PrepareOperationCmd) (s t : State) (url : String)
    (prepared : (prepare_operation v (some cmd) s).0 ≡ ok url)
    (in_time : t.now ≤ s.now + v.token_ttl) where
  abbrev next_state : State
  next_state = later t (prepare_operation v (some cmd) s).1.cache

  found :
      cached cmd.id next_state
      ≡ some (record { id = ""; recipient = cmd.recipient; failed_url = cmd.failed_url })
  found =
      cached_later cmd.id next_state (s.now + v.token_ttl) _ (cached_lem v cmd s url prepared)
        in_time

  -- After PrepareOperation has succeeded, until its token expires, while the cache does not fail and has
  -- what it left there: PrepareCheckConfirmation answers with the operation's URL for failures, and
  -- the authentication by the cached phone sets a user with the phone of the recipient, and with an
  -- empty identifier whatever the operation is.
  pub handle_cached_phone-prepare_operation :
      ((prepare_check_confirmation cmd.id next_state).0 ≡ ok cmd.failed_url)
      × (handle_cached_phone cmd.id next_state
          ≡ (ok true, record next_state { auth_user = some (user_of cmd.recipient) }))
  unfolding prepare_check_confirmation handle_cached_phone get_token_from_cache dereference cached
  handle_cached_phone-prepare_operation = rw found (refl, refl)

-- For an operation that the cache does not have, or whose token has expired, PrepareCheckConfirmation
-- and the authentication by the cached phone do not return an error but dereference a nil pointer,
-- after the error code of a missing resource was set.
missing_operation_panics :
    (id : String) (t : State)
    → cached id (record t { faults = [] }) ≡ none
    → (handle_cached_phone id (record t { faults = [] }) ≡ (
      err "nil pointer dereference",
      record t { faults = []; generic_error = first_code t.generic_error "resource_not_found" },
    ))
      × ((prepare_check_confirmation id (record t { faults = [] })).0
          ≡ err "nil pointer dereference")
unfolding prepare_check_confirmation handle_cached_phone get_token_from_cache dereference cached
missing_operation_panics id t e = rw e (refl, refl)
