-- ===== src/Users/Pubkeys/Laws.antt =====
-- The invariant of the table of keys over the steps of
-- pkg/signature/user_pubkey/user_pubkey_controller.go.
use go_backend_helpers.Prelude.{
  String, ◌≡◌, refl, ◌⊎◌, inl, inr, true, false, Option, none, some, List, ◌∙◌,
}
use go_backend_helpers.Table.{has, update_at, IsUnique, has_pair, HasUniquePairs}
use go_backend_helpers.Table.Laws.{update_at-IsUnique, append-IsUnique, has-update_at}
use go_backend_helpers.Table.Pairs.{
  update_at-HasUniquePairs, append-HasUniquePairs, has_pair-update_at,
}
use go_backend_helpers.Effects.{Result, ok, is_ok}
use go_backend_helpers.Users.{User, UserPubkey, State}
use go_backend_helpers.Users.Pubkeys.{
  KeyServices, find_key, deactivated, deactivate_key, new_key, replace_key, has_active,
  HasOneActive,
}
use go_backend_helpers.Users.Pubkeys.Active.{
  update_at-HasOneActive, has_active-deactivated, has_active-none, append-HasOneActive,
  find_key-append,
}
use go_backend_helpers.Users.Pubkeys.Steps.{
  called, Deactivates, deactivate_key_lem, replace_key_lem,
}

-- Identifiers are unique, no owner has a key twice, and none has two active keys.
pub record AreSound (ks : List UserPubkey) : Type 0 where
  pub ids : IsUnique UserPubkey.id ks
  pub owned_once : HasUniquePairs UserPubkey.public_key_owner UserPubkey.public_key_hash ks
  pub one_active : HasOneActive ks

deactivated-AreSound :
    (id : String) (ks : List UserPubkey)
    → AreSound ks
    → AreSound (update_at UserPubkey.id id deactivated ks)
deactivated-AreSound id ks h = record {
  ids = update_at-IsUnique UserPubkey.id UserPubkey.id id deactivated ks (λ k. refl) h.ids;
  owned_once =
      update_at-HasUniquePairs UserPubkey.public_key_owner UserPubkey.public_key_hash UserPubkey.id
        id deactivated ks (λ k. refl) (λ k. refl) h.owned_once;
  one_active = update_at-HasOneActive id ks h.one_active;
}

-- What a deactivation leaves: the table, or the table with one row changed.
pub Kept : (s : State) → List UserPubkey → Type 0
Kept s ks = (ks ≡ s.keys) ⊎ ((id : String) × (ks ≡ update_at UserPubkey.id id deactivated s.keys))

pub Kept-by :
    (s : State) (o : Option UserPubkey) (r : Result (Unit {0}) × State)
    → Deactivates s o r
    → Kept s r.1.keys
unfolding Kept
Kept-by s none (r, s') h = inl h
Kept-by s (some k) (r, s') (inl h) = inl h.0
Kept-by s (some k) (r, s') (inr h) = inr (k.id, h.0)

pub Kept-AreSound : (s : State) (ks : List UserPubkey) → Kept s ks → AreSound s.keys → AreSound ks
unfolding Kept
Kept-AreSound s ks (inl e) h = rw e h
Kept-AreSound s ks (inr (id, e)) h = rw e (deactivated-AreSound id s.keys h)

Kept-id :
    (s : State) (ks : List UserPubkey) (i : String)
    → Kept s ks
    → has UserPubkey.id i ks ≡ has UserPubkey.id i s.keys
unfolding Kept
Kept-id s ks i (inl e) = rw e refl
Kept-id s ks i (inr (id, e)) =
    rw e (has-update_at UserPubkey.id UserPubkey.id id i deactivated s.keys (λ k. refl))

Kept-pair :
    (s : State) (ks : List UserPubkey) (owner hash : String)
    → Kept s ks
    → has_pair UserPubkey.public_key_owner UserPubkey.public_key_hash owner hash ks
      ≡ has_pair UserPubkey.public_key_owner UserPubkey.public_key_hash owner hash s.keys
unfolding Kept
Kept-pair s ks owner hash (inl e) = rw e refl
Kept-pair s ks owner hash (inr (id, e)) = rw e (
    has_pair-update_at UserPubkey.public_key_owner UserPubkey.public_key_hash UserPubkey.id id owner
      hash deactivated s.keys (λ k. refl) (λ k. refl))

inactive_after :
    (s : State) (owner : String) (o : Option UserPubkey) (r : Result (Unit {0}) × State)
    → find_key owner "" s.keys ≡ o
    → HasOneActive s.keys
    → is_ok r.0 ≡ true
    → Deactivates s o r
    → has_active owner r.1.keys ≡ false
inactive_after s owner none (r, s') e u q h = rw h (has_active-none owner s.keys e)
inactive_after s owner (some k) (r, s') e u q (inl h) = cc (q, h.1)
inactive_after s owner (some k) (r, s') e u q (inr h) =
    rw h.0 (has_active-deactivated owner s.keys k u e)

-- A key was added: the table is sound, and the new key is the active one of its owner.
pub replaced :
    (v : KeyServices) (u : User) (key id : String) (s : State)
    → AreSound s.keys
    → has UserPubkey.id (v.new_key_id s.draws) s.keys ≡ false
    → (replace_key v u key s).0 ≡ ok id
    → AreSound (replace_key v u key s).1.keys
      × (find_key u.id "" (replace_key v u key s).1.keys ≡ some (new_key v u key id))
replaced v u key id s h n r =
    let c = replace_key_lem v u key id s r in
    let d = deactivate_key u "" (called s) in
    let lem = deactivate_key_lem u "" (called s) in
    let kept = Kept-by (called s) (find_key u.id "" s.keys) d lem in
    let sound = Kept-AreSound (called s) d.1.keys kept h in
    let none_active =
      inactive_after (called s) u.id (find_key u.id "" s.keys) d refl h.one_active c.1 lem in
    let k = new_key v u key id in
    let new_id : has UserPubkey.id id d.1.keys ≡ false =
      Kept-id (called s) d.1.keys id kept ∙ rw c.2 n in
    let new_pair = Kept-pair (called s) d.1.keys u.id (v.key_hash key) kept ∙ c.0 in
    rw c.3 (
      record {
        ids = append-IsUnique UserPubkey.id d.1.keys k new_id sound.ids;
        owned_once =
            append-HasUniquePairs UserPubkey.public_key_owner UserPubkey.public_key_hash d.1.keys k
              new_pair sound.owned_once;
        one_active = append-HasOneActive d.1.keys k none_active sound.one_active;
      },
      find_key-append u.id d.1.keys k none_active refl refl,
    )
