-- ===== src/Users/Pubkeys/Active.antt =====
-- The active keys in a table of keys (pkg/signature/user_pubkey/user_pubkey_controller.go), after a
-- key was deactivated or added.
use go_backend_helpers.Prelude.{
  String, ◌≡◌, refl, true, false, none, some, List, [], ◌∷◌, ◌++◌, ◌==◌, ◌&&◌, ◌||◌, arith, eq_iff,
  eq_refl,
}
use go_backend_helpers.Table.{update_at}
use go_backend_helpers.Users.{UserPubkey}
use go_backend_helpers.Users.Pubkeys.{find_key, deactivated, has_active, HasOneActive}

pub has_active-update_at :
    (owner id : String) (ks : List UserPubkey)
    → has_active owner ks ≡ false
    → has_active owner (update_at UserPubkey.id id deactivated ks) ≡ false
unfolding has_active update_at
has_active-update_at owner id [] h = refl
has_active-update_at owner id (k ∷ ks) h = ground (arith, has_active-update_at owner id ks)

pub update_at-HasOneActive :
    (id : String) (ks : List UserPubkey)
    → HasOneActive ks
    → HasOneActive (update_at UserPubkey.id id deactivated ks)
unfolding update_at
update_at-HasOneActive id [] u = tt
update_at-HasOneActive id (k ∷ ks) u = (
  ground (arith, has_active-update_at k.public_key_owner id ks),
  update_at-HasOneActive id ks u.1,
)

-- After the active key was deactivated, the owner has none.
pub has_active-deactivated :
    (owner : String) (ks : List UserPubkey) (k : UserPubkey)
    → HasOneActive ks
    → find_key owner "" ks ≡ some k
    → has_active owner (update_at UserPubkey.id k.id deactivated ks) ≡ false
unfolding has_active update_at find_key
has_active-deactivated owner [] k u e = cc
has_active-deactivated owner (j ∷ ks) k u e = ground (
  arith,
  has_active-deactivated owner ks k u.1,
  has_active-update_at owner k.id ks,
  eq_refl j.id,
  eq_iff j.public_key_owner owner,
)

pub has_active-none :
    (owner : String) (ks : List UserPubkey)
    → find_key owner "" ks ≡ none
    → has_active owner ks ≡ false
unfolding has_active find_key
has_active-none owner [] e = refl
has_active-none owner (j ∷ ks) e = ground (arith, has_active-none owner ks)

has_active-append :
    (owner : String) (ks : List UserPubkey) (k : UserPubkey)
    → has_active owner (ks ++ k ∷ [])
      ≡ (has_active owner ks || (k.active && k.public_key_owner == owner))
unfolding has_active
has_active-append owner [] k = ground arith
has_active-append owner (j ∷ ks) k = ground (arith, has_active-append owner ks k)

pub append-HasOneActive :
    (ks : List UserPubkey) (k : UserPubkey)
    → has_active k.public_key_owner ks ≡ false
    → HasOneActive ks
    → HasOneActive (ks ++ k ∷ [])
unfolding has_active
append-HasOneActive [] k h u = (ground arith, tt)
append-HasOneActive (j ∷ ks) k h u = (
  ground (
    arith,
    has_active-append j.public_key_owner ks k,
    eq_iff k.public_key_owner j.public_key_owner,
    eq_iff j.public_key_owner k.public_key_owner,
  ),
  append-HasOneActive ks k (ground arith) u.1,
)

-- The new key is the one that is found.
pub find_key-append :
    (owner : String) (ks : List UserPubkey) (k : UserPubkey)
    → has_active owner ks ≡ false
    → k.active ≡ true
    → k.public_key_owner ≡ owner
    → find_key owner "" (ks ++ k ∷ []) ≡ some k
unfolding has_active find_key
find_key-append owner [] k h a o = ground (arith, eq_iff k.public_key_owner owner)
find_key-append owner (j ∷ ks) k h a o = ground (arith, find_key-append owner ks k)
