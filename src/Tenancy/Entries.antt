-- ===== src/Tenancy/Entries.antt =====
-- What a Go map has after a write or a deletion, as the maps of pkg/multitenancy/tenancy_manager have it.
use go_backend_helpers.Prelude.{
  String, ◌≡◌, ◌≢◌, ◌⊎◌, inl, inr, none, some, ◌==◌, arith, Dict, lookup, insert, erase,
  lookup-insert, lookup-erase, Bool-cases, eq_iff, eq_refl,
}

module _ {V : Type 0} where
  -- What an erased dictionary still has is under another key.
  pub found-erase :
      (key sought : String) (u : V) (d : Dict V)
      → lookup sought (erase key d) ≡ some u
      → (key ≢ sought) × (lookup sought d ≡ some u)
  found-erase key sought u d q = elim (Bool-cases (key == sought)) [
    | inl e ↦ ground (arith, q, lookup-erase key sought d, e)
    | inr e ↦ ground (arith, q, lookup-erase key sought d, e, eq_iff key sought)
  ]

  pub other-erase :
      (key sought : String) (u : V) (d : Dict V)
      → key ≢ sought
      → lookup sought d ≡ some u
      → lookup sought (erase key d) ≡ some u
  other-erase key sought u d n q = elim (Bool-cases (key == sought)) [
    | inl e ↦ ground (arith, n, eq_iff key sought, e)
    | inr e ↦ ground (arith, q, lookup-erase key sought d, e)
  ]

  pub found-insert :
      (key sought : String) (v u : V) (d : Dict V)
      → lookup sought (insert key v d) ≡ some u
      → ((key ≡ sought) × (v ≡ u)) ⊎ ((key ≢ sought) × (lookup sought d ≡ some u))
  found-insert key sought v u d q = elim (Bool-cases (key == sought)) [
    | inl e ↦ inl (ground (arith, q, lookup-insert key sought v d, e, eq_iff key sought))
    | inr e ↦ inr (ground (arith, q, lookup-insert key sought v d, e, eq_iff key sought))
  ]

  pub same-insert : (key : String) (v : V) (d : Dict V) → lookup key (insert key v d) ≡ some v
  same-insert key v d = ground (arith, lookup-insert key key v d, eq_refl key)

  pub other-insert :
      (key sought : String) (v u : V) (d : Dict V)
      → key ≢ sought
      → lookup sought d ≡ some u
      → lookup sought (insert key v d) ≡ some u
  other-insert key sought v u d n q = elim (Bool-cases (key == sought)) [
    | inl e ↦ ground (arith, n, eq_iff key sought, e)
    | inr e ↦ ground (arith, q, lookup-insert key sought v d, e)
  ]

pub same_value :
    {V : Type 0} (k j : String) (u v : V) (d : Dict V)
    → k ≡ j
    → lookup k d ≡ some u
    → lookup j d ≡ some v
    → u ≡ v
same_value k j u v d r p q = cc (r, p, q)

pub new_key :
    {V : Type 0} (k j : String) (u : V) (d : Dict V)
    → lookup k d ≡ none
    → lookup j d ≡ some u
    → k ≢ j
new_key k j u d p q = λ r. cc (r, p, q)
