-- ===== src/Prelude/Maps.antt =====
-- Go's `map[string]V` as an association list without repeated keys: a write replaces in place, or
-- adds at the end.
use Prim.Native.String.{String}
use mathlib.Core.Path.{◌≡◌, refl, subst}
use mathlib.Core.Logic.{inl, inr}
use mathlib.Core.Option.{Option, none, some}
use mathlib.Core.List.{List, [], ◌∷◌}
use native.Mathlib.Omega.{arith}
use text.Mathlib.Text.{◌==◌}
use text.Mathlib.TextEquality.{eq_iff}
use go_backend_helpers.Prelude.Lists.{All}
use go_backend_helpers.Prelude.Tests.{if◌then◌else◌, Bool-cases}

abbrev pub Dict {ℓ} : Type ℓ → Type ℓ
Dict V = List (String × V)

module _ {ℓ} {V : Type ℓ} where
  unfoldable pub lookup : String → Dict V → Option V
  lookup key [] = none
  lookup key ((first, old) ∷ entries) = if first == key then some old else lookup key entries

  unfoldable pub insert : String → V → Dict V → Dict V
  insert key new [] = (key, new) ∷ []
  insert key new ((first, old) ∷ entries) =
      if first == key then (key, new) ∷ entries else (first, old) ∷ insert key new entries

  -- `delete(m, k)`
  unfoldable pub erase : String → Dict V → Dict V
  erase key [] = []
  erase key ((first, old) ∷ entries) =
      let rest = erase key entries in if first == key then rest else (first, old) ∷ rest

  pub lookup-insert :
      (key sought : String) (new : V) (entries : Dict V)
      → lookup sought (insert key new entries)
        ≡ (if key == sought then some new else lookup sought entries)
  unfolding lookup insert
  lookup-insert key sought new [] = refl
  lookup-insert key sought new ((first, old) ∷ entries) = ground (
    arith,
    lookup-insert key sought new entries,
    eq_iff first key,
    eq_iff first sought,
    eq_iff key sought,
  )

  pub lookup-erase :
      (key sought : String) (entries : Dict V)
      → lookup sought (erase key entries) ≡ (if key == sought then none else lookup sought entries)
  unfolding lookup erase
  lookup-erase key sought [] = ground arith
  lookup-erase key sought ((first, old) ∷ entries) = ground (
    arith,
    lookup-erase key sought entries,
    eq_iff first key,
    eq_iff first sought,
    eq_iff key sought,
  )

-- Writes and deletions keep what holds of every value.
module _ {ℓ} {V : Type ℓ} (P : V → Type 0) where
  pub All-insert :
      (k : String) (v : V) (m : Dict V)
      → P v
      → All (λ (e : String × V). P e.1) m
      → All (λ (e : String × V). P e.1) (insert k v m)
  unfolding insert
  All-insert k v [] p h = (p, tt)
  All-insert k v ((j, w) ∷ m) p h = elim (Bool-cases (j == k)) [
    | inl e ↦ rw e (p, h.1)
    | inr e ↦ rw e (h.0, All-insert k v m p h.1)
  ]

  pub All-erase :
      (k : String) (m : Dict V)
      → All (λ (e : String × V). P e.1) m
      → All (λ (e : String × V). P e.1) (erase k m)
  unfolding erase
  All-erase k [] h = tt
  All-erase k ((j, w) ∷ m) h = elim (Bool-cases (j == k)) [
    | inl e ↦ rw e (All-erase k m h.1)
    | inr e ↦ rw e (h.0, All-erase k m h.1)
  ]

  pub All-lookup :
      (k : String) (m : Dict V) {v : V}
      → All (λ (e : String × V). P e.1) m
      → lookup k m ≡ some v
      → P v
  unfolding lookup
  All-lookup k [] h e = cc
  All-lookup k ((j, w) ∷ m) {v} h e = elim (Bool-cases (j == k)) [
    | inl t ↦ let q : w ≡ v = cc (rw t at e) in subst P q h.0
    | inr t ↦ All-lookup k m h.1 (rw t at e)
  ]

-- A write keeps what holds of every value at its key.
module _ {ℓ} {V : Type ℓ} (P : String → V → Type 0) where
  abbrev pub AllEntries : Dict V → Type 0
  AllEntries [] = Unit {0}
  AllEntries ((k, v) ∷ m) = P k v × AllEntries m

  pub AllEntries-insert :
      (k : String) (v : V) (m : Dict V) → P k v → AllEntries m → AllEntries (insert k v m)
  unfolding insert
  AllEntries-insert k v [] p h = (p, tt)
  AllEntries-insert k v ((j, w) ∷ m) p h = elim (Bool-cases (j == k)) [
    | inl e ↦ rw e (p, h.1)
    | inr e ↦ rw e (h.0, AllEntries-insert k v m p h.1)
  ]
