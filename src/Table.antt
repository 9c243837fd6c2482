-- ===== src/Table.antt =====
-- A table of the database as the list of its rows, in the order in which they were created, and the
-- calls of pkg/crud/crud.go on it: a search gives the first row that fits.
pub mod Laws
pub mod Searches
pub mod Pairs
use go_backend_helpers.Prelude.{
  String, ◌≡◌, Bool, true, false, Option, none, some, List, [], ◌∷◌, ◌++◌, map, ◌==◌, ◌&&◌, ◌||◌,
  if◌then◌else◌,
}

module _ {A : Type 0} (key : A → String) where
  -- `Exists` with one field
  unfoldable pub has : String → List A → Bool
  has k [] = false
  has k (r ∷ rs) = key r == k || has k rs

  -- `ReadByField`
  unfoldable pub find : String → List A → Option A
  find k [] = none
  find k (r ∷ rs) = if key r == k then some r else find k rs

  -- `Update` of the rows with a key
  unfoldable pub update_at : String → (A → A) → List A → List A
  update_at k f [] = []
  update_at k f (r ∷ rs) = (if key r == k then f r else r) ∷ update_at k f rs

  -- `Delete`, and `DeleteByFields` with one field
  unfoldable pub delete_at : String → List A → List A
  delete_at k [] = []
  delete_at k (r ∷ rs) = let rest = delete_at k rs in if key r == k then rest else r ∷ rest

  -- No two rows have the same key.
  abbrev pub IsUnique : List A → Type 0
  IsUnique [] = Unit {0}
  IsUnique (r ∷ rs) = (has (key r) rs ≡ false) × IsUnique rs

-- Whether a row has both values, of two of its columns.
module _ {A : Type 0} (first second : A → String) where
  unfoldable pub has_pair : String → String → List A → Bool
  has_pair a b [] = false
  has_pair a b (r ∷ rs) = (first r == a && second r == b) || has_pair a b rs

  -- No two rows have both values in common.
  abbrev pub HasUniquePairs : List A → Type 0
  HasUniquePairs [] = Unit {0}
  HasUniquePairs (r ∷ rs) = (has_pair (first r) (second r) rs ≡ false) × HasUniquePairs rs
