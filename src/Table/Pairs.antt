-- ===== src/Table/Pairs.antt =====
-- Rows without a common pair of values, after the calls of pkg/crud/crud.go on their table.
use go_backend_helpers.Prelude.{
  String, ◌≡◌, refl, false, some, List, [], ◌∷◌, ◌++◌, ◌||◌, ◌==◌, ◌&&◌, arith, eq_iff, eq_refl,
  Bool-cases, inl, inr,
}
use go_backend_helpers.Table.{has, find, update_at, delete_at, IsUnique, has_pair, HasUniquePairs}
use go_backend_helpers.Table.Laws.{update_at-none}

module _ {A : Type 0} (first second : A → String) where
  has_pair-delete_at :
      (key : A → String) (k a b : String) (rs : List A)
      → has_pair first second a b rs ≡ false
      → has_pair first second a b (delete_at key k rs) ≡ false
  unfolding has_pair delete_at
  has_pair-delete_at key k a b [] h = refl
  has_pair-delete_at key k a b (r ∷ rs) h = ground (arith, has_pair-delete_at key k a b rs)

  pub delete_at-HasUniquePairs :
      (key : A → String) (k : String) (rs : List A)
      → HasUniquePairs first second rs
      → HasUniquePairs first second (delete_at key k rs)
  unfolding delete_at
  delete_at-HasUniquePairs key k [] u = tt
  delete_at-HasUniquePairs key k (r ∷ rs) u = elim (Bool-cases (key r == k)) [
    | inl e ↦ rw e (delete_at-HasUniquePairs key k rs u.1)
    | inr e ↦ rw e (
      has_pair-delete_at key k (first r) (second r) rs u.0,
      delete_at-HasUniquePairs key k rs u.1,
    )
  ]

  -- An update that keeps both values.
  pub has_pair-update_at :
      (key : A → String) (k a b : String) (f : A → A) (rs : List A)
      → ((r : A) → first (f r) ≡ first r)
      → ((r : A) → second (f r) ≡ second r)
      → has_pair first second a b (update_at key k f rs) ≡ has_pair first second a b rs
  unfolding has_pair update_at
  has_pair-update_at key k a b f [] p q = refl
  has_pair-update_at key k a b f (r ∷ rs) p q =
      ground (arith, has_pair-update_at key k a b f rs p q, p r, q r)

  pub update_at-HasUniquePairs :
      (key : A → String) (k : String) (f : A → A) (rs : List A)
      → ((r : A) → first (f r) ≡ first r)
      → ((r : A) → second (f r) ≡ second r)
      → HasUniquePairs first second rs
      → HasUniquePairs first second (update_at key k f rs)
  unfolding update_at
  update_at-HasUniquePairs key k f [] p q u = tt
  update_at-HasUniquePairs key k f (r ∷ rs) p q u = (
    ground (arith, has_pair-update_at key k (first r) (second r) f rs p q, p r, q r),
    update_at-HasUniquePairs key k f rs p q u.1,
  )

  -- A row that is updated to a pair is found with that pair alone.
  has_pair-moved :
      (key : A → String) (k a b x y : String) (f : A → A) (rs : List A) (r : A)
      → find key k rs ≡ some r
      → IsUnique key rs
      → first (f r) ≡ a
      → second (f r) ≡ b
      → (a == x && b == y) ≡ false
      → has_pair first second x y rs ≡ false
      → has_pair first second x y (update_at key k f rs) ≡ false
  unfolding has_pair update_at find has
  has_pair-moved key k a b x y f [] r e v p q n h = refl
  has_pair-moved key k a b x y f (s ∷ rs) r e v p q n h = elim (Bool-cases (key s == k)) [
    | inl same ↦ ground (arith, update_at-none key key k f rs, v.0, eq_iff (key s) k, p, q)
    | inr differ ↦ ground (arith, has_pair-moved key k a b x y f rs r, v.1)
  ]

  -- An update of one row to a pair that no row has.
  pub moved-HasUniquePairs :
      (key : A → String) (k a b : String) (f : A → A) (rs : List A) (r : A)
      → find key k rs ≡ some r
      → IsUnique key rs
      → first (f r) ≡ a
      → second (f r) ≡ b
      → has_pair first second a b rs ≡ false
      → HasUniquePairs first second rs
      → HasUniquePairs first second (update_at key k f rs)
  unfolding has_pair update_at find has
  moved-HasUniquePairs key k a b f [] r e v p q h u = tt
  moved-HasUniquePairs key k a b f (s ∷ rs) r e v p q h u = elim (Bool-cases (key s == k)) [
    | inl same ↦ rw same (
        rw (update_at-none key key k f rs (ground (arith, v.0, eq_iff (key s) k)))
          (ground arith, u.1))
    | inr differ ↦ rw differ (
      has_pair-moved key k a b (first s) (second s) f rs r (ground arith) v.1 p q
          (ground (arith, eq_iff a (first s), eq_iff b (second s), eq_refl a, eq_refl b)) u.0,
      moved-HasUniquePairs key k a b f rs r (ground arith) v.1 p q (ground arith) u.1,
    )
  ]

  has_pair-append :
      (a b : String) (rs : List A) (r : A)
      → has_pair first second a b (rs ++ r ∷ [])
        ≡ (has_pair first second a b rs || (first r == a && second r == b))
  unfolding has_pair
  has_pair-append a b [] r = ground arith
  has_pair-append a b (s ∷ rs) r = ground (arith, has_pair-append a b rs r)

  -- A new row with a pair that no row has.
  pub append-HasUniquePairs :
      (rs : List A) (r : A)
      → has_pair first second (first r) (second r) rs ≡ false
      → HasUniquePairs first second rs
      → HasUniquePairs first second (rs ++ r ∷ [])
  unfolding has_pair
  append-HasUniquePairs [] r h u = (refl, tt)
  append-HasUniquePairs (s ∷ rs) r h u = (
    ground (
      arith,
      has_pair-append (first s) (second s) rs r,
      eq_iff (first r) (first s),
      eq_iff (first s) (first r),
      eq_iff (second r) (second s),
      eq_iff (second s) (second r),
    ),
    append-HasUniquePairs rs r (ground arith) u.1,
  )
