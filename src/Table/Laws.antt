-- ===== src/Table/Laws.antt =====
-- Keys and rows after the calls on a table (pkg/crud/crud.go).
use go_backend_helpers.Prelude.{
  String, ◌≡◌, refl, true, false, some, List, [], ◌∷◌, ◌++◌, ◌==◌, ◌||◌, arith, eq_iff, eq_refl,
  Bool-cases, inl, inr,
}
use go_backend_helpers.Table.{has, find, update_at, delete_at, IsUnique}

module _ {A : Type 0} (key : A → String) where
  pub has-append :
      (k : String) (rs : List A) (r : A) → has key k (rs ++ r ∷ []) ≡ (has key k rs || (key r == k))
  unfolding has
  has-append k [] r = ground arith
  has-append k (s ∷ rs) r = ground (arith, has-append k rs r)

  pub append-IsUnique :
      (rs : List A) (r : A)
      → has key (key r) rs ≡ false
      → IsUnique key rs
      → IsUnique key (rs ++ r ∷ [])
  unfolding has
  append-IsUnique [] r h u = (refl, tt)
  append-IsUnique (s ∷ rs) r h u = (
    ground (arith, has-append (key s) rs r, eq_iff (key r) (key s), eq_iff (key s) (key r)),
    append-IsUnique rs r (ground arith) u.1,
  )

  -- A key that is looked for after a deletion of other rows by another key.
  pub has-delete_at :
      (other : A → String) (k j : String) (rs : List A)
      → has key j rs ≡ false
      → has key j (delete_at other k rs) ≡ false
  unfolding has delete_at
  has-delete_at other k j [] h = refl
  has-delete_at other k j (r ∷ rs) h = ground (arith, has-delete_at other k j rs)

  pub delete_at-IsUnique :
      (other : A → String) (k : String) (rs : List A)
      → IsUnique key rs
      → IsUnique key (delete_at other k rs)
  unfolding has delete_at
  delete_at-IsUnique other k [] u = tt
  delete_at-IsUnique other k (r ∷ rs) u = elim (Bool-cases (other r == k)) [
    | inl e ↦ rw e (delete_at-IsUnique other k rs u.1)
    | inr e ↦ rw e (has-delete_at other k (key r) rs u.0, delete_at-IsUnique other k rs u.1)
  ]

  pub delete_at-none : (k : String) (rs : List A) → has key k rs ≡ false → delete_at key k rs ≡ rs
  unfolding has delete_at
  delete_at-none k [] h = refl
  delete_at-none k (r ∷ rs) h = ground (arith, delete_at-none k rs)

  -- A row with another key is there after a deletion as before.
  pub has-delete_at_ne :
      (k j : String) (rs : List A)
      → (k == j) ≡ false
      → has key j (delete_at key k rs) ≡ has key j rs
  unfolding has delete_at
  has-delete_at_ne k j [] h = refl
  has-delete_at_ne k j (r ∷ rs) h =
      ground (arith, has-delete_at_ne k j rs, eq_iff k j, eq_iff (key r) j, eq_iff (key r) k)

  pub has-delete_at_same : (k : String) (rs : List A) → has key k (delete_at key k rs) ≡ false
  unfolding has delete_at
  has-delete_at_same k [] = refl
  has-delete_at_same k (r ∷ rs) = ground (arith, has-delete_at_same k rs)

  -- An update that keeps a key keeps the rows that are found by it.
  pub has-update_at :
      (other : A → String) (k j : String) (f : A → A) (rs : List A)
      → ((r : A) → key (f r) ≡ key r)
      → has key j (update_at other k f rs) ≡ has key j rs
  unfolding has update_at
  has-update_at other k j f [] h = refl
  has-update_at other k j f (r ∷ rs) h = ground (arith, has-update_at other k j f rs h, h r)

  pub update_at-IsUnique :
      (other : A → String) (k : String) (f : A → A) (rs : List A)
      → ((r : A) → key (f r) ≡ key r)
      → IsUnique key rs
      → IsUnique key (update_at other k f rs)
  unfolding has update_at
  update_at-IsUnique other k f [] h u = tt
  update_at-IsUnique other k f (r ∷ rs) h u = (
    ground (arith, has-update_at other k (key r) f rs h, h r),
    update_at-IsUnique other k f rs h u.1,
  )

  pub has-find : (k : String) (rs : List A) (r : A) → find key k rs ≡ some r → has key k rs ≡ true
  unfolding has find
  has-find k [] r e = cc
  has-find k (s ∷ rs) r e = ground (arith, has-find k rs r)

  -- What a search gives has the key that was looked for.
  pub key-find : (k : String) (rs : List A) (r : A) → find key k rs ≡ some r → key r ≡ k
  unfolding find
  key-find k [] r e = cc
  key-find k (s ∷ rs) r e = ground (arith, key-find k rs r, eq_iff (key s) k)

  pub has-find_by :
      (other : A → String) (k : String) (rs : List A) (r : A)
      → find other k rs ≡ some r
      → has key (key r) rs ≡ true
  unfolding has find
  has-find_by other k [] r e = cc
  has-find_by other k (s ∷ rs) r e =
      ground (arith, has-find_by other k rs r, eq_refl (key r), eq_refl (key s))

  pub update_at-none :
      (other : A → String) (k : String) (f : A → A) (rs : List A)
      → has other k rs ≡ false
      → update_at other k f rs ≡ rs
  unfolding has update_at
  update_at-none other k f [] h = refl
  update_at-none other k f (r ∷ rs) h = ground (arith, update_at-none other k f rs)

  has-update_at_new :
      (other : A → String) (k n j : String) (f : A → A) (rs : List A)
      → ((r : A) → key (f r) ≡ n)
      → (n == j) ≡ false
      → has key j rs ≡ false
      → has key j (update_at other k f rs) ≡ false
  unfolding has update_at
  has-update_at_new other k n j f [] e ne h = refl
  has-update_at_new other k n j f (r ∷ rs) e ne h =
      ground (arith, has-update_at_new other k n j f rs e, e r)

  -- An update of the row with one key that sets another key to a value that no row has.
  pub rename-IsUnique :
      (other : A → String) (k n : String) (f : A → A) (rs : List A)
      → ((r : A) → key (f r) ≡ n)
      → has key n rs ≡ false
      → IsUnique other rs
      → IsUnique key rs
      → IsUnique key (update_at other k f rs)
  unfolding has update_at
  rename-IsUnique other k n f [] e h v u = tt
  rename-IsUnique other k n f (r ∷ rs) e h v u = elim (Bool-cases (other r == k)) [
    | inl same ↦ rw same (
        rw (update_at-none other k f rs (ground (arith, eq_iff (other r) k, v.0)))
          (rw (e r) (ground arith, u.1)))
    | inr differ ↦ rw differ (
      has-update_at_new other k n (key r) f rs e (ground (arith, eq_iff n (key r), eq_refl n)) u.0,
      rename-IsUnique other k n f rs e (ground arith) v.1 u.1,
    )
  ]
