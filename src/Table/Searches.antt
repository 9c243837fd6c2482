-- ===== src/Table/Searches.antt =====
-- What a search of pkg/crud/crud.go gives after a row was added or updated.
use go_backend_helpers.Prelude.{
  String, ◌≡◌, refl, false, none, some, List, [], ◌∷◌, ◌++◌, ◌==◌, arith, eq_iff, eq_refl,
  Bool-cases, inl, inr,
}
use go_backend_helpers.Table.{has, find, update_at}

module _ {A : Type 0} (key : A → String) where
  pub find-append :
      (k : String) (rs : List A) (r : A)
      → has key k rs ≡ false
      → key r ≡ k
      → find key k (rs ++ r ∷ []) ≡ some r
  unfolding has find
  find-append k [] r h e = ground (arith, eq_iff (key r) k)
  find-append k (s ∷ rs) r h e = ground (arith, find-append k rs r)

  pub find-none : (k : String) (rs : List A) → has key k rs ≡ false → find key k rs ≡ none
  unfolding has find
  find-none k [] h = refl
  find-none k (s ∷ rs) h = ground (arith, find-none k rs)

  -- The row that is found, after its update by another key.
  pub find-update_at :
      (other : A → String) (k : String) (f : A → A) (rs : List A) (r : A)
      → ((x : A) → key (f x) ≡ key x)
      → find key k rs ≡ some r
      → find key k (update_at other (other r) f rs) ≡ some (f r)
  unfolding find update_at
  find-update_at other k f [] r h e = cc
  find-update_at other k f (s ∷ rs) r h e = elim (Bool-cases (key s == k)) [
    | inl t ↦ ground (arith, eq_refl (other s), h s)
    | inr t ↦ ground (arith, find-update_at other k f rs r h, h s)
  ]
