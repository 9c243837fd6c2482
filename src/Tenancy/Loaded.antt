-- ===== src/Tenancy/Loaded.antt =====
-- What the handler of notifications of a TenancyManager leaves loaded
-- (pkg/multitenancy/tenancy_manager/tenancy_manager.go).
use go_backend_helpers.Prelude.{
  String, ◌≡◌, refl, inl, inr, none, some, ◌==◌, arith, lookup, lookup-erase, Bool-cases, eq_refl,
  sym, ap, ◌∙◌,
}
use go_backend_helpers.Effects.{ok, Result-cases}
use go_backend_helpers.Tenancy.Store.{Tenancy, State}
use go_backend_helpers.Table.{find}
use go_backend_helpers.Table.Laws.{key-find}
use go_backend_helpers.Tenancy.Controller.{find_tenancy, joined}
use go_backend_helpers.Tenancy.Loading.{
  LoadedTenancy, Manager, unload_tenancy, init_tenancy, connect_database, check_tenancy_database,
  load_tenancy_from_data, load_tenancy, handle_notification,
}
use go_backend_helpers.Tenancy.Entries.{found-insert}
use go_backend_helpers.Tenancy.Agreement.{
  Agree, keep-Agree, unload_tenancy-Agree, same_maps-Agree, free_path,
}

-- `Init` leaves the maps, and gives a tenancy with the data.
init_tenancy_lem :
    (t : Tenancy) (m : Manager)
    → ((init_tenancy t m).1.by_id ≡ m.by_id)
      × ((init_tenancy t m).1.by_path ≡ m.by_path)
      × ((init_tenancy t m).1.store.tenancies ≡ m.store.tenancies)
      × ((l : LoadedTenancy) → (init_tenancy t m).0 ≡ ok (some l) → l.data_of ≡ t)
unfolding init_tenancy connect_database check_tenancy_database
init_tenancy_lem t m = ground arith

find_tenancy_lem :
    (id : String) (s : State)
    → ((find_tenancy id s).1.tenancies ≡ s.tenancies)
      × ((t : Tenancy) → (find_tenancy id s).0 ≡ ok t → find Tenancy.id id s.tenancies ≡ some t)
unfolding find_tenancy joined
find_tenancy_lem id s = ground arith

-- Loading under new keys keeps the agreement.
load_tenancy_from_data-Agree :
    (t : Tenancy) (m : Manager)
    → lookup t.id m.by_id ≡ none
    → lookup t.path m.by_path ≡ none
    → Agree m
    → Agree (load_tenancy_from_data t m).1
unfolding load_tenancy_from_data
load_tenancy_from_data-Agree t m e f h =
    let (p, q, s, d) = init_tenancy_lem t m in
    let kept = same_maps-Agree (init_tenancy t m).1 m p q h in
    elim (Result-cases (init_tenancy t m).0) [
      | inl (x, r) ↦ rw r kept
      | inr (none, r) ↦ rw r kept
      | inr (some l, r) ↦
          rw r (keep-Agree l (init_tenancy t m).1 (rw (d l r, p) e) (rw (d l r, q) f) kept)
    ]

-- A key that was new has the data that were given.
load_tenancy_from_data_lem :
    (id : String) (t : Tenancy) (m : Manager) (l : LoadedTenancy)
    → lookup id m.by_id ≡ none
    → lookup id (load_tenancy_from_data t m).1.by_id ≡ some l
    → l.data_of ≡ t
unfolding load_tenancy_from_data
load_tenancy_from_data_lem id t m l e f =
    let (p, q, s, d) = init_tenancy_lem t m in
    elim (Result-cases (init_tenancy t m).0) [
      | inl (x, r) ↦ cc (rw (r, p) at f, e)
      | inr (none, r) ↦ cc (rw (r, p) at f, e)
      | inr (some k, r) ↦
          elim (found-insert k.data_of.id id k l (init_tenancy t m).1.by_id (rw r at f)) [
            | inl (a, b) ↦ sym (ap LoadedTenancy.data_of b) ∙ d k r
            | inr (n, b) ↦ cc (rw p at b, e)
          ]
    ]

module _ (id : String) (m : Manager) (new_id : lookup id m.by_id ≡ none) where
  load_tenancy-Agree :
      ((t : Tenancy)
        → find Tenancy.id id m.store.tenancies ≡ some t
        → lookup t.path m.by_path ≡ none)
      → Agree m
      → Agree (load_tenancy id m).1
  unfolding load_tenancy
  load_tenancy-Agree new_path h =
      let (s, d) = find_tenancy_lem id m.store in
      let n = record m { store = (find_tenancy id m.store).1 } in
      let kept = same_maps-Agree n m refl refl h in
      elim (Result-cases (find_tenancy id m.store).0) [
        | inl (x, r) ↦ rw r kept
        | inr (t, r) ↦
            let k = key-find Tenancy.id id m.store.tenancies t (d t r) in
            rw r (load_tenancy_from_data-Agree t n (rw k new_id) (new_path t (d t r)) kept)
      ]

  load_tenancy_lem :
      (l : LoadedTenancy)
      → lookup id (load_tenancy id m).1.by_id ≡ some l
      → find Tenancy.id id m.store.tenancies ≡ some l.data_of
  unfolding load_tenancy
  load_tenancy_lem l f =
      let (s, d) = find_tenancy_lem id m.store in
      let n = record m { store = (find_tenancy id m.store).1 } in
      elim (Result-cases (find_tenancy id m.store).0) [
        | inl (x, r) ↦ cc (rw r at f, new_id)
        | inr (t, r) ↦
            d t r ∙ ap some (sym (load_tenancy_from_data_lem id t n l new_id (rw r at f)))
      ]

-- Nothing is left of an unloaded tenancy, and its path is free.
unload_tenancy_lem :
    (id : String) (m : Manager)
    → (lookup id (unload_tenancy id m).by_id ≡ none) × ((unload_tenancy id m).store ≡ m.store)
unfolding unload_tenancy
unload_tenancy_lem id m = ground (arith, lookup-erase id id m.by_id, eq_refl id)

-- After the notification of an operation on a tenancy the two maps of the manager agree as before,
-- whether the handler succeeds or fails, where no other tenancy is loaded under the path that the
-- table has for it; a deleted tenancy is not loaded, and a tenancy that is loaded under the identifier
-- has the data that the table has.
pub handle_notification-Agree :
    (operation id : String) (m : Manager)
    → Agree m
    → ((t : Tenancy) (u : LoadedTenancy)
        → find Tenancy.id id m.store.tenancies ≡ some t
        → lookup t.path m.by_path ≡ some u
        → u.data_of.id ≡ id)
    → Agree (handle_notification operation id m).1
      × (operation ≡ "delete" → lookup id (handle_notification operation id m).1.by_id ≡ none)
      × ((l : LoadedTenancy)
          → lookup id (handle_notification operation id m).1.by_id ≡ some l
          → find Tenancy.id id m.store.tenancies ≡ some l.data_of)
unfolding handle_notification
handle_notification-Agree operation id m h own =
    let n = unload_tenancy id m in
    let (e, s) = unload_tenancy_lem id m in
    let a = unload_tenancy-Agree id m h in
    elim (Bool-cases (operation == "delete")) [
      | inl q ↦ rw q (a, λ _. e, λ l f. cc (e, f))
      | inr q ↦
          let kept : Agree (load_tenancy id n).1
              × (operation ≡ "delete" → lookup id (load_tenancy id n).1.by_id ≡ none)
              × ((l : LoadedTenancy)
                  → lookup id (load_tenancy id n).1.by_id ≡ some l
                  → find Tenancy.id id m.store.tenancies ≡ some l.data_of) =
            (
              load_tenancy-Agree id n e
                  (λ t f. free_path id t.path m (λ u g. own t u (rw s at f) g) h) a,
              λ p. cc (p, q, eq_refl "delete"),
              λ l f. rw (sym s) (load_tenancy_lem id n e l f),
            ) in
          rw q (elim (Result-cases (load_tenancy id n).0) [
            | inl (x, r) ↦ rw r kept
            | inr (t, r) ↦ rw r kept
          ])
    ]
