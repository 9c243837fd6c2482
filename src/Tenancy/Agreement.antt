-- ===== src/Tenancy/Agreement.antt =====
-- The agreement of the two maps of a TenancyManager (pkg/multitenancy/tenancy_manager/tenancy_manager.go).
use mathlib.Core.Path.{subst}
use go_backend_helpers.Prelude.{
  String, ◌≡◌, ◌≢◌, inl, inr, none, some, lookup, insert, erase, Option-cases, sym, ap, ◌∙◌,
}
use go_backend_helpers.Tenancy.Loading.{LoadedTenancy, Manager, unload_tenancy, closed, keep}
use go_backend_helpers.Tenancy.Entries.{
  found-erase, other-erase, found-insert, same-insert, other-insert, same_value, new_key,
}

-- Both maps have the same tenancies, each under its identifier and its path.
pub record Agree (m : Manager) : Type 0 where
  pub ids : (id : String) (t : LoadedTenancy) → lookup id m.by_id ≡ some t → t.data_of.id ≡ id
  pub paths :
      (path : String) (t : LoadedTenancy)
      → lookup path m.by_path ≡ some t
      → (t.data_of.path ≡ path) × (lookup t.data_of.id m.by_id ≡ some t)
  pub listed :
      (id : String) (t : LoadedTenancy)
      → lookup id m.by_id ≡ some t
      → lookup t.data_of.path m.by_path ≡ some t

unloaded-Agree :
    (id : String) (t : LoadedTenancy) (m : Manager)
    → lookup id m.by_id ≡ some t
    → Agree m
    → Agree (record m {
      open_connections = closed t.connection m.open_connections;
      by_id = erase id m.by_id;
      by_path = erase t.data_of.path m.by_path;
    })
unloaded-Agree id t m e h = record {
  ids = λ i u q. h.ids i u (found-erase id i u m.by_id q).1;
  paths = λ p u q.
      let (n, f) = found-erase t.data_of.path p u m.by_path q in
      let (a, b) = h.paths p u f in
      let other : id ≢ u.data_of.id =
        λ r. n (ap (λ x. x.data_of.path) (same_value id u.data_of.id t u m.by_id r e b) ∙ a) in
      (a, other-erase id u.data_of.id u m.by_id other b);
  listed = λ i u q.
      let (n, f) = found-erase id i u m.by_id q in
      let b = h.listed i u f in
      let other : t.data_of.path ≢ u.data_of.path = λ r. n (
        sym (h.ids id t e)
        ∙ ap (λ x. x.data_of.id)
            (same_value t.data_of.path u.data_of.path t u m.by_path r (h.listed id t e) b)
        ∙ h.ids i u f) in
      other-erase t.data_of.path u.data_of.path u m.by_path other b;
}

pub keep-Agree :
    (t : LoadedTenancy) (m : Manager)
    → lookup t.data_of.id m.by_id ≡ none
    → lookup t.data_of.path m.by_path ≡ none
    → Agree m
    → Agree (keep (some t) m)
keep-Agree t m new_id new_path h = record {
  ids = λ i u q. elim (found-insert t.data_of.id i t u m.by_id q) [
    | inl (r, s) ↦ sym (ap (λ x. x.data_of.id) s) ∙ r
    | inr (n, f) ↦ h.ids i u f
  ];
  paths = λ p u q. elim (found-insert t.data_of.path p t u m.by_path q) [
    | inl (r, s) ↦ (
      sym (ap (λ x. x.data_of.path) s) ∙ r,
      subst (λ x. lookup x.data_of.id (insert t.data_of.id t m.by_id) ≡ some x) s
          (same-insert t.data_of.id t m.by_id),
    )
    | inr (n, f) ↦
        let (a, b) = h.paths p u f in
        (
          a,
          other-insert t.data_of.id u.data_of.id t u m.by_id
              (new_key t.data_of.id u.data_of.id u m.by_id new_id b) b,
        )
  ];
  listed = λ i u q. elim (found-insert t.data_of.id i t u m.by_id q) [
    | inl (r, s) ↦
        subst (λ x. lookup x.data_of.path (insert t.data_of.path t m.by_path) ≡ some x) s
          (same-insert t.data_of.path t m.by_path)
    | inr (n, f) ↦
        let b = h.listed i u f in
        other-insert t.data_of.path u.data_of.path t u m.by_path
          (new_key t.data_of.path u.data_of.path u m.by_path new_path b) b
  ];
}

pub unload_tenancy-Agree : (id : String) (m : Manager) → Agree m → Agree (unload_tenancy id m)
unfolding unload_tenancy
unload_tenancy-Agree id m h = elim (Option-cases (lookup id m.by_id)) [
  | inl e ↦ rw e h
  | inr (t, e) ↦ rw e (unloaded-Agree id t m e h)
]

-- The same maps agree in any other state.
pub same_maps-Agree :
    (n m : Manager) → n.by_id ≡ m.by_id → n.by_path ≡ m.by_path → Agree m → Agree n
same_maps-Agree n m p q h = record {
  ids = λ i u r. h.ids i u (rw p at r);
  paths = λ i u r. let (a, b) = h.paths i u (rw q at r) in (a, rw p b);
  listed = λ i u r. rw q (h.listed i u (rw p at r));
}

pub free_path :
    (id path : String) (m : Manager)
    → ((u : LoadedTenancy) → lookup path m.by_path ≡ some u → u.data_of.id ≡ id)
    → Agree m
    → lookup path (unload_tenancy id m).by_path ≡ none
unfolding unload_tenancy
free_path id path m own h = elim (Option-cases (lookup id m.by_id)) [
  | inl e ↦ rw e (elim (Option-cases (lookup path m.by_path)) [
    | inl q ↦ q
    | inr (u, q) ↦ cc (own u q, (h.paths path u q).1, e)
  ])
  | inr (t, e) ↦ rw e (elim (Option-cases (lookup path (erase t.data_of.path m.by_path))) [
    | inl q ↦ q
    | inr (u, q) ↦
        let (n, f) = found-erase t.data_of.path path u m.by_path q in
        let (a, b) = h.paths path u f in
        elim (n (
          ap (λ x. x.data_of.path) (same_value id u.data_of.id t u m.by_id (sym (own u f)) e b)
          ∙ a)) [ ]
  ])
]
