-- ===== src/Api/Resources/Laws.antt =====
-- `RebuildPaths`, `FillActualPaths` and `BuildActualPath` of pkg/api/resource.go over chains.
use text.Mathlib.TextLemmas.{nil-append}
use go_backend_helpers.Prelude.{
  ℕ, zero, suc, String, ◌≡◌, refl, ◌⊎◌, inl, inr, true, false, Option, none, some, List, [], ◌∷◌,
  ◌==◌, ◌&&◌, map, ap, sym, ◌∙◌, if◌then◌else◌, Dict, lookup, All, Bool-cases, Option-cases, eq_iff,
}
use go_backend_helpers.Api.Resources.{
  Config, Paths, Node, Resource, resource, Resources, no_children, child, Parent, own_path,
  own_part, as_parent, rebuilt_node, rebuild_paths, rebuild_children, set_has_id, set_id, fill_own,
  fill_chain, fill_child, fill_actual_paths, build_actual_path,
}
use go_backend_helpers.Api.Resources.Chains.{
  chain_at, chain_in, paths_at, full_path, AreOf, rebuild_paths-AreOf,
}

-- After RebuildPaths of the root, every resource of the tree keeps the paths that its chain stands
-- for: the full paths from the root, the service's from the nearest service on, and whether it is in
-- a tenancy.
pub rebuild_paths_lem :
    (root : Resource) (place : List ℕ) (c : Config) (chain : List Config)
    → chain_at [] place root ≡ some (c, chain)
    → (q : Paths) × (paths_at place (rebuild_paths none root) ≡ some q) × AreOf c chain q
rebuild_paths_lem root place c chain e = rebuild_paths-AreOf place none [] root c chain tt e

-- Rebuilding paths changes no chain.
mutual
  unfolding rebuild_paths

  pub chain_at-rebuild_paths :
      (above : List Config) (place : List ℕ) (p : Option Parent) (r : Resource)
      → chain_at above place (rebuild_paths p r) ≡ chain_at above place r
  chain_at-rebuild_paths above [] p (resource n rs) = refl
  chain_at-rebuild_paths above (i ∷ place) p (resource n rs) =
      chain_in-rebuild_children (n.config ∷ above) i place (as_parent p (rebuilt_node p n)) rs

  chain_in-rebuild_children :
      (above : List Config) (i : ℕ) (place : List ℕ) (p : Parent) (rs : Resources)
      → chain_in above i place (rebuild_children p rs) ≡ chain_in above i place rs
  chain_in-rebuild_children above i place p no_children = refl
  chain_in-rebuild_children above zero place p (child r rs) =
      chain_at-rebuild_paths above place (some p) r
  chain_in-rebuild_children above (suc i) place p (child r rs) =
      chain_in-rebuild_children above i place p rs

-- What the identifiers make of a configuration.
abbrev given_id : Config → Option String → Config
given_id c none = c
given_id c (some id) = record c { id = id; has_id = true }

abbrev pub filled : Dict String → Config → Config
filled ids c = if c.has_id then given_id c (lookup c.resource_type ids) else c

chain_at-fill_own :
    (ids : Dict String) (p : Option Parent) (above : List Config) (place : List ℕ) (n : Node)
    (rs : Resources)
    → chain_at above place (fill_own ids p (resource n rs))
      ≡ chain_at above place (resource (record n { config = filled ids n.config }) rs)
unfolding fill_own set_id set_has_id
chain_at-fill_own ids p above place n rs = elim (Bool-cases n.config.has_id) [
  | inr no_id ↦ rw no_id refl
  | inl has ↦ elim (Option-cases (lookup n.config.resource_type ids)) [
    | inl missing ↦ rw (has, missing) refl
    | inr (id, found) ↦ elim (Bool-cases (id == "")) [
      | inl empty ↦ rw (has, found, empty) refl
      | inr given ↦
          rw (has, found, given)
            (chain_at-rebuild_paths above place p
              (resource (record n { config = record n.config { id = id; has_id = true } }) rs))
    ]
  ]
]

abbrev pub filled_chain :
    Dict String → Option (Config × List Config) → Option (Config × List Config)
filled_chain ids none = none
filled_chain ids (some (c, chain)) = some (filled ids c, map (filled ids) chain)

-- Filling a chain fills each configuration of it.
mutual
  unfolding fill_chain

  pub chain_at-fill_chain :
      (ids : Dict String) (p : Option Parent) (above : List Config) (place : List ℕ) (r : Resource)
      → chain_at (map (filled ids) above) place (fill_chain ids p place r)
        ≡ filled_chain ids (chain_at above place r)
  chain_at-fill_chain ids p above [] (resource n rs) =
      chain_at-fill_own ids p (map (filled ids) above) [] n rs
  chain_at-fill_chain ids p above (i ∷ place) (resource n rs) =
      chain_at-fill_own ids p (map (filled ids) above) (i ∷ place) n
        (fill_child ids (as_parent p n) i place rs)
      ∙ chain_in-fill_child ids (as_parent p n) (n.config ∷ above) i place rs

  chain_in-fill_child :
      (ids : Dict String) (p : Parent) (above : List Config) (i : ℕ) (place : List ℕ)
      (rs : Resources)
      → chain_in (map (filled ids) above) i place (fill_child ids p i place rs)
        ≡ filled_chain ids (chain_in above i place rs)
  chain_in-fill_child ids p above i place no_children = refl
  chain_in-fill_child ids p above zero place (child r rs) =
      chain_at-fill_chain ids (some p) above place r
  chain_in-fill_child ids p above (suc i) place (child r rs) =
      chain_in-fill_child ids p above i place rs

-- BuildActualPath is the path of its parts.
build_actual_path_lem :
    (ids : Dict String) (c : Config) (chain : List Config)
    → build_actual_path ids false c chain ≡ full_path (own_part ids) c chain
unfolding build_actual_path full_path
build_actual_path_lem ids c [] = refl
build_actual_path_lem ids c (parent ∷ chain) =
    let ih = build_actual_path_lem ids parent chain in
    elim (Bool-cases (full_path (own_part ids) parent chain == "")) [
      | inl e ↦
          let empty = (eq_iff (full_path (own_part ids) parent chain) "").0 e in
          rw (ih, e, empty) (sym (nil-append (own_part ids c)))
      | inr e ↦ rw (ih, e) refl
    ]

-- The identifier of a resource is given, and not empty for a tenancy.
abbrev pub IsGiven : Dict String → Config → Type 0
IsGiven ids c =
    (c.has_id ≡ false)
    ⊎ ((id : String) × (lookup c.resource_type ids ≡ some id) × ((c.tenancy && id == "") ≡ false))

own_path-filled :
    (ids : Dict String) (c : Config) → IsGiven ids c → own_path (filled ids c) ≡ own_part ids c
own_path-filled ids c (inl e) = rw e refl
own_path-filled ids c (inr (id, found, e)) = elim (Bool-cases c.has_id) [
  | inl has ↦ rw (has, found, e) refl
  | inr no_id ↦ rw no_id refl
]

full_path-filled :
    (ids : Dict String) (c : Config) (chain : List Config)
    → IsGiven ids c
    → All (IsGiven ids) chain
    → full_path own_path (filled ids c) (map (filled ids) chain) ≡ full_path (own_part ids) c chain
unfolding full_path
full_path-filled ids c [] g h = own_path-filled ids c g
full_path-filled ids c (parent ∷ chain) g h =
    rw (full_path-filled ids parent chain h.0 h.1, own_path-filled ids c g) refl

-- When the identifiers of all resources of a chain are given, FillActualPaths leaves the resource
-- with the full path that BuildActualPath computes from the identifiers.
pub fill_actual_paths-build_actual_path :
    (ids : Dict String) (root : Resource) (place : List ℕ) (c : Config) (chain : List Config)
    → chain_at [] place root ≡ some (c, chain)
    → IsGiven ids c
    → All (IsGiven ids) chain
    → (q : Paths) × (paths_at place (fill_actual_paths ids place root) ≡ some q)
      × (q.full_actual_path ≡ build_actual_path ids false c chain)
unfolding fill_actual_paths
fill_actual_paths-build_actual_path ids root place c chain e g h =
    let filled_root = fill_chain ids none place root in
    let at : chain_at [] place filled_root ≡ some (filled ids c, map (filled ids) chain) =
      chain_at-fill_chain ids none [] place root ∙ ap (filled_chain ids) e in
    let r = rebuild_paths_lem filled_root place (filled ids c) (map (filled ids) chain) at in
    (
      r.0,
      r.1,
      r.2.actual ∙ full_path-filled ids c chain g h ∙ sym (build_actual_path_lem ids c chain),
    )
