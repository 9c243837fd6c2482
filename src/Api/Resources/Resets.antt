-- ===== src/Api/Resources/Resets.antt =====
-- `ResetIds` of pkg/api/resource.go, which takes the identifiers of a request out of a chain.
use Prim.Native.String.{◌++◌ as ◌<>◌}
use go_backend_helpers.Prelude.{
  ℕ, zero, suc, String, ◌≡◌, refl, inl, inr, true, false, Option, none, some, List, [], ◌∷◌, map,
  ap, sym, ◌∙◌, if◌then◌else◌, Dict, lookup, Bool-cases, Option-cases,
}
use go_backend_helpers.Api.Resources.{
  own_path, Config, Paths, Node, Resource, resource, Resources, no_children, child, Parent,
  as_parent, rebuild_paths, set_id, fill_chain, fill_actual_paths,
}
use go_backend_helpers.Api.Resources.Chains.{full_path, chain_at, chain_in, paths_at}
use go_backend_helpers.Api.Resources.Laws.{
  filled, filled_chain, chain_at-fill_chain, chain_at-rebuild_paths, rebuild_paths_lem,
}

-- What `ResetIds` does with one resource of the chain.
unfoldable pub reset_own : Option Parent → Resource → Resource
reset_own p (resource n rs) =
    if n.config.has_id then set_id p "" false (resource n rs) else resource n rs

-- The chain from the resource at a place up to the root.
unfoldable mutual
  pub reset_chain : Option Parent → List ℕ → Resource → Resource
  reset_chain p [] r = reset_own p r
  reset_chain p (i ∷ place) (resource n rs) =
      reset_own p (resource n (reset_child (as_parent p n) i place rs))

  pub reset_child : Parent → ℕ → List ℕ → Resources → Resources
  reset_child p i place no_children = no_children
  reset_child p zero place (child r rs) = child (reset_chain (some p) place r) rs
  reset_child p (suc i) place (child r rs) = child r (reset_child p i place rs)

-- `ResetIds` of the resource at a place of a whole tree
unfoldable pub reset_ids : List ℕ → Resource → Resource
reset_ids place root = rebuild_paths none (reset_chain none place root)

-- What is left of a configuration.
abbrev without_id : Config → Config
without_id c = if c.has_id then record c { id = "" } else c

abbrev reset_configs : Option (Config × List Config) → Option (Config × List Config)
reset_configs none = none
reset_configs (some (c, chain)) = some (without_id c, map without_id chain)

chain_at-reset_own :
    (p : Option Parent) (above : List Config) (place : List ℕ) (n : Node) (rs : Resources)
    → chain_at above place (reset_own p (resource n rs))
      ≡ chain_at above place (resource (record n { config = without_id n.config }) rs)
unfolding reset_own set_id
chain_at-reset_own p above place n rs = elim (Bool-cases n.config.has_id) [
  | inl has ↦ rw has refl
  | inr no_id ↦ rw no_id refl
]

-- A reset chain has no identifier.
mutual
  unfolding reset_chain

  chain_at-reset_chain :
      (p : Option Parent) (above : List Config) (place : List ℕ) (r : Resource)
      → chain_at (map without_id above) place (reset_chain p place r)
        ≡ reset_configs (chain_at above place r)
  chain_at-reset_chain p above [] (resource n rs) =
      chain_at-reset_own p (map without_id above) [] n rs
  chain_at-reset_chain p above (i ∷ place) (resource n rs) =
      chain_at-reset_own p (map without_id above) (i ∷ place) n
        (reset_child (as_parent p n) i place rs)
      ∙ chain_in-reset_child (as_parent p n) (n.config ∷ above) i place rs

  chain_in-reset_child :
      (p : Parent) (above : List Config) (i : ℕ) (place : List ℕ) (rs : Resources)
      → chain_in (map without_id above) i place (reset_child p i place rs)
        ≡ reset_configs (chain_in above i place rs)
  chain_in-reset_child p above i place no_children = refl
  chain_in-reset_child p above zero place (child r rs) = chain_at-reset_chain (some p) above place r
  chain_in-reset_child p above (suc i) place (child r rs) = chain_in-reset_child p above i place rs

-- Nothing of the given identifiers is left.
without_id-filled : (ids : Dict String) (c : Config) → without_id (filled ids c) ≡ without_id c
without_id-filled ids c = elim (Bool-cases c.has_id) [
  | inr no_id ↦ let same : filled ids c ≡ c = rw no_id refl in ap without_id same
  | inl has ↦ elim (Option-cases (lookup c.resource_type ids)) [
    | inl missing ↦ let same : filled ids c ≡ c = rw (has, missing) refl in ap without_id same
    | inr (id, found) ↦
        let given : filled ids c ≡ record c { id = id; has_id = true } = rw (has, found) refl in
        let cleared : record c { id = "" } ≡ without_id c =
          ap (λ b. if b then record c { id = "" } else c) (sym has) in
        ap without_id given ∙ ap (λ b. record c { id = ""; has_id = b }) (sym has) ∙ cleared
  ]
]

map-filled :
    (ids : Dict String) (chain : List Config)
    → map without_id (map (filled ids) chain) ≡ map without_id chain
map-filled ids [] = refl
map-filled ids (c ∷ chain) = rw (without_id-filled ids c, map-filled ids chain) refl

-- What a resource without an identifier adds to its path.
abbrev pub reset_part : Config → String
reset_part c =
    if c.has_id
    then (if c.tenancy then "/:" <> c.resource_type else "/")
    else "/" <> c.resource_type

own_path-without_id : (c : Config) → own_path (without_id c) ≡ reset_part c
own_path-without_id c = elim (Bool-cases c.has_id) [
  | inr no_id ↦
      let same : without_id c ≡ c = rw no_id refl in
      let path : own_path c ≡ reset_part c = rw no_id refl in ap own_path same ∙ path
  | inl has ↦
      let cleared : without_id c ≡ record c { id = "" } = rw has refl in
      let path : own_path (record c { id = "" }) ≡ reset_part c = elim (Bool-cases c.tenancy) [
        | inl tenancy ↦ rw (has, tenancy) refl
        | inr other ↦ rw (has, other) refl
      ] in
      ap own_path cleared ∙ path
]

full_path-without_id :
    (c : Config) (chain : List Config)
    → full_path own_path (without_id c) (map without_id chain) ≡ full_path reset_part c chain
unfolding full_path
full_path-without_id c [] = own_path-without_id c
full_path-without_id c (parent ∷ chain) =
    rw (full_path-without_id parent chain, own_path-without_id c) refl

-- Whichever identifiers FillActualPaths has put into the chain of a resource, ResetIds takes them out
-- of the whole chain: the full path of the resource is then made of the types of the resources without
-- an identifier, the prototypes of tenancies, and empty parts for the others.
pub reset_ids-fill_actual_paths :
    (ids : Dict String) (root : Resource) (place : List ℕ) (c : Config) (chain : List Config)
    → chain_at [] place root ≡ some (c, chain)
    → (q : Paths) × (paths_at place (reset_ids place (fill_actual_paths ids place root)) ≡ some q)
      × (q.full_actual_path ≡ full_path reset_part c chain)
unfolding reset_ids fill_actual_paths
reset_ids-fill_actual_paths ids root place c chain e =
    let full = rebuild_paths none (fill_chain ids none place root) in
    let at_full : chain_at [] place full ≡ some (filled ids c, map (filled ids) chain) =
      chain_at-rebuild_paths [] place none (fill_chain ids none place root)
      ∙ chain_at-fill_chain ids none [] place root
      ∙ ap (filled_chain ids) e in
    let (q, f, a) =
      rebuild_paths_lem (reset_chain none place full) place _ _
        (chain_at-reset_chain none [] place full ∙ ap reset_configs at_full) in
    let same : full_path own_path (without_id (filled ids c))
          (map without_id (map (filled ids) chain))
        ≡ full_path own_path (without_id c) (map without_id chain) =
      rw (without_id-filled ids c, map-filled ids chain) refl in
    (q, f, a.actual ∙ same ∙ full_path-without_id c chain)
