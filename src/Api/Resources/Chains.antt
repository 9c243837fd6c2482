-- ===== src/Api/Resources/Chains.antt =====
-- The chain of a place in a tree of resources, and the paths that a chain stands for
-- (pkg/api/resource.go): independent of what the resources keep.
use Prim.Native.String.{◌++◌ as ◌<>◌}
use mathlib.Core.Path.{subst}
use go_backend_helpers.Prelude.{
  ℕ, zero, suc, String, ◌≡◌, refl, Bool, true, Option, none, some, List, [], ◌∷◌, ◌||◌,
  if◌then◌else◌, inl, inr, ◌∙◌, Bool-cases, ap, false≢true, is_some,
}
use go_backend_helpers.Api.Resources.{
  Config, Paths, Resource, resource, Resources, no_children, child, Parent, own_prototype, own_path,
  any_service, rebuilt, rebuilt_node, as_parent, is_service_part, rebuild_paths, rebuild_children,
}

-- The configuration of the resource at a place, and those of its parents, the nearest first.
abbrev mutual
  pub chain_at : List Config → List ℕ → Resource → Option (Config × List Config)
  chain_at above [] (resource n rs) = some (n.config, above)
  chain_at above (i ∷ place) (resource n rs) = chain_in (n.config ∷ above) i place rs

  pub chain_in : List Config → ℕ → List ℕ → Resources → Option (Config × List Config)
  chain_in above i place no_children = none
  chain_in above zero place (child r rs) = chain_at above place r
  chain_in above (suc i) place (child r rs) = chain_in above i place rs

-- The paths that the resource at a place keeps.
abbrev mutual
  pub paths_at : List ℕ → Resource → Option Paths
  paths_at [] (resource n rs) = some n.paths
  paths_at (i ∷ place) (resource n rs) = paths_in i place rs

  pub paths_in : ℕ → List ℕ → Resources → Option Paths
  paths_in i place no_children = none
  paths_in zero place (child r rs) = paths_at place r
  paths_in (suc i) place (child r rs) = paths_in i place rs

-- One part of a path for each resource of the chain, the root's first.
unfoldable pub full_path : (Config → String) → Config → List Config → String
full_path part c [] = part c
full_path part c (parent ∷ chain) = full_path part parent chain <> part c

-- The same from the nearest service on.
unfoldable pub path_in_service : (Config → String) → Config → List Config → String
path_in_service part c [] = part c
path_in_service part c (parent ∷ chain) =
    let before = path_in_service part parent chain in if c.service then part c else before <> part c

abbrev pub any_tenancy : Config → List Config → Bool
any_tenancy c [] = c.tenancy
any_tenancy c (parent ∷ chain) = c.tenancy || any_tenancy parent chain

-- The paths are those of the chain; the service's, where the chain has a service.
pub record AreOf (c : Config) (above : List Config) (p : Paths) : Type 0 where
  pub prototype : p.full_path_prototype ≡ full_path own_prototype c above
  pub actual : p.full_actual_path ≡ full_path own_path c above
  pub tenancy : p.in_tenancy ≡ any_tenancy c above
  pub service_prototype :
      any_service c above ≡ true → p.service_path_prototype ≡ path_in_service own_prototype c above
  pub service_actual :
      any_service c above ≡ true → p.service_actual_path ≡ path_in_service own_path c above

-- A parent that stands for a chain.
abbrev pub StandsFor : Option Parent → List Config → Type 0
StandsFor none [] = Unit {0}
StandsFor none (c ∷ above) = ⊥
StandsFor (some p) [] = ⊥
StandsFor (some p) (c ∷ above) = (p.service_part ≡ any_service c above) × AreOf c above p.paths

rebuilt-AreOf :
    (p : Option Parent) (above : List Config) (c : Config) (old : Paths)
    → StandsFor p above
    → AreOf c above (rebuilt p c old)
unfolding rebuilt full_path path_in_service
rebuilt-AreOf none [] c old h = record {
  prototype = refl;
  actual = refl;
  tenancy = refl;
  service_prototype = λ e. rw e refl;
  service_actual = λ e. rw e refl;
}
rebuilt-AreOf none (d ∷ above) c old h = absurd h
rebuilt-AreOf (some p) [] c old h = absurd h
rebuilt-AreOf (some p) (d ∷ above) c old (s, h) = record {
  prototype = rw h.prototype refl;
  actual = rw h.actual refl;
  tenancy = rw h.tenancy refl;
  service_prototype = λ e. elim (Bool-cases c.service) [
    | inl t ↦ rw t refl
    | inr t ↦
        let q : any_service d above ≡ true = rw t at e in rw (t, s ∙ q, h.service_prototype q) refl
  ];
  service_actual = λ e. elim (Bool-cases c.service) [
    | inl t ↦ rw t refl
    | inr t ↦
        let q : any_service d above ≡ true = rw t at e in rw (t, s ∙ q, h.service_actual q) refl
  ];
}

is_service_part_lem :
    (p : Option Parent) (above : List Config) (c : Config)
    → StandsFor p above
    → is_service_part p c ≡ any_service c above
is_service_part_lem none [] c h = refl
is_service_part_lem none (d ∷ above) c h = absurd h
is_service_part_lem (some p) [] c h = absurd h
is_service_part_lem (some p) (d ∷ above) c h = rw h.0 refl

abbrev value_or : {A : Type 0} → A → Option A → A
value_or a none = a
value_or a (some b) = b

-- `RebuildPaths` gives every resource below the paths of its chain.
mutual
  unfolding rebuild_paths

  pub rebuild_paths-AreOf :
      (place : List ℕ) (p : Option Parent) (above : List Config) (r : Resource) (c : Config)
      (chain : List Config)
      → StandsFor p above
      → chain_at above place r ≡ some (c, chain)
      → (q : Paths) × (paths_at place (rebuild_paths p r) ≡ some q) × AreOf c chain q
  rebuild_paths-AreOf [] p above (resource n rs) c chain h e =
      let same : (n.config, above) ≡ (c, chain) = ap (value_or (c, chain)) e in
      (
        rebuilt p n.config n.paths,
        refl,
        subst (λ x. AreOf x.0 x.1 (rebuilt p n.config n.paths)) same
            (rebuilt-AreOf p above n.config n.paths h),
      )
  rebuild_paths-AreOf (i ∷ place) p above (resource n rs) c chain h e =
      let own = rebuilt-AreOf p above n.config n.paths h in
      rebuild_children-AreOf i place (as_parent p (rebuilt_node p n)) n.config above rs c chain
        (is_service_part_lem p above n.config h, own) e

  rebuild_children-AreOf :
      (i : ℕ) (place : List ℕ) (p : Parent) (d : Config) (above : List Config) (rs : Resources)
      (c : Config) (chain : List Config)
      → StandsFor (some p) (d ∷ above)
      → chain_in (d ∷ above) i place rs ≡ some (c, chain)
      → (q : Paths) × (paths_in i place (rebuild_children p rs) ≡ some q) × AreOf c chain q
  rebuild_children-AreOf i place p d above no_children c chain h e =
      absurd (false≢true (ap is_some e))
  rebuild_children-AreOf zero place p d above (child r rs) c chain h e =
      rebuild_paths-AreOf place (some p) (d ∷ above) r c chain h e
  rebuild_children-AreOf (suc i) place p d above (child r rs) c chain h e =
      rebuild_children-AreOf i place p d above rs c chain h e
