-- ===== src/Api/Resources.antt =====
-- ResourceBase of pkg/api/resource.go: a tree of resources that keep the paths built from their chain
-- of parents. A resource is a node with its children, and the parent's pointer is an argument: what a
-- resource reads of its parent. A place in the tree is the list of the children's positions.
pub mod Chains
pub mod Laws
pub mod Resets
pub mod Visits
use Prim.Native.String.{◌++◌ as ◌<>◌}
use go_backend_helpers.Prelude.{
  ℕ, zero, suc, String, Bool, true, false, not, Option, none, some, List, [], ◌∷◌, ◌==◌, ◌&&◌, ◌||◌,
  if◌then◌else◌, Dict, lookup,
}
use go_backend_helpers.Api.Operations.{Operation}

-- `ResourceConfig` with the resource's type
pub record Config : Type 0 where
  pub resource_type : String
  pub host : String
  pub has_id : Bool
  pub service : Bool
  pub id : String
  pub tenancy : Bool

-- The paths that `RebuildPaths` keeps; of the tenancy resource its type.
pub record Paths : Type 0 where
  pub path_prototype : String
  pub actual_path : String
  pub full_path_prototype : String
  pub full_actual_path : String
  pub service_path_prototype : String
  pub service_actual_path : String
  pub in_tenancy : Bool
  pub tenancy_resource : Option String

pub record Node : Type 0 where
  pub config : Config
  pub paths : Paths
  pub operations : List Operation
  pub getter : Option Operation

mutual
  pub data Resource : Type 0 where
    resource : Node → Resources → Resource

  pub data Resources : Type 0 where
    no_children : Resources
    child : Resource → Resources → Resources

-- What a resource reads of its parent: its paths and `IsServicePart`.
pub record Parent : Type 0 where
  pub paths : Paths
  pub service_part : Bool

abbrev pub own_prototype : Config → String
own_prototype c = if c.has_id then "/:" <> c.resource_type else "/" <> c.resource_type

abbrev pub own_path : Config → String
own_path c =
    if c.has_id
    then (if c.tenancy && c.id == "" then own_prototype c else "/" <> c.id)
    else own_prototype c

-- `IsServicePart`, `isInTenancy`
abbrev pub is_service_part : Option Parent → Config → Bool
is_service_part none c = c.service
is_service_part (some p) c = c.service || p.service_part

abbrev pub is_in_tenancy : Option Parent → Config → Bool
is_in_tenancy none c = c.tenancy
is_in_tenancy (some p) c = c.tenancy || p.paths.in_tenancy

abbrev pub after_parent : Option Parent → (Paths → String) → String → String
after_parent none f path = path
after_parent (some p) f path = f p.paths <> path

-- A service path starts at the service; outside of a service the old value stays.
abbrev pub service_path : Option Parent → Config → (Paths → String) → String → String → String
service_path none c f path old = if c.service then path else old
service_path (some p) c f path old =
    if c.service then path else (if p.service_part then f p.paths <> path else old)

abbrev tenancy_of : Option Parent → Config → Option String → Option String
tenancy_of none c old = old
tenancy_of (some p) c old =
    if (c.tenancy || p.paths.in_tenancy) && not c.tenancy then p.paths.tenancy_resource else old

-- `RebuildPaths` of one resource
unfoldable pub rebuilt : Option Parent → Config → Paths → Paths
rebuilt p c old = record {
  path_prototype = own_prototype c;
  actual_path = own_path c;
  full_path_prototype = after_parent p Paths.full_path_prototype (own_prototype c);
  full_actual_path = after_parent p Paths.full_actual_path (own_path c);
  service_path_prototype =
      service_path p c Paths.service_path_prototype (own_prototype c) old.service_path_prototype;
  service_actual_path =
      service_path p c Paths.service_actual_path (own_path c) old.service_actual_path;
  in_tenancy = is_in_tenancy p c;
  tenancy_resource = tenancy_of p c old.tenancy_resource;
}

abbrev pub rebuilt_node : Option Parent → Node → Node
rebuilt_node p n = record n { paths = rebuilt p n.config n.paths }

-- A node as the parent of its children.
abbrev pub as_parent : Option Parent → Node → Parent
as_parent p n = record { paths = n.paths; service_part = is_service_part p n.config }

-- `RebuildPaths`
unfoldable mutual
  unfolding rebuilt

  pub rebuild_paths : Option Parent → Resource → Resource
  rebuild_paths p (resource n rs) =
      let n' = rebuilt_node p n in resource n' (rebuild_children (as_parent p n') rs)

  pub rebuild_children : Parent → Resources → Resources
  rebuild_children p no_children = no_children
  rebuild_children p (child r rs) = child (rebuild_paths (some p) r) (rebuild_children p rs)

abbrev pub with_config : (Config → Config) → Resource → Resource
with_config f (resource n rs) = resource (record n { config = f n.config }) rs

-- `SetHasId`, `SetSetvice`
unfoldable pub set_has_id : Option Parent → Bool → Resource → Resource
set_has_id p val r = rebuild_paths p (with_config (λ c. record c { has_id = val }) r)

unfoldable pub set_service : Option Parent → Bool → Resource → Resource
set_service p val r = rebuild_paths p (with_config (λ c. record c { service = val }) r)

-- `SetId`: a given identifier turns the resource into one with an identifier, which rebuilds.
unfoldable pub set_id : Option Parent → String → Bool → Resource → Resource
set_id p val rebuild r =
    let r₁ = with_config (λ c. record c { id = val }) r in
    let r₂ = if val == "" then r₁ else set_has_id p true r₁ in
    if rebuild then rebuild_paths p r₂ else r₂

-- `Init`
unfoldable pub new_resource : Config → Resource
new_resource c = rebuild_paths none (
    resource
      (record {
        config = c;
        paths = record {
          path_prototype = "";
          actual_path = "";
          full_path_prototype = "";
          full_actual_path = "";
          service_path_prototype = "";
          service_actual_path = "";
          in_tenancy = c.tenancy;
          tenancy_resource = if c.tenancy then some c.resource_type else none;
        };
        operations = [];
        getter = none;
      })
      no_children)

unfoldable pub append_child : Resource → Resources → Resources
append_child r no_children = child r no_children
append_child r (child c cs) = child c (append_child r cs)

-- `AddChild`, which sets the parent of the child and rebuilds its paths
unfoldable pub add_child : Option Parent → Resource → Resource → Resource
add_child p c (resource n rs) =
    resource n (append_child (rebuild_paths (some (as_parent p n)) c) rs)

-- What `FillActualPaths` does with one resource of the chain.
abbrev fill_found : Option Parent → Option String → Resource → Resource
fill_found p none r = r
fill_found p (some id) r = set_id p id false r

unfoldable pub fill_own : Dict String → Option Parent → Resource → Resource
fill_own ids p (resource n rs) =
    if n.config.has_id
    then fill_found p (lookup n.config.resource_type ids) (resource n rs)
    else resource n rs

-- The chain from the resource at a place up to the root: the deepest comes first.
unfoldable mutual
  pub fill_chain : Dict String → Option Parent → List ℕ → Resource → Resource
  fill_chain ids p [] r = fill_own ids p r
  fill_chain ids p (i ∷ place) (resource n rs) =
      fill_own ids p (resource n (fill_child ids (as_parent p n) i place rs))

  pub fill_child : Dict String → Parent → ℕ → List ℕ → Resources → Resources
  fill_child ids p i place no_children = no_children
  fill_child ids p zero place (child r rs) = child (fill_chain ids (some p) place r) rs
  fill_child ids p (suc i) place (child r rs) = child r (fill_child ids p i place rs)

-- `FillActualPaths` of the resource at a place of a whole tree
unfoldable pub fill_actual_paths : Dict String → List ℕ → Resource → Resource
fill_actual_paths ids place root = rebuild_paths none (fill_chain ids none place root)

-- The part of `BuildActualPath` that a resource adds itself.
abbrev pub id_part : Option String → String
id_part none = "/"
id_part (some id) = "/" <> id

abbrev pub own_part : Dict String → Config → String
own_part ids c = if c.has_id then id_part (lookup c.resource_type ids) else "/" <> c.resource_type

-- `IsServicePart` over the chain, the resource itself first
abbrev pub any_service : Config → List Config → Bool
any_service c [] = c.service
any_service c (parent ∷ chain) = c.service || any_service parent chain

-- `BuildActualPath` over the chain
unfoldable pub build_actual_path : Dict String → Bool → Config → List Config → String
build_actual_path ids service c [] =
    if service && not (any_service c []) then "" else own_part ids c
build_actual_path ids service c (parent ∷ chain) =
    let before = build_actual_path ids service parent chain in
    if service && not (any_service c (parent ∷ chain))
    then ""
    else (if before == "" then own_part ids c else before <> own_part ids c)
