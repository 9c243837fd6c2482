-- ===== src/Api/Tests.antt =====
-- Resources of pkg/api/resource.go at concrete trees.
use go_backend_helpers.Prelude.{
  String, ◌≡◌, refl, inl, inr, true, false, none, some, List, [], ◌∷◌, ◌++◌, lookup,
}
use go_backend_helpers.Effects.{Act, ok}
use go_backend_helpers.Api.Operations.{
  Operation, remove_where, remove_operations, assign, compact, clear_from,
}
use go_backend_helpers.Api.Operations.Filters.{slice_of}
use go_backend_helpers.Api.Resources.{
  Config, Paths, Node, Resource, resource, no_children, child, rebuild_paths, fill_actual_paths,
  build_actual_path,
}
use go_backend_helpers.Api.Resources.Chains.{paths_at, full_path, AreOf}
use go_backend_helpers.Api.Resources.Resets.{reset_ids, reset_part, reset_ids-fill_actual_paths}
use go_backend_helpers.Api.Resources.Laws.{rebuild_paths_lem, fill_actual_paths-build_actual_path}

abbrev group : String → Config
group name = record {
  resource_type = name;
  host = "";
  has_id = false;
  service = false;
  id = "";
  tenancy = false;
}

abbrev named : String → Config
named name = record {
  resource_type = name;
  host = "";
  has_id = true;
  service = false;
  id = "";
  tenancy = false;
}

abbrev service_config : Config
service_config = record {
  resource_type = "users";
  host = "";
  has_id = false;
  service = true;
  id = "";
  tenancy = false;
}

abbrev no_paths : Paths
no_paths = record {
  path_prototype = "";
  actual_path = "";
  full_path_prototype = "";
  full_actual_path = "";
  service_path_prototype = "";
  service_actual_path = "";
  in_tenancy = false;
  tenancy_resource = none;
}

abbrev list_op : Operation
list_op = record { name = "list"; access_type = 1; test_only = false }

abbrev add_op : Operation
add_op = record { name = "add"; access_type = 2; test_only = false }

abbrev node : Config → List Operation → Node
node c ops = record { config = c; paths = no_paths; operations = ops; getter = none }

-- /api/users/:user/phone, of which users is the service
abbrev tree : Resource
tree = resource (node (group "api") []) (
    child
      (resource (node service_config (list_op ∷ add_op ∷ [])) (
        child
          (resource (node (named "user") (add_op ∷ []))
            (child (resource (node (group "phone") []) no_children) no_children))
          no_children))
      no_children)

abbrev above_phone : List Config
above_phone = named "user" ∷ service_config ∷ group "api" ∷ []

rebuild_paths_lem_example :
    (q : Paths) × (paths_at (0 ∷ 0 ∷ 0 ∷ []) (rebuild_paths none tree) ≡ some q)
    × AreOf (group "phone") above_phone q
rebuild_paths_lem_example = rebuild_paths_lem tree (0 ∷ 0 ∷ 0 ∷ []) (group "phone") above_phone refl

fill_actual_paths-build_actual_path_example :
    (q : Paths) × (paths_at
        (0 ∷ 0 ∷ 0 ∷ [])
        (fill_actual_paths (("user", "u1") ∷ []) (0 ∷ 0 ∷ 0 ∷ []) tree)
      ≡ some q)
    × (q.full_actual_path
        ≡ build_actual_path (("user", "u1") ∷ []) false (group "phone") above_phone)
unfolding lookup
fill_actual_paths-build_actual_path_example =
    fill_actual_paths-build_actual_path (("user", "u1") ∷ []) tree (0 ∷ 0 ∷ 0 ∷ []) (group "phone")
      above_phone refl (inl refl) (inr ("u1", refl, refl), (inl refl, (inl refl, tt)))

built :
    build_actual_path (("user", "u1") ∷ []) false (group "phone") above_phone
    ≡ "/api/users/u1/phone"
unfolding build_actual_path lookup
built = refl

removed : remove_operations 2 (slice_of (add_op ∷ list_op ∷ add_op ∷ [])) ≡ some list_op ∷ []
unfolding remove_operations remove_where compact clear_from assign
removed = refl

-- A handler that keeps the names.
abbrev keep_names : Operation → Act (List String) (Unit {0})
keep_names op s = (ok tt, s ++ op.name ∷ [])

reset_ids-fill_actual_paths_example :
    (q : Paths) × (paths_at
        (0 ∷ 0 ∷ 0 ∷ [])
        (reset_ids (0 ∷ 0 ∷ 0 ∷ []) (fill_actual_paths (("user", "u1") ∷ []) (0 ∷ 0 ∷ 0 ∷ []) tree))
      ≡ some q)
    × (q.full_actual_path ≡ full_path reset_part (group "phone") above_phone)
reset_ids-fill_actual_paths_example =
    reset_ids-fill_actual_paths (("user", "u1") ∷ []) tree (0 ∷ 0 ∷ 0 ∷ []) (group "phone")
      above_phone refl

-- The identifier of the user is an empty part.
reset_path : full_path reset_part (group "phone") above_phone ≡ "/api/users//phone"
unfolding full_path
reset_path = refl
