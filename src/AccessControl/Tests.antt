-- ===== src/AccessControl/Tests.antt =====
-- A run of the check of access.
use go_backend_helpers.Prelude.{
  String, ◌≡◌, refl, true, false, Option, none, some, List, [], ◌∷◌, ◌&&◌, ◌==◌, if◌then◌else◌,
}
use go_backend_helpers.AccessControl.Mask.{read, check}
use go_backend_helpers.AccessControl.Check.{
  Search, found, missing, Resource, check_access, collect_tags, check_access_lem, or_else,
}

-- One rule, on a tag of the path above the resource: it allows to read.
abbrev find_rule : String → String → String → Search
find_rule path tag role = if tag == "shared" && role == "guest" then found read else missing

abbrev tags_of : String → Option (List String)
tags_of path = some (if path == "/docs" then "shared" ∷ [] else [])

abbrev document : Resource
document = record { is_owner = false; owner_access = 0; paths = "/docs" ∷ "/docs/1" ∷ [] }

check_access_lem_example :
    check_access find_rule tags_of 0 document ("guest" ∷ []) read ≡ (true, none)
unfolding collect_tags or_else check
check_access_lem_example =
    check_access_lem find_rule tags_of 0 read document ("guest" ∷ [])
      (("/docs/1", []) ∷ ("/docs", "shared" ∷ []) ∷ []) refl
