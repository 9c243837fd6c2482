-- ===== src/AccessControl/Check.antt =====
-- AccessControlBase.CheckAccess (pkg/access_control/access_control.go): the owner's access, then the
-- first rule that is found, from the most specific path of the resource to the least, then the
-- default. `Acl` and `ResourceManager` (pkg/access_control/acl.go, resource.go) are interfaces whose
-- implementations are parameters: `none` of `resource_tags` and `broken` of `find_rule` are their
-- errors.
use go_backend_helpers.Prelude.{
  ℕ, String, ◌≡◌, refl, ap, Bool, true, false, Option, none, some, List, [], ◌∷◌, ◌++◌, map, arith,
  ◌&&◌, if◌then◌else◌,
}
use go_backend_helpers.AccessControl.Mask.{check}

-- What looking for a rule gives: the mask of the rule's access, no rule, or an error.
pub data Search : Type 0 where
  found : ℕ → Search
  missing : Search
  broken : String → Search

-- A resource as `CheckAccess` sees it: whether the subject owns it, the mask of the owner's access,
-- and the paths from the least to the most specific.
pub record Resource : Type 0 where
  pub is_owner : Bool
  pub owner_access : ℕ
  pub paths : List String

-- The search goes on where nothing is found yet.
unfoldable pub or_else : Search → Search → Search
or_else (found mask) s = found mask
or_else missing s = s
or_else (broken e) s = broken e

abbrev reverse_onto : List String → List String → List String
reverse_onto [] ys = ys
reverse_onto (x ∷ xs) ys = reverse_onto xs (x ∷ ys)

module _ (find_rule : String → String → String → Search)
    (resource_tags : String → Option (List String)) where
  -- the loop over the roles of the subject
  unfoldable pub search_roles : String → String → List String → Search
  search_roles path tag [] = missing
  search_roles path tag (role ∷ roles) =
      or_else (find_rule path tag role) (search_roles path tag roles)

  -- the loop over the tags of one level, `resourceTags`
  unfoldable pub search_tags : String → List String → List String → Search
  search_tags path roles [] = missing
  search_tags path roles (tag ∷ tags) =
      or_else (search_roles path tag roles) (search_tags path roles tags)

  -- the loop over `j`, from the path's own level down to 0; "" stands after the tags of each level
  unfoldable pub search_levels : String → List String → List (String × List String) → Search
  search_levels path roles [] = missing
  search_levels path roles ((p, tags) ∷ levels) =
      or_else (search_tags path roles (tags ++ "" ∷ [])) (search_levels path roles levels)

  -- the loop over `i`, from the most specific path
  unfoldable pub search_paths : List String → List (String × List String) → Search
  search_paths roles [] = missing
  search_paths roles ((path, tags) ∷ levels) =
      or_else (search_levels path roles ((path, tags) ∷ levels)) (search_paths roles levels)

  -- the paths with their tags, the most specific path first, or the first error
  unfoldable pub collect_tags : List String → Option (List (String × List String))
  collect_tags [] = some []
  collect_tags (path ∷ paths) =
      let rest = collect_tags paths in
      elim (resource_tags path) [
        | none ↦ none
        | some tags ↦ elim rest [ none ↦ none | some levels ↦ some ((path, tags) ∷ levels) ]
      ]

  abbrev decide : ℕ → ℕ → Search → Bool × Option String
  decide default_access access (found mask) = (check mask access, none)
  decide default_access access missing = (check default_access access, none)
  decide default_access access (broken e) = (false, some e)

  abbrev check_rules :
      ℕ → List String → ℕ → Option (List (String × List String)) → Bool × Option String
  check_rules default_access roles access none = (false, some "resource tags")
  check_rules default_access roles access (some levels) =
      decide default_access access (search_paths roles levels)

  -- `CheckAccess`
  unfoldable pub check_access : ℕ → Resource → List String → ℕ → Bool × Option String
  check_access default_access resource roles access =
      if resource.is_owner && check resource.owner_access access
      then (true, none)
      else check_rules default_access roles access (collect_tags (reverse_onto resource.paths []))

  -- The order in which rules are looked for: all of a path's tags and roles before a less specific
  -- path, tags of a more specific level before those of a less specific one.
  abbrev with_roles : String → String → List String → List (String × String × String)
  with_roles path tag roles = map (λ role. (path, tag, role)) roles

  abbrev with_tags : String → List String → List String → List (String × String × String)
  with_tags path roles [] = []
  with_tags path roles (tag ∷ tags) = with_roles path tag roles ++ with_tags path roles tags

  abbrev with_levels :
      String → List String → List (String × List String) → List (String × String × String)
  with_levels path roles [] = []
  with_levels path roles ((p, tags) ∷ levels) =
      with_tags path roles (tags ++ "" ∷ []) ++ with_levels path roles levels

  abbrev pub candidates :
      List String → List (String × List String) → List (String × String × String)
  candidates roles [] = []
  candidates roles ((path, tags) ∷ levels) =
      with_levels path roles ((path, tags) ∷ levels) ++ candidates roles levels

  -- The first of the candidates for which a rule is found, or looking for one fails.
  abbrev pub first_rule : List (String × String × String) → Search
  first_rule [] = missing
  first_rule ((path, tag, role) ∷ cs) = or_else (find_rule path tag role) (first_rule cs)

  first_rule-append :
      (xs ys : List (String × String × String))
      → first_rule (xs ++ ys) ≡ or_else (first_rule xs) (first_rule ys)
  unfolding or_else
  first_rule-append [] ys = refl
  first_rule-append ((p, t, r) ∷ xs) ys = ground (arith, first_rule-append xs ys)

  search_roles_lem :
      (path tag : String) (roles : List String)
      → search_roles path tag roles ≡ first_rule (with_roles path tag roles)
  unfolding search_roles
  search_roles_lem path tag [] = refl
  search_roles_lem path tag (role ∷ roles) =
      ap (or_else (find_rule path tag role)) (search_roles_lem path tag roles)

  search_tags_lem :
      (path : String) (roles tags : List String)
      → search_tags path roles tags ≡ first_rule (with_tags path roles tags)
  unfolding search_tags
  search_tags_lem path roles [] = refl
  search_tags_lem path roles (tag ∷ tags) = cc (
    first_rule-append (with_roles path tag roles) (with_tags path roles tags),
    search_roles_lem path tag roles,
    search_tags_lem path roles tags,
  )

  search_levels_lem :
      (path : String) (roles : List String) (levels : List (String × List String))
      → search_levels path roles levels ≡ first_rule (with_levels path roles levels)
  unfolding search_levels
  search_levels_lem path roles [] = refl
  search_levels_lem path roles ((p, tags) ∷ levels) = cc (
    first_rule-append (with_tags path roles (tags ++ "" ∷ [])) (with_levels path roles levels),
    search_tags_lem path roles (tags ++ "" ∷ []),
    search_levels_lem path roles levels,
  )

  search_paths_lem :
      (roles : List String) (levels : List (String × List String))
      → search_paths roles levels ≡ first_rule (candidates roles levels)
  unfolding search_paths
  search_paths_lem roles [] = refl
  search_paths_lem roles ((path, tags) ∷ levels) = cc (
    first_rule-append (with_levels path roles ((path, tags) ∷ levels)) (candidates roles levels),
    search_levels_lem path roles ((path, tags) ∷ levels),
    search_paths_lem roles levels,
  )

  -- When the tags of all paths can be read, `CheckAccess` allows what the owner may do; otherwise the
  -- first rule among the candidates decides, the default access if there is none, and an error of the
  -- search refuses access.
  pub check_access_lem :
      (default_access access : ℕ) (resource : Resource) (roles : List String)
      (levels : List (String × List String))
      → collect_tags (reverse_onto resource.paths []) ≡ some levels
      → check_access default_access resource roles access ≡ (
          if resource.is_owner && check resource.owner_access access
          then (true, none)
          else decide default_access access (first_rule (candidates roles levels)))
  unfolding check_access
  check_access_lem default_access access resource roles levels e =
      rw (e, search_paths_lem roles levels) refl
