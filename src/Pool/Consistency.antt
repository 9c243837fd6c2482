-- ===== src/Pool/Consistency.antt =====
-- The invariant of the three tables of pkg/pool.
use go_backend_helpers.Prelude.{
  String, ◌≡◌, inl, inr, refl, true, false, List, [], ◌∷◌, ◌++◌, ◌==◌, ◌||◌, ◌&&◌, arith, eq_iff,
  eq_refl, All, Bool-cases,
}
use go_backend_helpers.Table.{has, delete_at, IsUnique}
use go_backend_helpers.Table.Laws.{has-delete_at_ne}
use go_backend_helpers.Pool.Store.{Pool, PoolService, Association, has_role}
use go_backend_helpers.Pool.Calls.{Tables}

-- Both ends of an association are there.
abbrev pub IsBound : List Pool → List PoolService → Association → Type 0
IsBound ps ss a = (has Pool.id a.pool_id ps ≡ true) × (has PoolService.id a.service_id ss ≡ true)

-- No pool has two services for one role.
abbrev pub HasUniqueRoles : List Association → Type 0
HasUniqueRoles [] = Unit {0}
HasUniqueRoles (a ∷ rest) = (has_role a.pool_id a.role rest ≡ false) × HasUniqueRoles rest

pub record IsConsistent (t : Tables) : Type 0 where
  pub pool_ids : IsUnique Pool.id t.0
  pub pool_names : IsUnique Pool.name t.0
  pub service_ids : IsUnique PoolService.id t.1
  pub service_names : IsUnique PoolService.name t.1
  pub roles : HasUniqueRoles t.2
  pub bound : All (IsBound t.0 t.1) t.2

-- More pools and services keep what is bound.
pub IsBound-mono :
    (ps ps' : List Pool) (ss ss' : List PoolService) (rs : List Association)
    → ((k : String) → has Pool.id k ps ≡ true → has Pool.id k ps' ≡ true)
    → ((k : String) → has PoolService.id k ss ≡ true → has PoolService.id k ss' ≡ true)
    → All (IsBound ps ss) rs
    → All (IsBound ps' ss') rs
IsBound-mono ps ps' ss ss' [] f g h = tt
IsBound-mono ps ps' ss ss' (a ∷ rs) f g h =
    ((f a.pool_id h.0.0, g a.service_id h.0.1), IsBound-mono ps ps' ss ss' rs f g h.1)

pub IsBound-append :
    (ps : List Pool) (ss : List PoolService) (rs : List Association) (a : Association)
    → All (IsBound ps ss) rs
    → IsBound ps ss a
    → All (IsBound ps ss) (rs ++ a ∷ [])
IsBound-append ps ss [] a h b = (b, tt)
IsBound-append ps ss (r ∷ rs) a h b = (h.0, IsBound-append ps ss rs a h.1 b)

pub IsBound-delete :
    (key : Association → String) (k : String) (ps : List Pool) (ss : List PoolService)
    (rs : List Association)
    → All (IsBound ps ss) rs
    → All (IsBound ps ss) (delete_at key k rs)
unfolding delete_at
IsBound-delete key k ps ss [] h = tt
IsBound-delete key k ps ss (r ∷ rs) h = elim (Bool-cases (key r == k)) [
  | inl e ↦ rw e (IsBound-delete key k ps ss rs h.1)
  | inr e ↦ rw e (h.0, IsBound-delete key k ps ss rs h.1)
]

-- A pool or service that no association names can go.
pub IsBound-without_pool :
    (k : String) (ps : List Pool) (ss : List PoolService) (rs : List Association)
    → has Association.pool_id k rs ≡ false
    → All (IsBound ps ss) rs
    → All (IsBound (delete_at Pool.id k ps) ss) rs
unfolding has
IsBound-without_pool k ps ss [] n h = tt
IsBound-without_pool k ps ss (r ∷ rs) n h = (
  (
    ground (arith, has-delete_at_ne Pool.id k r.pool_id ps, h.0.0, eq_iff k r.pool_id, eq_refl k),
    h.0.1,
  ),
  IsBound-without_pool k ps ss rs (ground arith) h.1,
)

pub IsBound-without_service :
    (k : String) (ps : List Pool) (ss : List PoolService) (rs : List Association)
    → has Association.service_id k rs ≡ false
    → All (IsBound ps ss) rs
    → All (IsBound ps (delete_at PoolService.id k ss)) rs
unfolding has
IsBound-without_service k ps ss [] n h = tt
IsBound-without_service k ps ss (r ∷ rs) n h = (
  (
    h.0.0,
    ground (
      arith,
      has-delete_at_ne PoolService.id k r.service_id ss,
      h.0.1,
      eq_iff k r.service_id,
      eq_refl k,
    ),
  ),
  IsBound-without_service k ps ss rs (ground arith) h.1,
)

has_role-append :
    (pool_id role : String) (rs : List Association) (a : Association)
    → has_role pool_id role (rs ++ a ∷ [])
      ≡ (has_role pool_id role rs || (a.pool_id == pool_id && a.role == role))
unfolding has_role
has_role-append pool_id role [] a = ground arith
has_role-append pool_id role (r ∷ rs) a = ground (arith, has_role-append pool_id role rs a)

pub roles_append :
    (rs : List Association) (a : Association)
    → HasUniqueRoles rs
    → has_role a.pool_id a.role rs ≡ false
    → HasUniqueRoles (rs ++ a ∷ [])
unfolding has_role
roles_append [] a u h = (refl, tt)
roles_append (r ∷ rs) a u h = (
  ground (
    arith,
    has_role-append r.pool_id r.role rs a,
    u.0,
    eq_iff r.pool_id a.pool_id,
    eq_iff a.pool_id r.pool_id,
    eq_iff r.role a.role,
    eq_iff a.role r.role,
  ),
  roles_append rs a u.1 (ground arith),
)

pub has_role-delete_at :
    (key : Association → String) (k pool_id role : String) (rs : List Association)
    → has_role pool_id role rs ≡ false
    → has_role pool_id role (delete_at key k rs) ≡ false
unfolding has_role delete_at
has_role-delete_at key k pool_id role [] h = refl
has_role-delete_at key k pool_id role (r ∷ rs) h =
    ground (arith, has_role-delete_at key k pool_id role rs)

pub roles_delete :
    (key : Association → String) (k : String) (rs : List Association)
    → HasUniqueRoles rs
    → HasUniqueRoles (delete_at key k rs)
unfolding delete_at
roles_delete key k [] u = tt
roles_delete key k (r ∷ rs) u = elim (Bool-cases (key r == k)) [
  | inl e ↦ rw e (roles_delete key k rs u.1)
  | inr e ↦ rw e (has_role-delete_at key k r.pool_id r.role rs u.0, roles_delete key k rs u.1)
]
