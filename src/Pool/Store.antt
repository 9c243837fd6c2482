-- ===== src/Pool/Store.antt =====
-- The tables of pkg/pool (pool.go, pool_service.go, pool_service_association.go, pool_oplog.go), and
-- the calls of the database that pool_controller.go makes: each may fail, by the schedule `faults`.
-- A service's own settings (ServiceConfigBase, SecretsBase, type and reference) are left out: the
-- controller copies them only.
use go_backend_helpers.Prelude.{
  ℕ, String, Bool, true, false, Option, none, some, List, [], ◌∷◌, ◌++◌, ◌==◌, ◌&&◌, ◌||◌,
  if◌then◌else◌,
}
use go_backend_helpers.Auth.Context.{first_code}
pub use go_backend_helpers.Effects.{
  Result, ok, err, ◌>>=◌, ◌>>◌, pure, fail, choose, gets, modify, is_ok,
}
use go_backend_helpers.Effects.{Act, next_fault, answer}

pub record Pool : Type 0 where
  pub id : String
  pub name : String
  pub long_name : String
  pub description : String
  pub active : Bool

pub record PoolService : Type 0 where
  pub id : String
  pub name : String
  pub long_name : String
  pub description : String
  pub active : Bool

pub record Association : Type 0 where
  pub id : String
  pub pool_id : String
  pub service_id : String
  pub role : String

pub record OpLogPool : Type 0 where
  pub operation : String
  pub pool_id : String
  pub pool_name : String
  pub service_id : String
  pub service_name : String
  pub role : String

-- `db.Fields` of an update: what each column is set to, `none` for one that is not in the map. The
-- source's map may have any key, which UpdatePool and UpdateService pass on unchecked (an update of
-- the identifier is not modelled); the API and the console validate the map against the data of a
-- pool or a service. Of the columns of that data the record has those that the rows of the model
-- have: the settings of a service are left out.
pub record Fields : Type 0 where
  pub name : Option String
  pub long_name : Option String
  pub description : Option String
  pub active : Option Bool

pub record Db : Type 0 where
  pub pools : List Pool
  pub services : List PoolService
  pub associations : List Association
  pub oplogs : List OpLogPool
  pub generic_error : Option String
  pub faults : List Bool
  pub next_id : ℕ

abbrev pub Op : Type 0 → Type 0
Op A = Act Db A

abbrev pub fail_if : Bool → String → String → Op (Unit {0})
fail_if true code e db = (err e, record db { generic_error = first_code db.generic_error code })
fail_if false code e db = (ok tt, db)

-- A call of the database, before what it does.
abbrev pub call : Op (Unit {0})
call db = let (f, fs) = next_fault db.faults in (answer f, record db { faults = fs })

abbrev pub set_generic_error_code : String → Op (Unit {0})
set_generic_error_code code =
    modify (λ db. record db { generic_error = first_code db.generic_error code })

abbrev pub clear_error : Op (Unit {0})
clear_error = modify (λ db. record db { generic_error = none })

-- `OpLog`
unfoldable pub op_log : OpLogPool → Op (Unit {0})
op_log oplog db = (ok tt, record db { oplogs = db.oplogs ++ oplog ∷ [] })

-- `fieldName`: the column that an identifier is looked for in
unfoldable pub pool_field : Bool → Pool → String
pool_field true p = p.name
pool_field false p = p.id

unfoldable pub service_field : Bool → PoolService → String
service_field true s = s.name
service_field false s = s.id

-- Whether a pool has a service for a role.
unfoldable pub has_role : String → String → List Association → Bool
has_role pool_id role [] = false
has_role pool_id role (a ∷ rest) =
    (a.pool_id == pool_id && a.role == role) || has_role pool_id role rest

unfoldable pub find_role : String → String → List Association → Option Association
find_role pool_id role [] = none
find_role pool_id role (a ∷ rest) =
    if a.pool_id == pool_id && a.role == role then some a else find_role pool_id role rest
