-- ===== src/Tenancy/Store.antt =====
-- The rows that the tenancy controller reads and writes: TenancyDb and OpLogTenancy of
-- pkg/multitenancy, the customers, and the pools that PoolStore has loaded.
use go_backend_helpers.Prelude.{ℕ, String, Bool, true, false, Option, List}
use go_backend_helpers.Auth.Context.{first_code}
use go_backend_helpers.Effects.{Act, ok, err, next_fault, answer}

pub record Tenancy : Type 0 where
  pub id : String
  pub path : String
  pub role : String
  pub active : Bool
  pub customer_id : String
  pub pool_id : String
  pub db_name : String

pub record Customer : Type 0 where
  pub id : String
  pub login : String

pub record LoadedPool : Type 0 where
  pub id : String
  pub name : String
  pub active : Bool

-- `pools` stands for the table of pools, which a join reads, and for the pools that the store has
-- loaded. Of a log record the operation and the tenancy are kept.
pub record State : Type 0 where
  pub tenancies : List Tenancy
  pub customers : List Customer
  pub pools : List LoadedPool
  pub oplogs : List (String × String)  -- the operation and the tenancy
  pub published : List (String × String × String)  -- the operation, the tenancy, the pool
  pub generic_error : Option String
  pub faults : List Bool
  pub next_id : ℕ

abbrev pub Op : Type 0 → Type 0
Op A = Act State A

abbrev pub call : Op (Unit {0})
call s = let (f, fs) = next_fault s.faults in (answer f, record s { faults = fs })

-- Whether such a call fails, where the code goes on after an error.
abbrev pub attempt : Op Bool
attempt s = let (f, fs) = next_fault s.faults in (ok f, record s { faults = fs })

-- `ctx.SetGenericErrorCode(code); return errors.New(e)`
abbrev pub refuse : {A : Type 0} → String → String → Op A
refuse code e s = (err e, record s { generic_error = first_code s.generic_error code })

abbrev pub refuse_if : Bool → String → String → Op (Unit {0})
refuse_if true code e s = refuse code e s
refuse_if false code e s = (ok tt, s)
