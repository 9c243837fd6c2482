-- ===== src/Auth/Encryption.antt =====
-- auth.AuthParameterEncryption: how a handler reads and writes its encrypted parameters.
pub mod Parameters
use go_backend_helpers.Prelude.{String, Option}
use go_backend_helpers.Auth.Context.{World}

-- The three ways in which `GetAuthParameter` returns: no parameter, a parameter that cannot be
-- decrypted and parsed, and the value.
pub data Parameter (T : Type 0) : Type 0 where
  missing : Parameter T
  invalid : String → Parameter T
  value : T → Parameter T

-- The interface that the handlers use; `set` returns the error, if any.
pub record Encryption (T : Type 0) : Type 0 where
  pub get : World → String → String → Parameter T
  pub set : World → String → String → T → Option String × World
