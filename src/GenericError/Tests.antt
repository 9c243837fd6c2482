-- ===== src/GenericError/Tests.antt =====
-- Runs of the error manager.
use go_backend_helpers.Prelude.{some, [], ◌∷◌}
use go_backend_helpers.GenericError.{ErrorManager, ErrorsExtender}

abbrev manager : ErrorManager
manager = record {
  descriptions = ("unknown_error", "Unknown error.") ∷ [];
  protocol_codes = ("unknown_error", 500) ∷ [];
  default_protocol_code = 400;
}

abbrev extender : ErrorsExtender
extender = record {
  error_descriptions = some (("pool_not_found", "Pool not found.") ∷ []);
  error_protocol_codes = some (("pool_not_found", 404) ∷ []);
}
