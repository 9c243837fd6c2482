-- ===== src/OpContext/Tests.antt =====
-- Runs of the context of an operation (op_context/default_op_context/default_op_context.go).
use go_backend_helpers.Prelude.{◌≡◌, refl, true, false, none, some, [], ◌∷◌, ◌++◌}
use go_backend_helpers.OpContext.{
  Context, close, reset, error_level, collect_messages, stack_path, trace_in_method, call_at,
}
use go_backend_helpers.OpContext.Trees.{
  Call, call, no_calls, first_call, run_call, frames, failed_chain, first_error,
}
use go_backend_helpers.OpContext.Laws.{outcome, close-run_call}

abbrev fresh : Context
fresh = record {
  id = "ctx";
  op_name = "add";
  calls = [];
  stack = [];
  error_stack = none;
  generic_error = none;
  stack_field = none;
  oplogs = [];
  op_origin = none;
  has_oplog_handler = true;
  error_as_warn = false;
  write_close_log = true;
  log = [];
  written = [];
}

-- A call that fails in its second inner call, and hands the error on with a message of its own.
abbrev failing : Call
failing =
    call "Add"
      (first_call (call "Find" no_calls "" none)
        (first_call (call "Save" no_calls "no row" (some "down")) no_calls))
      "failed to save" (some "down")

close-run_call_example :
    ((close "success" (run_call failing fresh)).log
      ≡ (run_call failing fresh).log ++ outcome fresh "success" failing)
    × ((close "success" (run_call failing fresh)).calls ≡ [] ++ frames failing)
    × ((close "success" (run_call failing fresh)).stack ≡ [])
    × ((close "success" (run_call failing fresh)).error_stack ≡ none)
    × ((close "success" (run_call failing fresh)).generic_error ≡ none)
close-run_call_example = close-run_call failing fresh "success" refl refl

outcome-failing :
    outcome fresh "success" failing
    ≡ record {
      level = error_level;
      text = "Add(failed to save):Save(no row)";
      cause = some "down";
      path = some "Add:Save";
    }
      ∷ []
unfolding failed_chain first_error collect_messages stack_path
outcome-failing = refl

-- Reset empties the stack and leaves the logger's field as it was.
reset_keeps_field : (reset (trace_in_method "Add" fresh).1).stack_field ≡ some "Add"
unfolding reset trace_in_method stack_path call_at
reset_keeps_field = refl
