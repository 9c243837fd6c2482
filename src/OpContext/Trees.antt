-- ===== src/OpContext/Trees.antt =====
-- The way the library uses an operation's context: a method opens its call, calls other methods, sets
-- its message and its error, and leaves. A tree of calls is run against the context
-- (op_context/default_op_context/default_op_context.go), and is read as what the log should know of it.
use go_backend_helpers.Prelude.{
  ℕ, suc, ◌+◌, String, Option, none, some, List, [], ◌∷◌, ◌++◌, length,
}
use go_backend_helpers.OpContext.{
  Context, CallContext, set_error, set_message, trace_in_method, trace_out_method,
}

mutual
  -- A call of a method with the calls it makes, its message and its error.
  pub data Call : Type 0 where
    call : String → Calls → String → Option String → Call

  pub data Calls : Type 0 where
    no_calls : Calls
    first_call : Call → Calls → Calls

unfoldable mutual
  pub run_call : Call → Context → Context
  run_call (call name inner text e) c =
      let (i, c₁) = trace_in_method name c in
      trace_out_method (set_error i e (set_message i text (run_calls inner c₁)))

  pub run_calls : Calls → Context → Context
  run_calls no_calls c = c
  run_calls (first_call t ts) c = run_calls ts (run_call t c)

abbrev pub final : String → String → Option String → CallContext
final name text e = record { method = name; error = e; message = text }

unfoldable mutual
  -- The contexts of all calls as they are in the end, each before those of the calls it makes.
  pub frames : Call → List CallContext
  frames (call name inner text e) = final name text e ∷ frames_all inner

  pub frames_all : Calls → List CallContext
  frames_all no_calls = []
  frames_all (first_call t ts) = frames t ++ frames_all ts

abbrev pub or_else : {A : Type 0} → Option A → Option A → Option A
or_else (some a) b = some a
or_else none b = b

abbrev pub when_failed : {A : Type 0} → Option String → A → Option A
when_failed (some e) a = some a
when_failed none a = none

unfoldable mutual
  -- The call that is the first to end with an error, below the open calls `outer`: its context and
  -- those of the calls around it, as they are in the end.
  pub failed_chain : List CallContext → Call → Option (List CallContext)
  failed_chain outer (call name inner text e) =
      let open_calls = final name text e ∷ outer in
      or_else (failed_chain_all open_calls inner) (when_failed e open_calls)

  pub failed_chain_all : List CallContext → Calls → Option (List CallContext)
  failed_chain_all outer no_calls = none
  failed_chain_all outer (first_call t ts) =
      or_else (failed_chain outer t) (failed_chain_all outer ts)

unfoldable mutual
  -- The same by references, when `n` contexts were made before.
  pub failed_refs : List ℕ → ℕ → Call → Option (List ℕ)
  failed_refs outer n (call name inner text e) =
      or_else (failed_refs_all (n ∷ outer) (suc n) inner) (when_failed e (n ∷ outer))

  pub failed_refs_all : List ℕ → ℕ → Calls → Option (List ℕ)
  failed_refs_all outer n no_calls = none
  failed_refs_all outer n (first_call t ts) =
      or_else (failed_refs outer n t) (failed_refs_all outer (n + length (frames t)) ts)

unfoldable mutual
  -- The first error that a call returns with: those of the calls it makes come before its own.
  pub first_error : Call → Option String
  first_error (call name inner text e) = or_else (first_error_of inner) e

  pub first_error_of : Calls → Option String
  first_error_of no_calls = none
  first_error_of (first_call t ts) = or_else (first_error t) (first_error_of ts)
