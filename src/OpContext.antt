-- ===== src/OpContext.antt =====
-- pkg/op_context/default_op_context/default_op_context.go: the context of an operation, with the stack
-- of the calls that are open, the stack kept at the first failed call, and the log.
-- Call contexts are shared by both stacks, so they are in a store and the stacks hold references to
-- it: the context made last has the highest index. Stacks are written with the last call first.
mod Trees
mod Runs
mod Laws
mod Tests
use go_backend_helpers.Prelude.{
  ℕ, zero, suc, String, Bool, true, false, Option, none, some, List, [], ◌∷◌, ◌++◌, map, ◌==◌, ◌&&◌,
  ◌||◌, not, length, is_some, if◌then◌else◌,
}
use Prim.Native.String.{◌++◌ as ◌<>◌}

-- `CallContextBase`
pub record CallContext : Type 0 where
  pub method : String
  pub error : Option String
  pub message : String

pub data Level : Type 0 where
  trace_level info_level warn_level error_level : Level

-- What the logger is given, with the logger's field "stack".
pub record Entry : Type 0 where
  pub level : Level
  pub text : String
  pub cause : Option String
  pub path : Option String

-- `Origin`
pub record Origin : Type 0 where
  pub app : String
  pub name : String
  pub source : String
  pub session_client : String
  pub user : String
  pub user_type : String

-- A record of the operation log: what the operation put in, and what Close fills in.
pub record Oplog : Type 0 where
  pub operation : String
  pub context : String
  pub context_name : String
  pub origin : Origin

-- `ContextBase`
pub record Context : Type 0 where
  pub id : String
  pub op_name : String
  pub calls : List CallContext
  pub stack : List ℕ
  pub error_stack : Option (List ℕ)
  pub generic_error : Option String
  pub stack_field : Option String
  pub oplogs : List Oplog
  pub op_origin : Option Origin
  pub has_oplog_handler : Bool
  pub error_as_warn : Bool
  pub write_close_log : Bool
  pub log : List Entry
  pub written : List Oplog

-- `DefaultCallContextBuilder`
abbrev pub new_call : String → CallContext
new_call name = record { method = name; error = none; message = "" }

-- The context that a reference is to.
unfoldable pub call_at : List CallContext → ℕ → CallContext
call_at [] i = new_call ""
call_at (c ∷ cs) zero = c
call_at (c ∷ cs) (suc i) = call_at cs i

unfoldable pub change_at : (CallContext → CallContext) → List CallContext → ℕ → List CallContext
change_at f [] i = []
change_at f (c ∷ cs) zero = f c ∷ cs
change_at f (c ∷ cs) (suc i) = c ∷ change_at f cs i

-- `SetError` and `SetMessage` of a call's context
abbrev pub put_error : Option String → CallContext → CallContext
put_error e c = record c { error = e }

abbrev pub put_message : String → CallContext → CallContext
put_message m c = record c { message = m }

unfoldable pub set_error : ℕ → Option String → Context → Context
set_error i e c = record c { calls = change_at (put_error e) c.calls i }

unfoldable pub set_message : ℕ → String → Context → Context
set_message i m c = record c { calls = change_at (put_message m) c.calls i }

-- `if path != "" { path += ":" }`
abbrev pub with_colon : String → String
with_colon p = if p == "" then p else p <> ":"

-- `stackPath`
unfoldable pub stack_path : List CallContext → String
stack_path [] = ""
stack_path (c ∷ outer) = with_colon (stack_path outer) <> c.method

abbrev pub field_of : List CallContext → Option String
field_of [] = none
field_of (c ∷ outer) = some (stack_path (c ∷ outer))

abbrev pub resolve : List CallContext → List ℕ → List CallContext
resolve cs = map (call_at cs)

-- A message to the logger of the context.
abbrev pub write_log : Level → String → Option String → Context → Context
write_log l t e c = record c {
  log = c.log ++ record { level = l; text = t; cause = e; path = c.stack_field } ∷ [];
}

-- The field "stack" of the logger, after the stack has changed.
abbrev pub set_stack : List ℕ → Context → Context
set_stack s c = record c { stack = s; stack_field = field_of (resolve c.calls s) }

-- `TraceInMethod`: the reference to the new context, and the operation's context.
unfoldable pub trace_in_method : String → Context → ℕ × Context
trace_in_method name c =
    let i = length c.calls in
    let c₁ = record c { calls = c.calls ++ new_call name ∷ [] } in
    (i, write_log trace_level "callin" none (set_stack (i ∷ c.stack) c₁))

-- The stack is kept for the first call that ends with an error.
abbrev pub keep_error_stack : Option String → List ℕ → Option (List ℕ) → Option (List ℕ)
keep_error_stack (some e) s none = some s
keep_error_stack (some e) s (some kept) = some kept
keep_error_stack none s kept = kept

abbrev leave : List ℕ → Context → Context
leave [] c = c
leave (i ∷ outer) c = set_stack outer (record c {
  error_stack = keep_error_stack (call_at c.calls i).error (i ∷ outer) c.error_stack;
})

-- `TraceOutMethod`
unfoldable pub trace_out_method : Context → Context
trace_out_method c = leave c.stack (write_log trace_level "callout" none c)

-- `SetGenericError`
unfoldable pub set_generic_error : Option String → Bool → Context → Context
set_generic_error e override c =
    if not (is_some c.generic_error) || not (is_some e) || override
    then record c { generic_error = e }
    else c

-- `ClearError` and `Reset`
unfoldable pub clear_error : Context → Context
clear_error c = record c { error_stack = none; generic_error = none }

unfoldable pub reset : Context → Context
reset c = record c { stack = []; error_stack = none; generic_error = none; oplogs = [] }

-- `Oplog`
unfoldable pub add_oplog : Oplog → Context → Context
add_oplog o c = record c { oplogs = c.oplogs ++ o ∷ [] }

-- The messages of the calls, from the first call to the last, and the error of the last that has one.
unfoldable pub collect_messages : List CallContext → String
collect_messages [] = ""
collect_messages (c ∷ outer) =
    let before = collect_messages outer in
    if c.message == "" then before else with_colon before <> c.method <> "(" <> c.message <> ")"

abbrev or_before : Option String → Option String → Option String
or_before (some e) before = some e
or_before none before = before

unfoldable pub collect_error : List CallContext → Option String
collect_error [] = none
collect_error (c ∷ outer) = or_before c.error (collect_error outer)

abbrev pub failure_level : Bool → Level
failure_level true = warn_level
failure_level false = error_level

-- `DumpLog`
abbrev dump_failure : List ℕ → Context → Context
dump_failure kept c =
    let chain = resolve c.calls kept in
    set_stack [] (
      write_log (failure_level c.error_as_warn) (collect_messages chain) (collect_error chain)
        (set_stack kept c))

abbrev dump_success : String → Context → Context
dump_success text c =
    if c.write_close_log && not (text == "") then write_log info_level text none c else c

unfoldable pub dump_log : String → Context → Context
dump_log text c = elim c.error_stack [
  | none ↦ clear_error (dump_success text c)
  | some kept ↦ clear_error (dump_failure kept c)
]

abbrev pub or_origin : Option Origin → Origin → Origin
or_origin none o = o
or_origin (some o) _ = o

-- What Close fills into a record of the operation log.
abbrev pub filled : Context → Oplog → Oplog
filled c o = record o {
  context = c.id;
  context_name = c.op_name;
  origin = or_origin c.op_origin o.origin;
}

abbrev write_oplogs : Context → Context
write_oplogs c =
    if c.has_oplog_handler then record c { written = c.written ++ map (filled c) c.oplogs } else c

-- `Close`
unfoldable pub close : String → Context → Context
close text c = dump_log text (write_oplogs c)
