-- ===== src/OpContext/Runs.antt =====
-- What a tree of calls leaves in the context it is run against
-- (op_context/default_op_context/default_op_context.go).
use go_backend_helpers.Prelude.{
  ℕ, suc, ◌+◌, String, ◌≡◌, refl, sym, ap, ◌∙◌, Option, none, some, List, [], ◌∷◌, ◌++◌, length,
  arith, length-append,
}
use go_backend_helpers.OpContext.{
  Context, CallContext, call_at, change_at, new_call, put_error, put_message, set_error,
  set_message, trace_in_method, trace_out_method, keep_error_stack,
}
use go_backend_helpers.OpContext.Trees.{
  Call, call, Calls, no_calls, first_call, run_call, run_calls, frames, frames_all, failed_refs,
  failed_refs_all, or_else, when_failed, final,
}

pub call_at_middle :
    (xs : List CallContext) (c : CallContext) (ys : List CallContext)
    → call_at (xs ++ c ∷ ys) (length xs) ≡ c
unfolding call_at
call_at_middle [] c ys = refl
call_at_middle (x ∷ xs) c ys = call_at_middle xs c ys

change_at_middle :
    (f : CallContext → CallContext) (xs : List CallContext) (c : CallContext)
    (ys : List CallContext)
    → change_at f (xs ++ c ∷ ys) (length xs) ≡ xs ++ f c ∷ ys
unfolding change_at
change_at_middle f [] c ys = refl
change_at_middle f (x ∷ xs) c ys = ap (λ zs. x ∷ zs) (change_at_middle f xs c ys)

pub append_assoc : {A : Type 0} (xs ys zs : List A) → (xs ++ ys) ++ zs ≡ xs ++ (ys ++ zs)
append_assoc [] ys zs = refl
append_assoc (x ∷ xs) ys zs = ap (λ l. x ∷ l) (append_assoc xs ys zs)

-- The context after a run: the contexts of the calls that were made, the stack as it was, and the
-- stack of the first failed call.
abbrev pub Ran : Context → List CallContext → Option (List ℕ) → Context → Type 0
Ran c made failed c' =
    (c'.calls ≡ c.calls ++ made)
    × (c'.stack ≡ c.stack)
    × (c'.error_stack ≡ or_else c.error_stack failed)
    × (c'.error_as_warn ≡ c.error_as_warn)
    × (c'.write_close_log ≡ c.write_close_log)
    × (c'.generic_error ≡ c.generic_error)

-- What a return from a call does when the stack is not empty.
trace_out_method_lem :
    (c : Context) (i : ℕ) (outer : List ℕ)
    → c.stack ≡ i ∷ outer
    → ((trace_out_method c).calls ≡ c.calls)
      × ((trace_out_method c).stack ≡ outer)
      × ((trace_out_method c).error_stack
          ≡ keep_error_stack (call_at c.calls i).error (i ∷ outer) c.error_stack)
      × ((trace_out_method c).error_as_warn ≡ c.error_as_warn)
      × ((trace_out_method c).write_close_log ≡ c.write_close_log)
      × ((trace_out_method c).generic_error ≡ c.generic_error)
unfolding trace_out_method
trace_out_method_lem c i outer h = rw h (refl, refl, refl, refl, refl, refl)

keep-or_else :
    (e : Option String) (s : List ℕ) (kept failed : Option (List ℕ))
    → keep_error_stack e s (or_else kept failed) ≡ or_else kept (or_else failed (when_failed e s))
keep-or_else (some e) s (some kept) failed = refl
keep-or_else (some e) s none (some f) = refl
keep-or_else (some e) s none none = refl
keep-or_else none s (some kept) failed = refl
keep-or_else none s none (some f) = refl
keep-or_else none s none none = refl

-- The contexts after the message and the error are set.
set_calls :
    (c c₂ : Context) (name text : String) (e : Option String) (ms : List CallContext)
    → c₂.calls ≡ (c.calls ++ new_call name ∷ []) ++ ms
    → (set_error (length c.calls) e (set_message (length c.calls) text c₂)).calls
      ≡ c.calls ++ final name text e ∷ ms
unfolding set_error set_message
set_calls c c₂ name text e ms h =
    rw
      (
        h,
        append_assoc c.calls (new_call name ∷ []) ms,
        change_at_middle (put_message text) c.calls (new_call name) ms,
        change_at_middle (put_error e) c.calls (put_message text (new_call name)) ms,
      )
      refl

-- The return from a call, after the calls it makes.
finish :
    (c c₂ : Context) (name text : String) (e : Option String) (ms : List CallContext)
    (failed : Option (List ℕ))
    → c₂.calls ≡ (c.calls ++ new_call name ∷ []) ++ ms
    → c₂.stack ≡ length c.calls ∷ c.stack
    → c₂.error_stack ≡ or_else c.error_stack failed
    → c₂.error_as_warn ≡ c.error_as_warn
    → c₂.write_close_log ≡ c.write_close_log
    → c₂.generic_error ≡ c.generic_error
    → Ran c
        (final name text e ∷ ms)
        (or_else failed (when_failed e (length c.calls ∷ c.stack)))
        (trace_out_method (set_error (length c.calls) e (set_message (length c.calls) text c₂)))
unfolding set_error set_message
finish c c₂ name text e ms failed h₀ h₁ h₂ h₃ h₄ h₅ =
    let n = length c.calls in
    let c₃ = set_error n e (set_message n text c₂) in
    let q : c₃.calls ≡ c.calls ++ final name text e ∷ ms = set_calls c c₂ name text e ms h₀ in
    let t = trace_out_method_lem c₃ n c.stack h₁ in
    let own : (call_at c₃.calls n).error ≡ e =
      rw (q, call_at_middle c.calls (final name text e) ms) refl in
    let kept : keep_error_stack (call_at c₃.calls n).error (n ∷ c.stack) c₂.error_stack
        ≡ or_else c.error_stack (or_else failed (when_failed e (n ∷ c.stack))) =
      rw (own, h₂, keep-or_else e (n ∷ c.stack) c.error_stack failed) refl in
    (t.0 ∙ q, t.1, t.2 ∙ kept, t.3 ∙ h₃, t.4 ∙ h₄, t.5 ∙ h₅)

pub length_next :
    (cs : List CallContext) (c : CallContext) → length (cs ++ c ∷ []) ≡ suc (length cs)
length_next cs c = omega (arith, length-append cs (c ∷ []))

or_else_assoc : (a b c : Option (List ℕ)) → or_else (or_else a b) c ≡ or_else a (or_else b c)
or_else_assoc (some x) b c = refl
or_else_assoc none b c = refl

or_else-none : (a : Option (List ℕ)) → or_else a none ≡ a
or_else-none (some x) = refl
or_else-none none = refl

pub append_nil : {A : Type 0} (xs : List A) → xs ++ [] ≡ xs
append_nil [] = refl
append_nil (x ∷ xs) = ap (λ l. x ∷ l) (append_nil xs)

mutual
  unfolding run_call frames failed_refs trace_in_method

  pub run_call_lem :
      (t : Call) (c : Context)
      → Ran c (frames t) (failed_refs c.stack (length c.calls) t) (run_call t c)
  run_call_lem (call name inner text e) c =
      let (i, c₁) = trace_in_method name c in
      let r = run_calls_lem inner c₁ in
      let next : c₁.calls ≡ c.calls ++ new_call name ∷ [] = refl in
      let refs : (run_calls inner c₁).error_stack
          ≡ or_else c.error_stack
              (failed_refs_all (length c.calls ∷ c.stack) (suc (length c.calls)) inner) =
        rw (sym (length_next c.calls (new_call name))) r.2 in
      finish c (run_calls inner c₁) name text e (frames_all inner)
        (failed_refs_all (length c.calls ∷ c.stack) (suc (length c.calls)) inner) r.0 r.1 refs r.3
        r.4 r.5

  run_calls_lem :
      (ts : Calls) (c : Context)
      → Ran c (frames_all ts) (failed_refs_all c.stack (length c.calls) ts) (run_calls ts c)
  run_calls_lem no_calls c =
      (sym (append_nil c.calls), refl, sym (or_else-none c.error_stack), refl, refl, refl)
  run_calls_lem (first_call t ts) c =
      let r = run_call_lem t c in
      let s = run_calls_lem ts (run_call t c) in
      let refs : or_else (run_call t c).error_stack
            (failed_refs_all (run_call t c).stack (length (run_call t c).calls) ts)
          ≡ or_else c.error_stack (failed_refs_all c.stack (length c.calls) (first_call t ts)) =
        rw
          (
            r.2,
            r.1,
            r.0,
            length-append c.calls (frames t),
            or_else_assoc c.error_stack (failed_refs c.stack (length c.calls) t)
                (failed_refs_all c.stack (length c.calls + length (frames t)) ts),
          )
          refl in
      (
        s.0 ∙ (rw (r.0, append_assoc c.calls (frames t) (frames_all ts)) refl),
        s.1 ∙ r.1,
        s.2 ∙ refs,
        s.3 ∙ r.3,
        s.4 ∙ r.4,
        s.5 ∙ r.5,
      )

-- After a call that was made with no other open, the logger has no field for the stack.
pub run_call_field : (t : Call) (c : Context) → c.stack ≡ [] → (run_call t c).stack_field ≡ none
unfolding run_call trace_in_method trace_out_method set_error set_message
run_call_field (call name inner text e) c h =
    let (i, c₁) = trace_in_method name c in let r = run_calls_lem inner c₁ in rw (r.1, h) refl
