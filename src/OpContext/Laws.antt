-- ===== src/OpContext/Laws.antt =====
-- What the log of a context says after a tree of calls, and what Close writes
-- (op_context/default_op_context/default_op_context.go).
use go_backend_helpers.Prelude.{
  ℕ, suc, ◌+◌, String, ◌≡◌, refl, sym, ap, ◌∙◌, true, Option, none, some, List, [], ◌∷◌, ◌++◌,
  length, arith, length-append, ◌==◌, ◌&&◌, not, if◌then◌else◌, is_some, inl, inr, Bool-cases,
  Option-cases,
}
use go_backend_helpers.OpContext.{
  Context, CallContext, Entry, info_level, call_at, resolve, field_of, close, collect_messages,
  collect_error, failure_level, dump_log, clear_error,
}
use go_backend_helpers.OpContext.Trees.{
  Call, call, Calls, no_calls, first_call, run_call, frames, frames_all, failed_refs,
  failed_refs_all, or_else, when_failed, final, failed_chain, failed_chain_all, first_error,
  first_error_of,
}
use go_backend_helpers.OpContext.Runs.{
  append_assoc, call_at_middle, run_call_lem, run_call_field, append_nil, length_next,
}

abbrev pub map_option : {A B : Type 0} → (A → B) → Option A → Option B
map_option f none = none
map_option f (some a) = some (f a)

map-or_else :
    {A B : Type 0} (f : A → B) (a b : Option A)
    → map_option f (or_else a b) ≡ or_else (map_option f a) (map_option f b)
map-or_else f (some x) b = refl
map-or_else f none b = refl

map-when_failed :
    {A B : Type 0} (f : A → B) (e : Option String) (a : A)
    → map_option f (when_failed e a) ≡ when_failed e (f a)
map-when_failed f (some x) a = refl
map-when_failed f none a = refl

-- The references kept at the first failure are to the final contexts of the chain of calls.
mutual
  unfolding frames failed_refs failed_chain

  chain_lem :
      (t : Call) (store before after : List CallContext) (outer : List ℕ)
      → store ≡ before ++ (frames t ++ after)
      → map_option (resolve store) (failed_refs outer (length before) t)
        ≡ failed_chain (resolve store outer) t
  chain_lem (call name inner text e) store before after outer h =
      let f = final name text e in
      let n = length before in
      let own : call_at store n ≡ f =
        rw (h, call_at_middle before f (frames_all inner ++ after)) refl in
      let same : store ≡ (before ++ f ∷ []) ++ (frames_all inner ++ after) =
        h ∙ sym (append_assoc before (f ∷ []) (frames_all inner ++ after)) in
      let ih = chain_all_lem inner store (before ++ f ∷ []) after (n ∷ outer) same in
      let chain : resolve store (n ∷ outer) ≡ f ∷ resolve store outer =
        ap (λ x. x ∷ resolve store outer) own in
      rw
        (
          map-or_else (resolve store) (failed_refs_all (n ∷ outer) (suc n) inner)
              (when_failed e (n ∷ outer)),
          map-when_failed (resolve store) e (n ∷ outer),
          sym (length_next before f),
          ih,
          chain,
        )
        refl

  chain_all_lem :
      (ts : Calls) (store before after : List CallContext) (outer : List ℕ)
      → store ≡ before ++ (frames_all ts ++ after)
      → map_option (resolve store) (failed_refs_all outer (length before) ts)
        ≡ failed_chain_all (resolve store outer) ts
  chain_all_lem no_calls store before after outer h = refl
  chain_all_lem (first_call t ts) store before after outer h =
      let a : store ≡ before ++ (frames t ++ (frames_all ts ++ after)) =
        h ∙ ap (λ l. before ++ l) (append_assoc (frames t) (frames_all ts) after) in
      let b : store ≡ (before ++ frames t) ++ (frames_all ts ++ after) =
        a ∙ sym (append_assoc before (frames t) (frames_all ts ++ after)) in
      let ih = chain_lem t store before (frames_all ts ++ after) outer a in
      let jh = chain_all_lem ts store (before ++ frames t) after outer b in
      rw
        (
          map-or_else (resolve store) (failed_refs outer (length before) t)
              (failed_refs_all outer (length before + length (frames t)) ts),
          ih,
          sym (length-append before (frames t)),
          jh,
        )
        refl

-- A chain of calls is there when an error is, which is the error that the log takes from the chain.
abbrev HasError : Option (List CallContext) → Option String → Type 0
HasError none e = e ≡ none
HasError (some chain) e = (is_some e ≡ true) × (collect_error chain ≡ e)

HasError-or_else :
    (a b : Option (List CallContext)) (e f : Option String)
    → HasError a e
    → HasError b f
    → HasError (or_else a b) (or_else e f)
HasError-or_else none b none f h k = k
HasError-or_else none b (some x) f h k = cc
HasError-or_else (some chain) b none f h k = cc
HasError-or_else (some chain) b (some x) f h k = h

HasError-when_failed :
    (e : Option String) (c : CallContext) (outer : List CallContext)
    → c.error ≡ e
    → HasError (when_failed e (c ∷ outer)) e
unfolding collect_error
HasError-when_failed none c outer h = refl
HasError-when_failed (some x) c outer h = (refl, rw h refl)

mutual
  unfolding failed_chain first_error

  failed_chain-HasError :
      (t : Call) (outer : List CallContext) → HasError (failed_chain outer t) (first_error t)
  failed_chain-HasError (call name inner text e) outer =
      let f = final name text e in
      HasError-or_else (failed_chain_all (f ∷ outer) inner) (when_failed e (f ∷ outer))
        (first_error_of inner) e (failed_chain_all-HasError inner (f ∷ outer))
        (HasError-when_failed e f outer refl)

  failed_chain_all-HasError :
      (ts : Calls) (outer : List CallContext)
      → HasError (failed_chain_all outer ts) (first_error_of ts)
  failed_chain_all-HasError no_calls outer = refl
  failed_chain_all-HasError (first_call t ts) outer =
      HasError-or_else (failed_chain outer t) (failed_chain_all outer ts) (first_error t)
        (first_error_of ts) (failed_chain-HasError t outer) (failed_chain_all-HasError ts outer)

-- What Close puts into the log after the calls: of the first failed one the path, the messages of
-- the calls around it and the error, or else the message of success.
abbrev pub outcome : Context → String → Call → List Entry
outcome c text t = elim (failed_chain [] t) [
  | none ↦
      if c.write_close_log && not (text == "")
      then record { level = info_level; text = text; cause = none; path = none } ∷ []
      else []
  | some chain ↦
      record {
        level = failure_level c.error_as_warn;
        text = collect_messages chain;
        cause = first_error t;
        path = field_of chain;
      }
      ∷ []
]

-- Close of a context without a kept stack, and with one.
close_success :
    (text : String) (d : Context)
    → d.error_stack ≡ none
    → ((close text d).log
        ≡ d.log
          ++ (if d.write_close_log && not (text == "")
              then record { level = info_level; text = text; cause = none; path = d.stack_field }
                ∷ []
              else []))
      × ((close text d).calls ≡ d.calls)
      × ((close text d).stack ≡ d.stack)
      × ((close text d).error_stack ≡ none)
      × ((close text d).generic_error ≡ none)
unfolding close dump_log clear_error
close_success text d h = ground (arith, append_nil d.log)

close_failure :
    (text : String) (d : Context) (kept : List ℕ)
    → d.error_stack ≡ some kept
    → ((close text d).log
        ≡ d.log
          ++ record {
            level = failure_level d.error_as_warn;
            text = collect_messages (resolve d.calls kept);
            cause = collect_error (resolve d.calls kept);
            path = field_of (resolve d.calls kept);
          }
            ∷ [])
      × ((close text d).calls ≡ d.calls)
      × ((close text d).stack ≡ [])
      × ((close text d).error_stack ≡ none)
      × ((close text d).generic_error ≡ none)
unfolding close dump_log clear_error
close_failure text d kept h = elim (Bool-cases d.has_oplog_handler) [
  | inl b ↦ rw (b, h) (refl, refl, refl, refl, refl)
  | inr b ↦ rw (b, h) (refl, refl, refl, refl, refl)
]

-- For a tree of calls run in a context with no call open and no stack kept, Close writes one more
-- entry: if a call returned an error, the path, the messages and the first returned error of the
-- first call that failed, with the calls around it as they are in the end, and else the message
-- of success where that is to be written; the contexts of all calls are kept in order, and the
-- stack and the errors are cleared.
pub close-run_call :
    (t : Call) (c : Context) (text : String)
    → c.stack ≡ []
    → c.error_stack ≡ none
    → ((close text (run_call t c)).log ≡ (run_call t c).log ++ outcome c text t)
      × ((close text (run_call t c)).calls ≡ c.calls ++ frames t)
      × ((close text (run_call t c)).stack ≡ [])
      × ((close text (run_call t c)).error_stack ≡ none)
      × ((close text (run_call t c)).generic_error ≡ none)
unfolding run_call
close-run_call t c text h k =
    let d = run_call t c in
    let r = run_call_lem t c in
    let s : d.stack ≡ [] = r.1 ∙ h in
    let f = run_call_field t c h in
    let e : d.error_stack ≡ failed_refs [] (length c.calls) t = r.2 ∙ rw (k, h) refl in
    let all : d.calls ≡ c.calls ++ (frames t ++ []) =
      r.0 ∙ ap (λ l. c.calls ++ l) (sym (append_nil (frames t))) in
    let q : map_option (resolve d.calls) d.error_stack ≡ failed_chain [] t =
      rw e (chain_lem t d.calls c.calls [] [] all) in
    let has_error = failed_chain-HasError t [] in
    elim (Option-cases d.error_stack) [
      | inl n ↦
          let no_chain : failed_chain [] t ≡ none = sym q ∙ ap (map_option (resolve d.calls)) n in
          let l = close_success text d n in
          rw (no_chain, outcome) (rw (r.4, f) at l.0, l.1 ∙ r.0, l.2 ∙ s, l.3, l.4)
      | inr (kept, m) ↦
          let chain : failed_chain [] t ≡ some (resolve d.calls kept) =
            sym q ∙ ap (map_option (resolve d.calls)) m in
          let l = close_failure text d kept m in
          let first : collect_error (resolve d.calls kept) ≡ first_error t =
            (rw chain at has_error).1 in
          rw (chain, outcome) (rw (r.3, first) at l.0, l.1 ∙ r.0, l.2, l.3, l.4)
    ]
