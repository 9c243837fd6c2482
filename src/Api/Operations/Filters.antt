-- ===== src/Api/Operations/Filters.antt =====
-- The removal of operations in place (pkg/api/resource.go), beside a filter of the list.
use go_backend_helpers.Prelude.{
  ℕ, zero, suc, ◌+◌, ◌-◌, ◌≤◌, ◌≡◌, refl, Bool, true, false, Option, none, some, List, [], ◌∷◌,
  ◌++◌, length, take, get_elem?, if◌then◌else◌, map, arith, ap, sym, ◌∙◌, length-append, Bool-cases,
  inl, inr,
}
use go_backend_helpers.Api.Operations.{Operation, Slice, assign, compact, clear_from, remove_where}

unfoldable pub filter : (Operation → Bool) → List Operation → List Operation
filter keep [] = []
filter keep (op ∷ ops) = let rest = filter keep ops in if keep op then op ∷ rest else rest

abbrev pub slice_of : List Operation → Slice
slice_of = map some

append_assoc : (xs ys zs : Slice) → (xs ++ ys) ++ zs ≡ xs ++ (ys ++ zs)
append_assoc [] ys zs = refl
append_assoc (x ∷ xs) ys zs = ap (λ l. x ∷ l) (append_assoc xs ys zs)

element_at :
    (xs : Slice) (x : Option Operation) (ys : Slice) (j : ℕ)
    → j ≡ length xs
    → get_elem? (xs ++ x ∷ ys) j ≡ some x
element_at [] x ys j e = rw e refl
element_at (y ∷ xs) x ys j e = rw e (element_at xs x ys (length xs) refl)

assign_at :
    (xs : Slice) (v x : Option Operation) (ys : Slice)
    → assign (length xs) v (xs ++ x ∷ ys) ≡ xs ++ v ∷ ys
unfolding assign
assign_at [] v x ys = refl
assign_at (y ∷ xs) v x ys = ap (λ l. y ∷ l) (assign_at xs v x ys)

length_next : (xs : Slice) (x : Option Operation) → length (xs ++ x ∷ []) ≡ suc (length xs)
length_next xs x = omega (arith, length-append xs (x ∷ []))

-- Where the loop stands: some operations are kept, some places are free, the rest is to be read.
abbrev standing : Slice → Slice → List Operation → Slice
standing kept free ops = kept ++ (free ++ slice_of ops)

-- The free places after an operation was kept.
abbrev shifted : Slice → Option Operation → Slice
shifted [] x = []
shifted (f ∷ free) x = free ++ x ∷ []

length-shifted : (free : Slice) (x : Option Operation) → length (shifted free x) ≡ length free
length-shifted [] x = refl
length-shifted (f ∷ free) x = length_next free x

kept_next :
    (kept free : Slice) (op : Operation) (ops : List Operation)
    → assign (length kept) (some op) (standing kept free (op ∷ ops))
      ≡ standing (kept ++ some op ∷ []) (shifted free (some op)) ops
kept_next kept [] op ops =
    assign_at kept (some op) (some op) (slice_of ops)
    ∙ sym (append_assoc kept (some op ∷ []) (slice_of ops))
kept_next kept (f ∷ free) op ops =
    assign_at kept (some op) f (free ++ some op ∷ slice_of ops)
    ∙ ap (λ l. kept ++ some op ∷ l) (sym (append_assoc free (some op ∷ []) (slice_of ops)))
    ∙ sym (append_assoc kept (some op ∷ []) ((free ++ some op ∷ []) ++ slice_of ops))

dropped_next :
    (kept free : Slice) (op : Operation) (ops : List Operation)
    → standing kept free (op ∷ ops) ≡ standing kept (free ++ some op ∷ []) ops
dropped_next kept free op ops =
    ap (λ l. kept ++ l) (sym (append_assoc free (some op ∷ []) (slice_of ops)))

read_next :
    (kept free : Slice) (op : Operation) (ops : List Operation) (j : ℕ)
    → j ≡ length kept + length free
    → get_elem? (standing kept free (op ∷ ops)) j ≡ some (some op)
read_next kept free op ops j e = rw (sym (append_assoc kept free (some op ∷ slice_of ops))) (
    element_at (kept ++ free) (some op) (slice_of ops) j
      (omega (arith, e, length-append kept free)))

-- One turn of the loop.
compact_kept :
    (keep : Operation → Bool) (kept free : Slice) (op : Operation) (ops : List Operation) (j : ℕ)
    → keep op ≡ true
    → j ≡ length kept + length free
    → compact keep (suc (length ops)) j (length kept, standing kept free (op ∷ ops))
      ≡ compact keep (length ops) (suc j) (
        length (kept ++ some op ∷ []),
        standing (kept ++ some op ∷ []) (shifted free (some op)) ops,
      )
unfolding compact
compact_kept keep kept free op ops j k e =
    rw
      (
        compact,
        read_next kept free op ops j e,
        k,
        kept_next kept free op ops,
        length_next kept (some op),
      )
      refl

compact_dropped :
    (keep : Operation → Bool) (kept free : Slice) (op : Operation) (ops : List Operation) (j : ℕ)
    → keep op ≡ false
    → j ≡ length kept + length free
    → compact keep (suc (length ops)) j (length kept, standing kept free (op ∷ ops))
      ≡ compact keep (length ops) (suc j) (length kept, standing kept (free ++ some op ∷ []) ops)
unfolding compact
compact_dropped keep kept free op ops j k e =
    rw (compact, read_next kept free op ops j e, k, dropped_next kept free op ops) refl

kept_result :
    (kept : Slice) (x : Option Operation) (m : ℕ) (l : Slice)
    → ◌≡◌ {A = ℕ × Slice}
        (length (kept ++ x ∷ []) + m, (kept ++ x ∷ []) ++ l)
        (length kept + suc m, kept ++ x ∷ l)
kept_result kept x m l =
    let n : length (kept ++ x ∷ []) + m ≡ length kept + suc m = omega (arith, length_next kept x) in
    ap (λ a. (a, (kept ++ x ∷ []) ++ l)) n
    ∙ ap (λ r. (length kept + suc m, r)) (append_assoc kept (x ∷ []) l)

-- The loop over what is left keeps what a filter keeps.
compact_lem :
    (keep : Operation → Bool) (ops : List Operation) (kept free : Slice) (j : ℕ)
    → j ≡ length kept + length free
    → (rest : Slice) × (compact keep (length ops) j (length kept, standing kept free ops)
        ≡ (length kept + length (filter keep ops), kept ++ (slice_of (filter keep ops) ++ rest)))
unfolding filter compact
compact_lem keep [] kept free j e =
    let same : length kept ≡ length kept + 0 = omega arith in
    (free ++ [], ap (λ n. (n, kept ++ (free ++ []))) same)
compact_lem keep (op ∷ ops) kept free j e = elim (Bool-cases (keep op)) [
  | inl k ↦
      let kept' = kept ++ some op ∷ [] in
      let free' = shifted free (some op) in
      let ih =
        compact_lem keep ops kept' free' (suc j)
          (omega (arith, e, length_next kept (some op), length-shifted free (some op))) in
      (
        ih.0,
        compact_kept keep kept free op ops j k e
            ∙ ih.1
            ∙ rw k (
                kept_result kept (some op) (length (filter keep ops))
                  (slice_of (filter keep ops) ++ ih.0)),
      )
  | inr k ↦
      let free' = free ++ some op ∷ [] in
      let ih =
        compact_lem keep ops kept free' (suc j) (omega (arith, e, length_next free (some op))) in
      (ih.0, compact_dropped keep kept free op ops j k e ∙ ih.1 ∙ rw k refl)
]

length-slice_of : (ops : List Operation) → length (slice_of ops) ≡ length ops
length-slice_of [] = refl
length-slice_of (op ∷ ops) = ap suc (length-slice_of ops)

take-append : (xs ys : Slice) → take (length xs) (xs ++ ys) ≡ xs
take-append [] ys = refl
take-append (x ∷ xs) ys = ap (λ l. x ∷ l) (take-append xs ys)

take-assign :
    (n j : ℕ) (v : Option Operation) (s : Slice) → n ≤ j → take n (assign j v s) ≡ take n s
unfolding assign
take-assign zero j v s h = refl
take-assign (suc n) j v [] h = refl
take-assign (suc n) zero v (x ∷ s) h = absurd (omega arith)
take-assign (suc n) (suc j) v (x ∷ s) h = ap (λ l. x ∷ l) (take-assign n j v s (omega (arith, h)))

take-clear_from : (n left j : ℕ) (s : Slice) → n ≤ j → take n (clear_from left j s) ≡ take n s
unfolding clear_from
take-clear_from n zero j s h = refl
take-clear_from n (suc left) j s h =
    take-clear_from n left (suc j) (assign j none s) (omega (arith, h)) ∙ take-assign n j none s h

-- The removal of operations in place, for a list of operations without nil, leaves the operations
-- that are to be kept, in their order.
remove_where_lem :
    (keep : Operation → Bool) (ops : List Operation)
    → remove_where keep (slice_of ops) ≡ slice_of (filter keep ops)
unfolding remove_where
remove_where_lem keep ops =
    let (rest, e) = compact_lem keep ops [] [] 0 refl in
    let kept = slice_of (filter keep ops) in
    let n = length (filter keep ops) in
    let same : length kept ≡ n = length-slice_of (filter keep ops) in
    let zero_add : 0 + n ≡ n = omega arith in
    rw (length-slice_of ops, e, zero_add)
      (take-clear_from n (length ops - n) n (kept ++ rest) (omega arith)
        ∙ rw (sym same) (take-append kept rest))
