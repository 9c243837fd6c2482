-- ===== src/Api/Operations.antt =====
-- Operations of a resource, pkg/api/operation.go, and the lists of them in pkg/api/resource.go. A slice
-- is the list of its elements, and nil a missing element.
pub mod Filters
use go_backend_helpers.Prelude.{
  ℕ, zero, suc, ◌-◌, String, Bool, true, false, not, Option, none, some, List, [], ◌∷◌, ◌++◌, ◌==◌,
  eqb, length, take, get_elem?, if◌then◌else◌,
}

-- `OperationBase`; the pointer to its resource is left out.
pub record Operation : Type 0 where
  pub name : String
  pub access_type : ℕ
  pub test_only : Bool

-- A slice whose elements may be nil, and the assignment `s[i] = v`.
abbrev pub Slice : Type 0
Slice = List (Option Operation)

unfoldable pub assign : ℕ → Option Operation → Slice → Slice
assign i v [] = []
assign zero v (x ∷ xs) = v ∷ xs
assign (suc i) v (x ∷ xs) = x ∷ assign i v xs

abbrev element : Option (Option Operation) → Option Operation
element none = none
element (some o) = o

-- One turn of the loop: the operation that is read, where the next kept one goes, and the slice.
abbrev compact_step : (Operation → Bool) → Option Operation → ℕ × Slice → ℕ × Slice
compact_step keep none (i, s) = (i, s)
compact_step keep (some op) (i, s) = if keep op then (suc i, assign i (some op) s) else (i, s)

-- `for _, op := range r.operations { if keep { r.operations[i] = op; i++ } }`: the loop reads the slice
-- that it writes to, `left` elements from the one at `j`.
unfoldable pub compact : (Operation → Bool) → (left j : ℕ) → ℕ × Slice → ℕ × Slice
compact keep zero j (i, s) = (i, s)
compact keep (suc left) j (i, s) =
    compact keep left (suc j) (compact_step keep (element (get_elem? s j)) (i, s))

-- `for j := i; j < len; j++ { r.operations[j] = nil }`
unfoldable pub clear_from : (left j : ℕ) → Slice → Slice
clear_from zero j s = s
clear_from (suc left) j s = clear_from left (suc j) (assign j none s)

-- The whole loop, with the slice cut to `r.operations[:i]`
unfoldable pub remove_where : (Operation → Bool) → Slice → Slice
remove_where keep s =
    let (i, s') = compact keep (length s) 0 (0, s) in take i (clear_from (length s - i) i s')

-- `RemoveOperations`, `RemoveOperation`, `AddOperation` and `ReplaceOperation`
unfoldable pub remove_operations : ℕ → Slice → Slice
remove_operations access_type = remove_where (λ op. not (eqb op.access_type access_type))

unfoldable pub remove_operation : String → Slice → Slice
remove_operation name = remove_where (λ op. not (op.name == name))

abbrev pub add_operation : Operation → Slice → Slice
add_operation op s = s ++ some op ∷ []

unfoldable pub replace_operation : Operation → Slice → Slice
replace_operation op s = add_operation op (remove_operations op.access_type s)
