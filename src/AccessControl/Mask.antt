-- ===== src/AccessControl/Mask.antt =====
-- access_control/access.go: access types are the bits of a 32-bit mask.
use Prim.Native.Nat.{bit_and, bit_or, bit_xor}
use go_backend_helpers.Prelude.{
  ℕ, ◌-◌, ◌^◌, ◌≡◌, String, Bool, not, ◌||◌, refl, List, [], ◌∷◌, ◌==◌, eqb, if◌then◌else◌, All,
}

abbrev pub read : ℕ
read = 0x1

abbrev pub create : ℕ
create = 0x2

abbrev pub update_replace : ℕ
update_replace = 0x4

abbrev pub update_partial : ℕ
update_partial = 0x8

abbrev pub update : ℕ
update = bit_or update_replace update_partial

abbrev pub delete : ℕ
delete = 0x10

-- `Grant`, `Revoke` and `Check`. The complement is taken in 32 bits.
unfoldable pub grant : ℕ → ℕ → ℕ
grant mask access = bit_or mask access

unfoldable pub revoke : ℕ → ℕ → ℕ
revoke mask access = bit_and mask (bit_xor access (2 ^ 32 - 1))

unfoldable pub check : ℕ → ℕ → Bool
check mask access = not (eqb (bit_and mask access) 0)

unfoldable pub http_method_to_access : String → ℕ
http_method_to_access method =
    if method == "GET"
    then read
    else if method == "POST"
    then create
    else if method == "PUT"
    then update_replace
    else if method == "PATCH"
    then update_partial
    else if method == "DELETE"
    then delete
    else 0

unfoldable pub access_to_http_method : ℕ → String
access_to_http_method access =
    if check access read
    then "GET"
    else if check access create
    then "POST"
    else if check access update_replace
    then "PUT"
    else if check access update_partial
    then "PATCH"
    else if check access delete
    then "DELETE"
    else ""

unfoldable pub http_content_in_query : ℕ → Bool
http_content_in_query access = check access read || check access delete

abbrev pub http_methods : List String
http_methods = "GET" ∷ "POST" ∷ "PUT" ∷ "PATCH" ∷ "DELETE" ∷ []

-- Each HTTP method comes back from its access type.
access_to_http_method-http_method_to_access :
    All (λ (m : String). access_to_http_method (http_method_to_access m) ≡ m) http_methods
unfolding access_to_http_method http_method_to_access check
access_to_http_method-http_method_to_access = (refl, (refl, (refl, (refl, (refl, tt)))))
