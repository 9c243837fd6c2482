-- ===== src/Auth/Codes.antt =====
-- Texts that numbers and texts can be read back from, for the tests of encrypted parameters.
use Prim.Native.Char.{Char, code}
use Prim.Native.String.{String}
use go_backend_helpers.Prelude.{
  ℕ, zero, suc, ◌≡◌, refl, List, [], ◌∷◌, eqb, ◌==◌, false, eq_iff, Bool-cases, inl, inr,
  if◌then◌else◌,
}

abbrev more : Char
more = "a"

abbrev end_mark : Char
end_mark = "b"

unfoldable pub write_number : ℕ → String → String
write_number zero rest = String.◌∷◌ end_mark rest
write_number (suc n) rest = String.◌∷◌ more (write_number n rest)

unfoldable pub read_number : String → ℕ × String
read_number String.[] = (0, String.[])
read_number (String.◌∷◌ c s) =
    let (n, rest) = read_number s in if eqb (code c) b'b' then (0, s) else (suc n, rest)

pub read_number-write_number :
    (n : ℕ) (rest : String) → read_number (write_number n rest) ≡ (n, rest)
unfolding read_number write_number
read_number-write_number zero rest = refl
read_number-write_number (suc n) rest = rw (read_number-write_number n rest) refl

unfoldable pub write_text : String → String → String
write_text String.[] rest = String.◌∷◌ end_mark rest
write_text (String.◌∷◌ c s) rest = String.◌∷◌ more (String.◌∷◌ c (write_text s rest))

unfoldable pub read_text : String → String × String
read_text String.[] = (String.[], String.[])
read_text (String.◌∷◌ m String.[]) = (String.[], String.[])
read_text (String.◌∷◌ m (String.◌∷◌ c s)) =
    let (text, rest) = read_text s in
    if eqb (code m) b'b' then (String.[], String.◌∷◌ c s) else (String.◌∷◌ c text, rest)

pub read_text-write_text : (s rest : String) → read_text (write_text s rest) ≡ (s, rest)
unfolding read_text write_text
read_text-write_text String.[] String.[] = refl
read_text-write_text String.[] (String.◌∷◌ c rest) = refl
read_text-write_text (String.◌∷◌ c s) rest = rw (read_text-write_text s rest) refl

-- A list of numbers
unfoldable pub write_numbers : List ℕ → String
write_numbers [] = String.[]
write_numbers (n ∷ ns) = write_number n (write_numbers ns)

unfoldable pub bump : List ℕ → List ℕ
bump [] = []
bump (n ∷ ns) = suc n ∷ ns

unfoldable pub read_numbers : String → List ℕ
read_numbers String.[] = []
read_numbers (String.◌∷◌ c s) =
    let rest = read_numbers s in if eqb (code c) b'b' then 0 ∷ rest else bump rest

read_numbers-write_number :
    (n : ℕ) (rest : String) → read_numbers (write_number n rest) ≡ n ∷ read_numbers rest
unfolding read_numbers write_number bump
read_numbers-write_number zero rest = refl
read_numbers-write_number (suc n) rest = rw (read_numbers-write_number n rest) refl

pub read_numbers-write_numbers : (ns : List ℕ) → read_numbers (write_numbers ns) ≡ ns
unfolding write_numbers read_numbers
read_numbers-write_numbers [] = refl
read_numbers-write_numbers (n ∷ ns) =
    rw (read_numbers-write_number n (write_numbers ns), read_numbers-write_numbers ns) refl

cons-ne-empty : (c : Char) (s : String) → (String.◌∷◌ c s == String.[]) ≡ false
cons-ne-empty c s = elim (Bool-cases (String.◌∷◌ c s == String.[])) [
  | inl e ↦ cc ((eq_iff (String.◌∷◌ c s) String.[]).0 e)
  | inr e ↦ e
]

pub write_numbers-seen : (n : ℕ) (ns : List ℕ) → (write_numbers (n ∷ ns) == "") ≡ false
unfolding write_numbers write_number
write_numbers-seen zero ns = cons-ne-empty end_mark (write_numbers ns)
write_numbers-seen (suc n) ns = cons-ne-empty more (write_number n (write_numbers ns))
