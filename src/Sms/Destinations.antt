-- ===== src/Sms/Destinations.antt =====
-- The choice of a provider by pkg/sms/sms_manager.go, and the longest prefix of a number.
use Prim.Native.String.{len}
use text.Mathlib.Text.{starts_with}
use go_backend_helpers.Prelude.{
  ℕ, String, ◌≡◌, refl, Option, none, some, List, [], ◌∷◌, ◌≤◌, arith, ltb, if◌then◌else◌, sym, ◌∙◌,
  Bool-cases, inl, inr,
}
use go_backend_helpers.Sms.{SmsDestination, place, sort, first_destination}

-- The better of two answers: the longer prefix, or the earlier destination.
abbrev longer : SmsDestination → Option SmsDestination → Option SmsDestination
longer d none = some d
longer d (some e) = if ltb (len d.prefix) (len e.prefix) then some e else some d

-- Of the destinations whose prefix the number has, the first of those with the longest prefix.
unfoldable pub longest : String → List SmsDestination → Option SmsDestination
longest recipient [] = none
longest recipient (d ∷ ds) =
    let rest = longest recipient ds in
    if starts_with recipient d.prefix then longer d rest else rest

-- No destination has a longer prefix than the one before it.
abbrev AllAtMost : ℕ → List SmsDestination → Type 0
AllAtMost n [] = Unit {0}
AllAtMost n (d ∷ ds) = (len d.prefix ≤ n) × AllAtMost n ds

abbrev IsSorted : List SmsDestination → Type 0
IsSorted [] = Unit {0}
IsSorted (d ∷ ds) = AllAtMost (len d.prefix) ds × IsSorted ds

AllAtMost-le : (n m : ℕ) (ds : List SmsDestination) → n ≤ m → AllAtMost n ds → AllAtMost m ds
AllAtMost-le n m [] h a = tt
AllAtMost-le n m (d ∷ ds) h a = (omega (arith, h, a.0), AllAtMost-le n m ds h a.1)

place-AllAtMost :
    (n : ℕ) (d : SmsDestination) (ds : List SmsDestination)
    → len d.prefix ≤ n
    → AllAtMost n ds
    → AllAtMost n (place d ds)
unfolding place
place-AllAtMost n d [] h a = (h, tt)
place-AllAtMost n d (e ∷ es) h a = elim (Bool-cases (ltb (len d.prefix) (len e.prefix))) [
  | inl t ↦ rw t (a.0, place-AllAtMost n d es h a.1)
  | inr t ↦ rw t (h, a)
]

place-IsSorted :
    (d : SmsDestination) (ds : List SmsDestination) → IsSorted ds → IsSorted (place d ds)
unfolding place
place-IsSorted d [] s = (tt, tt)
place-IsSorted d (e ∷ es) s = elim (Bool-cases (ltb (len d.prefix) (len e.prefix))) [
  | inl t ↦ rw t (place-AllAtMost (len e.prefix) d es (ground arith) s.0, place-IsSorted d es s.1)
  | inr t ↦
      let le : len e.prefix ≤ len d.prefix = ground arith in
      rw t ((le, AllAtMost-le (len e.prefix) (len d.prefix) es le s.0), s)
]

sort-IsSorted : (ds : List SmsDestination) → IsSorted (sort ds)
unfolding sort
sort-IsSorted [] = tt
sort-IsSorted (d ∷ ds) = place-IsSorted d (sort ds) (sort-IsSorted ds)

-- What the search finds in a list of prefixes of at most some length is at most that long.
abbrev FoundAtMost : ℕ → Option SmsDestination → Type 0
FoundAtMost n none = Unit {0}
FoundAtMost n (some d) = len d.prefix ≤ n

first_destination-FoundAtMost :
    (recipient : String) (n : ℕ) (ds : List SmsDestination)
    → AllAtMost n ds
    → FoundAtMost n (first_destination recipient ds)
unfolding first_destination
first_destination-FoundAtMost recipient n [] a = tt
first_destination-FoundAtMost recipient n (d ∷ ds) a =
    elim (Bool-cases (starts_with recipient d.prefix)) [
      | inl t ↦ rw t a.0
      | inr t ↦ rw t (first_destination-FoundAtMost recipient n ds a.1)
    ]

longer-at_most :
    (d : SmsDestination) (o : Option SmsDestination)
    → FoundAtMost (len d.prefix) o
    → longer d o ≡ some d
longer-at_most d none h = refl
longer-at_most d (some e) h = ground arith

first_destination-place :
    (recipient : String) (d : SmsDestination) (ds : List SmsDestination)
    → IsSorted ds
    → first_destination recipient (place d ds) ≡ (
        if starts_with recipient d.prefix
        then longer d (first_destination recipient ds)
        else first_destination recipient ds)
unfolding first_destination place
first_destination-place recipient d [] s = ground arith
first_destination-place recipient d (e ∷ es) s =
    let ih = first_destination-place recipient d es s.1 in
    elim (Bool-cases (ltb (len d.prefix) (len e.prefix))) [
      | inl t ↦ elim (Bool-cases (starts_with recipient e.prefix)) [
        | inl f ↦ elim (Bool-cases (starts_with recipient d.prefix)) [
          | inl g ↦ rw (t, f, g, t) refl
          | inr g ↦ rw (t, f, g) refl
        ]
        | inr f ↦ rw (t, f) ih
      ]
      | inr t ↦ elim (Bool-cases (starts_with recipient d.prefix)) [
        | inl g ↦
            let le : len e.prefix ≤ len d.prefix = ground arith in
            let bounded : AllAtMost (len d.prefix) (e ∷ es) =
              (le, AllAtMost-le (len e.prefix) (len d.prefix) es le s.0) in
            rw (t, g)
              (sym (
                longer-at_most d (first_destination recipient (e ∷ es))
                  (first_destination-FoundAtMost recipient (len d.prefix) (e ∷ es) bounded)))
        | inr g ↦ rw (t, g) refl
      ]
    ]

pub first_destination-sort :
    (recipient : String) (ds : List SmsDestination)
    → first_destination recipient (sort ds) ≡ longest recipient ds
unfolding sort longest first_destination
first_destination-sort recipient [] = refl
first_destination-sort recipient (d ∷ ds) =
    first_destination-place recipient d (sort ds) (sort-IsSorted ds)
    ∙ rw (first_destination-sort recipient ds) refl
