-- ===== src/Filters/Texts.antt =====
-- The texts of the calls that pkg/db/db_gorm/gorm_orm.go makes: fixed words and columns.
use Prim.Native.String.{String, ◌++◌ as ◌<>◌}
use go_backend_helpers.Prelude.{
  ℕ, ◌≡◌, refl, ◌⊎◌, inl, inr, Bool, true, false, ◌||◌, Option, none, some, List, [], ◌∷◌, ◌++◌,
  ◌==◌, if◌then◌else◌, Dict, All, AllEntries, Bool-cases, ltb, eq_iff, eq_refl, ap,
}
use go_backend_helpers.Filters.Requests.{
  Value, nil, text, typed, Interval, BetweenFields, OrFields, Filter,
}
use go_backend_helpers.Filters.Sql.{
  Call, where_fields, where_text, where_list, or_text, order, offset, limit, compare_op, same_value,
  quoted, interval_texts, prepare_interval, preset_calls, in_calls, not_in_calls, interval_calls,
  between_calls, or_more, or_names, or_calls, paginate, offset_calls, limit_calls, split_dots,
  sort_name, sort_calls, page_calls,
}

abbrev pub IsOneOf : String → List String → Type 0
IsOneOf s [] = ⊥
IsOneOf s (t ∷ ts) = (s ≡ t) ⊎ IsOneOf s ts

abbrev pub comparators : List String
comparators = ">" ∷ ">=" ∷ "<" ∷ "<=" ∷ []

abbrev pub tests : List String
tests = " = ?" ∷ " IN ? " ∷ " NOT IN ? " ∷ []

module _ (P : String → Type 0) where
  -- A column with a fixed test.
  abbrev pub IsTest : String → Type 0
  IsTest s = (n : String) × P n × ((t : String) × IsOneOf t tests × (s ≡ quoted n <> t))

  -- A column with a bound.
  abbrev pub IsBoundText : String → Type 0
  IsBoundText s =
      (n : String) × P n
      × ((c : String) × IsOneOf c comparators × (s ≡ quoted n <> (" " <> (c <> " ? "))))

  -- A column with two bounds, in the order of the format's arguments.
  abbrev pub IsTwoBoundsText : String → Type 0
  IsTwoBoundsText s =
      (n : String) × P n
      × ((c : String) × IsOneOf c comparators
          × ((d : String) × IsOneOf d comparators
              × (s
                  ≡ quoted n
                    <> (" " <> (c <> (" ? AND " <> (quoted d <> (" " <> (n <> " ? ")))))))))

  -- Two columns around a value.
  abbrev pub IsBetweenText : String → Type 0
  IsBetweenText s =
      (m : String) × P m
      × ((n : String) × P n
          × ((c : String) × IsOneOf c comparators
              × ((d : String) × IsOneOf d comparators
                  × (s
                      ≡ "? "
                        <> (c <> (" " <> (quoted m <> (" AND ? " <> (d <> (" " <> quoted n))))))))))

  abbrev pub IsOrder : String → Type 0
  IsOrder s =
      (n : String) × P n
      × ((d : String) × IsOneOf d ("ASC" ∷ "DESC" ∷ [])
          × (s ≡ sort_name n (split_dots n) <> (" " <> d)))

  -- All of a call's text but its arguments is fixed, or is a column of P.
  pub data IsClean : Call → Type 0 where
    fields : {d : Dict Value} → AllEntries (λ n x. P n) d → IsClean (where_fields d)
    test : {s : String} {xs : List Value} → IsTest s → IsClean (where_text s xs)
    bound : {s : String} {xs : List Value} → IsBoundText s → IsClean (where_text s xs)
    two_bounds : {s : String} {xs : List Value} → IsTwoBoundsText s → IsClean (where_text s xs)
    between : {s : String} {xs : List Value} → IsBetweenText s → IsClean (where_text s xs)
    in_list : {s : String} {xs : List Value} → IsTest s → IsClean (where_list s xs)
    or_test : {s : String} {xs : List Value} → IsTest s → IsClean (or_text s xs)
    sorted : {s : String} → IsOrder s → IsClean (order s)
    skipped : {n : ℕ} → IsClean (offset n)
    limited : {n : ℕ} → IsClean (limit n)

  pub All-append : (xs ys : List Call) → All IsClean xs → All IsClean ys → All IsClean (xs ++ ys)
  All-append [] ys a b = b
  All-append (x ∷ xs) ys a b = (a.0, All-append xs ys a.1 b)

  compare_op-more : (b : Bool) → IsOneOf (compare_op b ">") comparators
  unfolding compare_op
  compare_op-more true = inl refl
  compare_op-more false = inr (inl refl)

  compare_op-less : (b : Bool) → IsOneOf (compare_op b "<") comparators
  unfolding compare_op
  compare_op-less true = inr (inr (inl refl))
  compare_op-less false = inr (inr (inr (inl refl)))

  from_text : (n : String) (i : Interval) (x : Value) → P n → All IsClean (interval_texts n i x nil)
  unfolding interval_texts
  from_text n i nil h = tt
  from_text n i (text s) h =
      (bound (n, h, (compare_op i.from_open ">", compare_op-more i.from_open, refl)), tt)
  from_text n i (typed t s) h =
      (bound (n, h, (compare_op i.from_open ">", compare_op-more i.from_open, refl)), tt)

  to_text : (n : String) (i : Interval) (x : Value) → P n → All IsClean (interval_texts n i nil x)
  unfolding interval_texts
  to_text n i nil h = tt
  to_text n i (text s) h =
      (bound (n, h, (compare_op i.to_open "<", compare_op-less i.to_open, refl)), tt)
  to_text n i (typed t s) h =
      (bound (n, h, (compare_op i.to_open "<", compare_op-less i.to_open, refl)), tt)

  abbrev two_calls : String → Interval → Value → Value → Bool → List Call
  two_calls n i x y same =
      if same
      then where_text (quoted n <> " = ?") (x ∷ []) ∷ []
      else where_text
          (quoted n
            <> (" "
                <> (compare_op i.from_open ">"
                    <> (" ? AND "
                        <> (quoted (compare_op i.to_open "<") <> (" " <> (n <> " ? ")))))))
          (x ∷ y ∷ [])
        ∷ []

  two_texts :
      (n : String) (i : Interval) (x y : Value) (same : Bool)
      → P n
      → All IsClean (two_calls n i x y same)
  two_texts n i x y true h = (test (n, h, (" = ?", inl refl, refl)), tt)
  two_texts n i x y false h = (
    two_bounds (
      n,
      h,
      (
        compare_op i.from_open ">",
        compare_op-more i.from_open,
        (compare_op i.to_open "<", compare_op-less i.to_open, refl),
      ),
    ),
    tt,
  )

  interval_text :
      (n : String) (i : Interval) (x y : Value) → P n → All IsClean (interval_texts n i x y)
  unfolding interval_texts
  interval_text n i nil y h = to_text n i y h
  interval_text n i (text s) nil h = from_text n i (text s) h
  interval_text n i (typed a s) nil h = from_text n i (typed a s) h
  interval_text n i (text s) (text t) h =
      two_texts n i (text s) (text t) (same_value (text s) (text t)) h
  interval_text n i (text s) (typed b t) h =
      two_texts n i (text s) (typed b t) (same_value (text s) (typed b t)) h
  interval_text n i (typed a s) (text t) h =
      two_texts n i (typed a s) (text t) (same_value (typed a s) (text t)) h
  interval_text n i (typed a s) (typed b t) h =
      two_texts n i (typed a s) (typed b t) (same_value (typed a s) (typed b t)) h

  pub intervals_text :
      (d : Dict Interval) → AllEntries (λ n i. P n) d → All IsClean (interval_calls d)
  unfolding interval_calls prepare_interval
  intervals_text [] h = tt
  intervals_text ((n, i) ∷ d) h =
      All-append (interval_texts n i i.from i.to) (interval_calls d)
        (interval_text n i i.from i.to h.0) (intervals_text d h.1)

  pub in_text : (d : Dict (List Value)) → AllEntries (λ n i. P n) d → All IsClean (in_calls d)
  unfolding in_calls
  in_text [] h = tt
  in_text ((n, xs) ∷ d) h = (in_list (n, h.0, (" IN ? ", inr (inl refl), refl)), in_text d h.1)

  pub not_in_text :
      (d : Dict (List Value)) → AllEntries (λ n i. P n) d → All IsClean (not_in_calls d)
  unfolding not_in_calls
  not_in_text [] h = tt
  not_in_text ((n, xs) ∷ d) h =
      (in_list (n, h.0, (" NOT IN ? ", inr (inr (inl refl)), refl)), not_in_text d h.1)

  pub betweens_text :
      (bs : List BetweenFields)
      → All (λ b. P b.from_field × P b.to_field) bs
      → All IsClean (between_calls bs)
  unfolding between_calls
  betweens_text [] h = tt
  betweens_text (b ∷ bs) ((m, n), h) = (
    between (
      b.from_field,
      m,
      (
        b.to_field,
        n,
        (
          compare_op b.from_open ">",
          compare_op-more b.from_open,
          (compare_op b.to_open ">", compare_op-more b.to_open, refl),
        ),
      ),
    ),
    betweens_text bs h,
  )

  more_text : (x : Value) (ns : List String) → All P ns → All IsClean (or_more x ns)
  unfolding or_more
  more_text x [] h = tt
  more_text x (n ∷ ns) h = (or_test (n, h.0, (" = ?", inl refl, refl)), more_text x ns h.1)

  names_text : (x : Value) (ns : List String) → All P ns → All IsClean (or_names x ns)
  unfolding or_names
  names_text x [] h = tt
  names_text x (n ∷ ns) h = (test (n, h.0, (" = ?", inl refl, refl)), more_text x ns h.1)

  pub ors_text : (os : List OrFields) → All (λ o. All P o.fields) os → All IsClean (or_calls os)
  unfolding or_calls
  ors_text [] h = tt
  ors_text (o ∷ os) h =
      All-append (or_names o.value o.fields) (or_calls os) (names_text o.value o.fields h.0)
        (ors_text os h.1)

  pub presets_text :
      (ps : List (Dict Value)) → All (AllEntries (λ n x. P n)) ps → All IsClean (preset_calls ps)
  unfolding preset_calls
  presets_text [] h = tt
  presets_text (d ∷ ps) h = (fields h.0, presets_text ps h.1)

  direction_text :
      (d : String) → ((d == "ASC") || (d == "DESC")) ≡ true → IsOneOf d ("ASC" ∷ "DESC" ∷ [])
  direction_text d h = elim (Bool-cases (d == "ASC")) [
    | inl e ↦ inl ((eq_iff d "ASC").0 e)
    | inr e ↦ inr (inl ((eq_iff d "DESC").0 (rw e at h)))
  ]

  named : (n : String) → (n ≡ "") ⊎ P n → (n == "") ≡ false → P n
  named n (inl e) f = cc (ap (λ (z : String). z == "") e, eq_refl "", f)
  named n (inr h) f = h

  pub sort_text : (n d : String) → (n ≡ "") ⊎ P n → All IsClean (sort_calls n d)
  unfolding sort_calls
  sort_text n d h = elim (Bool-cases (n == "")) [
    | inl e ↦ rw e tt
    | inr e ↦ elim (Bool-cases ((d == "ASC") || (d == "DESC"))) [
      | inr f ↦ rw (e, f) tt
      | inl f ↦ rw (e, f) (sorted (n, named n h e, (d, direction_text d f, refl)), tt)
    ]
  ]

  offset_text : (n : ℕ) → All IsClean (offset_calls n)
  unfolding offset_calls
  offset_text n = elim (Bool-cases (ltb 0 n)) [ inl e ↦ rw e (skipped, tt) | inr e ↦ rw e tt ]

  limit_text : (max n : ℕ) → All IsClean (limit_calls max n)
  unfolding limit_calls
  limit_text max n = elim (Bool-cases (ltb 0 n)) [ inl e ↦ rw e (limited, tt) | inr e ↦ rw e tt ]

  pub page_text :
      (max : Option ℕ) (f : Filter) (paged : Bool) → All IsClean (page_calls max f paged)
  unfolding paginate
  page_text none f paged = tt
  page_text (some max) f false = tt
  page_text (some max) f true =
      All-append (offset_calls f.config.offset) (limit_calls max f.config.limit)
        (offset_text f.config.offset) (limit_text max f.config.limit)
