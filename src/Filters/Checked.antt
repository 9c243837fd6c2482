-- ===== src/Filters/Checked.antt =====
-- What the parser of pkg/db/db_gorm/filter_parser.go lets through of fields and of lists of values.
use go_backend_helpers.Prelude.{
  String, ◌≡◌, ◌≢◌, refl, ◌⊎◌, inl, inr, Bool, true, false, none, some, List, [], ◌∷◌,
  if◌then◌else◌, Dict, lookup, insert, All, Option-cases, AllEntries, AllEntries-insert,
}
use mathlib.Core.Path.{subst}
use go_backend_helpers.Effects.{Result, ok, err}
use go_backend_helpers.Results.{◌>>=◌, ok-injective, bind-ok}
use go_backend_helpers.Filters.Requests.{Value}
use go_backend_helpers.Filters.Parser.{
  FieldDescriptor, FilterParser, Services, convert_value, field_rules, rule_error, ok_unless,
  validated, parse_field_name, parse_validate_field, parse_fields, parse_values, parse_fields_in,
}

when-ok :
    {A B : Type 0} (b : Bool) (a : A) (e : String) (f : A → Result B) (r : B)
    → ((if b then ok a else err e) >>= f) ≡ ok r
    → (b ≡ true) × (f a ≡ ok r)
when-ok true a e f r h = (refl, h)
when-ok false a e f r h = cc

module _ (v : Services) (p : FilterParser) where
  -- The model has an indexed field of this JSON name.
  abbrev pub IsField : String → FieldDescriptor → Type 0
  IsField key d = (lookup key p.fields_json ≡ some d) × (d.index ≡ true)

  -- The column of an indexed field.
  abbrev pub IsIndexed : String → Type 0
  IsIndexed column =
      (key : String) × (d : FieldDescriptor) × IsField key d × (d.full_db_name ≡ column)

  -- A value that a text converts to for the field, and that its rules accept.
  abbrev pub IsValueOf : String → FieldDescriptor → Value → Type 0
  IsValueOf key d value =
      (s : String) × (convert_value v d.data_type s ≡ some value)
      × (rule_error v value (field_rules v p.validator key d) ≡ none)

  -- A column and a value for it.
  abbrev pub IsChecked : String → Value → Type 0
  IsChecked column value =
      (key : String) × (d : FieldDescriptor) × IsField key d
      × (d.full_db_name ≡ column)
      × IsValueOf key d value

  accepted-ok :
      (key s : String) (d : FieldDescriptor) (x : Value) (r : String × Value)
      → IsField key d
      → convert_value v d.data_type s ≡ some x
      → ok_unless v (d.full_db_name, x) (rule_error v x (field_rules v p.validator key d)) ≡ ok r
      → (d' : FieldDescriptor) × IsField key d' × (d'.full_db_name ≡ r.0) × IsValueOf key d' r.1
  accepted-ok key s d x r f c h =
      elim (Option-cases (rule_error v x (field_rules v p.validator key d))) [
        | inr (e, g) ↦ cc (rw g at h)
        | inl g ↦
            let q : (d.full_db_name, x) ≡ r = cc (rw g at h) in
            subst
              (λ z.
                (d' : FieldDescriptor) × IsField key d'
                × (d'.full_db_name ≡ z.0)
                × IsValueOf key d' z.1)
              q (d, f, refl, (s, c, g))
      ]

  pub parse_validate_field-ok :
      (key s : String) (r : String × Value)
      → parse_validate_field v p key s ≡ ok r
      → (d : FieldDescriptor) × IsField key d × (d.full_db_name ≡ r.0) × IsValueOf key d r.1
  unfolding parse_validate_field
  parse_validate_field-ok key s r h = elim (Option-cases (lookup key p.fields_json)) [
    | inl e ↦ cc (rw e at h)
    | inr (d, e) ↦
        let (i, g) =
          when-ok d.index d "Non-index field can not be used in queries"
            (λ d'. validated v p.validator key d' (convert_value v d'.data_type s)) r (rw e at h) in
        elim (Option-cases (convert_value v d.data_type s)) [
          | inl c ↦ cc (rw c at g)
          | inr (x, c) ↦ accepted-ok key s d x r (e, i) c (rw c at g)
        ]
  ]

  pub parse_validate_field-IsChecked :
      (key s : String) (r : String × Value)
      → parse_validate_field v p key s ≡ ok r
      → IsChecked r.0 r.1
  parse_validate_field-IsChecked key s r h =
      let (d, f, q, w) = parse_validate_field-ok key s r h in (key, d, f, q, w)

  pub parse_field_name-ok : (key n : String) → parse_field_name v p key ≡ ok n → IsIndexed n
  unfolding parse_field_name
  parse_field_name-ok key n h = elim (Option-cases (lookup key p.fields_json)) [
    | inl e ↦ cc (rw e at h)
    | inr (d, e) ↦
        let (i, g) =
          when-ok d.index d "Non-index field can not be used in queries" (λ d'. ok d'.full_db_name)
            n (rw e at h) in
        (key, d, (e, i), cc g)
  ]

  -- Two readings for one key are for one field.
  pub one_field : (key : String) (d e : FieldDescriptor) → IsField key d → IsField key e → d ≡ e
  one_field key d e f g = cc (f.0, g.0)

  pub parse_fields-ok :
      (q : Dict String) (acc fields : Dict Value)
      → parse_fields v p q acc ≡ ok fields
      → AllEntries IsChecked acc
      → AllEntries IsChecked fields
  unfolding parse_fields
  parse_fields-ok [] acc fields h a = subst (AllEntries IsChecked) (ok-injective h) a
  parse_fields-ok ((key, s) ∷ q) acc fields h a =
      let (r, e, g) =
        bind-ok (parse_validate_field v p key s) (λ r. parse_fields v p q (insert r.0 r.1 acc))
          fields h in
      parse_fields-ok q (insert r.0 r.1 acc) fields g
        (AllEntries-insert IsChecked r.0 r.1 acc (parse_validate_field-IsChecked key s r e) a)

  -- The column that a list of values is for, when there is a value or the column is known.
  abbrev pub IsColumnOf : String → String → Type 0
  IsColumnOf key column = (d : FieldDescriptor) × IsField key d × (d.full_db_name ≡ column)

  abbrev pub IsSomeValueOf : String → Value → Type 0
  IsSomeValueOf key x = (d : FieldDescriptor) × IsField key d × IsValueOf key d x

  parse_values-ok :
      (key field : String) (ss : List String) (r : String × List Value)
      → parse_values v p key field ss ≡ ok r
      → ((ss ≢ []) ⊎ IsColumnOf key field)
      → IsColumnOf key r.0 × All (IsSomeValueOf key) r.1
  unfolding parse_values
  parse_values-ok key field [] r h (inl n) = elim (n refl) [ ]
  parse_values-ok key field [] r h (inr i) =
      subst (λ (z : String × List Value). IsColumnOf key z.0 × All (IsSomeValueOf key) z.1)
        (ok-injective h) (i, tt)
  parse_values-ok key field (s ∷ ss) r h c =
      let (x, e, g) =
        bind-ok (parse_validate_field v p key s)
          (λ x. parse_values v p key x.0 ss >>= λ y. ok (y.0, x.1 ∷ y.1)) r h in
      let (y, i, j) = bind-ok (parse_values v p key x.0 ss) (λ y. ok (y.0, x.1 ∷ y.1)) r g in
      let (d, f, q, w) = parse_validate_field-ok key s x e in
      let (a, b) = parse_values-ok key x.0 ss y i (inr (d, f, q)) in
      let k : (y.0, x.1 ∷ y.1) ≡ r = cc j in
      subst (λ (z : String × List Value). IsColumnOf key z.0 × All (IsSomeValueOf key) z.1) k
        (a, ((d, f, w), b))

  -- A column with values that its field allows.
  abbrev pub AreChecked : String → List Value → Type 0
  AreChecked column values =
      (key : String) × (d : FieldDescriptor) × IsField key d
      × (d.full_db_name ≡ column)
      × All (IsValueOf key d) values

  values_of :
      (key : String) (d : FieldDescriptor) (xs : List Value)
      → IsField key d
      → All (IsSomeValueOf key) xs
      → All (IsValueOf key d) xs
  values_of key d [] f h = tt
  values_of key d (x ∷ xs) f ((e, g, w), h) =
      (subst (λ z. IsValueOf key z x) (one_field key e d g f) w, values_of key d xs f h)

  pub parse_fields_in-ok :
      (q : Dict (List String)) (acc fields : Dict (List Value))
      → parse_fields_in v p q acc ≡ ok fields
      → All (λ (e : String × List String). e.1 ≢ []) q
      → AllEntries AreChecked acc
      → AllEntries AreChecked fields
  unfolding parse_fields_in
  parse_fields_in-ok [] acc fields h n a = subst (AllEntries AreChecked) (ok-injective h) a
  parse_fields_in-ok ((key, ss) ∷ q) acc fields h n a =
      let (r, e, g) =
        bind-ok (parse_values v p key key ss) (λ r. parse_fields_in v p q (insert r.0 r.1 acc))
          fields h in
      let ((d, f, c), b) = parse_values-ok key key ss r e (inl n.0) in
      parse_fields_in-ok q (insert r.0 r.1 acc) fields g n.1
        (AllEntries-insert AreChecked r.0 r.1 acc (key, d, f, c, values_of key d r.1 f b) a)
