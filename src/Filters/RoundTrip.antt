-- ===== src/Filters/RoundTrip.antt =====
-- A filter that goes out as a query (ToQuery of pkg/db/filter.go) and comes in through the parser
-- (pkg/db/db_gorm/filter_parser.go).
use go_backend_helpers.Prelude.{
  String, ◌≡◌, ◌≢◌, refl, ◌⊎◌, inl, inr, true, false, Option, none, some, List, [], ◌∷◌, ◌==◌,
  if◌then◌else◌, arith, Dict, eq_refl, lookup, insert, All, AllEntries, Bool-cases,
}
use go_backend_helpers.Effects.{ok}
use go_backend_helpers.Filters.Requests.{
  Value, nil, text, typed, Interval, BetweenFields, OrFields, Filter, filter_value_to_string,
  to_strings, map_values, bound_to_string, interval_query, between_queries, or_queries, to_query,
}
use go_backend_helpers.Filters.Parser.{
  FieldDescriptor, FilterParser, Services, convert_value, field_rules, rule_error, parse_field_name,
  parse_validate_field, parse_fields, parse_values, parse_fields_in, parse_bound, parse_intervals,
  keep_interval, parse_betweens, parse_names, parse_ors, parse_sort_field, parse,
}
use go_backend_helpers.Filters.Checked.{IsField}

module _ (v : Services) (p : FilterParser) where
  abbrev column_or : Option FieldDescriptor → String
  column_or none = ""
  column_or (some d) = d.full_db_name

  -- The column of a field.
  unfoldable pub column : String → String
  column key = column_or (lookup key p.fields_json)

  -- The value of a field reads back as it is printed, and its rules accept it.
  pub record Returns (key : String) (printed : String) (x : Value) : Type 0 where
    pub field : FieldDescriptor
    pub known : lookup key p.fields_json ≡ some field
    pub indexed : field.index ≡ true
    pub converts : convert_value v field.data_type printed ≡ some x
    pub accepted : rule_error v x (field_rules v p.validator key field) ≡ none

  abbrev pub ReadsBack : String → Value → Type 0
  ReadsBack key x = Returns key (filter_value_to_string x) x

  Returns-parse :
      (key s : String) (x : Value)
      → Returns key s x
      → parse_validate_field v p key s ≡ ok (column key, x)
  unfolding parse_validate_field column
  Returns-parse key s x r = simp (r.known, r.indexed, r.converts, r.accepted)

  -- The entries under the columns of their fields.
  unfoldable pub in_columns : {V : Type 0} → Dict V → Dict V → Dict V
  in_columns [] acc = acc
  in_columns ((key, x) ∷ rest) acc = in_columns rest (insert (column key) x acc)

  fields_back :
      (d acc : Dict Value)
      → AllEntries ReadsBack d
      → parse_fields v p (map_values filter_value_to_string d) acc ≡ ok (in_columns d acc)
  unfolding parse_fields map_values in_columns
  fields_back [] acc h = refl
  fields_back ((key, x) ∷ d) acc h =
      rw (Returns-parse key (filter_value_to_string x) x h.0)
        (fields_back d (insert (column key) x acc) h.1)

  values_back :
      (key field : String) (xs : List Value)
      → All (ReadsBack key) xs
      → (xs ≢ []) ⊎ (field ≡ column key)
      → parse_values v p key field (to_strings xs) ≡ ok (column key, xs)
  unfolding parse_values to_strings
  values_back key field [] h (inl n) = elim (n refl) [ ]
  values_back key field [] h (inr e) = rw e
  values_back key field (x ∷ xs) h c =
      rw
        (
          Returns-parse key (filter_value_to_string x) x h.0,
          values_back key (column key) xs h.1 (inr refl),
        )
        refl

  abbrev pub AllReadBack : String → List Value → Type 0
  AllReadBack key xs = (xs ≢ []) × All (ReadsBack key) xs

  fields_in_back :
      (d acc : Dict (List Value))
      → AllEntries AllReadBack d
      → parse_fields_in v p (map_values to_strings d) acc ≡ ok (in_columns d acc)
  unfolding parse_fields_in map_values in_columns
  fields_in_back [] acc h = refl
  fields_in_back ((key, xs) ∷ d) acc h =
      rw (values_back key key xs h.0.1 (inl h.0.0))
        (fields_in_back d (insert (column key) xs acc) h.1)

  -- A bound is nil, or reads back.
  abbrev pub BoundReadsBack : String → Value → Type 0
  BoundReadsBack key x = (x ≡ nil) ⊎ ReadsBack key x

  -- An interval has a bound, each of its bounds reads back, and the column has a name.
  pub record IntervalReadsBack (key : String) (i : Interval) : Type 0 where
    pub named : (column key == "") ≡ false
    pub bounded : (i.from ≢ nil) ⊎ (i.to ≢ nil)
    pub from_back : BoundReadsBack key i.from
    pub to_back : BoundReadsBack key i.to

  abbrev bound_column : String → Value → String
  bound_column key nil = ""
  bound_column key (text s) = column key
  bound_column key (typed t s) = column key

  bound_back :
      (key : String) (x : Value)
      → BoundReadsBack key x
      → parse_bound v p key (some (bound_to_string x)) ≡ ok (bound_column key x, x)
  unfolding parse_bound bound_to_string
  bound_back key nil h = refl
  bound_back key (text s) (inl e) = cc e
  bound_back key (text s) (inr r) = unfold filter_value_to_string in Returns-parse key s (text s) r
  bound_back key (typed t s) (inl e) = cc e
  bound_back key (typed t s) (inr r) =
      unfold filter_value_to_string in Returns-parse key s (typed t s) r

  either_column :
      (key : String) (from to : Value)
      → (column key == "") ≡ false
      → (from ≢ nil) ⊎ (to ≢ nil)
      → (if bound_column key from == "" then bound_column key to else bound_column key from)
        ≡ column key
  either_column key nil nil n (inl e) = elim (e refl) [ ]
  either_column key nil nil n (inr e) = elim (e refl) [ ]
  either_column key nil (text s) n h = ground (arith, eq_refl "")
  either_column key nil (typed t s) n h = ground (arith, eq_refl "")
  either_column key (text s) to n h = rw n
  either_column key (typed t s) to n h = rw n

  intervals_back :
      (d acc : Dict Interval)
      → AllEntries IntervalReadsBack d
      → parse_intervals v p (map_values interval_query d) acc ≡ ok (in_columns d acc)
  unfolding parse_intervals map_values in_columns keep_interval
  intervals_back [] acc h = refl
  intervals_back ((key, i) ∷ d) acc h =
      rw
        (
          bound_back key i.from h.0.from_back,
          bound_back key i.to h.0.to_back,
          either_column key i.from i.to h.0.named h.0.bounded,
          h.0.named,
        )
        (intervals_back d (insert (column key) i acc) h.1)

  -- The value reads back for the first field, and is read for the second.
  pub record BetweenReadsBack (b : BetweenFields) : Type 0 where
    pub from_back : ReadsBack b.from_field b.value
    pub other : Value
    pub to_back : Returns b.to_field (filter_value_to_string b.value) other

  unfoldable pub between_columns : List BetweenFields → List BetweenFields
  between_columns [] = []
  between_columns (b ∷ bs) =
      record b { from_field = column b.from_field; to_field = column b.to_field }
      ∷ between_columns bs

  betweens_back :
      (bs : List BetweenFields)
      → All BetweenReadsBack bs
      → parse_betweens v p (between_queries bs) ≡ ok (between_columns bs)
  unfolding parse_betweens between_queries between_columns
  betweens_back [] h = refl
  betweens_back (b ∷ bs) h =
      rw
        (
          Returns-parse b.from_field (filter_value_to_string b.value) b.value h.0.from_back,
          Returns-parse b.to_field (filter_value_to_string b.value) h.0.other h.0.to_back,
          betweens_back bs h.1,
        )
        refl

  -- There is a name, and the value reads back for each.
  abbrev pub OrReadsBack : OrFields → Type 0
  OrReadsBack o = (o.fields ≢ []) × All (λ n. ReadsBack n o.value) o.fields

  unfoldable pub columns : List String → List String
  columns [] = []
  columns (n ∷ ns) = column n ∷ columns ns

  unfoldable pub or_columns : List OrFields → List OrFields
  or_columns [] = []
  or_columns (o ∷ os) = record o { fields = columns o.fields } ∷ or_columns os

  names_back :
      (x last : Value) (ns : List String)
      → All (λ n. ReadsBack n x) ns
      → (ns ≢ []) ⊎ (last ≡ x)
      → parse_names v p (filter_value_to_string x) last ns ≡ ok (x, columns ns)
  unfolding parse_names columns
  names_back x last [] h (inl n) = elim (n refl) [ ]
  names_back x last [] h (inr e) = rw e
  names_back x last (n ∷ ns) h c =
      rw (Returns-parse n (filter_value_to_string x) x h.0, names_back x x ns h.1 (inr refl)) refl

  ors_back :
      (os : List OrFields) → All OrReadsBack os → parse_ors v p (or_queries os) ≡ ok (or_columns os)
  unfolding parse_ors or_queries or_columns
  ors_back [] h = refl
  ors_back (o ∷ os) h = rw (names_back o.value nil o.fields h.0.1 (inl h.0.0), ors_back os h.1) refl

  abbrev sort_column : String → String
  sort_column name = if name == "" then "" else column name

  -- A filter over the columns of the model, without presets.
  unfoldable pub over_columns : Filter → Filter
  over_columns f = record {
    config = record f.config { sort_field = sort_column f.config.sort_field };
    fields = in_columns f.fields [];
    fields_in = in_columns f.fields_in [];
    fields_not_in = in_columns f.fields_not_in [];
    intervals = in_columns f.intervals [];
    between_fields = between_columns f.between_fields;
    or_fields = or_columns f.or_fields;
    preset_fields = [];
  }

  -- All names are those of indexed fields, and all values read back.
  pub record IsPrintable (f : Filter) : Type 0 where
    pub sorted :
        (f.config.sort_field ≡ "") ⊎ ((d : FieldDescriptor) × IsField v p f.config.sort_field d)
    pub fields : AllEntries ReadsBack f.fields
    pub fields_in : AllEntries AllReadBack f.fields_in
    pub fields_not_in : AllEntries AllReadBack f.fields_not_in
    pub intervals : AllEntries IntervalReadsBack f.intervals
    pub between_fields : All BetweenReadsBack f.between_fields
    pub or_fields : All OrReadsBack f.or_fields

  sort_back :
      (n : String)
      → (n ≡ "") ⊎ ((d : FieldDescriptor) × IsField v p n d)
      → parse_sort_field v p n ≡ ok (sort_column n)
  unfolding parse_sort_field parse_field_name column
  sort_back n (inl e) = rw e refl
  sort_back n (inr (d, (e, i))) = elim (Bool-cases (n == "")) [
    | inl t ↦ rw t refl
    | inr t ↦ simp (t, e, i)
  ]

  -- The query of a filter all of whose names are those of indexed fields and all of whose values read
  -- back as they are printed, with no empty list and no interval without a bound, parses to the same
  -- filter over the columns of the fields, without its preset fields.
  pub parse-to_query : (f : Filter) → IsPrintable f → parse v p (to_query f) ≡ ok (over_columns f)
  unfolding parse to_query over_columns
  parse-to_query f h =
      rw
        (
          sort_back f.config.sort_field h.sorted,
          fields_back f.fields [] h.fields,
          fields_in_back f.fields_in [] h.fields_in,
          fields_in_back f.fields_not_in [] h.fields_not_in,
          intervals_back f.intervals [] h.intervals,
          betweens_back f.between_fields h.between_fields,
          ors_back f.or_fields h.or_fields,
        )
        refl
