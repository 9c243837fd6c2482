-- ===== src/Filters/Parsed.antt =====
-- What the parser of pkg/db/db_gorm/filter_parser.go lets through.
use go_backend_helpers.Prelude.{
  String, ◌≡◌, ◌≢◌, refl, ◌⊎◌, inl, inr, false, Option, none, some, List, [], ◌∷◌, ◌==◌,
  if◌then◌else◌, Dict, All, AllEntries, AllEntries-insert, Bool-cases, eq_refl, sym, ap,
}
use mathlib.Core.Path.{subst}
use go_backend_helpers.Effects.{ok}
use go_backend_helpers.Results.{◌>>=◌, ok-injective, bind-ok}
use go_backend_helpers.Filters.Requests.{
  Value, nil, Interval, BetweenFields, OrFields, Filter, QueryInterval, QueryBetweenFields,
  QueryOrFields, Query,
}
use go_backend_helpers.Filters.Parser.{
  FilterParser, Services, parse_validate_field, parse_fields, parse_fields_in, parse_bound,
  parse_intervals, keep_interval, parse_betweens, parse_names, parse_ors, parse_sort_field, parse,
  interval_of,
}
use go_backend_helpers.Filters.Checked.{
  IsIndexed, IsValueOf, IsChecked, parse_validate_field-ok, parse_validate_field-IsChecked,
  parse_field_name-ok, one_field, parse_fields-ok, IsColumnOf, IsSomeValueOf, AreChecked,
  parse_fields_in-ok,
}

module _ (v : Services) (p : FilterParser) where
  -- A bound of an interval: none, or a value for the column.
  abbrev pub IsBound : String → Value → Type 0
  IsBound column value = (value ≡ nil) ⊎ IsChecked v p column value

  abbrev pub IsRange : String → Interval → Type 0
  IsRange column i = IsIndexed v p column × IsBound column i.from × IsBound column i.to

  -- What a bound is read as: nothing, or a value for the field of the key.
  abbrev IsRead : String → String × Value → Type 0
  IsRead key r = (r ≡ ("", nil)) ⊎ (IsColumnOf v p key r.0 × IsSomeValueOf v p key r.1)

  parse_bound-ok :
      (key : String) (s : Option (Option String)) (r : String × Value)
      → parse_bound v p key s ≡ ok r
      → IsRead key r
  unfolding parse_bound
  parse_bound-ok key none r h = cc h
  parse_bound-ok key (some none) r h = inl (sym (ok-injective h))
  parse_bound-ok key (some (some s)) r h =
      let (d, f, q, w) = parse_validate_field-ok v p key s r h in inr ((d, f, q), (d, f, w))

  -- A bound that was read is for any column of its key.
  reading_of_limit :
      (key column : String) (r : String × Value)
      → IsColumnOf v p key column
      → IsRead key r
      → IsBound column r.1
  reading_of_limit key column r c (inl e) = inl (ap (λ (z : String × Value). z.1) e)
  reading_of_limit key column r (d, f, q) (inr (a, (e, g, w))) =
      inr (key, d, f, q, subst (λ z. IsValueOf v p key z r.1) (one_field v p key e d g f) w)

  named_column :
      (key : String) (r : String × Value)
      → (r.0 == "") ≡ false
      → IsRead key r
      → IsColumnOf v p key r.0
  named_column key r n (inl e) = cc (n, ap (λ (z : String × Value). z.0 == "") e, eq_refl "")
  named_column key r n (inr (c, w)) = c

  indexed : (key column : String) → IsColumnOf v p key column → IsIndexed v p column
  indexed key column (d, f, q) = (key, d, f, q)

  kept-ok :
      (key : String) (q : QueryInterval) (f t : String × Value) (acc : Dict Interval)
      → IsRead key f
      → IsRead key t
      → AllEntries IsRange acc
      → AllEntries IsRange
          (keep_interval v p (if f.0 == "" then t.0 else f.0) (interval_of v p q f.1 t.1) acc)
  unfolding keep_interval
  kept-ok key q f t acc a b h = elim (Bool-cases (f.0 == "")) [
    | inr n ↦
        let c = named_column key f n a in
        rw (n, n)
          (AllEntries-insert IsRange f.0 (interval_of v p q f.1 t.1) acc
            (indexed key f.0 c, reading_of_limit key f.0 f c a, reading_of_limit key f.0 t c b) h)
    | inl e ↦ elim (Bool-cases (t.0 == "")) [
      | inl n ↦ rw (e, n) h
      | inr n ↦
          let c = named_column key t n b in
          rw (e, n)
            (AllEntries-insert IsRange t.0 (interval_of v p q f.1 t.1) acc
              (indexed key t.0 c, reading_of_limit key t.0 f c a, reading_of_limit key t.0 t c b) h)
    ]
  ]

  parse_intervals-ok :
      (q : Dict QueryInterval) (acc is : Dict Interval)
      → parse_intervals v p q acc ≡ ok is
      → AllEntries IsRange acc
      → AllEntries IsRange is
  unfolding parse_intervals
  parse_intervals-ok [] acc is h a = subst (AllEntries IsRange) (ok-injective h) a
  parse_intervals-ok ((key, i) ∷ q) acc is h a =
      let next = λ (f t : String × Value).
        parse_intervals v p q
          (keep_interval v p (if f.0 == "" then t.0 else f.0) (interval_of v p i f.1 t.1) acc) in
      let (f, e, g) =
        bind-ok (parse_bound v p key i.from) (λ f. parse_bound v p key i.to >>= next f) is h in
      let (t, e', g') = bind-ok (parse_bound v p key i.to) (next f) is g in
      parse_intervals-ok q
        (keep_interval v p (if f.0 == "" then t.0 else f.0) (interval_of v p i f.1 t.1) acc) is g'
        (kept-ok key i f t acc (parse_bound-ok key i.from f e) (parse_bound-ok key i.to t e') a)

  abbrev pub IsBetween : BetweenFields → Type 0
  IsBetween b = IsChecked v p b.from_field b.value × IsIndexed v p b.to_field

  parse_betweens-ok :
      (q : List QueryBetweenFields) (bs : List BetweenFields)
      → parse_betweens v p q ≡ ok bs
      → All IsBetween bs
  unfolding parse_betweens
  parse_betweens-ok [] bs h = subst (All IsBetween) (ok-injective h) tt
  parse_betweens-ok (x ∷ q) bs h =
      let made = λ (f t : String × Value) (cs : List BetweenFields).
        record {
          from_field = f.0;
          to_field = t.0;
          value = f.1;
          from_open = x.from_open;
          to_open = x.to_open;
        }
        ∷ cs in
      let (f, e, g) =
        bind-ok (parse_validate_field v p x.from_field x.value)
          (λ f. parse_validate_field v p x.to_field x.value >>= λ t.
            parse_betweens v p q >>= λ cs. ok (made f t cs))
          bs h in
      let (t, e', g') =
        bind-ok (parse_validate_field v p x.to_field x.value)
          (λ t. parse_betweens v p q >>= λ cs. ok (made f t cs)) bs g in
      let (cs, i, j) = bind-ok (parse_betweens v p q) (λ cs. ok (made f t cs)) bs g' in
      let (d, k, c, w) = parse_validate_field-ok v p x.to_field x.value t e' in
      subst (All IsBetween) (ok-injective j) (
        (parse_validate_field-IsChecked v p x.from_field x.value f e, (x.to_field, d, k, c)),
        parse_betweens-ok q cs i,
      )

  -- A value for the last of some columns; without columns nil.
  abbrev pub IsOfLast : List String → Value → Type 0
  IsOfLast [] x = x ≡ nil
  IsOfLast (n ∷ []) x = IsChecked v p n x
  IsOfLast (n ∷ m ∷ ns) x = IsOfLast (m ∷ ns) x

  -- The same, where `last` stands for no columns.
  abbrev IsOfLastOr : Value → List String → Value → Type 0
  IsOfLastOr last [] x = x ≡ last
  IsOfLastOr last (n ∷ ns) x = IsOfLast (n ∷ ns) x

  of_more :
      (n : String) (y : Value) (ns : List String) (x : Value)
      → IsChecked v p n y
      → IsOfLastOr y ns x
      → IsOfLast (n ∷ ns) x
  of_more n y [] x c h = subst (IsChecked v p n) (sym h) c
  of_more n y (m ∷ ns) x c h = h

  parse_names-ok :
      (value : String) (last : Value) (names : List String) (r : Value × List String)
      → parse_names v p value last names ≡ ok r
      → All (IsIndexed v p) r.1 × IsOfLastOr last r.1 r.0
  unfolding parse_names
  parse_names-ok value last [] r h =
      subst (λ (z : Value × List String). All (IsIndexed v p) z.1 × IsOfLastOr last z.1 z.0)
        (ok-injective h) (tt, refl)
  parse_names-ok value last (n ∷ names) r h =
      let (x, e, g) =
        bind-ok (parse_validate_field v p n value)
          (λ x. parse_names v p value x.1 names >>= λ y. ok (y.0, x.0 ∷ y.1)) r h in
      let (y, i, j) = bind-ok (parse_names v p value x.1 names) (λ y. ok (y.0, x.0 ∷ y.1)) r g in
      let (d, f, c, w) = parse_validate_field-ok v p n value x e in
      let (a, b) = parse_names-ok value x.1 names y i in
      let k : (y.0, x.0 ∷ y.1) ≡ r = cc j in
      subst (λ (z : Value × List String). All (IsIndexed v p) z.1 × IsOfLastOr last z.1 z.0) k
        (((n, d, f, c), a), of_more x.0 x.1 y.1 y.0 (n, d, f, c, w) b)

  -- Columns that a value is looked for in: the value is one for the last of them.
  abbrev pub IsAnyOf : OrFields → Type 0
  IsAnyOf o = All (IsIndexed v p) o.fields × IsOfLast o.fields o.value

  of_last : (ns : List String) (x : Value) → IsOfLastOr nil ns x → IsOfLast ns x
  of_last [] x h = h
  of_last (n ∷ ns) x h = h

  parse_ors-ok :
      (q : List QueryOrFields) (os : List OrFields) → parse_ors v p q ≡ ok os → All IsAnyOf os
  unfolding parse_ors
  parse_ors-ok [] os h = subst (All IsAnyOf) (ok-injective h) tt
  parse_ors-ok (x ∷ q) os h =
      let made = λ (r : Value × List String) (cs : List OrFields).
        record { value = r.0; fields = r.1 } ∷ cs in
      let (r, e, g) =
        bind-ok (parse_names v p x.value nil x.fields)
          (λ r. parse_ors v p q >>= λ cs. ok (made r cs)) os h in
      let (cs, i, j) = bind-ok (parse_ors v p q) (λ cs. ok (made r cs)) os g in
      let (a, b) = parse_names-ok x.value nil x.fields r e in
      subst (All IsAnyOf) (ok-injective j) ((a, of_last r.1 r.0 b), parse_ors-ok q cs i)

  -- Everything in a filter is for indexed columns, with converted values that their rules accept.
  pub record IsSafe (f : Filter) : Type 0 where
    pub sorted : (f.config.sort_field ≡ "") ⊎ IsIndexed v p f.config.sort_field
    pub fields : AllEntries (IsChecked v p) f.fields
    pub fields_in : AllEntries (AreChecked v p) f.fields_in
    pub fields_not_in : AllEntries (AreChecked v p) f.fields_not_in
    pub intervals : AllEntries IsRange f.intervals
    pub between_fields : All IsBetween f.between_fields
    pub or_fields : All IsAnyOf f.or_fields
    pub without_presets : f.preset_fields ≡ []

  parse_sort_field-ok : (n m : String) → parse_sort_field v p n ≡ ok m → (m ≡ "") ⊎ IsIndexed v p m
  unfolding parse_sort_field
  parse_sort_field-ok n m h = elim (Bool-cases (n == "")) [
    | inl e ↦ inl (sym (ok-injective (rw e at h)))
    | inr e ↦ inr (parse_field_name-ok v p n m (rw e at h))
  ]

  -- Each query whose lists of values are not empty parses, if it does, to a filter all of whose
  -- columns are those of indexed fields of the model. Each value of a field, of a list or of a bound
  -- is one that a text converts to for its field and that the field's rules accept; the value of a
  -- between condition is such a value for the first of its two fields, the value of alternatives for
  -- the last of them, and nil without any.
  pub parse-IsSafe :
      (q : Query) (f : Filter)
      → All (λ (e : String × List String). e.1 ≢ []) q.fields_in
      → All (λ (e : String × List String). e.1 ≢ []) q.fields_not_in
      → parse v p q ≡ ok f
      → IsSafe f
  unfolding parse
  parse-IsSafe q f n m h =
      let (a, e1, h1) = bind-ok (parse_sort_field v p q.config.sort_field) _ f h in
      let (b, e2, h2) = bind-ok (parse_fields v p q.fields []) _ f h1 in
      let (c, e3, h3) = bind-ok (parse_fields_in v p q.fields_in []) _ f h2 in
      let (d, e4, h4) = bind-ok (parse_fields_in v p q.fields_not_in []) _ f h3 in
      let (i, e5, h5) = bind-ok (parse_intervals v p q.intervals []) _ f h4 in
      let (w, e6, h6) = bind-ok (parse_betweens v p q.between_fields) _ f h5 in
      let (o, e7, h7) = bind-ok (parse_ors v p q.or_fields) _ f h6 in
      subst IsSafe (ok-injective h7) (record {
        sorted = parse_sort_field-ok q.config.sort_field a e1;
        fields = parse_fields-ok v p q.fields [] b e2 tt;
        fields_in = parse_fields_in-ok v p q.fields_in [] c e3 n tt;
        fields_not_in = parse_fields_in-ok v p q.fields_not_in [] d e4 m tt;
        intervals = parse_intervals-ok q.intervals [] i e5 tt;
        between_fields = parse_betweens-ok q.between_fields w e6;
        or_fields = parse_ors-ok q.or_fields o e7;
        without_presets = refl;
      })
