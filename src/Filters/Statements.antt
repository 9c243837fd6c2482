-- ===== src/Filters/Statements.antt =====
-- What texts of a request reach the statements of pkg/db/db_gorm/gorm_orm.go.
use Prim.Native.String.{String}
use go_backend_helpers.Prelude.{
  ℕ, ◌≡◌, ◌≢◌, Bool, Option, List, [], ◌∷◌, ◌++◌, Dict, All, AllEntries,
}
use go_backend_helpers.Effects.{ok}
use go_backend_helpers.Filters.Requests.{Value, Interval, BetweenFields, OrFields, Filter, Query}
use go_backend_helpers.Filters.Parser.{FilterParser, Services, parse}
use go_backend_helpers.Filters.Checked.{IsIndexed, IsChecked, AreChecked}
use go_backend_helpers.Filters.Parsed.{IsAnyOf, IsBetween, IsSafe, IsRange, parse-IsSafe}
use go_backend_helpers.Filters.Sql.{
  preset_calls, in_calls, not_in_calls, interval_calls, between_calls, or_calls, prepare_filter,
  sort_calls, page_calls, set_filter,
}
use go_backend_helpers.Filters.Texts.{
  IsClean, fields, All-append, betweens_text, ors_text, intervals_text, not_in_text, in_text,
  sort_text, page_text,
}

-- The columns of a filter that is safe, and of its presets, are those of P.
module _ (v : Services) (p : FilterParser) where
  abbrev Column : String → Type 0
  Column = IsIndexed v p

  checked : (d : Dict Value) → AllEntries (IsChecked v p) d → AllEntries (λ n x. Column n) d
  checked [] h = tt
  checked ((n, x) ∷ d) ((key, e, f, q, w), h) = ((key, e, f, q), checked d h)

  lists_checked :
      (d : Dict (List Value)) → AllEntries (AreChecked v p) d → AllEntries (λ n x. Column n) d
  lists_checked [] h = tt
  lists_checked ((n, x) ∷ d) ((key, e, f, q, w), h) = ((key, e, f, q), lists_checked d h)

  betweens_checked :
      (bs : List BetweenFields)
      → All (IsBetween v p) bs
      → All (λ b. Column b.from_field × Column b.to_field) bs
  betweens_checked [] h = tt
  betweens_checked (b ∷ bs) (((key, e, f, q, w), c), h) =
      (((key, e, f, q), c), betweens_checked bs h)

  ranges_checked : (d : Dict Interval) → AllEntries (IsRange v p) d → AllEntries (λ n i. Column n) d
  ranges_checked [] h = tt
  ranges_checked ((n, i) ∷ d) h = (h.0.0, ranges_checked d h.1)

  alternatives_checked :
      (os : List OrFields) → All (IsAnyOf v p) os → All (λ o. All Column o.fields) os
  alternatives_checked [] h = tt
  alternatives_checked (o ∷ os) h = (h.0.0, alternatives_checked os h.1)

  prepare_filter-IsClean : (f : Filter) → IsSafe v p f → All (IsClean Column) (prepare_filter f)
  unfolding prepare_filter preset_calls
  prepare_filter-IsClean f s =
      let join = All-append Column in
      let os = ors_text Column f.or_fields (alternatives_checked f.or_fields s.or_fields) in
      let bs =
        join (between_calls f.between_fields) (or_calls f.or_fields)
          (betweens_text Column f.between_fields
            (betweens_checked f.between_fields s.between_fields))
          os in
      let is =
        join (interval_calls f.intervals) (between_calls f.between_fields ++ or_calls f.or_fields)
          (intervals_text Column f.intervals (ranges_checked f.intervals s.intervals)) bs in
      let ns =
        join (not_in_calls f.fields_not_in) _
          (not_in_text Column f.fields_not_in (lists_checked f.fields_not_in s.fields_not_in)) is in
      let ls =
        join (in_calls f.fields_in) _
          (in_text Column f.fields_in (lists_checked f.fields_in s.fields_in)) ns in
      (
        fields (checked f.fields s.fields),
        join (preset_calls f.preset_fields) _ (rw s.without_presets tt) ls,
      )

  -- No text of a request reaches a statement but as an argument: when a query whose lists of values
  -- are not empty parses, each call that SetFilter makes of gorm for its filter has a text that
  -- consists of fixed words and of columns of indexed fields of the model.
  pub set_filter-IsClean :
      (q : Query) (f : Filter) (max : Option ℕ) (paged : Bool)
      → All (λ (e : String × List String). e.1 ≢ []) q.fields_in
      → All (λ (e : String × List String). e.1 ≢ []) q.fields_not_in
      → parse v p q ≡ ok f
      → All (IsClean (IsIndexed v p)) (set_filter max f paged)
  unfolding set_filter
  set_filter-IsClean q f max paged n m h =
      let s = parse-IsSafe v p q f n m h in
      All-append Column (prepare_filter f) _ (prepare_filter-IsClean f s) (
        All-append Column (sort_calls f.config.sort_field f.config.sort_direction)
          (page_calls max f paged)
          (sort_text Column f.config.sort_field f.config.sort_direction s.sorted)
          (page_text Column max f paged))
