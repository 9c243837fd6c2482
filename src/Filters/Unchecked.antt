-- ===== src/Filters/Unchecked.antt =====
-- A name that pkg/db/db_gorm/filter_parser.go does not look up.
use Prim.Native.String.{String, ◌++◌ as ◌<>◌}
use go_backend_helpers.Prelude.{
  ℕ, ◌≡◌, refl, Bool, Option, none, some, true, false, [], ◌∷◌, insert,
}
use go_backend_helpers.Effects.{ok}
use go_backend_helpers.Filters.Requests.{
  Filter, new_filter, to_query, map_values, to_strings, between_queries, or_queries,
}
use go_backend_helpers.Filters.Parser.{
  FilterParser, Services, parse, parse_sort_field, parse_fields, parse_values, parse_fields_in,
  parse_intervals, parse_betweens, parse_ors,
}
use go_backend_helpers.Filters.Sql.{
  where_fields, where_list, quoted, set_filter, prepare_filter, preset_calls, in_calls,
  not_in_calls, interval_calls, between_calls, or_calls, sort_calls, paginate, offset_calls,
  limit_calls,
}

-- A filter for the rows that have one of no values under a name.
abbrev pub asking_none : String → Filter
asking_none name = record new_filter { fields_in = (name, []) ∷ [] }

-- The query that asks for one of no values under a name parses whatever the name is, also where the
-- model has no such field, and its statement has the text of the name as it was given.
parse_unchecked_name :
    (v : Services) (p : FilterParser) (name : String) (max : Option ℕ) (paged : Bool)
    → (parse v p (to_query (asking_none name)) ≡ ok (asking_none name))
      × (set_filter max (asking_none name) paged
          ≡ where_fields [] ∷ where_list (quoted name <> " IN ? ") [] ∷ [])
unfolding parse to_query map_values to_strings between_queries or_queries parse_sort_field
    parse_fields parse_values parse_fields_in parse_intervals parse_betweens parse_ors set_filter
    prepare_filter preset_calls in_calls not_in_calls interval_calls between_calls or_calls
    sort_calls paginate offset_calls limit_calls insert
parse_unchecked_name v p name none paged = (refl, refl)
parse_unchecked_name v p name (some max) true = (refl, refl)
parse_unchecked_name v p name (some max) false = (refl, refl)
