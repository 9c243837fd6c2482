-- ===== src/Filters/Tests.antt =====
-- Runs of filters.
use go_backend_helpers.Prelude.{
  String, ◌≡◌, refl, true, false, none, some, List, [], ◌∷◌, inl, inr, lookup, insert, ◌≢◌,
}
use go_backend_helpers.Effects.{ok, err}
use go_backend_helpers.Filters.Requests.{
  string, uint, nil, text, typed, Filter, new_filter, add_or_fields, filter_value_to_string,
  to_query, to_strings, map_values,
}
use go_backend_helpers.Filters.Parser.{
  FieldDescriptor, FilterParser, Services, convert_value, field_rules, parse, parse_intervals,
  parse_bound, parse_validate_field,
}
use go_backend_helpers.Filters.Parsed.{IsSafe, parse-IsSafe}
use go_backend_helpers.Filters.RoundTrip.{
  column, in_columns, over_columns, between_columns, or_columns, Returns, IsPrintable,
  parse-to_query,
}
use go_backend_helpers.Filters.Sql.{
  where_fields, where_text, or_text, interval_texts, prepare_interval, same_value, compare_op,
  sort_calls, set_filter, prepare_filter, preset_calls, in_calls, not_in_calls, interval_calls,
  between_calls, or_calls, or_names, or_more,
}
use go_backend_helpers.Filters.Texts.{IsClean}
use go_backend_helpers.Filters.Statements.{set_filter-IsClean}
use go_backend_helpers.Filters.Checked.{IsIndexed}
use go_backend_helpers.Prelude.{All}

abbrev services : Services
services = record { read = λ t s. some s; validate_value = λ x rules. none }

abbrev login : FieldDescriptor
login = record {
  full_db_name = "users.login";
  index = true;
  data_type = string;
  rules = "alphanum";
}

abbrev age : FieldDescriptor
age = record { full_db_name = "users.age"; index = true; data_type = uint; rules = "" }

abbrev users : FilterParser
users = record {
  fields_json = ("login", login) ∷ ("age", age) ∷ ("note", record login { index = false }) ∷ [];
  validator = some [];
}

abbrev asked : Filter
asked = record new_filter {
  fields = ("login", text "bob") ∷ [];
  fields_in = ("age", typed uint "30" ∷ []) ∷ [];
  intervals =
      ("age", record { from = nil; to = typed uint "40"; from_open = false; to_open = true }) ∷ [];
}

login-Returns : Returns services users "login" (filter_value_to_string (text "bob")) (text "bob")
unfolding filter_value_to_string convert_value field_rules lookup
login-Returns = record {
  field = login;
  known = refl;
  indexed = refl;
  converts = refl;
  accepted = refl;
}

age-Returns :
    (s : String)
    → Returns services users "age" (filter_value_to_string (typed uint s)) (typed uint s)
unfolding filter_value_to_string convert_value field_rules lookup
age-Returns s = record {
  field = age;
  known = refl;
  indexed = refl;
  converts = refl;
  accepted = refl;
}

asked-IsPrintable : IsPrintable services users asked
unfolding column lookup
asked-IsPrintable = record {
  sorted = inl refl;
  fields = (login-Returns, tt);
  fields_in = (((λ e. cc e), (age-Returns "30", tt)), tt);
  fields_not_in = tt;
  intervals = (
    record {
      named = refl;
      bounded = inr (λ e. cc e);
      from_back = inl refl;
      to_back = inr (age-Returns "40");
    },
    tt,
  );
  between_fields = tt;
  or_fields = tt;
}

parse-to_query_example :
    parse services users (to_query asked) ≡ ok (over_columns services users asked)
parse-to_query_example = parse-to_query services users asked asked-IsPrintable

asked_columns : over_columns services users asked ≡ record new_filter {
  fields = ("users.login", text "bob") ∷ [];
  fields_in = ("users.age", typed uint "30" ∷ []) ∷ [];
  intervals =
      ("users.age", record { from = nil; to = typed uint "40"; from_open = false; to_open = true })
      ∷ [];
}
unfolding over_columns in_columns between_columns or_columns column lookup insert
asked_columns = refl

asked_lists : All (λ (e : String × List String). e.1 ≢ []) (to_query asked).fields_in
unfolding to_query map_values to_strings
asked_lists = ((λ e. cc e), tt)

asked_other_lists : All (λ (e : String × List String). e.1 ≢ []) (to_query asked).fields_not_in
unfolding to_query map_values to_strings
asked_other_lists = tt

parse-IsSafe_example : IsSafe services users (over_columns services users asked)
parse-IsSafe_example =
    parse-IsSafe services users (to_query asked) (over_columns services users asked) asked_lists
      asked_other_lists (parse-to_query services users asked asked-IsPrintable)

set_filter-IsClean_example :
    All
      (IsClean (IsIndexed services users))
      (set_filter (some 100) (over_columns services users asked) true)
set_filter-IsClean_example =
    set_filter-IsClean services users (to_query asked) (over_columns services users asked)
      (some 100) true asked_lists asked_other_lists
      (parse-to_query services users asked asked-IsPrintable)

-- An interval with two bounds: the second operator and the name have changed places.
two_bounds_text :
    prepare_interval "age"
      (record { from = text "30"; to = text "40"; from_open = false; to_open = true })
    ≡ where_text "\"age\" >= ? AND \"<\" age ? " (text "30" ∷ text "40" ∷ []) ∷ []
unfolding prepare_interval interval_texts same_value compare_op
two_bounds_text = refl

-- The directions that the validator lets through sort nothing.
no_order : sort_calls "login" "asc" ≡ []
unfolding sort_calls
no_order = refl

-- The filter is for the rows of one tenant; the second of the added fields is an alternative beside
-- all that comes before it.
abbrev scoped : Filter
scoped = record new_filter { preset_fields = (("tenant", text "a") ∷ []) ∷ [] }

alternatives_run :
    prepare_filter (add_or_fields (text "bob") ("name" ∷ "login" ∷ []) scoped)
    ≡ where_fields []
      ∷ where_fields (("tenant", text "a") ∷ [])
      ∷ where_text "\"name\" = ?" (text "bob" ∷ [])
      ∷ or_text "\"login\" = ?" (text "bob" ∷ [])
      ∷ []
unfolding prepare_filter add_or_fields preset_calls in_calls not_in_calls interval_calls
    between_calls or_calls or_names or_more
alternatives_run = refl

-- An interval that gives one bound alone is read through a nil pointer.
one_bound_run :
    parse_intervals services users
      (("age", record { from = some (some "30"); to = none; from_open = false; to_open = false })
        ∷ [])
      []
    ≡ err "nil pointer dereference"
unfolding parse_intervals parse_bound parse_validate_field lookup convert_value field_rules
one_bound_run = refl
