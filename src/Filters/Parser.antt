-- ===== src/Filters/Parser.antt =====
-- The parser of queries, pkg/db/db_gorm/filter_parser.go. The conversion of texts by the standard
-- library and the validator are parameters; an error is kept as its message, and maps are gone
-- through in the order of their entries.
use go_backend_helpers.Prelude.{
  String, Bool, Option, none, some, List, [], ◌∷◌, ◌==◌, if◌then◌else◌, Dict, lookup, insert,
}
use go_backend_helpers.Effects.{Result, ok, err}
use go_backend_helpers.Results.{◌>>=◌}
use go_backend_helpers.Filters.Requests.{
  DataType, string, int, bool, uint, float, time, unsupported, Value, nil, text, typed, Interval,
  BetweenFields, OrFields, Filter, QueryInterval, QueryBetweenFields, QueryOrFields, Query,
}

-- `FieldDescriptor`, with the tag "validate" of its schema
pub record FieldDescriptor : Type 0 where
  pub full_db_name : String
  pub index : Bool
  pub data_type : DataType
  pub rules : String

-- `FilterParser`: the fields of the model by their JSON names, and the validator's explicit rules.
pub record FilterParser : Type 0 where
  pub fields_json : Dict FieldDescriptor
  pub validator : Option (Dict String)

-- What `StrToInt64` and the like make of a text, printed again, and the error of `ValidateValue` for
-- a value and its rules.
pub record Services : Type 0 where
  pub read : DataType → String → Option String
  pub validate_value : Value → String → Option String

abbrev read_as : DataType → Option String → Option Value
read_as t none = none
read_as t (some s) = some (typed t s)

module _ (v : Services) where
  -- `convertValue`
  unfoldable pub convert_value : DataType → String → Option Value
  convert_value string s = some (text s)
  convert_value int s = read_as int (v.read int s)
  convert_value bool s = read_as bool (v.read bool s)
  convert_value uint s = read_as uint (v.read uint s)
  convert_value float s = read_as float (v.read float s)
  convert_value time s = read_as time (v.read time s)
  convert_value unsupported s = none

  abbrev explicit_or_tag : Option String → String → String
  explicit_or_tag none tag = tag
  explicit_or_tag (some rules) tag = rules

  -- The rules for a field; "" for none
  unfoldable pub field_rules : Option (Dict String) → String → FieldDescriptor → String
  field_rules none name d = ""
  field_rules (some rules) name d = explicit_or_tag (lookup name rules) d.rules

  abbrev pub rule_error : Value → String → Option String
  rule_error value rules = if rules == "" then none else v.validate_value value rules

  abbrev pub ok_unless : {A : Type 0} → A → Option String → Result A
  ok_unless a none = ok a
  ok_unless a (some e) = err e

  abbrev pub validated :
      Option (Dict String) → String → FieldDescriptor → Option Value → Result (String × Value)
  validated rules name d none = err "Invalid field value"
  validated rules name d (some value) =
      ok_unless (d.full_db_name, value) (rule_error value (field_rules rules name d))

  module _ (p : FilterParser) where
    abbrev indexed_field : String → Option FieldDescriptor → Result FieldDescriptor
    indexed_field name none = err "Invalid field name"
    indexed_field name (some d) =
        if d.index then ok d else err "Non-index field can not be used in queries"

    -- `ParseValidateField` for the name alone, and for a name and a value
    unfoldable pub parse_field_name : String → Result String
    parse_field_name name = do d ← indexed_field name (lookup name p.fields_json); ok d.full_db_name

    unfoldable pub parse_validate_field : String → String → Result (String × Value)
    parse_validate_field name value = do
      d ← indexed_field name (lookup name p.fields_json)
      validated p.validator name d (convert_value d.data_type value)

    -- The loops of `Parse`
    unfoldable pub parse_fields : Dict String → Dict Value → Result (Dict Value)
    parse_fields [] parsed = ok parsed
    parse_fields ((key, value) ∷ rest) parsed =
        parse_validate_field key value >>= λ r. parse_fields rest (insert r.0 r.1 parsed)

    unfoldable pub parse_values : String → String → List String → Result (String × List Value)
    parse_values key field [] = ok (field, [])
    parse_values key field (value ∷ rest) = parse_validate_field key value >>= λ r.
        parse_values key r.0 rest >>= λ s. ok (s.0, r.1 ∷ s.1)

    unfoldable pub parse_fields_in :
        Dict (List String) → Dict (List Value) → Result (Dict (List Value))
    parse_fields_in [] parsed = ok parsed
    parse_fields_in ((key, values) ∷ rest) parsed =
        parse_values key key values >>= λ r. parse_fields_in rest (insert r.0 r.1 parsed)

    -- A bound that is given, with the name of its field
    unfoldable pub parse_bound : String → Option (Option String) → Result (String × Value)
    parse_bound key none = err "nil pointer dereference"
    parse_bound key (some none) = ok ("", nil)
    parse_bound key (some (some value)) = parse_validate_field key value

    abbrev pub interval_of : QueryInterval → Value → Value → Interval
    interval_of q from to = record {
      from = from;
      to = to;
      from_open = q.from_open;
      to_open = q.to_open;
    }

    unfoldable pub keep_interval : String → Interval → Dict Interval → Dict Interval
    keep_interval field i parsed = if field == "" then parsed else insert field i parsed

    unfoldable pub parse_intervals : Dict QueryInterval → Dict Interval → Result (Dict Interval)
    parse_intervals [] parsed = ok parsed
    parse_intervals ((key, q) ∷ rest) parsed = parse_bound key q.from >>= λ f.
        parse_bound key q.to >>= λ t.
        parse_intervals rest
          (keep_interval (if f.0 == "" then t.0 else f.0) (interval_of q f.1 t.1) parsed)

    unfoldable pub parse_betweens : List QueryBetweenFields → Result (List BetweenFields)
    parse_betweens [] = ok []
    parse_betweens (q ∷ qs) = parse_validate_field q.from_field q.value >>= λ f.
        parse_validate_field q.to_field q.value >>= λ t. parse_betweens qs >>= λ bs. ok (
          record {
            from_field = f.0;
            to_field = t.0;
            value = f.1;
            from_open = q.from_open;
            to_open = q.to_open;
          }
          ∷ bs)

    -- The names for a value, and the value as the last of them has it
    unfoldable pub parse_names : String → Value → List String → Result (Value × List String)
    parse_names value last [] = ok (last, [])
    parse_names value last (name ∷ names) = parse_validate_field name value >>= λ r.
        parse_names value r.1 names >>= λ s. ok (s.0, r.0 ∷ s.1)

    unfoldable pub parse_ors : List QueryOrFields → Result (List OrFields)
    parse_ors [] = ok []
    parse_ors (q ∷ qs) = parse_names q.value nil q.fields >>= λ r.
        parse_ors qs >>= λ os. ok (record { value = r.0; fields = r.1 } ∷ os)

    unfoldable pub parse_sort_field : String → Result String
    parse_sort_field field = if field == "" then ok "" else parse_field_name field

    -- `Parse`
    unfoldable pub parse : Query → Result Filter
    parse q = parse_sort_field q.config.sort_field >>= λ sort_field.
        parse_fields q.fields [] >>= λ fields. parse_fields_in q.fields_in [] >>= λ fields_in.
        parse_fields_in q.fields_not_in [] >>= λ fields_not_in.
        parse_intervals q.intervals [] >>= λ intervals.
        parse_betweens q.between_fields >>= λ between_fields. parse_ors q.or_fields >>= λ or_fields.
        ok (record {
          config = record q.config { sort_field = sort_field };
          fields = fields;
          fields_in = fields_in;
          fields_not_in = fields_not_in;
          intervals = intervals;
          between_fields = between_fields;
          or_fields = or_fields;
          preset_fields = [];
        })
