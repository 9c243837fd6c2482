-- ===== src/Filters/Requests.antt =====
-- db.Filter, its setters and its query (pkg/db/filter.go). A nil map is an empty one; offsets and
-- limits are not negative, as the validator has it; JSON is left out.
use go_backend_helpers.Prelude.{
  ℕ, String, Bool, false, Option, none, some, List, [], ◌∷◌, ◌++◌, Dict, insert,
}

-- The types of columns that `convertValue` tells apart, and the rest.
pub data DataType : Type 0 where
  string : DataType
  int : DataType
  bool : DataType
  uint : DataType
  float : DataType
  time : DataType
  unsupported : DataType

-- An `interface{}`: nil, a string, or a value of another type by what `%v` prints for it.
pub data Value : Type 0 where
  nil : Value
  text : String → Value
  typed : DataType → String → Value

pub record FilterConfig : Type 0 where
  pub sort_field : String
  pub sort_direction : String
  pub offset : ℕ
  pub limit : ℕ
  pub count : Bool

pub record Interval : Type 0 where
  pub from : Value
  pub to : Value
  pub from_open : Bool
  pub to_open : Bool

pub record BetweenFields : Type 0 where
  pub from_field : String
  pub to_field : String
  pub value : Value
  pub from_open : Bool
  pub to_open : Bool

pub record OrFields : Type 0 where
  pub value : Value
  pub fields : List String

pub record Filter : Type 0 where
  pub config : FilterConfig
  pub fields : Dict Value
  pub fields_in : Dict (List Value)
  pub fields_not_in : Dict (List Value)
  pub intervals : Dict Interval
  pub between_fields : List BetweenFields
  pub or_fields : List OrFields
  pub preset_fields : List (Dict Value)

-- `NewFilter`
abbrev pub new_filter : Filter
new_filter = record {
  config = record { sort_field = ""; sort_direction = ""; offset = 0; limit = 0; count = false };
  fields = [];
  fields_in = [];
  fields_not_in = [];
  intervals = [];
  between_fields = [];
  or_fields = [];
  preset_fields = [];
}

-- `PushPresetFields`, `PopPresetFields`
unfoldable pub push_preset_fields : Dict Value → Filter → Filter
push_preset_fields fields f = record f { preset_fields = f.preset_fields ++ fields ∷ [] }

unfoldable pub without_last : {A : Type 0} → List A → List A
without_last [] = []
without_last (x ∷ []) = []
without_last (x ∷ y ∷ ys) = x ∷ without_last (y ∷ ys)

unfoldable pub pop_preset_fields : Filter → Filter
pop_preset_fields f = record f { preset_fields = without_last f.preset_fields }

abbrev direction_or_asc : Option String → String
direction_or_asc none = "ASC"
direction_or_asc (some d) = d

-- `SetSorting`
unfoldable pub set_sorting : String → Option String → Filter → Filter
set_sorting field direction f = record f {
  config = record f.config { sort_field = field; sort_direction = direction_or_asc direction };
}

-- `AddField`, `AddFields`
unfoldable pub add_field : String → Value → Filter → Filter
add_field name value f = record f { fields = insert name value f.fields }

unfoldable pub add_fields : Dict Value → Filter → Filter
add_fields [] f = f
add_fields ((name, value) ∷ rest) f = add_fields rest (add_field name value f)

-- `AddFieldIn`, `AddFieldNotIn`
unfoldable pub add_field_in : String → List Value → Filter → Filter
add_field_in name values f = record f { fields_in = insert name values f.fields_in }

unfoldable pub add_field_not_in : String → List Value → Filter → Filter
add_field_not_in name values f = record f { fields_not_in = insert name values f.fields_not_in }

-- `AddInterval`
unfoldable pub add_interval : String → Value → Value → Filter → Filter
add_interval name from to f = record f {
  intervals =
      insert name (record { from = from; to = to; from_open = false; to_open = false }) f.intervals;
}

-- `AddBetweenField`
unfoldable pub add_between_field : String → String → Value → Filter → Filter
add_between_field from_field to_field value f = record f {
  between_fields =
      f.between_fields
      ++ record {
        from_field = from_field;
        to_field = to_field;
        value = value;
        from_open = false;
        to_open = false;
      }
        ∷ [];
}

-- `AddOrFields`
unfoldable pub add_or_fields : Value → List String → Filter → Filter
add_or_fields value names f = record f {
  or_fields = f.or_fields ++ record { value = value; fields = names } ∷ [];
}

-- A bound is a pointer to an optional text: `none` is a nil pointer.
pub record QueryInterval : Type 0 where
  pub from : Option (Option String)
  pub to : Option (Option String)
  pub from_open : Bool
  pub to_open : Bool

pub record QueryBetweenFields : Type 0 where
  pub from_field : String
  pub to_field : String
  pub value : String
  pub from_open : Bool
  pub to_open : Bool

pub record QueryOrFields : Type 0 where
  pub value : String
  pub fields : List String

pub record Query : Type 0 where
  pub config : FilterConfig
  pub fields : Dict String
  pub fields_in : Dict (List String)
  pub fields_not_in : Dict (List String)
  pub intervals : Dict QueryInterval
  pub between_fields : List QueryBetweenFields
  pub or_fields : List QueryOrFields

-- `filterValueToString`
unfoldable pub filter_value_to_string : Value → String
filter_value_to_string nil = "<nil>"
filter_value_to_string (text s) = s
filter_value_to_string (typed t s) = s

unfoldable pub to_strings : List Value → List String
to_strings [] = []
to_strings (v ∷ vs) = filter_value_to_string v ∷ to_strings vs

unfoldable pub map_values : {A B : Type 0} → (A → B) → Dict A → Dict B
map_values f [] = []
map_values f ((key, a) ∷ rest) = (key, f a) ∷ map_values f rest

-- A bound of an interval, if it is not nil
unfoldable pub bound_to_string : Value → Option String
bound_to_string nil = none
bound_to_string (text s) = some s
bound_to_string (typed t s) = some s

abbrev pub interval_query : Interval → QueryInterval
interval_query i = record {
  from = some (bound_to_string i.from);
  to = some (bound_to_string i.to);
  from_open = i.from_open;
  to_open = i.to_open;
}

unfoldable pub between_queries : List BetweenFields → List QueryBetweenFields
between_queries [] = []
between_queries (b ∷ bs) =
    record {
      from_field = b.from_field;
      to_field = b.to_field;
      value = filter_value_to_string b.value;
      from_open = b.from_open;
      to_open = b.to_open;
    }
    ∷ between_queries bs

unfoldable pub or_queries : List OrFields → List QueryOrFields
or_queries [] = []
or_queries (o ∷ os) =
    record { value = filter_value_to_string o.value; fields = o.fields } ∷ or_queries os

-- `ToQuery`
unfoldable pub to_query : Filter → Query
to_query f = record {
  config = f.config;
  fields = map_values filter_value_to_string f.fields;
  fields_in = map_values to_strings f.fields_in;
  fields_not_in = map_values to_strings f.fields_not_in;
  intervals = map_values interval_query f.intervals;
  between_fields = between_queries f.between_fields;
  or_fields = or_queries f.or_fields;
}
