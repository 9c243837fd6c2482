-- ===== src/Filters/Sql.antt =====
-- How a filter becomes a statement, pkg/db/db_gorm/gorm_orm.go: the calls that are made of gorm, with
-- the texts that are built for them.
use Prim.Native.Char.{code}
use Prim.Native.String.{String, ◌++◌ as ◌<>◌}
use go_backend_helpers.Prelude.{
  ℕ, Bool, true, false, not, ◌&&◌, ◌||◌, Option, none, some, List, [], ◌∷◌, ◌++◌, ◌==◌, eqb, ltb,
  if◌then◌else◌, Dict,
}
use go_backend_helpers.Filters.Requests.{
  DataType, string, int, bool, uint, float, time, unsupported, Value, nil, text, typed, Interval,
  BetweenFields, OrFields, Filter,
}

-- A call of gorm on the statement.
pub data Call : Type 0 where
  where_fields : Dict Value → Call
  where_text : String → List Value → Call
  where_list : String → List Value → Call
  or_text : String → List Value → Call
  order : String → Call
  offset : ℕ → Call
  limit : ℕ → Call

-- `compareOp`
unfoldable pub compare_op : Bool → String → String
compare_op true comparator = comparator
compare_op false comparator = comparator <> "="

unfoldable type_number : DataType → ℕ
type_number string = 0
type_number int = 1
type_number bool = 2
type_number uint = 3
type_number float = 4
type_number time = 5
type_number unsupported = 6

-- `==` of two values
unfoldable pub same_value : Value → Value → Bool
unfolding type_number
same_value nil nil = true
same_value (text s) (text t) = s == t
same_value (typed a s) (typed b t) = eqb (type_number a) (type_number b) && s == t
same_value _ _ = false

abbrev pub quoted : String → String
quoted name = "\"" <> (name <> "\"")

-- `prepareInterval`; the format of the third call takes its arguments in the order in which they are
-- given, so that the operator stands where the second name is meant to.
unfoldable pub interval_texts : String → Interval → Value → Value → List Call
interval_texts name i nil nil = []
interval_texts name i from nil =
    where_text (quoted name <> (" " <> (compare_op i.from_open ">" <> " ? "))) (from ∷ []) ∷ []
interval_texts name i nil to =
    where_text (quoted name <> (" " <> (compare_op i.to_open "<" <> " ? "))) (to ∷ []) ∷ []
interval_texts name i from to =
    if same_value from to
    then where_text (quoted name <> " = ?") (from ∷ []) ∷ []
    else where_text
        (quoted name
          <> (" "
              <> (compare_op i.from_open ">"
                  <> (" ? AND "
                      <> (quoted (compare_op i.to_open "<") <> (" " <> (name <> " ? ")))))))
        (from ∷ to ∷ [])
      ∷ []

unfoldable pub prepare_interval : String → Interval → List Call
prepare_interval name i = interval_texts name i i.from i.to

-- The loops of `prepareFilter`
unfoldable pub preset_calls : List (Dict Value) → List Call
preset_calls [] = []
preset_calls (fields ∷ rest) = where_fields fields ∷ preset_calls rest

unfoldable pub in_calls : Dict (List Value) → List Call
in_calls [] = []
in_calls ((field, values) ∷ rest) = where_list (quoted field <> " IN ? ") values ∷ in_calls rest

unfoldable pub not_in_calls : Dict (List Value) → List Call
not_in_calls [] = []
not_in_calls ((field, values) ∷ rest) =
    where_list (quoted field <> " NOT IN ? ") values ∷ not_in_calls rest

unfoldable pub interval_calls : Dict Interval → List Call
interval_calls [] = []
interval_calls ((name, i) ∷ rest) = prepare_interval name i ++ interval_calls rest

abbrev pub between_text : BetweenFields → String
between_text b =
    "? "
    <> (compare_op b.from_open ">"
        <> (" "
            <> (quoted b.from_field
                <> (" AND ? " <> (compare_op b.to_open ">" <> (" " <> quoted b.to_field))))))

unfoldable pub between_calls : List BetweenFields → List Call
between_calls [] = []
between_calls (b ∷ bs) = where_text (between_text b) (b.value ∷ b.value ∷ []) ∷ between_calls bs

abbrev pub equals : String → String
equals name = quoted name <> " = ?"

unfoldable pub or_more : Value → List String → List Call
or_more value [] = []
or_more value (name ∷ names) = or_text (equals name) (value ∷ []) ∷ or_more value names

unfoldable pub or_names : Value → List String → List Call
or_names value [] = []
or_names value (name ∷ names) = where_text (equals name) (value ∷ []) ∷ or_more value names

unfoldable pub or_calls : List OrFields → List Call
or_calls [] = []
or_calls (o ∷ os) = or_names o.value o.fields ++ or_calls os

-- `prepareFilter`
unfoldable pub prepare_filter : Filter → List Call
prepare_filter f =
    where_fields f.fields
    ∷ (preset_calls f.preset_fields
        ++ (in_calls f.fields_in
            ++ (not_in_calls f.fields_not_in
                ++ (interval_calls f.intervals
                    ++ (between_calls f.between_fields ++ or_calls f.or_fields)))))

-- `Paginate`; a maximum of 0 is none.
unfoldable pub offset_calls : ℕ → List Call
offset_calls n = if ltb 0 n then offset n ∷ [] else []

unfoldable pub limit_calls : ℕ → ℕ → List Call
limit_calls max n = if ltb 0 n then limit (if ltb max n && ltb 0 max then max else n) ∷ [] else []

unfoldable pub paginate : ℕ → Filter → Bool → List Call
paginate max f false = []
paginate max f true = offset_calls f.config.offset ++ limit_calls max f.config.limit

-- `strings.Split(s, ".")`
prepend : String → List String → List String
prepend c [] = c ∷ []
prepend c (part ∷ parts) = (c <> part) ∷ parts

unfoldable pub split_dots : String → List String
unfolding prepend
split_dots String.[] = "" ∷ []
split_dots (String.◌∷◌ c s) =
    let rest = split_dots s in
    if eqb (code c) b'.' then "" ∷ rest else prepend (String.◌∷◌ c String.[]) rest

-- The column of an order: with its table, if the name has two parts
unfoldable pub sort_name : String → List String → String
sort_name field (table ∷ name ∷ []) = quoted table <> ("." <> quoted name)
sort_name field parts = quoted field

unfoldable pub sort_calls : String → String → List Call
sort_calls field direction =
    if not (field == "") && (direction == "ASC" || direction == "DESC")
    then order (sort_name field (split_dots field) <> (" " <> direction)) ∷ []
    else []

abbrev pub page_calls : Option ℕ → Filter → Bool → List Call
page_calls none f paged = []
page_calls (some max) f paged = paginate max f paged

-- `SetFilter`, with the maximum of the paginator if there is one
unfoldable pub set_filter : Option ℕ → Filter → Bool → List Call
set_filter max f paged =
    prepare_filter f
    ++ (sort_calls f.config.sort_field f.config.sort_direction ++ page_calls max f paged)
