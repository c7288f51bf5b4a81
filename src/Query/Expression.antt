-- ===== src/Query/Expression.antt =====
-- `QueryEvents` of lambda/query/main.go up to the call: the input of the DynamoDB query.
pub mod Closed
use serverless_error_ingest.Query.Cursor.{AttributeValue}
use serverless_error_ingest.Base.{
  ℕ, Bool, true, false, not, ◌||◌, Option, none, some, List, [], ◌∷◌, ◌++◌, if◌then◌else◌, Bytes,
  codes, equal, is_empty,
}

-- The parts of `dynamodb.QueryInput` that are set besides the table's name. No filter is a nil
-- `FilterExpression`, and no names are a nil `ExpressionAttributeNames`.
pub record QueryInput : Type 0 where
  pub key_condition : Bytes
  pub values : List (Bytes × Bytes)
  pub limit : ℕ
  pub index : Option Bytes
  pub filter : Option Bytes
  pub names : List (Bytes × Bytes)
  pub start_key : List (Bytes × AttributeValue)

-- What the caller asks for.
pub record Search : Type 0 where
  pub project_id : Bytes
  pub from : Bytes
  pub to : Bytes
  pub level : Bytes
  pub item_type : Bytes
  pub limit : ℕ

-- The range that is added to the key condition, by whether `from` and `to` are given.
abbrev pub range_condition : Bool → Bool → Bytes
range_condition true true = codes " AND #ts BETWEEN :from AND :to"
range_condition true false = codes " AND #ts >= :from"
range_condition false true = codes " AND #ts <= :to"
range_condition false false = []

abbrev pub added : Bool → Bytes → Bytes → List (Bytes × Bytes) → List (Bytes × Bytes)
added true k v m = (k, v) ∷ m
added false k v m = m

-- `itemType` with its default.
unfoldable pub type_or_event : Bytes → Bytes
unfolding is_empty
type_or_event item_type = if is_empty item_type then codes "event" else item_type

abbrev pub filters_of : Bool → Bool → List Bytes
filters_of has_type has_level =
    let level = if has_level then codes "#lvl = :lvl" ∷ [] else [] in
    if has_type then codes "#it = :it" ∷ level else level

-- `strings.Join(filters, " AND ")`
abbrev pub join_and : List Bytes → Bytes
join_and [] = []
join_and (f ∷ []) = f
join_and (f ∷ g ∷ fs) = f ++ (codes " AND " ++ join_and (g ∷ fs))

abbrev pub names_of : Bool → Bool → Bool → List (Bytes × Bytes)
names_of use_index has_type has_level = added has_level (codes "#lvl") (codes "level") (
    added has_type (codes "#it") (codes "item_type")
      (added use_index (codes "#ts") (codes "timestamp") []))

-- The filter and the names are set together, and only where there are filters.
abbrev pub with_filters : List Bytes → List (Bytes × Bytes) → QueryInput → QueryInput
with_filters [] names input = input
with_filters (f ∷ fs) names input = record input {
  filter = some (join_and (f ∷ fs));
  names = names;
}

-- The input by which of the four texts are given; `has_type` is `itemType != "all"`.
unfoldable pub input_of : Bool → Bool → Bool → Bool → Search → QueryInput
input_of has_from has_to has_type has_level s =
    with_filters (filters_of has_type has_level) (names_of (has_from || has_to) has_type has_level)
      (record {
        key_condition = codes "project_id = :pid" ++ range_condition has_from has_to;
        values = added has_level (codes ":lvl") s.level (
            added has_type (codes ":it") (type_or_event s.item_type) (
              added has_to (codes ":to") s.to
                (added has_from (codes ":from") s.from ((codes ":pid", s.project_id) ∷ []))));
        limit = s.limit;
        index = if has_from || has_to then some (codes "TimestampIndex") else none;
        filter = none;
        names = [];
        start_key = [];
      })

abbrev pub is_given : Bytes → Bool
is_given s = not (is_empty s)

abbrev pub all_types : Bytes
all_types = codes "all"

unfoldable pub query_input : Search → QueryInput
unfolding input_of is_empty equal type_or_event
query_input s =
    input_of (is_given s.from) (is_given s.to) (not (equal (type_or_event s.item_type) all_types))
      (is_given s.level) s
