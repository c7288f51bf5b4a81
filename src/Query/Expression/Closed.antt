-- ===== src/Query/Expression/Closed.antt =====
-- Which placeholders the expressions of a query mention, and whether they are defined.
use serverless_error_ingest.Http.{lookup}
use serverless_error_ingest.Text.{split_byte}
use serverless_error_ingest.Query.Expression.{
  QueryInput, Search, input_of, query_input, is_given, type_or_event, all_types,
}
use serverless_error_ingest.Base.{
  ℕ, ◌≡◌, refl, ◌↔◌, Bool, true, false, not, ◌&&◌, ◌||◌, Option, none, some, List, [], ◌∷◌, arith,
  ◌==◌, if◌then◌else◌, Bytes, equal, equal_iff, is_empty, is_some,
}

-- The words of an expression that start with the byte.
abbrev begins : ℕ → Bytes → Bool
begins c [] = false
begins c (x ∷ s) = x == c

abbrev keep_begins : ℕ → List Bytes → List Bytes
keep_begins c [] = []
keep_begins c (w ∷ ws) = let later = keep_begins c ws in if begins c w then w ∷ later else later

abbrev pub placeholders : ℕ → Bytes → List Bytes
placeholders c s = keep_begins c (split_byte b' ' s)

abbrev pub all_defined : List (Bytes × Bytes) → List Bytes → Bool
all_defined m [] = true
all_defined m (w ∷ ws) = is_some (lookup w m) && all_defined m ws

abbrev pub filter_text : Option Bytes → Bytes
filter_text none = []
filter_text (some f) = f

-- Every `#name` and every `:value` of the key condition and of the filter is defined.
unfoldable pub is_closed : QueryInput → Bool
unfolding split_byte lookup
is_closed input =
    all_defined input.names (placeholders b'#' input.key_condition)
    && all_defined input.names (placeholders b'#' (filter_text input.filter))
    && all_defined input.values (placeholders b':' input.key_condition)
    && all_defined input.values (placeholders b':' (filter_text input.filter))

-- A query by time over all types and levels.
abbrev pub only_times : Bool → Bool → Bool → Bool → Bool
only_times has_from has_to has_type has_level =
    (has_from || has_to) && not has_type && not has_level

input_of-is_closed :
    (has_from has_to has_type has_level : Bool) (s : Search)
    → is_closed (input_of has_from has_to has_type has_level s)
      ≡ not (only_times has_from has_to has_type has_level)
unfolding is_closed input_of equal
input_of-is_closed true true true true s = refl
input_of-is_closed true true true false s = refl
input_of-is_closed true true false true s = refl
input_of-is_closed true true false false s = refl
input_of-is_closed true false true true s = refl
input_of-is_closed true false true false s = refl
input_of-is_closed true false false true s = refl
input_of-is_closed true false false false s = refl
input_of-is_closed false true true true s = refl
input_of-is_closed false true true false s = refl
input_of-is_closed false true false true s = refl
input_of-is_closed false true false false s = refl
input_of-is_closed false false true true s = refl
input_of-is_closed false false true false s = refl
input_of-is_closed false false false true s = refl
input_of-is_closed false false false false s = refl

type_or_event-all : (t : Bytes) → (equal (type_or_event t) all_types ≡ true) ↔ (t ≡ all_types)
unfolding type_or_event equal
type_or_event-all [] = ground arith
type_or_event-all (c ∷ s) = equal_iff (c ∷ s) all_types

given_nil : (s : Bytes) → (is_given s ≡ false) ↔ (s ≡ [])
unfolding is_empty
given_nil [] = ground arith
given_nil (c ∷ s) = ground arith

-- The expressions mention only what is defined, except where a time is given with the type "all" and no
-- level: there the alias `#ts` of the key condition is not passed on.
pub query_input-is_closed :
    (s : Search)
    → (is_closed (query_input s) ≡ true)
      ↔ (¬ ((is_given s.from || is_given s.to) ≡ true × s.item_type ≡ all_types × s.level ≡ []))
unfolding query_input
query_input-is_closed s = ground (
  arith,
  input_of-is_closed (is_given s.from) (is_given s.to)
      (not (equal (type_or_event s.item_type) all_types)) (is_given s.level) s,
  type_or_event-all s.item_type,
  given_nil s.level,
)
