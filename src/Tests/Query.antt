-- ===== src/Tests/Query.antt =====
-- The query handler on small requests.
use mathlib.Core.Path.{subst}
use serverless_error_ingest.Http.{lookup}
use serverless_error_ingest.Query.Cursor.{AttributeValue, text, encode_cursor, decode_cursor}
use serverless_error_ingest.Query.Cursor.RoundTrip.{IsMap, IsText, decode_cursor-encode_cursor}
use serverless_error_ingest.Query.Expression.{QueryInput, Search, query_input, is_given, all_types}
use serverless_error_ingest.Query.Expression.Closed.{is_closed, query_input-is_closed}
use serverless_error_ingest.Query.Events.{Page, RunQuery, query_events, rows_of}
use serverless_error_ingest.Query.Events.Paging.{IsPage, query_events-IsPage}
use serverless_error_ingest.Query.Handler.{Reader, handle_query_request, accept, after_accept}
use serverless_error_ingest.Query.Handler.Served.{
  IsServed, handle_query_request-IsServed, handle_query_request-IsAnswer,
}
use serverless_error_ingest.Query.Registry.{GetKeyRow, validate_key}
use serverless_error_ingest.Query.Registry.Listed.{found, validate_key-Mirrors}
use serverless_error_ingest.Ingest.Registry
use serverless_error_ingest.Ingest.Handler.Answers.{IsAnswer}
use serverless_error_ingest.Tests.Codec.{codec, codec-IsCodec}
use serverless_error_ingest.Tests.Samples.{plain_json, project, get_project, request}
use serverless_error_ingest.Base.{
  ◌≡◌, refl, ◌↔◌, true, ◌||◌, some, List, [], ◌∷◌, Bytes, codes, equal, ok,
}

abbrev last_key : List (Bytes × AttributeValue)
last_key = (codes "project_id", text (codes "7")) ∷ (codes "event_id", text (codes "ab")) ∷ []

-- A table whose every page is empty and ends at the same key.
abbrev one_page : RunQuery
one_page input = ok (record { items = []; last_key = last_key })

last_key-IsMap : IsMap last_key
unfolding lookup equal
last_key-IsMap = (refl, (refl, tt))

last_key-IsText : IsText codec last_key
last_key-IsText = (refl, refl, (refl, refl, tt))

one_page-IsMap :
    (input : QueryInput) (page : Page)
    → one_page input ≡ ok page
    → IsMap page.last_key × IsText codec page.last_key
unfolding lookup equal
one_page-IsMap input page e =
    let same : record { items = []; last_key = last_key } ≡ page = cc in
    subst (λ p. IsMap p.last_key × IsText codec p.last_key) same (last_key-IsMap, last_key-IsText)

-- The registry's one project, as this handler decodes it.
abbrev get_row : GetKeyRow
get_row id = ok (some (record { public_key = project.public_key; status = project.status }))

abbrev reader : Reader
reader = record {
  json = plain_json;
  get_row = get_row;
  codec = codec;
  run_query = one_page;
  page_text = λ rows next. next;
}

abbrev search : Search
search = record {
  project_id = codes "7";
  from = codes "2024";
  to = [];
  level = [];
  item_type = codes "all";
  limit = 50;
}

query_input-is_closed_example : (is_closed (query_input search) ≡ true) ↔ (
    ¬ (
      (is_given search.from || is_given search.to) ≡ true
      × search.item_type ≡ all_types
      × search.level ≡ []))
query_input-is_closed_example = query_input-is_closed search

abbrev cursor : Bytes
cursor =
    codec.base64_text
      (codec.pairs_text ((codes "project_id", codes "7") ∷ (codes "event_id", codes "ab") ∷ []))

cursor_text : encode_cursor codec last_key ≡ ok cursor
unfolding encode_cursor
cursor_text = refl

decode_cursor-encode_cursor_example :
    (back : List (Bytes × AttributeValue)) × (decode_cursor codec cursor ≡ ok back)
    × ((k : Bytes) → lookup k back ≡ lookup k last_key)
decode_cursor-encode_cursor_example =
    decode_cursor-encode_cursor codec last_key cursor codec-IsCodec last_key-IsMap last_key-IsText
      cursor_text

first_page : query_events codec one_page search [] ≡ ok ([], cursor)
unfolding query_events encode_cursor rows_of
first_page = refl

query_events-IsPage_example : IsPage codec one_page search [] [] cursor
query_events-IsPage_example =
    query_events-IsPage codec one_page search [] cursor [] codec-IsCodec one_page-IsMap first_page

served : (handle_query_request reader (request [] [])).status ≡ 200
unfolding handle_query_request accept after_accept query_events validate_key encode_cursor rows_of
served = refl

handle_query_request-IsServed_example :
    IsServed reader (request [] []) (handle_query_request reader (request [] []))
handle_query_request-IsServed_example = handle_query_request-IsServed reader (request [] []) served

handle_query_request-IsAnswer_example :
    IsAnswer (handle_query_request reader (request ((codes "limit", codes "0") ∷ []) []))
handle_query_request-IsAnswer_example =
    handle_query_request-IsAnswer reader (request ((codes "limit", codes "0") ∷ []) [])

validate_key-Mirrors_example :
    validate_key get_row (codes "7") (codes "k1")
    ≡ Registry.validate_key get_project (codes "7") (codes "k1")
validate_key-Mirrors_example =
    validate_key-Mirrors get_project get_row (codes "7") (codes "k1") (found project)
