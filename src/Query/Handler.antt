-- ===== src/Query/Handler.antt =====
-- `handleRequest` of lambda/query/main.go.
pub mod Served
use serverless_error_ingest.Http.{Request, Response, value_of}
use serverless_error_ingest.Json.{Json}
use serverless_error_ingest.Ingest.Respond.{allow_origin, any_origin}
use serverless_error_ingest.Query.Registry.{GetKeyRow, validate_key}
use serverless_error_ingest.Query.Key.{sentry_key_of}
use serverless_error_ingest.Query.Limit.{limit_of}
use serverless_error_ingest.Query.Cursor.{CursorCodec}
use serverless_error_ingest.Query.Expression.{Search}
use serverless_error_ingest.Query.Events.{EventSummary, RunQuery, QueryError, query_events}
use serverless_error_ingest.Base.{
  ℕ, Bool, true, false, Option, none, some, List, [], ◌∷◌, if◌then◌else◌, Bytes, codes, is_empty,
  Result, ok, err, ◌>>=◌,
}

-- What the handler asks of its dependencies; `page_text` is the JSON text of a page and its cursor.
pub record Reader : Type 0 where
  pub json : Json
  pub get_row : GetKeyRow
  pub codec : CursorCodec
  pub run_query : RunQuery
  pub page_text : List EventSummary → Bytes → Bytes

module _ (reader : Reader) where
  -- `respond`, which the handler calls without headers.
  unfoldable pub respond : ℕ → Bytes → Response
  respond status message = record {
    status = status;
    headers = (allow_origin, any_origin) ∷ [];
    body = reader.json.detail message;
  }

  abbrev pub given_project : Bytes → Result Response Bytes
  given_project project_id =
      if is_empty project_id then err (respond 400 (codes "missing project_id")) else ok project_id

  abbrev pub given_key : Bytes → Result Response Bytes
  given_key key =
      if is_empty key then err (respond 403 (codes "missing authentication")) else ok key

  -- The answer of the registry on the key.
  abbrev pub passed_key : Result Bytes Bool → Result Response Bool
  passed_key (err e) = err (respond 500 (codes "key validation failed"))
  passed_key (ok false) = err (respond 401 (codes "invalid sentry public key"))
  passed_key (ok true) = ok true

  abbrev pub given_limit : Option ℕ → Result Response ℕ
  given_limit none = err (respond 400 (codes "invalid limit"))
  given_limit (some n) = ok n

  abbrev pub search_of : Request → Bytes → ℕ → Search
  search_of req project_id limit = record {
    project_id = project_id;
    from = value_of (codes "from") req.query;
    to = value_of (codes "to") req.query;
    level = value_of (codes "level") req.query;
    item_type = value_of (codes "type") req.query;
    limit = limit;
  }

  -- The checks before the query.
  unfoldable pub accept : Request → Result Response Search
  unfolding value_of is_empty sentry_key_of limit_of
  accept req = do
    project_id ← given_project (value_of (codes "project_id") req.path_parameters)
    key ← given_key (sentry_key_of req)
    passes ← passed_key (validate_key reader.get_row project_id key)
    limit ← given_limit (limit_of (value_of (codes "limit") req.query))
    ok (search_of req project_id limit)

  abbrev pub page_response : Result QueryError (List EventSummary × Bytes) → Response
  page_response (err e) = respond 500 (codes "query failed")
  page_response (ok (rows, next)) = record {
    status = 200;
    headers = (codes "Content-Type", codes "application/json") ∷ (allow_origin, any_origin) ∷ [];
    body = reader.page_text rows next;
  }

  unfoldable pub after_accept : Request → Result Response Search → Response
  unfolding value_of
  after_accept req (err r) = r
  after_accept req (ok s) =
      page_response
        (query_events reader.codec reader.run_query s (value_of (codes "cursor") req.query))

  -- `handleRequest`
  unfoldable pub handle_query_request : Request → Response
  unfolding accept after_accept
  handle_query_request req = after_accept req (accept req)
