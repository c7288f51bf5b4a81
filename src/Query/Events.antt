-- ===== src/Query/Events.antt =====
-- `QueryEvents` of lambda/query/main.go: one page of rows and the cursor of the next.
pub mod Paging
use serverless_error_ingest.Query.Cursor.{
  AttributeValue, CursorCodec, CursorError, encode_cursor, decode_cursor,
}
use serverless_error_ingest.Query.Expression.{QueryInput, Search, query_input}
use serverless_error_ingest.Base.{
  List, [], ◌∷◌, if◌then◌else◌, Bytes, is_empty, Result, ok, err, ◌>>=◌, map_err, ℤ,
}

-- `eventMeta`
pub record EventSummary : Type 0 where
  pub project_id : Bytes
  pub event_id : Bytes
  pub timestamp : Bytes
  pub level : Bytes
  pub platform : Bytes
  pub item_type : Bytes
  pub count : ℤ
  pub status : Bytes
  pub s3_path : Bytes

-- What DynamoDB answers: its items, each decoded or with the error of decoding it, and the last key that
-- it looked at, empty at the end.
pub record Page : Type 0 where
  pub items : List (Result Bytes EventSummary)
  pub last_key : List (Bytes × AttributeValue)

abbrev pub RunQuery : Type 0
RunQuery = QueryInput → Result Bytes Page

-- The errors of `QueryEvents`.
pub data QueryError : Type 0 where
  invalid_cursor : CursorError → QueryError
  query_failed : Bytes → QueryError
  undecodable_row : Bytes → QueryError
  unencodable_cursor : CursorError → QueryError

-- The loop over the items.
unfoldable pub rows_of : List (Result Bytes EventSummary) → Result QueryError (List EventSummary)
rows_of [] = ok []
rows_of (err e ∷ items) = err (undecodable_row e)
rows_of (ok row ∷ items) = do rows ← rows_of items; ok (row ∷ rows)

module _ (codec : CursorCodec) (run_query : RunQuery) where
  -- The input with the start key of the cursor, where there is one.
  abbrev pub started : Bytes → QueryInput → Result QueryError QueryInput
  started cursor input = if is_empty cursor then ok input else (do
    key ← map_err invalid_cursor (decode_cursor codec cursor)
    ok (record input { start_key = key }))

  abbrev pub next_cursor : List (Bytes × AttributeValue) → Result QueryError Bytes
  next_cursor [] = ok []
  next_cursor (entry ∷ key) = map_err unencodable_cursor (encode_cursor codec (entry ∷ key))

  -- `QueryEvents`
  unfoldable pub query_events : Search → Bytes → Result QueryError (List EventSummary × Bytes)
  unfolding query_input is_empty
  query_events s cursor = do
    input ← started cursor (query_input s)
    page ← map_err query_failed (run_query input)
    rows ← rows_of page.items
    next ← next_cursor page.last_key
    ok (rows, next)
