-- ===== src/Query/Events/Paging.antt =====
-- Where the cursor of a page leads.
use serverless_error_ingest.Http.{lookup}
use serverless_error_ingest.Query.Cursor.{AttributeValue, CursorCodec, encode_cursor, decode_cursor}
use serverless_error_ingest.Query.Cursor.RoundTrip.{
  IsCodec, IsMap, IsText, decode_cursor-encode_cursor, encode_cursor-ne-nil,
}
use serverless_error_ingest.Query.Expression.{QueryInput, Search, query_input}
use serverless_error_ingest.Query.Events.{
  EventSummary, Page, RunQuery, query_failed, unencodable_cursor, rows_of, started, next_cursor,
  query_events,
}
use serverless_error_ingest.Base.{
  ◌≡◌, refl, sym, ap, ◌∙◌, ◌≢◌, ◌⊎◌, inl, inr, List, [], ◌∷◌, Bytes, is_empty, Result, ok, err,
  map_err, bind-ok,
}

map_err-ok {ℓ κ μ} :
    {E : Type ℓ} {F : Type κ} {A : Type μ} (f : E → F) (x : Result E A) (a : A)
    → map_err f x ≡ ok a
    → x ≡ ok a
map_err-ok f (ok b) a e = let same : b ≡ a = cc in ap ok same
map_err-ok f (err r) a e = cc

module _ (codec : CursorCodec) (run_query : RunQuery) (s : Search) where
  -- The query that a cursor leads to: that of the search itself, from a start key with the entries of
  -- the given one.
  pub record IsResumed (cursor : Bytes) (key : List (Bytes × AttributeValue)) : Type 0 where
    pub start : List (Bytes × AttributeValue)
    pub same_entries : (k : Bytes) → lookup k start ≡ lookup k key
    pub resumed :
        started codec run_query cursor (query_input s)
        ≡ ok (record (query_input s) { start_key = start })

  -- A page that was returned: the query that gave it, and where its cursor leads.
  pub record IsPage (cursor : Bytes) (rows : List EventSummary) (next : Bytes) : Type 0 where
    pub input : QueryInput
    pub page : Page
    pub asked : started codec run_query cursor (query_input s) ≡ ok input
    pub answered : run_query input ≡ ok page
    pub read : rows_of page.items ≡ ok rows
    pub continued : ((page.last_key ≡ []) × (next ≡ [])) ⊎ IsResumed next page.last_key

  started-IsResumed :
      (next : Bytes) (key back : List (Bytes × AttributeValue))
      → next ≢ []
      → decode_cursor codec next ≡ ok back
      → ((k : Bytes) → lookup k back ≡ lookup k key)
      → IsResumed next key
  unfolding is_empty
  started-IsResumed [] key back ne d same = absurd (ne refl)
  started-IsResumed (c ∷ cs) key back ne d same = record {
    start = back;
    same_entries = same;
    resumed = rw d refl;
  }

  next_cursor-continued :
      (key : List (Bytes × AttributeValue)) (next : Bytes)
      → IsCodec codec
      → IsMap key
      → IsText codec key
      → next_cursor codec run_query key ≡ ok next
      → ((key ≡ []) × (next ≡ [])) ⊎ IsResumed next key
  next_cursor-continued [] next c v t e = let same : [] ≡ next = cc in inl (refl, sym same)
  next_cursor-continued (entry ∷ key) next c v t e =
      let made = map_err-ok unencodable_cursor (encode_cursor codec (entry ∷ key)) next e in
      let (back, read, same) = decode_cursor-encode_cursor codec (entry ∷ key) next c v t made in
      inr (
        started-IsResumed next (entry ∷ key) back
          (encode_cursor-ne-nil codec (entry ∷ key) next c made) read same)

-- Where the table answers with keys of UTF-8 texts, a page is returned with the empty cursor exactly at
-- the end, and otherwise with one that makes the next call run the same query from the last key of this
-- page.
pub query_events-IsPage :
    (codec : CursorCodec) (run_query : RunQuery) (s : Search) (cursor next : Bytes)
    (rows : List EventSummary)
    → IsCodec codec
    → ((input : QueryInput) (page : Page)
        → run_query input ≡ ok page
        → IsMap page.last_key × IsText codec page.last_key)
    → query_events codec run_query s cursor ≡ ok (rows, next)
    → IsPage codec run_query s cursor rows next
unfolding query_events
query_events-IsPage codec run_query s cursor next rows c maps e =
    let (input, asked, e1) =
      bind-ok (started codec run_query cursor (query_input s)) _ (rows, next) e in
    let (page, answer, e2) = bind-ok (map_err query_failed (run_query input)) _ (rows, next) e1 in
    let (rs, read, e3) = bind-ok (rows_of page.items) _ (rows, next) e2 in
    let (nx, more, e4) =
      bind-ok (next_cursor codec run_query page.last_key) (λ nx. ok (rs, nx)) (rows, next) e3 in
    let answered = map_err-ok query_failed (run_query input) page answer in
    let same_rows : rs ≡ rows = cc in
    let same_next : nx ≡ next = cc in
    record {
      input = input;
      page = page;
      asked = asked;
      answered = answered;
      read = read ∙ ap ok same_rows;
      continued =
          next_cursor-continued codec run_query s page.last_key next c (maps input page answered).0
            (maps input page answered).1 (more ∙ ap ok same_next);
    }
