-- ===== src/Processor/Batch.antt =====
-- `handleRun` of lambda/processor/main.go together with the scan that it starts with.
use serverless_error_ingest.Processor.Issue.{SentryEvent}
use serverless_error_ingest.Processor.Run.{
  IssueRow, find_row, Worker, has_issue, grouped_row, event_of, group_rows, handle_run,
}
use serverless_error_ingest.Processor.Run.Grouped.{is_at, IsGrouped, handle_run-IsGrouped}
use serverless_error_ingest.Processor.Scan.{StartKey, RunScan, page_rows, scan}
use serverless_error_ingest.Processor.Scan.Paged.{
  IsPaged, Scanned, stopped, complete, decoded, page_rows-ok, scan-Scanned,
}
use serverless_error_ingest.Base.{
  ℕ, ◌<◌, ◌≡◌, refl, sym, ap, ◌∙◌, false, Option, none, some, List, [], ◌∷◌, ◌++◌, Bytes, Result,
  ok, err, All,
}

abbrev pub Ran : Type 0
Ran = Result Bytes ℕ × List IssueRow

abbrev pub group_scanned :
    Worker → List IssueRow → Option (Result Bytes (List IssueRow)) → Option Ran
group_scanned worker table none = none
group_scanned worker table (some scanned) = some (handle_run worker scanned table)

-- A whole run; none stands for too few rounds of the scan.
unfoldable pub run_batch : Worker → RunScan → ℕ → List IssueRow → Option Ran
unfolding scan handle_run
run_batch worker run_scan rounds table = group_scanned worker table (scan run_scan rounds)

-- A run fails and leaves the table, or the row of the key is grouped.
pub data Grouping (worker : Worker) (ev : SentryEvent) (p e : Bytes) (table : List IssueRow)
    (ran : Option Ran) : Type 0 where
  failed : (x : Bytes) → ran ≡ some (err x, table) → Grouping worker ev p e table ran
  grouped :
      (n : ℕ) (later : List IssueRow)
      → ran ≡ some (ok n, later)
      → IsGrouped worker ev (find_row p e later)
      → Grouping worker ev p e table ran

handled :
    (worker : Worker) (table rows : List IssueRow)
    → (n : ℕ) × (handle_run worker (ok rows) table ≡ (ok n, (handle_run worker (ok rows) table).1))
unfolding handle_run
handled worker table rows = ((group_rows worker rows table).0, refl)

decoded_same : (xs ys : List IssueRow) → decoded xs ≡ decoded ys → xs ≡ ys
decoded_same [] [] h = refl
decoded_same [] (y ∷ ys) h = cc
decoded_same (x ∷ xs) [] h = cc
decoded_same (x ∷ xs) (y ∷ ys) h =
    let rest : decoded xs ≡ decoded ys = cc in
    let first : x ≡ y = cc in
    ap (λ rows. x ∷ rows) (decoded_same xs ys rest) ∙ ap (λ row. row ∷ ys) first

module _ (worker : Worker) (row : IssueRow) (ev : SentryEvent) (before after table : List IssueRow)
    (away : All (λ r. is_at r row.project_id row.event_id ≡ false) before)
    (read : event_of worker row ≡ ok ev)
    (free : has_issue (find_row row.project_id row.event_id table) ≡ false)
    (works : worker.update_fails (grouped_row worker row ev) ≡ false) where
  Scanned-Grouping :
      (run_scan : RunScan) (items : List (Result Bytes IssueRow))
      (scanned : Option (Result Bytes (List IssueRow)))
      → page_rows items ≡ ok (before ++ (row ∷ after))
      → Scanned run_scan items [] scanned
      → Grouping worker ev row.project_id row.event_id table (group_scanned worker table scanned)
  unfolding handle_run
  Scanned-Grouping run_scan items scanned rows (stopped x cause e) =
      failed x (ap (group_scanned worker table) e)
  Scanned-Grouping run_scan items scanned rows (complete found whole e) =
      let rows_of = before ++ (row ∷ after) in
      let same : found ≡ rows_of =
        decoded_same found rows_of (sym whole ∙ page_rows-ok items rows_of rows) in
      let (n, run) = handled worker table rows_of in
      grouped n (handle_run worker (ok rows_of) table).1
        (ap (group_scanned worker table) e
          ∙ ap (λ found. group_scanned worker table (some (ok found))) same
          ∙ ap (λ (ran : Ran). some ran) run)
        (handle_run-IsGrouped worker row ev before after table away read free works)

  -- A run over a table that is paged as documented, with more rounds than there are items: it fails and
  -- leaves the table as it was, or a matching row that has no issue yet, whose payload is fetched and
  -- parsed and whose update does not fail, is grouped under the issue id of its event, whatever page it
  -- is on, whatever rows of other keys come before it and whatever rows come after it.
  pub run_batch-Grouping :
      (run_scan : RunScan) (rest : StartKey → List (Result Bytes IssueRow)) (left : StartKey → ℕ)
      (rounds : ℕ)
      → IsPaged run_scan rest left
      → left [] < rounds
      → page_rows (rest []) ≡ ok (before ++ (row ∷ after))
      → Grouping worker ev row.project_id row.event_id table
          (run_batch worker run_scan rounds table)
  unfolding run_batch
  run_batch-Grouping run_scan rest left rounds paged enough rows =
      Scanned-Grouping run_scan (rest []) (scan run_scan rounds) rows
        (scan-Scanned run_scan rest left paged rounds enough)
